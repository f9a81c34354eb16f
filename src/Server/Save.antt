-- ===== src/Server/Save.antt =====
-- src/relay/server_fsm.rs: what a saving match tells its bundle of the slot table and the hashes.
use mathlib.Core.Option
use veredus.Base.{
  ℕ, ◌+◌, ◌%◌, Bool, true, false, ◌&&◌, ◌||◌, not, Option, none, some, [], ◌∷◌, map, select, find,
  ltb, ◌==◌, if◌then◌else◌, sort_by, dedup, same_list,
}
use veredus.Server.{
  Context, save_hash, saves_slots, SavedPlayer, SavedIdentity, SlotsSnapshot, player_of_slot,
}
use veredus.Server.Cast.{push, is_ai_host_uuid}
use veredus.Session.{Session}
use veredus.Slots.{PlayerSlot, name_of, unassigned}
use veredus.Slots.Message.{text_lt}
use veredus.Text.{Guid, Text, same_text}
use veredus.Turn.{take_settled}

unfoldable pub or_else {ℓ} : {A : Type ℓ} → Option A → Option A → Option A
or_else none other = other
or_else (some a) other = some a

unfoldable pub has_uuid : Guid → Session → Bool
has_uuid uuid s = elim s.uuid [ none ↦ false | some u ↦ same_text u uuid ]

unfoldable pub lobby_name_of : Guid → SlotsSnapshot → Context → Text
unfolding or_else has_uuid
lobby_name_of uuid previous c =
    elim (or_else
      (elim (find (λ e. has_uuid uuid e.1) c.sessions) [ none ↦ none | some e ↦ e.1.lobby_name ])
      (Option.map (λ p. p.lobby_name) (find (λ p. same_text p.uuid uuid) previous.players))) [
        | none ↦ []
        | some name ↦ name
      ]

-- `<` on `i32`, which is given by its bit pattern.
unfoldable pub lt_i32 : ℕ → ℕ → Bool
lt_i32 a b = ltb ((a + 2147483648) % 4294967296) ((b + 2147483648) % 4294967296)

unfoldable pub player_lt : SavedPlayer → SavedPlayer → Bool
unfolding lt_i32
player_lt a b =
    lt_i32 a.player_id b.player_id || (a.player_id == b.player_id && text_lt a.uuid b.uuid)

unfoldable pub saved_player : SlotsSnapshot → Context → PlayerSlot → SavedPlayer
unfolding player_of_slot lobby_name_of
saved_player previous c e = record {
  player_id = player_of_slot e.slot;
  uuid = e.uuid;
  name = e.name;
  lobby_name = lobby_name_of e.uuid previous c;
}

unfoldable pub saved_controller : SlotsSnapshot → Context → Option SavedIdentity
unfolding or_else lobby_name_of
saved_controller previous c =
    or_else
      (elim c.controller [
        | none ↦ none
        | some uuid ↦ elim (name_of uuid c.slots) [
          | none ↦ none
          | some name ↦ some (record { name = name; lobby_name = lobby_name_of uuid previous c })
        ]
      ])
      previous.controller

unfoldable pub slots_snapshot : SlotsSnapshot → Context → SlotsSnapshot
unfolding saved_player saved_controller
slots_snapshot previous c = record {
  players =
      sort_by player_lt
        (map (saved_player previous c) (select (λ e. not (e.slot == unassigned)) c.slots));
  observers = dedup same_text (
      sort_by text_lt (
        map (λ e. e.name)
          (select (λ e. e.slot == unassigned && not (is_ai_host_uuid e.uuid c)) c.slots)));
  controller = saved_controller previous c;
  banned_names = sort_by text_lt c.banned_names;
  resigned = sort_by lt_i32 c.resigned;
  forfeited = sort_by text_lt c.forfeited;
}

unfoldable pub same_player : SavedPlayer → SavedPlayer → Bool
same_player a b =
    a.player_id == b.player_id
    && same_text a.uuid b.uuid
    && same_text a.name b.name
    && same_text a.lobby_name b.lobby_name

unfoldable pub same_identity : Option SavedIdentity → Option SavedIdentity → Bool
same_identity none none = true
same_identity none (some b) = false
same_identity (some a) none = false
same_identity (some a) (some b) = same_text a.name b.name && same_text a.lobby_name b.lobby_name

-- `==` on `SlotsSnapshot`, which the compiler derives.
unfoldable pub same_snapshot : SlotsSnapshot → SlotsSnapshot → Bool
unfolding same_player same_identity
same_snapshot a b =
    same_list same_player a.players b.players
    && same_list same_text a.observers b.observers
    && same_identity a.controller b.controller
    && same_list same_text a.banned_names b.banned_names
    && same_list ◌==◌ a.resigned b.resigned
    && same_list same_text a.forfeited b.forfeited

unfoldable pub save_slots : Context → Context
unfolding push
save_slots c = elim c.saved_slots [
  | none ↦ c
  | some previous ↦
      let snapshot = slots_snapshot previous c in
      if same_snapshot snapshot previous
      then c
      else push (saves_slots snapshot ∷ []) (record c { saved_slots = some snapshot })
]

unfoldable pub save_settled_hashes : Context → Context
unfolding push
save_settled_hashes c =
    let (turns, settled) = take_settled c.turns in
    push (if c.config.saving then map (λ e. save_hash e.0 e.1) settled else [])
      (record c { turns = turns })
