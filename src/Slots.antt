-- ===== src/Slots.antt =====
-- src/relay/slots.rs: who holds which player slot. A slot number is the bit pattern of its `i8`,
-- so that -1 is 255.
pub mod Exclusive
pub mod Recover
pub mod Unique
pub mod History
pub mod Message
mod Examples
use veredus.Base.{
  ℕ, zero, suc, Bool, true, false, ◌&&◌, ◌||◌, not, Option, none, some, List, [], ◌∷◌, ◌++◌, map,
  length, any, select, find, position, remove_at, update_first, ◌==◌, if◌then◌else◌, ltb, is_same,
  list_discrete,
}
use mathlib.Core.Option
use veredus.Text.{Text, Guid, same_text}

abbrev pub unassigned : ℕ
unassigned = 255

abbrev pub status_not_ready : ℕ
status_not_ready = 0

abbrev pub status_stay_ready : ℕ
status_stay_ready = 2

pub record PlayerSlot : Type 0 where
  pub uuid : Guid
  pub name : Text
  pub slot : ℕ
  pub status : ℕ
  pub connected : Bool

abbrev pub Slots : Type 0
Slots = List PlayerSlot

unfoldable pub restore : List (Guid × Text × ℕ) → Slots
restore [] = []
restore ((uuid, name, slot) ∷ es) =
    record { uuid = uuid; name = name; slot = slot; status = status_not_ready; connected = false }
    ∷ restore es

-- A slot that an arriving client may take over.
unfoldable pub is_free : Slots → Bool → ℕ → Bool
is_free entries shared slot =
    shared || slot == unassigned || not (any (λ e. e.connected && e.slot == slot) entries)

unfoldable pub left_uuid : Slots → Guid → Bool → PlayerSlot → Bool
left_uuid entries uuid shared e =
    not e.connected && same_text e.uuid uuid && is_free entries shared e.slot

unfoldable pub left_name : Slots → Text → Bool → PlayerSlot → Bool
left_name entries name shared e =
    not e.connected && same_text e.name name && is_free entries shared e.slot

unfoldable pub recoverable : Guid → Text → Bool → Slots → Option ℕ
recoverable uuid name shared entries = elim (position (left_uuid entries uuid shared) entries) [
  | some i ↦ some i
  | none ↦ position (left_name entries name shared) entries
]

unfoldable pub arrival : Guid → Text → ℕ → PlayerSlot
arrival uuid name slot = record {
  uuid = uuid;
  name = name;
  slot = slot;
  status = status_not_ready;
  connected = true;
}

-- The new table and the UUID of the entry displaced. `none` is the panic of `Vec::remove`.
unfoldable pub add : Guid → Text → Bool → Bool → Slots → Option (Slots × Option Guid)
add uuid name recover shared entries =
    elim (if recover then recoverable uuid name shared entries else none) [
      | none ↦ some (entries ++ (arrival uuid name unassigned ∷ []), none)
      | some index ↦ elim (remove_at index entries) [
        | none ↦ none
        | some (previous, rest) ↦
            some (rest ++ (arrival uuid name previous.slot ∷ []), some previous.uuid)
      ]
    ]

unfoldable pub mark_disconnected : Guid → Slots → Slots
mark_disconnected uuid =
    update_first (λ e. same_text e.uuid uuid) (λ e. record e { connected = false })

unfoldable pub purge_disconnected : Slots → Slots
purge_disconnected = select (λ e. e.connected)

-- The first loop of `assign`: every other entry lets go of the slot.
unfoldable pub vacate : ℕ → Guid → Slots → Slots
vacate slot uuid [] = []
vacate slot uuid (e ∷ es) =
    (if e.slot == slot && not (same_text e.uuid uuid) then record e { slot = unassigned } else e)
    ∷ vacate slot uuid es

unfoldable pub share : ℕ → Guid → Slots → Slots
share slot uuid = update_first (λ e. same_text e.uuid uuid) (λ e. record e { slot = slot })

unfoldable pub assign : ℕ → Guid → Slots → Slots
assign slot uuid entries =
    share slot uuid (if slot == unassigned then entries else vacate slot uuid entries)

-- The slots that connected clients hold.
unfoldable pub held : Slots → List ℕ
held entries = map (λ e. e.slot) (select (λ e. e.connected && not (e.slot == unassigned)) entries)

unfoldable pub repeats : List ℕ → Bool
repeats [] = false
repeats (s ∷ ss) = any (λ t. t == s) ss || repeats ss

unfoldable pub has_shared : Slots → Bool
has_shared entries = repeats (held entries)

unfoldable pub reset_pregame : Slots → Slots
reset_pregame [] = []
reset_pregame (e ∷ es) =
    (if e.status == status_stay_ready then e else record e { status = status_not_ready })
    ∷ reset_pregame es

unfoldable pub set_status : Guid → ℕ → Slots → Slots
set_status uuid status =
    update_first (λ e. same_text e.uuid uuid) (λ e. record e { status = status })

unfoldable pub name_of : Guid → Slots → Option Text
name_of uuid entries = Option.map (λ e. e.name) (find (λ e. same_text e.uuid uuid) entries)

unfoldable pub slot_of : Guid → Slots → Option ℕ
slot_of uuid entries = Option.map (λ e. e.slot) (find (λ e. same_text e.uuid uuid) entries)

unfoldable pub all_ready : Slots → Bool
all_ready entries = not (any (λ e. e.connected && e.status == status_not_ready) entries)

unfoldable pub connected_players : Slots → ℕ
connected_players entries = length (select (λ e. e.connected && not (e.slot == unassigned)) entries)

unfoldable pub disconnected_players : Slots → ℕ
disconnected_players entries =
    length (select (λ e. not e.connected && not (e.slot == unassigned)) entries)

unfoldable pub has_disconnected_named : Text → Slots → Bool
has_disconnected_named name =
    any (λ e. not e.connected && not (e.slot == unassigned) && same_text e.name name)

unfoldable pub connected_player_names : Slots → List Text
connected_player_names entries =
    map (λ e. e.name) (select (λ e. e.connected && not (e.slot == unassigned)) entries)
