-- ===== src/Server/Outside.antt =====
-- src/relay/server_fsm.rs: a peer that takes no part in the match cannot change it by the
-- messages of one.
use native.Mathlib.Decide.{ℕ_discrete}
use veredus.Base.{
  ℕ, ◌≡◌, refl, ap, ◌∙◌, false, none, some, List, Bool-cases, Option-cases, inl, inr, ltb,
}
use veredus.Base.Maps.{get}
use veredus.Base.Result.{err}
use veredus.Base.Words.{saturating_add_u32}
use veredus.Fault.{PeerFault, no_session, wrong_phase}
use veredus.Server.{Context, FrozenSettings, Phase, command_delay}
use veredus.Server.Cast.{speaker}
use veredus.Server.Frame.{match_of, match-on_fault}
use veredus.Server.Play.{
  handle_turn_sealed, handle_state_hash, handle_flare, handle_player_command, handle_joined,
  handle_player_pause,
}
use veredus.Server.Rejoin.{
  MatchMessage, of_joined, of_player_command, of_player_pause, of_flare, of_turn_sealed,
  of_state_hash, of_loaded_game, handle, handle_loaded_game, on_message,
}
use veredus.Session.{Session, is_in_game, is_syncing}
use veredus.Turn.{PeerId, on_turn_sealed}
use veredus.Turn.Hashes.{on_state_hash}

-- A peer that is neither in the game nor loading it, as before its admission, and that the turn
-- manager does not know.
pub record IsOutside (peer : PeerId) (c : Context) : Type 0 where
  pub not_playing :
      (s : Session)
      → get ℕ_discrete peer c.sessions ≡ some s
      → (is_in_game s ≡ false) × (is_syncing s ≡ false)
  pub unknown : get ℕ_discrete peer c.turns.clients ≡ none

speaker-outside :
    (peer : PeerId) (c : Context)
    → IsOutside peer c
    → (fault : PeerFault) × (speaker peer is_in_game c ≡ err fault)
unfolding speaker
speaker-outside peer c v = elim (Option-cases (get ℕ_discrete peer c.sessions)) [
  | inl e ↦ (no_session, rw (e, speaker) refl)
  | inr (s, e) ↦ (wrong_phase, rw (e, speaker, (v.not_playing s e).0) refl)
]

on_turn_sealed-outside :
    (peer turn : ℕ) (c : Context)
    → IsOutside peer c
    → on_turn_sealed peer turn c.turns ≡ err no_session
unfolding on_turn_sealed
on_turn_sealed-outside peer turn c v = rw (v.unknown, on_turn_sealed) refl

on_state_hash-outside :
    (peer turn : ℕ) (hash : List ℕ) (c : Context)
    → IsOutside peer c
    → on_state_hash peer turn hash c.turns ≡ err no_session
unfolding on_state_hash
on_state_hash-outside peer turn hash c v = rw (v.unknown, on_state_hash) refl

handle-outside :
    (phase : Phase) (settings : FrozenSettings) (peer : PeerId) (msg : MatchMessage) (c : Context)
    → IsOutside peer c
    → (handle phase settings peer msg c).0 ≡ c
unfolding handle handle_joined handle_player_pause handle_player_command handle_flare
    handle_turn_sealed handle_state_hash handle_loaded_game
handle-outside phase settings peer of_joined c v =
    rw ((speaker-outside peer c v).1, handle_joined) refl
handle-outside phase settings peer (of_player_pause m) c v =
    rw ((speaker-outside peer c v).1, handle_player_pause) refl
handle-outside phase settings peer (of_player_command m) c v =
    rw ((speaker-outside peer c v).1, handle_player_command) refl
handle-outside phase settings peer (of_flare m) c v =
    rw ((speaker-outside peer c v).1, handle_flare) refl
handle-outside phase settings peer (of_turn_sealed m) c v =
    elim (Bool-cases (ltb (saturating_add_u32 c.turns.ready_turn command_delay) m.turn)) [
      | inl e ↦ rw (e, handle_turn_sealed) refl
      | inr e ↦ rw (e, handle_turn_sealed, on_turn_sealed-outside peer m.turn c v) refl
    ]
handle-outside phase settings peer (of_state_hash m) c v =
    elim (Bool-cases (ltb c.turns.ready_turn m.turn)) [
      | inl e ↦ rw (e, handle_state_hash) refl
      | inr e ↦ rw (e, handle_state_hash, on_state_hash-outside peer m.turn m.hash c v) refl
    ]
handle-outside phase settings peer (of_loaded_game m) c v =
    elim (Option-cases (get ℕ_discrete peer c.sessions)) [
      | inl e ↦ rw (e, handle_loaded_game) refl
      | inr (s, e) ↦ rw (e, handle_loaded_game, (v.not_playing s e).1) refl
    ]

-- Whatever a peer sends of the seven messages that a running match takes (it has joined, a
-- command, a pause, a flare, a seal, a hash, or it has loaded the game), if it is neither in
-- the game nor loading it and the turn manager does not know it: the turns, the log of commands
-- and the delayed feed stay as they are. At most it is dropped.
pub on_message-outside :
    (phase : Phase) (settings : FrozenSettings) (peer : PeerId) (msg : MatchMessage) (c : Context)
    → IsOutside peer c
    → match_of (on_message phase settings peer msg c) ≡ match_of c
unfolding on_message
on_message-outside phase settings peer msg c v =
    let r = handle phase settings peer msg c in
    let same = handle-outside phase settings peer msg c v in
    elim (Option-cases r.1) [
      | inl e ↦ rw (e, on_message) (ap match_of same)
      | inr (fault, e) ↦ rw (e, on_message) (match-on_fault peer fault r.0 ∙ ap match_of same)
    ]
