-- ===== src/Server/History.antt =====
-- Every history of a running match in src/relay/server_fsm.rs: the messages of its clients, the
-- ticks of its clock, delayed joins and departures, in any order.
use veredus.Base.{ℕ, ◌≡◌, ap, ◌≤◌, none, some, [], Option-cases, inl, inr}
use veredus.Base.Runs.{Run, idle, after}
use veredus.MatchLog.{commands_for}
use veredus.Server.{Context, FrozenSettings, Phase}
use veredus.Server.Depart.{hold_snapshot, leave_match, settle_departure}
use veredus.Server.Drop.{on_fault}
use veredus.Server.Frame.{match_of, match-on_fault}
use veredus.Server.Moves.{view, IsPaced, Moves, Moves-refl, Moves-trans, Moves-same}
use veredus.Server.Moves.Departs.{Moves-hold_snapshot, Moves-leave_match, Moves-settle_departure}
use veredus.Server.Moves.Joins.{match-handle_joined, match-handle_player_pause}
use veredus.Server.Moves.Commands.{Moves-handle_flare, Moves-handle_player_command}
use veredus.Server.Moves.Messages.{
  Moves-release_in, Moves-handle_turn_sealed, Moves-handle_state_hash,
}
use veredus.Server.Moves.Rejoins.{Moves-handle_loaded_game}
use veredus.Server.Play.{release_in}
use veredus.Server.Rejoin.{
  MatchMessage, of_joined, of_player_command, of_player_pause, of_flare, of_turn_sealed,
  of_state_hash, of_loaded_game, handle, on_message,
}
use veredus.Turn.{PeerId}
use veredus.Text.{Bytes}
use veredus.Wire.Match.{Join}

-- One thing that happens to a running match: one of its messages comes in, turns are released on a
-- tick, the state for a joiner on a delay is held on the feed, a client leaves and nobody waits for
-- it any longer. `passes` is anything that leaves the turn manager, the log and the feed as they
-- are, as a chat line or the admission of a client that is not on a delay.
pub data Step : Context → Context → Type 0 where
  receives :
      (phase : Phase) (settings : FrozenSettings) (peer : PeerId) (msg : MatchMessage) (c : Context)
      → Step c (on_message phase settings peer msg c)
  ticks :
      (phase : Phase) (turn_length_ms : ℕ) (c : Context)
      → Step c (release_in phase turn_length_ms c)
  holds :
      (joiner : PeerId) (bound : ℕ) (join : Join) (snapshot : Bytes) (c : Context)
      → Step c (hold_snapshot joiner bound join snapshot c)
  leaves : (peer : PeerId) (c : Context) → Step c (leave_match peer c)
  settles : (phase : Phase) (c : Context) → Step c (settle_departure phase c)
  passes : (c d : Context) → match_of d ≡ match_of c → Step c d

Moves-handle :
    (phase : Phase) (settings : FrozenSettings) (peer : PeerId) (msg : MatchMessage) (c : Context)
    → IsPaced (view c)
    → Moves (view c) (view (handle phase settings peer msg c).0)
unfolding handle
Moves-handle phase settings peer of_joined c p =
    Moves-same c (handle phase settings peer of_joined c).0 (match-handle_joined phase peer c) p
Moves-handle phase settings peer (of_player_pause m) c p =
    Moves-same c (handle phase settings peer (of_player_pause m) c).0
      (match-handle_player_pause peer m c) p
Moves-handle phase settings peer (of_player_command m) c p =
    Moves-handle_player_command settings peer m c p
Moves-handle phase settings peer (of_flare m) c p = Moves-handle_flare peer m c p
Moves-handle phase settings peer (of_turn_sealed m) c p =
    Moves-handle_turn_sealed phase settings peer m c p
Moves-handle phase settings peer (of_state_hash m) c p = Moves-handle_state_hash peer m c p
Moves-handle phase settings peer (of_loaded_game m) c p =
    Moves-handle_loaded_game settings peer m c p

Moves-on_message :
    (phase : Phase) (settings : FrozenSettings) (peer : PeerId) (msg : MatchMessage) (c : Context)
    → IsPaced (view c)
    → Moves (view c) (view (on_message phase settings peer msg c))
unfolding on_message
Moves-on_message phase settings peer msg c p =
    let r = handle phase settings peer msg c in
    let handled : Moves (view c) (view r.0) = Moves-handle phase settings peer msg c p in
    elim (Option-cases r.1) [
      | inl e ↦ rw (e, on_message) handled
      | inr (fault, e) ↦
          rw (e, on_message)
            (Moves-trans handled (
              Moves-same r.0 (on_fault peer fault r.0) (match-on_fault peer fault r.0)
                handled.paced))
    ]

Step-Moves : (c d : Context) → Step c d → IsPaced (view c) → Moves (view c) (view d)
Step-Moves _ _ (receives phase settings peer msg c) p = Moves-on_message phase settings peer msg c p
Step-Moves _ _ (ticks phase len c) p = Moves-release_in phase len c p
Step-Moves _ _ (holds joiner bound join snapshot c) p =
    Moves-hold_snapshot joiner bound join snapshot c p
Step-Moves _ _ (leaves peer c) p = Moves-leave_match peer c p
Step-Moves _ _ (settles phase c) p = Moves-settle_departure phase c p
Step-Moves _ _ (passes c d e) p = Moves-same c d e p

Run-Moves : {c d : Context} → IsPaced (view c) → Run Step c d → Moves (view c) (view d)
Run-Moves {c} p idle = Moves-refl (view c) p
Run-Moves p (after s r) = let m = Run-Moves p r in Moves-trans m (Step-Moves _ _ s m.paced)

-- A released turn is settled: the ready turn never goes back, and the commands of a turn that is
-- released stay as they are, so that the save, the replay of a joiner and the delayed feed all give
-- what the players got. The match starts paced, as a new one does.
pub Run-commands_for :
    (c d : Context) (t : ℕ)
    → IsPaced (view c)
    → Run Step c d
    → t ≤ c.turns.ready_turn
    → (c.turns.ready_turn ≤ d.turns.ready_turn) × (commands_for t d.log ≡ commands_for t c.log)
unfolding commands_for
Run-commands_for c d t p r h =
    let m : Moves (view c) (view d) = Run-Moves p r in
    (m.ready, ap (λ found. elim found [ none ↦ [] | some cs ↦ cs ]) (m.kept t h))
