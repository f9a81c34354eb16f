-- ===== src/Server/Feed.antt =====
-- src/relay/server_fsm.rs: the release of turns, live and on the delayed feed, and the reports of
-- hashes that differ.
use native.Mathlib.Decide.{ℕ_discrete}
use veredus.Base.{
  ℕ, ◌+◌, ◌-◌, ◌*◌, ◌/◌, ◌%◌, min, max, Bool, not, Option, none, some, List, [], ◌∷◌, length, ltb,
  if◌then◌else◌,
}
use veredus.Base.Int.{i64_max}
use veredus.Base.Maps.{get}
use veredus.MatchLog.{commands_for, record_turn_length, turn_length}
use veredus.ObserverFeed.{advance, due_flares, due_joins}
use veredus.Server.{Context, save_turn, pace_backlog_turns}
use veredus.Server.Cast.{push, send, broadcast, broadcast_live, broadcast_delayed, players_remain}
use veredus.Session.{is_in_game, name_in}
use veredus.Text.{Text, Bytes}
use veredus.Transfer.{grant}
use veredus.Turn.{PeerId, HashMismatch, TurnManager, release_paced}
use veredus.Wire.Lobby.{Flare}
use veredus.Wire.Match.{Join, PlayerCommand}
use veredus.Wire.Message.{WireMessage, join, flare, turn_sealed, player_command, wrong_hash_players}

-- `num_microseconds().unwrap_or(1).max(1)` of a span in nanoseconds.
unfoldable pub interval_us : ℕ → ℕ
interval_us interval = max (if ltb i64_max (interval / 1000) then 1 else interval / 1000) 1

-- The turns that the clock has made due.
unfoldable pub clock_allowance : Context → Context × ℕ
unfolding interval_us
clock_allowance c = elim c.now [
  | none ↦ (c, 0)
  | some now ↦
      let interval = c.config.pace_interval in
      let anchor : ℕ = elim c.pace_anchor [ none ↦ now | some t ↦ t ] in
      if ltb now anchor
      then (record c { pace_anchor = some now }, 0)
      else if ltb (interval * pace_backlog_turns) (now - anchor)
      then (record c { pace_anchor = some (now - interval) }, 1)
      else (
        record c { pace_anchor = some anchor },
        min (min ((now - anchor) / 1000) i64_max / interval_us interval) pace_backlog_turns,
      )
]

-- `release_paced` always returns for seals that are `u32`.
unfoldable pub release_due : Option ℕ → Option ℕ → TurnManager → TurnManager × List ℕ
release_due lag pace m = elim (release_paced lag pace m) [ none ↦ (m, []) | some r ↦ r ]

-- `Config::pace_interval` for each turn that was released.
unfoldable pub advance_anchor : Bool → ℕ → Context → Context
advance_anchor paced released c =
    if paced
    then (elim c.pace_anchor [
      | none ↦ c
      | some t ↦ record c { pace_anchor = some (t + c.config.pace_interval * released) }
    ])
    else c

-- One round of the loop over the turns that were released.
unfoldable pub seal_turn : ℕ → ℕ → Context → Context
unfolding push
seal_turn turn_length_ms turn c =
    let c = record c { log = record_turn_length turn turn_length_ms c.log } in
    let c =
      push
        (if c.config.saving
          then save_turn turn turn_length_ms (commands_for turn c.log) ∷ []
          else [])
        c in
    broadcast_live (turn_sealed (record { turn = turn; turn_length = turn_length_ms })) c

unfoldable pub seal_turns : ℕ → List ℕ → Context → Context
seal_turns turn_length_ms [] c = c
seal_turns turn_length_ms (t ∷ ts) c = seal_turns turn_length_ms ts (seal_turn turn_length_ms t c)

unfoldable pub delay_commands : List PlayerCommand → Context → Context
delay_commands [] c = c
delay_commands (k ∷ ks) c = delay_commands ks (broadcast_delayed (player_command k) c)

-- One turn of the delayed feed, its commands before its seal.
unfoldable pub delay_turn : ℕ → Context → Context
delay_turn turn c =
    let len : ℕ = elim (turn_length turn c.log) [
      | none ↦ c.config.turn_length_ms
      | some len ↦ len
    ] in
    broadcast_delayed (turn_sealed (record { turn = turn; turn_length = len }))
      (delay_commands (commands_for turn c.log) c)

unfoldable pub delay_turns : List ℕ → Context → Context
delay_turns [] c = c
delay_turns (t ∷ ts) c = delay_turns ts (delay_turn t c)

unfoldable pub delay_flares : List Flare → Context → Context
delay_flares [] c = c
delay_flares (f ∷ fs) c = delay_flares fs (broadcast_delayed (flare f) c)

unfoldable pub release_joins : List (PeerId × Join × Bytes) → Context → Context
unfolding send
release_joins [] c = c
release_joins ((joiner, j, snapshot) ∷ js) c =
    release_joins js
      (send joiner (join j) (record c { transfers = grant joiner snapshot c.transfers }))

unfoldable pub advance_feed : Context → Context
advance_feed c =
    let (feed, due) = advance c.turns.ready_turn (not (players_remain c)) c.feed in
    let c = delay_turns due (record c { feed = feed }) in
    let (feed, flares) = due_flares c.feed in
    let c = delay_flares flares (record c { feed = feed }) in
    let (feed, joins) = due_joins c.feed in release_joins joins (record c { feed = feed })

unfoldable pub release_turns : ℕ → Context → Context
release_turns turn_length_ms c =
    let paced = c.config.scripted in
    let clocked = if paced then clock_allowance c else (c, 0) in
    let pace = if paced then some clocked.1 else none in
    let r = release_due clocked.0.config.observer_lag_limit pace clocked.0.turns in
    advance_feed (
      seal_turns turn_length_ms r.1
        (advance_anchor paced (length r.1) (record clocked.0 { turns = r.0 })))

-- The names of the peers that are still here and admitted.
unfoldable pub names_of : List PeerId → Context → List Text
names_of [] c = []
names_of (p ∷ ps) c =
    let rest = names_of ps c in
    elim (get ℕ_discrete p c.sessions) [
      | none ↦ rest
      | some s ↦ elim (name_in s) [ none ↦ rest | some name ↦ name ∷ rest ]
    ]

unfoldable pub report_mismatch : HashMismatch → Context → Context
report_mismatch mismatch c =
    let msg : WireMessage = wrong_hash_players (record {
      turn = mismatch.turn;
      hash_expected = mismatch.reference;
      player_names = names_of mismatch.mismatched c;
    }) in
    elim mismatch.recipient [
      | some peer ↦ send peer msg (record c {
        observer_hash_mismatches = (c.observer_hash_mismatches + 1) % 18446744073709551616;
      })
      | none ↦
          broadcast msg is_in_game
            (record c { hash_mismatches = (c.hash_mismatches + 1) % 18446744073709551616 })
    ]

unfoldable pub report_all : List HashMismatch → Context → Context
report_all [] c = c
report_all (m ∷ ms) c = report_all ms (report_mismatch m c)
