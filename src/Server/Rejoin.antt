-- ===== src/Server/Rejoin.antt =====
-- src/relay/server_fsm.rs: a client that comes into a running match, and the messages of a match.
use native.Mathlib.Decide.{ℕ_discrete}
use veredus.Base.{
  ℕ, ◌-◌, max, true, false, ◌&&◌, not, none, some, List, [], ◌∷◌, leb, if◌then◌else◌,
}
use veredus.Base.Maps.{get, put}
use veredus.Base.Words.{add_u32, saturating_add_u32}
use veredus.Fault.{no_session, wrong_phase, loaded_before_snapshot, loaded_turn_out_of_range}
use veredus.MatchLog.{commands_for, turn_length, last_command_turn}
use veredus.ObserverFeed.{range, forget}
use veredus.Server.{Context, FrozenSettings, Phase, command_delay}
use veredus.Server.Cast.{send, is_observer, is_delayed_observer, is_ai_host}
use veredus.Server.Drop.{on_fault}
use veredus.Server.Play.{
  Outcome, handle_turn_sealed, handle_state_hash, handle_flare, handle_player_command,
  handle_joined, handle_player_pause,
}
use veredus.Session.{Session, in_game, is_syncing, client_id_of, set_role}
use veredus.Text.{Guid}
use veredus.Turn.{PeerId, register, mark_ai_host}
use veredus.Wire.Lobby.{PlayerPause, Flare}
use veredus.Wire.Match.{LoadedGame, PlayerCommand, TurnSealed, StateHash}
use veredus.Wire.Message.{turn_sealed, player_command, loaded_game}

unfoldable pub send_commands : PeerId → List PlayerCommand → Context → Context
send_commands peer [] c = c
send_commands peer (k ∷ ks) c = send_commands peer ks (send peer (player_command k) c)

unfoldable pub send_seal : PeerId → ℕ → ℕ → Context → Context
send_seal peer default_length turn c =
    send peer
      (turn_sealed (record {
        turn = turn;
        turn_length = elim (turn_length turn c.log) [ none ↦ default_length | some len ↦ len ];
      }))
      c

-- The turns that a joiner replays, each with its commands and, up to the last one that is
-- released, its seal.
unfoldable pub replay_turns : PeerId → ℕ → ℕ → List ℕ → Context → Context
replay_turns peer default_length last [] c = c
replay_turns peer default_length last (t ∷ ts) c =
    let sent = send_commands peer (commands_for t c.log) c in
    replay_turns peer default_length last ts
      (if leb t last then send_seal peer default_length t sent else sent)

-- `set_role(Role::InGame)`, if the session is there.
unfoldable pub enter_game : PeerId → Context → Context
enter_game peer c = elim (get ℕ_discrete peer c.sessions) [
  | none ↦ c
  | some s ↦ record c { sessions = put ℕ_discrete peer (set_role in_game s) c.sessions }
]

unfoldable pub resume_delayed : PeerId → ℕ → ℕ → ℕ → Context → Context
resume_delayed peer client_id snapshot_turn default_length c =
    let head = c.feed.head in
    let c =
      replay_turns peer default_length head (range (saturating_add_u32 snapshot_turn 1) head) c in
    let c = enter_game peer (send peer (loaded_game (record { current_turn = head })) c) in
    record c {
      feed = forget peer c.feed;
      turns = register peer client_id (add_u32 head (command_delay - 1)) head true true c.turns;
    }

-- The last turn that a joiner is sent: what is recorded past the ready turn is not withheld.
unfoldable pub replay_end : Context → ℕ
replay_end c =
    max (add_u32 c.turns.ready_turn 1) (elim (last_command_turn c.log) [ none ↦ 0 | some t ↦ t ])

-- The rest of `on_loaded_game`, for those who see the match live.
unfoldable pub resume_live : PeerId → Guid → ℕ → ℕ → ℕ → Context → Context
resume_live peer uuid client_id snapshot_turn default_length c =
    let ready_turn = c.turns.ready_turn in
    let c =
      replay_turns peer default_length ready_turn
        (range (saturating_add_u32 snapshot_turn 1) (replay_end c)) c in
    let c = enter_game peer (send peer (loaded_game (record { current_turn = ready_turn })) c) in
    let turns =
      register peer client_id (add_u32 ready_turn (command_delay - 1)) ready_turn
        (is_observer uuid c) false c.turns in
    record c { turns = if is_ai_host peer c then mark_ai_host peer turns else turns }

unfoldable pub resume_client : PeerId → Session → ℕ → ℕ → Context → Outcome
resume_client peer s snapshot_turn default_length c = elim s.uuid [
  | none ↦ (c, some no_session)
  | some uuid ↦ elim (client_id_of s) [
    | none ↦ (c, some no_session)
    | some client_id ↦ (
      if is_delayed_observer uuid c
          then resume_delayed peer client_id snapshot_turn default_length c
          else resume_live peer uuid client_id snapshot_turn default_length c,
      none,
    )
  ]
]

unfoldable pub handle_loaded_game : FrozenSettings → PeerId → LoadedGame → Context → Outcome
handle_loaded_game settings peer msg c = elim (get ℕ_discrete peer c.sessions) [
  | none ↦ (c, some no_session)
  | some s ↦ if not (is_syncing s) then (c, some wrong_phase) else elim s.snapshot_turns [
    | none ↦ (c, some loaded_before_snapshot)
    | some (lo, hi) ↦
        let taken : Context = record c {
          sessions = put ℕ_discrete peer (record s { snapshot_turns = none }) c.sessions;
        } in
        if leb lo msg.current_turn && leb msg.current_turn hi
        then resume_client peer s msg.current_turn settings.turn_length_ms taken
        else (taken, some (loaded_turn_out_of_range msg.current_turn lo hi))
  ]
]

-- The messages that the match phase handles itself, but for the chunks of a snapshot.
pub data MatchMessage : Type 0 where
  of_joined : MatchMessage
  of_player_command : PlayerCommand → MatchMessage
  of_player_pause : PlayerPause → MatchMessage
  of_flare : Flare → MatchMessage
  of_turn_sealed : TurnSealed → MatchMessage
  of_state_hash : StateHash → MatchMessage
  of_loaded_game : LoadedGame → MatchMessage

unfoldable pub handle : Phase → FrozenSettings → PeerId → MatchMessage → Context → Outcome
handle phase settings peer of_joined c = handle_joined phase peer c
handle phase settings peer (of_player_command m) c = handle_player_command settings peer m c
handle phase settings peer (of_player_pause m) c = handle_player_pause peer m c
handle phase settings peer (of_flare m) c = handle_flare peer m c
handle phase settings peer (of_turn_sealed m) c = handle_turn_sealed phase settings peer m c
handle phase settings peer (of_state_hash m) c = handle_state_hash peer m c
handle phase settings peer (of_loaded_game m) c = handle_loaded_game settings peer m c

-- `on_message`: a fault drops the message or the peer.
unfoldable pub on_message : Phase → FrozenSettings → PeerId → MatchMessage → Context → Context
on_message phase settings peer msg c =
    let r = handle phase settings peer msg c in
    elim r.1 [ none ↦ r.0 | some fault ↦ on_fault peer fault r.0 ]
