-- ===== src/Server/Examples.antt =====
-- The theorems on src/relay/server_fsm.rs at work on a small match: one player in the game, one
-- client that loads it, and one connection that is not admitted.
use native.Mathlib.Decide.{ℕ_discrete}
use veredus.Base.{
  ℕ, ◌≡◌, ◌+◌, refl, ◌⊎◌, ◌≤◌, ◌<◌, true, false, ◌||◌, none, some, [], ◌∷◌, ◌++◌, arith,
  list_discrete,
}
use veredus.Base.Maps.{get, put}
use veredus.Base.Runs.{Run, idle, after}
use veredus.MatchLog.{empty_log, commands_for, record_command}
use veredus.ObserverFeed.{new_feed}
use veredus.PauseBudget.{new_budget}
use veredus.RateLimit.{Limits, LimitSettings, new_limits, new_bucket}
use veredus.Server.{Context, Config, FrozenSettings, in_game, Effect}
use veredus.Server.Command.{handle_player_command_cases, handle_player_command-resigned}
use veredus.Server.Depart.{hold_snapshot, leave_match, settle_departure}
use veredus.Server.Feed.{seal_turns}
use veredus.Server.History.{Step, receives, holds, leaves, settles, Run-commands_for}
use veredus.Server.Joiner.{Joins, resume_live-replays, resume_delayed-replays}
use veredus.Server.Moves.{view, IsPaced}
use veredus.Server.Outside.{IsOutside, on_message-outside}
use veredus.Server.Play.{handle_player_command, may_command, own_slot, is_ai_player, is_resign}
use veredus.Server.Cast.{speaker}
use veredus.Script.{has_repeated_type}
use veredus.Base.Result.{ok}
use veredus.Text.{Guid}
use veredus.Server.Rejoin.{
  MatchMessage, of_turn_sealed, of_player_command, on_message, resume_live, resume_delayed,
  replay_end,
}
use veredus.Server.Replay.{messages_to}
use veredus.Server.Seals.{IsLive, seal_of, saved, saves_in, seal_turns-live, seal_turns-saves}
use veredus.Server.Frame.{match_of}
use veredus.Session.{Session, Role, is_in_game, is_syncing, role_of}
use veredus.Slots.{PlayerSlot}
use veredus.Turn.{ClientTurn, fresh, is_delayed, max_sealed}
use veredus.Transfer.{Transfers}
use veredus.Wire.Match.{PlayerCommand}

abbrev config : Config
config = record {
  server_name = [];
  turn_length_ms = 200;
  observer_lag_limit = none;
  observer_delay_turns = 0;
  commands_per_turn = 100;
  command_bytes_per_turn = 10000;
  flood_kick_multiple = 0;
  scripted = false;
  pace_interval = 200000000;
  saving = true;
}

abbrev settings : FrozenSettings
settings = record { cheats_enabled = false; turn_length_ms = 200 }

abbrev no_limits : Limits
no_limits = record { chat = new_bucket 0 0; flare = new_bucket 0 0; commands = [] }

abbrev session_of : ℕ → Role → Session
session_of id role = record {
  addr = 1;
  uuid = some (id ∷ []);
  lobby_name = none;
  admitted = some (record { client_id = id; name = id ∷ []; role = role });
  tried_sources = [];
  snapshot_turns = some (0, 3);
  pending_since = none;
  limits = no_limits;
}

abbrev stranger : Session
stranger = record {
  addr = 9;
  uuid = none;
  lobby_name = none;
  admitted = none;
  tried_sources = [];
  snapshot_turns = none;
  pending_since = none;
  limits = no_limits;
}

abbrev player : ClientTurn
player = record {
  client_id = 1;
  ready_turn = 5;
  simulated_turn = 2;
  observer = false;
  delayed = false;
  ai_host = false;
}

abbrev order : PlayerCommand
order = record { client = 1; player = 1; turn = 4; payload = 3 ∷ 0 ∷ 0 ∷ 0 ∷ 0 ∷ [] }

abbrev slot_one : PlayerSlot
slot_one = record { uuid = 1 ∷ []; name = 1 ∷ []; slot = 1; status = 0; connected = true }

abbrev transfers : Transfers
transfers = record { next_request_id = 0; outgoing = []; incoming = []; granted = [] }

abbrev ongoing : Context
ongoing = record {
  config = config;
  sessions = (1, session_of 1 Role.in_game) ∷ (2, session_of 2 Role.syncing) ∷ (3, stranger) ∷ [];
  slots = slot_one ∷ [];
  controller = none;
  server_uuid = 7 ∷ [];
  banned_names = [];
  forfeited = [];
  resigned = [];
  transfers = transfers;
  pause_budget = new_budget 60 5;
  turns = record fresh { clients = (1, player) ∷ [] };
  log = record empty_log { commands = (4, order ∷ []) ∷ [] };
  feed = new_feed 0;
  probe = none;
  now = none;
  pace_anchor = none;
  ai_host = none;
  saved_slots = none;
  hash_mismatches = 0;
  observer_hash_mismatches = 0;
  effects = [];
}

ongoing-IsPaced : IsPaced (view ongoing)
unfolding max_sealed
ongoing-IsPaced = record {
  ready_u32 = omega arith;
  sealed = omega arith;
  sealed_u32 = omega arith;
  logged = (omega arith, tt);
  behind = omega arith;
}

-- The player seals the next turn.
abbrev seals_six : MatchMessage
seals_six = of_turn_sealed (record { turn = 6; turn_length = 200 })

abbrev sealed : Context
sealed = on_message in_game settings 1 seals_six ongoing

-- A state for the joiner is held on the feed, and the player leaves.
abbrev held : Context
held = hold_snapshot 2 3 (record { init_attributes = [] }) (1 ∷ []) sealed

abbrev later : Context
later = settle_departure in_game (leave_match 1 held)

goes_on : Run Step ongoing later
goes_on = after (settles in_game (leave_match 1 held)) (
    after (leaves 1 held) (
      after (holds 2 3 (record { init_attributes = [] }) (1 ∷ []) sealed)
        (after (receives in_game settings 1 seals_six ongoing) idle)))

Run-commands_for_example :
    (ongoing.turns.ready_turn ≤ later.turns.ready_turn)
    × (commands_for 2 later.log ≡ commands_for 2 ongoing.log)
Run-commands_for_example = Run-commands_for ongoing later 2 ongoing-IsPaced goes_on (omega arith)

resume_live-replays_example :
    Joins 2 ongoing.log 1 3 (replay_end ongoing) ongoing (resume_live 2 (2 ∷ []) 2 1 200 ongoing)
    × ((t : ℕ) → replay_end ongoing < t → commands_for t ongoing.log ≡ [])
resume_live-replays_example =
    resume_live-replays 2 (2 ∷ []) 2 1 200 ongoing (omega arith) (omega arith)

resume_delayed-replays_example :
    Joins 2 ongoing.log 1 3 3 ongoing (resume_delayed 2 2 1 200 ongoing)
resume_delayed-replays_example =
    resume_delayed-replays 2 2 1 200 ongoing (omega arith) (omega arith)

player-IsLive : IsLive 1 ongoing
unfolding get ℕ_discrete is_in_game role_of is_delayed
player-IsLive = record {
  distinct = ((ground arith, (ground arith, tt)), ((ground arith, tt), (tt, tt)));
  session = session_of 1 Role.in_game;
  found = refl;
  in_game = refl;
  not_delayed = refl;
}

seal_turns-live_example :
    messages_to 1 (seal_turns 200 (4 ∷ 5 ∷ []) ongoing).effects
    ≡ messages_to 1 [] ++ (seal_of 200 4 ∷ seal_of 200 5 ∷ [])
seal_turns-live_example = seal_turns-live 200 (4 ∷ 5 ∷ []) 1 ongoing player-IsLive

seal_turns-saves_example :
    saves_in (seal_turns 200 (4 ∷ 5 ∷ []) ongoing).effects
    ≡ saves_in [] ++ (saved 200 ongoing.log 4 ∷ saved 200 ongoing.log 5 ∷ [])
seal_turns-saves_example = seal_turns-saves 200 (4 ∷ 5 ∷ []) ongoing refl

three-IsOutside : IsOutside 3 ongoing
unfolding get ℕ_discrete is_in_game is_syncing role_of
three-IsOutside = record {
  not_playing = λ s e. let same : stranger ≡ s = cc in (rw (← same) refl, rw (← same) refl);
  unknown = refl;
}

on_message-outside_example :
    match_of (on_message in_game settings 3 (of_player_command order) ongoing) ≡ match_of ongoing
on_message-outside_example =
    on_message-outside in_game settings 3 (of_player_command order) ongoing three-IsOutside

-- The player's next order.
abbrev next_order : PlayerCommand
next_order = record order { turn = 7 }

handle_player_command_cases_example :
    ((handle_player_command settings 1 next_order ongoing).0.log ≡ ongoing.log)
    ⊎ ((uuid : Guid) × (speaker 1 is_in_game ongoing ≡ ok uuid)
        × (3 < 7)
        × (7 ≤ 3 + 4)
        × (has_repeated_type next_order.payload ≡ false)
        × ((false || may_command 1 uuid 1 ongoing) ≡ true)
        × ((handle_player_command settings 1 next_order ongoing).0.log
            ≡ record_command next_order ongoing.log))
handle_player_command_cases_example = handle_player_command_cases settings 1 next_order ongoing

-- The player gives up: an object whose "type" is "resign".
abbrev gives_up : PlayerCommand
gives_up = record next_order {
  payload =
      3 ∷ 1 ∷ 0 ∷ 0 ∷ 0 ∷ 1 ∷ 4 ∷ 0 ∷ 0 ∷ 0 ∷ 116 ∷ 121 ∷ 112 ∷ 101 ∷ 4 ∷ 1 ∷ 6 ∷ 0 ∷ 0 ∷ 0 ∷ 114
      ∷ 101 ∷ 115 ∷ 105 ∷ 103 ∷ 110 ∷ [];
}

handle_player_command-resigned_example :
    ((handle_player_command settings 1 gives_up ongoing).0.resigned ≡ [])
    ⊎ ((uuid : Guid) × (speaker 1 is_in_game ongoing ≡ ok uuid)
        × (is_resign gives_up ≡ true)
        × ((own_slot uuid 1 ongoing || is_ai_player 1 1 ongoing) ≡ true)
        × ((handle_player_command settings 1 gives_up ongoing).0.resigned ≡ 1 ∷ []))
handle_player_command-resigned_example = handle_player_command-resigned settings 1 gives_up ongoing

has_given_up : (handle_player_command settings 1 gives_up ongoing).0.resigned ≡ 1 ∷ []
unfolding handle_player_command speaker get ℕ_discrete is_in_game veredus.Server.Cast.is_ai_host
    veredus.Server.Cast.within_limit veredus.Server.Play.charge_command veredus.RateLimit.charge
    veredus.RateLimit.judge veredus.RateLimit.used_for veredus.Server.Play.accept_command
    has_repeated_type veredus.Script.type_values veredus.Script.read_u32
    veredus.Script.type_values_of veredus.Script.read_script_string veredus.Script.take_bytes
    veredus.Auth.text put list_discrete commands_for record_command veredus.RateLimit.set_used
    veredus.Script.extract_command_type veredus.Script.is_type veredus.Script.repeat
    veredus.Script.skip_bytes veredus.Script.skip_prop veredus.Script.skip_props
    veredus.Script.skip_script_val veredus.Script.skip_tagged veredus.Script.type_value
    veredus.Script.units_le veredus.Server.Cast.broadcast_live veredus.Server.Cast.holds_slot
    veredus.Server.Cast.is_ai_host_uuid veredus.Server.Cast.live_peers
    veredus.Server.Cast.peers_where veredus.Server.Cast.push veredus.Server.Cast.send_all
    veredus.Server.Cast.uuid_of is_ai_player is_resign may_command own_slot
    veredus.Server.Play.probe_at veredus.Server.Play.resign veredus.Server.Save.save_slots
    veredus.Server.holds_ℕ veredus.Server.player_of_slot role_of veredus.Slots.slot_of is_delayed
has_given_up = refl

-- The order is accepted, recorded, and sent back to the player.
accepts :
    commands_for 7 (handle_player_command settings 1 next_order ongoing).0.log ≡ next_order ∷ []
unfolding handle_player_command commands_for get speaker ℕ_discrete is_in_game role_of is_delayed
    record_command may_command own_slot is_ai_player is_resign has_repeated_type put list_discrete
    veredus.Server.Cast.is_ai_host veredus.Server.Cast.within_limit
    veredus.Server.Play.charge_command veredus.RateLimit.charge veredus.RateLimit.judge
    veredus.RateLimit.used_for veredus.RateLimit.set_used veredus.Server.Play.accept_command
    veredus.Script.type_values veredus.Script.read_u32 veredus.Script.type_values_of
    veredus.Script.extract_command_type veredus.Server.Cast.broadcast_live
    veredus.Server.Cast.send_all veredus.Server.Cast.push veredus.Server.Cast.live_peers
    veredus.Server.Cast.peers_where veredus.Server.Cast.holds_slot veredus.Server.player_of_slot
    veredus.Slots.slot_of
accepts = refl
