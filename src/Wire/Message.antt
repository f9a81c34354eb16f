-- ===== src/Wire/Message.antt =====
-- src/relay/messages/mod.rs: the envelope, a type of one byte and a size of two that counts the
-- header, and the messages by type. The size is `as u16`, which wraps.
pub mod Back
pub mod Accept
use veredus.Base.{ℕ, ◌+◌, ◌*◌, Bool, List, [], ◌∷◌, ◌++◌, length, ◌==◌, if◌then◌else◌, not}
use veredus.Base.Result.{Result, ok, err, ◌>>=◌}
use veredus.Fault.{ParseError, truncated, size_mismatch, unknown_type}
use veredus.Text.{Bytes}
use veredus.Wire.{u16_to_be_bytes}
use veredus.Wire.Handshake.{
  Syn, syn_to_bytes, syn_from_bytes, SynAck, syn_ack_to_bytes, syn_ack_from_bytes, Ack,
  ack_to_bytes, ack_from_bytes, Authenticate, authenticate_to_bytes, authenticate_from_bytes,
  AuthenticateResult, authenticate_result_to_bytes, authenticate_result_from_bytes,
}
use veredus.Wire.Lobby.{
  Chat, chat_to_bytes, chat_from_bytes, PreGameStatus, pre_game_status_to_bytes,
  pre_game_status_from_bytes, GameSettings, game_settings_to_bytes, game_settings_from_bytes,
  MapPlayerIdToSlot, map_player_id_to_slot_to_bytes, map_player_id_to_slot_from_bytes, PlayerSlots,
  player_slots_to_bytes, player_slots_from_bytes, Joined, joined_to_bytes, joined_from_bytes,
  Kicked, kicked_to_bytes, kicked_from_bytes, LastSeen, last_seen_to_bytes, last_seen_from_bytes,
  LaggingClients, lagging_clients_to_bytes, lagging_clients_from_bytes, PlayersLoading,
  players_loading_to_bytes, players_loading_from_bytes, PlayerPause, player_pause_to_bytes,
  player_pause_from_bytes, Flare, flare_to_bytes, flare_from_bytes,
}
use veredus.Wire.Match.{
  GamestateRequest, gamestate_request_to_bytes, gamestate_request_from_bytes, GamestateResponse,
  gamestate_response_to_bytes, gamestate_response_from_bytes, GamestateChunk,
  gamestate_chunk_to_bytes, gamestate_chunk_from_bytes, GamestateChunkAck,
  gamestate_chunk_ack_to_bytes, gamestate_chunk_ack_from_bytes, Join, join_to_bytes,
  join_from_bytes, LoadedGame, loaded_game_to_bytes, loaded_game_from_bytes, StartSettings,
  start_settings_to_bytes, start_settings_from_bytes, StartSavegameSettings,
  start_savegame_settings_to_bytes, start_savegame_settings_from_bytes, TurnSealed,
  turn_sealed_to_bytes, turn_sealed_from_bytes, StateHash, state_hash_to_bytes,
  state_hash_from_bytes, WrongHashPlayers, wrong_hash_players_to_bytes,
  wrong_hash_players_from_bytes, PlayerCommand, player_command_to_bytes, player_command_from_bytes,
}

pub data WireMessage : Type 0 where
  syn : Syn → WireMessage
  syn_ack : SynAck → WireMessage
  ack : Ack → WireMessage
  authenticate : Authenticate → WireMessage
  authenticate_result : AuthenticateResult → WireMessage
  chat : Chat → WireMessage
  pre_game_status : PreGameStatus → WireMessage
  reset_pregame_status : WireMessage
  game_settings : GameSettings → WireMessage
  map_player_id_to_slot : MapPlayerIdToSlot → WireMessage
  player_slots : PlayerSlots → WireMessage
  gamestate_request : GamestateRequest → WireMessage
  gamestate_response : GamestateResponse → WireMessage
  gamestate_chunk : GamestateChunk → WireMessage
  gamestate_chunk_ack : GamestateChunkAck → WireMessage
  join : Join → WireMessage
  joined : Joined → WireMessage
  kicked : Kicked → WireMessage
  last_seen : LastSeen → WireMessage
  lagging_clients : LaggingClients → WireMessage
  players_loading : PlayersLoading → WireMessage
  player_pause : PlayerPause → WireMessage
  loaded_game : LoadedGame → WireMessage
  start_settings : StartSettings → WireMessage
  start_savegame_settings : StartSavegameSettings → WireMessage
  turn_sealed : TurnSealed → WireMessage
  state_hash : StateHash → WireMessage
  wrong_hash_players : WrongHashPlayers → WireMessage
  player_command : PlayerCommand → WireMessage
  flare : Flare → WireMessage

unfoldable pub id : WireMessage → ℕ
id (syn m) = 1
id (syn_ack m) = 2
id (ack m) = 3
id (authenticate m) = 4
id (authenticate_result m) = 5
id (chat m) = 6
id (pre_game_status m) = 7
id reset_pregame_status = 8
id (game_settings m) = 9
id (map_player_id_to_slot m) = 10
id (player_slots m) = 11
id (gamestate_request m) = 12
id (gamestate_response m) = 13
id (gamestate_chunk m) = 14
id (gamestate_chunk_ack m) = 15
id (join m) = 16
id (joined m) = 17
id (kicked m) = 18
id (last_seen m) = 19
id (lagging_clients m) = 20
id (players_loading m) = 21
id (player_pause m) = 22
id (loaded_game m) = 23
id (start_settings m) = 24
id (start_savegame_settings m) = 25
id (turn_sealed m) = 26
id (state_hash m) = 27
id (wrong_hash_players m) = 28
id (player_command m) = 29
id (flare m) = 30

-- The bytes after the header.
unfoldable pub body : WireMessage → Bytes
body (syn m) = syn_to_bytes m
body (syn_ack m) = syn_ack_to_bytes m
body (ack m) = ack_to_bytes m
body (authenticate m) = authenticate_to_bytes m
body (authenticate_result m) = authenticate_result_to_bytes m
body (chat m) = chat_to_bytes m
body (pre_game_status m) = pre_game_status_to_bytes m
body reset_pregame_status = []
body (game_settings m) = game_settings_to_bytes m
body (map_player_id_to_slot m) = map_player_id_to_slot_to_bytes m
body (player_slots m) = player_slots_to_bytes m
body (gamestate_request m) = gamestate_request_to_bytes m
body (gamestate_response m) = gamestate_response_to_bytes m
body (gamestate_chunk m) = gamestate_chunk_to_bytes m
body (gamestate_chunk_ack m) = gamestate_chunk_ack_to_bytes m
body (join m) = join_to_bytes m
body (joined m) = joined_to_bytes m
body (kicked m) = kicked_to_bytes m
body (last_seen m) = last_seen_to_bytes m
body (lagging_clients m) = lagging_clients_to_bytes m
body (players_loading m) = players_loading_to_bytes m
body (player_pause m) = player_pause_to_bytes m
body (loaded_game m) = loaded_game_to_bytes m
body (start_settings m) = start_settings_to_bytes m
body (start_savegame_settings m) = start_savegame_settings_to_bytes m
body (turn_sealed m) = turn_sealed_to_bytes m
body (state_hash m) = state_hash_to_bytes m
body (wrong_hash_players m) = wrong_hash_players_to_bytes m
body (player_command m) = player_command_to_bytes m
body (flare m) = flare_to_bytes m

unfoldable pub to_bytes : WireMessage → Bytes
to_bytes m = id m ∷ (u16_to_be_bytes (3 + length (body m)) ++ body m)

unfoldable pub parse : ℕ → Bytes → Result ParseError WireMessage
parse msg_type bs =
    if msg_type == 1
    then (syn_from_bytes bs >>= λ m. ok (syn m))
    else if msg_type == 2
    then (syn_ack_from_bytes bs >>= λ m. ok (syn_ack m))
    else if msg_type == 3
    then (ack_from_bytes bs >>= λ m. ok (ack m))
    else if msg_type == 4
    then (authenticate_from_bytes bs >>= λ m. ok (authenticate m))
    else if msg_type == 5
    then (authenticate_result_from_bytes bs >>= λ m. ok (authenticate_result m))
    else if msg_type == 6
    then (chat_from_bytes bs >>= λ m. ok (chat m))
    else if msg_type == 7
    then (pre_game_status_from_bytes bs >>= λ m. ok (pre_game_status m))
    else if msg_type == 8
    then (ok reset_pregame_status)
    else if msg_type == 9
    then (game_settings_from_bytes bs >>= λ m. ok (game_settings m))
    else if msg_type == 10
    then (map_player_id_to_slot_from_bytes bs >>= λ m. ok (map_player_id_to_slot m))
    else if msg_type == 11
    then (player_slots_from_bytes bs >>= λ m. ok (player_slots m))
    else if msg_type == 12
    then (gamestate_request_from_bytes bs >>= λ m. ok (gamestate_request m))
    else if msg_type == 13
    then (gamestate_response_from_bytes bs >>= λ m. ok (gamestate_response m))
    else if msg_type == 14
    then (gamestate_chunk_from_bytes bs >>= λ m. ok (gamestate_chunk m))
    else if msg_type == 15
    then (gamestate_chunk_ack_from_bytes bs >>= λ m. ok (gamestate_chunk_ack m))
    else if msg_type == 16
    then (join_from_bytes bs >>= λ m. ok (join m))
    else if msg_type == 17
    then (joined_from_bytes bs >>= λ m. ok (joined m))
    else if msg_type == 18
    then (kicked_from_bytes bs >>= λ m. ok (kicked m))
    else if msg_type == 19
    then (last_seen_from_bytes bs >>= λ m. ok (last_seen m))
    else if msg_type == 20
    then (lagging_clients_from_bytes bs >>= λ m. ok (lagging_clients m))
    else if msg_type == 21
    then (players_loading_from_bytes bs >>= λ m. ok (players_loading m))
    else if msg_type == 22
    then (player_pause_from_bytes bs >>= λ m. ok (player_pause m))
    else if msg_type == 23
    then (loaded_game_from_bytes bs >>= λ m. ok (loaded_game m))
    else if msg_type == 24
    then (start_settings_from_bytes bs >>= λ m. ok (start_settings m))
    else if msg_type == 25
    then (start_savegame_settings_from_bytes bs >>= λ m. ok (start_savegame_settings m))
    else if msg_type == 26
    then (turn_sealed_from_bytes bs >>= λ m. ok (turn_sealed m))
    else if msg_type == 27
    then (state_hash_from_bytes bs >>= λ m. ok (state_hash m))
    else if msg_type == 28
    then (wrong_hash_players_from_bytes bs >>= λ m. ok (wrong_hash_players m))
    else if msg_type == 29
    then (player_command_from_bytes bs >>= λ m. ok (player_command m))
    else if msg_type == 30
    then (flare_from_bytes bs >>= λ m. ok (flare m))
    else err (unknown_type msg_type)

unfoldable pub from_bytes : Bytes → Result ParseError WireMessage
from_bytes (msg_type ∷ a ∷ b ∷ bs) =
    let size = a * 256 + b in
    let actual = length (msg_type ∷ a ∷ b ∷ bs) in
    if not (actual == size) then err (size_mismatch size actual) else parse msg_type bs
from_bytes (a ∷ b ∷ []) = err (truncated "header")
from_bytes (a ∷ []) = err (truncated "header")
from_bytes [] = err (truncated "header")
