-- ===== src/Wire/Message/Back.antt =====
-- What a message needs to survive the wire, and that it does.
use veredus.Base.{◌+◌, ◌*◌, ◌/◌, ◌%◌, ◌≤◌, ◌≡◌, refl, length, arith}
use veredus.Base.Words.{u16_max}
use veredus.Base.Result.{ok}
use veredus.Wire.{u16_to_be_bytes}
use veredus.Wire.Message.{
  WireMessage, id, body, to_bytes, from_bytes, parse, syn, syn_ack, ack, authenticate,
  authenticate_result, chat, pre_game_status, reset_pregame_status, game_settings,
  map_player_id_to_slot, player_slots, gamestate_request, gamestate_response, gamestate_chunk,
  gamestate_chunk_ack, join, joined, kicked, last_seen, lagging_clients, players_loading,
  player_pause, loaded_game, start_settings, start_savegame_settings, turn_sealed, state_hash,
  wrong_hash_players, player_command, flare,
}
use veredus.Wire.Handshake.Back.{
  IsSyn, syn-back, IsSynAck, syn_ack-back, IsAck, ack-back, IsAuthenticate, authenticate-back,
  IsAuthenticateResult, authenticate_result-back,
}
use veredus.Wire.Lobby.Back.{
  IsChat, chat-back, IsPreGameStatus, pre_game_status-back, game_settings-back, IsMapPlayerIdToSlot,
  map_player_id_to_slot-back, IsPlayerSlots, player_slots-back, IsJoined, joined-back, IsKicked,
  kicked-back, IsLastSeen, last_seen-back, IsLaggingClients, lagging_clients-back, IsPlayersLoading,
  players_loading-back, IsPlayerPause, player_pause-back, IsFlare, flare-back,
}
use veredus.Wire.Match.Back.{
  IsGamestateRequest, gamestate_request-back, IsGamestateResponse, gamestate_response-back,
  IsGamestateChunk, gamestate_chunk-back, IsGamestateChunkAck, gamestate_chunk_ack-back, IsJoin,
  join-back, IsLoadedGame, loaded_game-back, IsStartSettings, start_settings-back,
  IsStartSavegameSettings, start_savegame_settings-back, IsTurnSealed, turn_sealed-back,
  IsStateHash, state_hash-back, IsWrongHashPlayers, wrong_hash_players-back, IsPlayerCommand,
  player_command-back,
}

-- The fields of the message fit their form on the wire.
unfoldable pub IsWire : WireMessage → Type 0
IsWire (syn m) = IsSyn m
IsWire (syn_ack m) = IsSynAck m
IsWire (ack m) = IsAck m
IsWire (authenticate m) = IsAuthenticate m
IsWire (authenticate_result m) = IsAuthenticateResult m
IsWire (chat m) = IsChat m
IsWire (pre_game_status m) = IsPreGameStatus m
IsWire reset_pregame_status = Unit {0}
IsWire (game_settings m) = Unit {0}
IsWire (map_player_id_to_slot m) = IsMapPlayerIdToSlot m
IsWire (player_slots m) = IsPlayerSlots m
IsWire (gamestate_request m) = IsGamestateRequest m
IsWire (gamestate_response m) = IsGamestateResponse m
IsWire (gamestate_chunk m) = IsGamestateChunk m
IsWire (gamestate_chunk_ack m) = IsGamestateChunkAck m
IsWire (join m) = IsJoin m
IsWire (joined m) = IsJoined m
IsWire (kicked m) = IsKicked m
IsWire (last_seen m) = IsLastSeen m
IsWire (lagging_clients m) = IsLaggingClients m
IsWire (players_loading m) = IsPlayersLoading m
IsWire (player_pause m) = IsPlayerPause m
IsWire (loaded_game m) = IsLoadedGame m
IsWire (start_settings m) = IsStartSettings m
IsWire (start_savegame_settings m) = IsStartSavegameSettings m
IsWire (turn_sealed m) = IsTurnSealed m
IsWire (state_hash m) = IsStateHash m
IsWire (wrong_hash_players m) = IsWrongHashPlayers m
IsWire (player_command m) = IsPlayerCommand m
IsWire (flare m) = IsFlare m

parse-body : (m : WireMessage) → IsWire m → parse (id m) (body m) ≡ ok m
unfolding parse id body IsWire
parse-body (syn m) v = rw (syn-back m v) refl
parse-body (syn_ack m) v = rw (syn_ack-back m v) refl
parse-body (ack m) v = rw (ack-back m v) refl
parse-body (authenticate m) v = rw (authenticate-back m v) refl
parse-body (authenticate_result m) v = rw (authenticate_result-back m v) refl
parse-body (chat m) v = rw (chat-back m v) refl
parse-body (pre_game_status m) v = rw (pre_game_status-back m v) refl
parse-body reset_pregame_status v = refl
parse-body (game_settings m) v = rw (game_settings-back m) refl
parse-body (map_player_id_to_slot m) v = rw (map_player_id_to_slot-back m v) refl
parse-body (player_slots m) v = rw (player_slots-back m v) refl
parse-body (gamestate_request m) v = rw (gamestate_request-back m v) refl
parse-body (gamestate_response m) v = rw (gamestate_response-back m v) refl
parse-body (gamestate_chunk m) v = rw (gamestate_chunk-back m v) refl
parse-body (gamestate_chunk_ack m) v = rw (gamestate_chunk_ack-back m v) refl
parse-body (join m) v = rw (join-back m v) refl
parse-body (joined m) v = rw (joined-back m v) refl
parse-body (kicked m) v = rw (kicked-back m v) refl
parse-body (last_seen m) v = rw (last_seen-back m v) refl
parse-body (lagging_clients m) v = rw (lagging_clients-back m v) refl
parse-body (players_loading m) v = rw (players_loading-back m v) refl
parse-body (player_pause m) v = rw (player_pause-back m v) refl
parse-body (loaded_game m) v = rw (loaded_game-back m v) refl
parse-body (start_settings m) v = rw (start_settings-back m v) refl
parse-body (start_savegame_settings m) v = rw (start_savegame_settings-back m v) refl
parse-body (turn_sealed m) v = rw (turn_sealed-back m v) refl
parse-body (state_hash m) v = rw (state_hash-back m v) refl
parse-body (wrong_hash_players m) v = rw (wrong_hash_players-back m v) refl
parse-body (player_command m) v = rw (player_command-back m v) refl
parse-body (flare m) v = rw (flare-back m v) refl

-- Every message whose fields fit their form on the wire, and that fits the 16-bit size with its
-- header, comes back from its own bytes as it was.
pub from_bytes-to_bytes :
    (m : WireMessage) → IsWire m → 3 + length (body m) ≤ u16_max → from_bytes (to_bytes m) ≡ ok m
unfolding from_bytes to_bytes u16_to_be_bytes
from_bytes-to_bytes m v h =
    let n = 3 + length (body m) in
    let size : (n / 256 % 256) * 256 + n % 256 ≡ n = omega arith in
    rw size (ground (arith, parse-body m v))
