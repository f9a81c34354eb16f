-- ===== src/Wire/Match/Back.antt =====
-- What each message needs to survive the wire, and that it does.
use veredus.Base.{◌≤◌, ◌≡◌, refl, [], ◌++◌, length, All, arith}
use veredus.Base.Result.{ok}
use veredus.Base.Words.{u32_max, u16_max}
use veredus.Text.{Bytes}
use veredus.Wire.{
  u32_to_be_bytes, u16_to_be_bytes, u32_to_le_bytes, write_blob, read_wide_string,
  write_wide_string, write_all,
}
use veredus.Wire.RoundTrip.{
  read_u32-write, read_u32_le-write, read_u16-write, read_u8-write, read_blob-write,
  read_string-write, read_wide_string-write, read_all-write, IsShort, IsWide, append_assoc,
  length-write_wide_string, read_bytes-append,
}
use veredus.Wire.Match.{
  GamestateRequest, gamestate_request_to_bytes, gamestate_request_from_bytes, GamestateResponse,
  gamestate_response_to_bytes, gamestate_response_from_bytes, GamestateChunk,
  gamestate_chunk_to_bytes, gamestate_chunk_from_bytes, GamestateChunkAck,
  gamestate_chunk_ack_to_bytes, gamestate_chunk_ack_from_bytes, Join, join_to_bytes,
  join_from_bytes, LoadedGame, loaded_game_to_bytes, loaded_game_from_bytes, StartSettings,
  start_settings_to_bytes, start_settings_from_bytes, StartSavegameSettings,
  start_savegame_settings_to_bytes, start_savegame_settings_from_bytes, TurnSealed,
  turn_sealed_to_bytes, turn_sealed_from_bytes, StateHash, state_hash_to_bytes,
  state_hash_from_bytes, WrongHashPlayers, wrong_hash_players_to_bytes,
  wrong_hash_players_from_bytes, PlayerCommand, player_command_to_bytes, player_command_from_bytes,
  read_hash,
}

read_hash-write :
    (hash rest : Bytes) → length hash ≡ 16 → read_hash (write_blob hash ++ rest) ≡ ok (hash, rest)
unfolding read_hash write_blob
read_hash-write hash rest h =
    rw
      (
        append_assoc (u32_to_be_bytes (length hash)) hash rest,
        read_u32-write "hash length" (length hash) (hash ++ rest) (omega arith),
        read_bytes-append "hash data" hash rest,
      )
      (rw h refl)

pub record IsGamestateRequest (m : GamestateRequest) : Type 0 where
  pub request_id : m.request_id ≤ u32_max

pub gamestate_request-back :
    (m : GamestateRequest)
    → IsGamestateRequest m
    → gamestate_request_from_bytes (gamestate_request_to_bytes m) ≡ ok m
unfolding gamestate_request_from_bytes gamestate_request_to_bytes
gamestate_request-back m v =
    rw
      (
        read_u8-write "request_type" m.request_type (u32_to_be_bytes m.request_id ++ []),
        read_u32-write "request_id" m.request_id [] v.request_id,
      )
      refl

pub record IsGamestateResponse (m : GamestateResponse) : Type 0 where
  pub request_id : m.request_id ≤ u32_max
  pub size : m.size ≤ u32_max

pub gamestate_response-back :
    (m : GamestateResponse)
    → IsGamestateResponse m
    → gamestate_response_from_bytes (gamestate_response_to_bytes m) ≡ ok m
unfolding gamestate_response_from_bytes gamestate_response_to_bytes
gamestate_response-back m v =
    rw
      (
        read_u32-write "request_id" m.request_id (u32_to_be_bytes m.size ++ []) v.request_id,
        read_u32-write "length" m.size [] v.size,
      )
      refl

pub record IsGamestateChunk (m : GamestateChunk) : Type 0 where
  pub request_id : m.request_id ≤ u32_max
  pub payload : length m.payload ≤ u32_max

pub gamestate_chunk-back :
    (m : GamestateChunk)
    → IsGamestateChunk m
    → gamestate_chunk_from_bytes (gamestate_chunk_to_bytes m) ≡ ok m
unfolding gamestate_chunk_from_bytes gamestate_chunk_to_bytes
gamestate_chunk-back m v =
    rw
      (
        read_u32-write "request_id" m.request_id (write_blob m.payload ++ []) v.request_id,
        read_blob-write "data length" "data" m.payload [] v.payload,
      )
      refl

pub record IsGamestateChunkAck (m : GamestateChunkAck) : Type 0 where
  pub request_id : m.request_id ≤ u32_max
  pub num_packets : m.num_packets ≤ u32_max

pub gamestate_chunk_ack-back :
    (m : GamestateChunkAck)
    → IsGamestateChunkAck m
    → gamestate_chunk_ack_from_bytes (gamestate_chunk_ack_to_bytes m) ≡ ok m
unfolding gamestate_chunk_ack_from_bytes gamestate_chunk_ack_to_bytes
gamestate_chunk_ack-back m v =
    rw
      (
        read_u32-write "request_id" m.request_id (u32_to_be_bytes m.num_packets ++ []) v.request_id,
        read_u32-write "num_packets" m.num_packets [] v.num_packets,
      )
      refl

pub record IsJoin (m : Join) : Type 0 where
  pub init_attributes : length m.init_attributes ≤ u32_max

pub join-back : (m : Join) → IsJoin m → join_from_bytes (join_to_bytes m) ≡ ok m
unfolding join_from_bytes join_to_bytes
join-back m v =
    rw
      (read_blob-write "init_attributes length" "init_attributes data" m.init_attributes []
        v.init_attributes)
      refl

pub record IsLoadedGame (m : LoadedGame) : Type 0 where
  pub current_turn : m.current_turn ≤ u32_max

pub loaded_game-back :
    (m : LoadedGame) → IsLoadedGame m → loaded_game_from_bytes (loaded_game_to_bytes m) ≡ ok m
unfolding loaded_game_from_bytes loaded_game_to_bytes
loaded_game-back m v = rw (read_u32-write "current_turn" m.current_turn [] v.current_turn) refl

pub record IsStartSettings (m : StartSettings) : Type 0 where
  pub init_attributes : length m.init_attributes ≤ u32_max

pub start_settings-back :
    (m : StartSettings)
    → IsStartSettings m
    → start_settings_from_bytes (start_settings_to_bytes m) ≡ ok m
unfolding start_settings_from_bytes start_settings_to_bytes
start_settings-back m v =
    rw
      (read_blob-write "init_attributes length" "init_attributes data" m.init_attributes []
        v.init_attributes)
      refl

pub record IsStartSavegameSettings (m : StartSavegameSettings) : Type 0 where
  pub init_attributes : IsShort m.init_attributes

pub start_savegame_settings-back :
    (m : StartSavegameSettings)
    → IsStartSavegameSettings m
    → start_savegame_settings_from_bytes (start_savegame_settings_to_bytes m) ≡ ok m
unfolding start_savegame_settings_from_bytes start_savegame_settings_to_bytes
start_savegame_settings-back m v =
    rw
      (read_string-write "init_attributes length" "init_attributes data" "init_attributes"
        m.init_attributes [] v.init_attributes)
      refl

pub record IsTurnSealed (m : TurnSealed) : Type 0 where
  pub turn : m.turn ≤ u32_max
  pub turn_length : m.turn_length ≤ u16_max

pub turn_sealed-back :
    (m : TurnSealed) → IsTurnSealed m → turn_sealed_from_bytes (turn_sealed_to_bytes m) ≡ ok m
unfolding turn_sealed_from_bytes turn_sealed_to_bytes
turn_sealed-back m v =
    rw
      (
        read_u32-write "turn" m.turn (u16_to_be_bytes m.turn_length ++ []) v.turn,
        read_u16-write "turn_length" m.turn_length [] v.turn_length,
      )
      refl

pub record IsStateHash (m : StateHash) : Type 0 where
  pub turn : m.turn ≤ u32_max
  pub hash : length m.hash ≡ 16

pub state_hash-back :
    (m : StateHash) → IsStateHash m → state_hash_from_bytes (state_hash_to_bytes m) ≡ ok m
unfolding state_hash_from_bytes state_hash_to_bytes
state_hash-back m v =
    rw
      (
        read_u32-write "turn" m.turn (write_blob m.hash ++ []) v.turn,
        read_hash-write m.hash [] v.hash,
      )
      refl

pub record IsWrongHashPlayers (m : WrongHashPlayers) : Type 0 where
  pub turn : m.turn ≤ u32_max
  pub hash_expected : length m.hash_expected ≤ u32_max
  pub player_names : All IsWide m.player_names

pub wrong_hash_players-back :
    (m : WrongHashPlayers)
    → IsWrongHashPlayers m
    → wrong_hash_players_from_bytes (wrong_hash_players_to_bytes m) ≡ ok m
unfolding wrong_hash_players_from_bytes wrong_hash_players_to_bytes
wrong_hash_players-back m v =
    rw
      (
        read_u32-write "turn" m.turn
            (write_blob m.hash_expected ++ (write_all write_wide_string m.player_names)) v.turn,
        read_blob-write "hash_expected length" "hash_expected data" m.hash_expected
            (write_all write_wide_string m.player_names) v.hash_expected,
        read_all-write IsWide read_wide_string write_wide_string read_wide_string-write
            length-write_wide_string m.player_names v.player_names,
      )
      refl

pub record IsPlayerCommand (m : PlayerCommand) : Type 0 where
  pub client : m.client ≤ u32_max
  pub player : m.player ≤ u32_max
  pub turn : m.turn ≤ u32_max

pub player_command-back :
    (m : PlayerCommand)
    → IsPlayerCommand m
    → player_command_from_bytes (player_command_to_bytes m) ≡ ok m
unfolding player_command_from_bytes player_command_to_bytes
player_command-back m v =
    rw
      (
        read_u32_le-write "client" m.client
            (u32_to_le_bytes m.player ++ (u32_to_le_bytes m.turn ++ m.payload)) v.client,
        read_u32_le-write "player" m.player (u32_to_le_bytes m.turn ++ m.payload) v.player,
        read_u32_le-write "turn" m.turn m.payload v.turn,
      )
      refl
