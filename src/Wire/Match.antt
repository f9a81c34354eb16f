-- ===== src/Wire/Match.antt =====
-- The messages of a running match and of the transfer of its state: src/relay/messages, one
-- file each.
-- `from_bytes` stops after the last field, as the source does.
pub mod Back
use veredus.Base.{
  ℕ, ◌≤◌, ◌<◌, ◌≡◌, refl, Bool, List, [], ◌∷◌, ◌++◌, length, All, ap, ◌∙◌, ltb, ◌==◌, if◌then◌else◌,
  suc, arith,
}
use veredus.Base.Result.{Result, ok, err, ◌>>=◌}
use veredus.Base.Words.{u32_max, u16_max}
use veredus.Fault.{ParseError, wrong_size, truncated}
use veredus.Text.{Text, Bytes}
use veredus.Wire.{
  Reader, u32_to_be_bytes, u16_to_be_bytes, u32_to_le_bytes, read_u32, read_u32_le, read_u16,
  read_u8, read_flag, flag_to_byte, read_blob, write_blob, read_string, write_string,
  read_wide_string, write_wide_string, read_all, write_all, read_bytes,
}

-- The hash of a state hash: a length of 32 bits that must be 16, then the bytes.
unfoldable pub read_hash : Reader Bytes
read_hash bs = do
  (n, bs) ← read_u32 "hash length" bs
  if n == 16 then read_bytes "hash data" n bs else err (wrong_size "hash" n 16)

pub record GamestateRequest : Type 0 where
  pub request_type : ℕ
  pub request_id : ℕ

unfoldable pub gamestate_request_to_bytes : GamestateRequest → Bytes
gamestate_request_to_bytes m = m.request_type ∷ u32_to_be_bytes m.request_id ++ []

unfoldable pub gamestate_request_from_bytes : Bytes → Result ParseError GamestateRequest
gamestate_request_from_bytes bs = do
  (request_type, bs) ← read_u8 "request_type" bs
  (request_id, bs) ← read_u32 "request_id" bs
  ok (record { request_type = request_type; request_id = request_id })

pub record GamestateResponse : Type 0 where
  pub request_id : ℕ
  pub size : ℕ

unfoldable pub gamestate_response_to_bytes : GamestateResponse → Bytes
gamestate_response_to_bytes m = u32_to_be_bytes m.request_id ++ (u32_to_be_bytes m.size ++ [])

unfoldable pub gamestate_response_from_bytes : Bytes → Result ParseError GamestateResponse
gamestate_response_from_bytes bs = do
  (request_id, bs) ← read_u32 "request_id" bs
  (size, bs) ← read_u32 "length" bs
  ok (record { request_id = request_id; size = size })

pub record GamestateChunk : Type 0 where
  pub request_id : ℕ
  pub payload : Bytes

unfoldable pub gamestate_chunk_to_bytes : GamestateChunk → Bytes
gamestate_chunk_to_bytes m = u32_to_be_bytes m.request_id ++ (write_blob m.payload ++ [])

unfoldable pub gamestate_chunk_from_bytes : Bytes → Result ParseError GamestateChunk
gamestate_chunk_from_bytes bs = do
  (request_id, bs) ← read_u32 "request_id" bs
  (payload, bs) ← read_blob "data length" "data" bs
  ok (record { request_id = request_id; payload = payload })

pub record GamestateChunkAck : Type 0 where
  pub request_id : ℕ
  pub num_packets : ℕ

unfoldable pub gamestate_chunk_ack_to_bytes : GamestateChunkAck → Bytes
gamestate_chunk_ack_to_bytes m =
    u32_to_be_bytes m.request_id ++ (u32_to_be_bytes m.num_packets ++ [])

unfoldable pub gamestate_chunk_ack_from_bytes : Bytes → Result ParseError GamestateChunkAck
gamestate_chunk_ack_from_bytes bs = do
  (request_id, bs) ← read_u32 "request_id" bs
  (num_packets, bs) ← read_u32 "num_packets" bs
  ok (record { request_id = request_id; num_packets = num_packets })

pub record Join : Type 0 where
  pub init_attributes : Bytes

unfoldable pub join_to_bytes : Join → Bytes
join_to_bytes m = write_blob m.init_attributes ++ []

unfoldable pub join_from_bytes : Bytes → Result ParseError Join
join_from_bytes bs = do
  (init_attributes, bs) ← read_blob "init_attributes length" "init_attributes data" bs
  ok (record { init_attributes = init_attributes })

pub record LoadedGame : Type 0 where
  pub current_turn : ℕ

unfoldable pub loaded_game_to_bytes : LoadedGame → Bytes
loaded_game_to_bytes m = u32_to_be_bytes m.current_turn ++ []

unfoldable pub loaded_game_from_bytes : Bytes → Result ParseError LoadedGame
loaded_game_from_bytes bs = do
  (current_turn, bs) ← read_u32 "current_turn" bs
  ok (record { current_turn = current_turn })

pub record StartSettings : Type 0 where
  pub init_attributes : Bytes

unfoldable pub start_settings_to_bytes : StartSettings → Bytes
start_settings_to_bytes m = write_blob m.init_attributes ++ []

unfoldable pub start_settings_from_bytes : Bytes → Result ParseError StartSettings
start_settings_from_bytes bs = do
  (init_attributes, bs) ← read_blob "init_attributes length" "init_attributes data" bs
  ok (record { init_attributes = init_attributes })

pub record StartSavegameSettings : Type 0 where
  pub init_attributes : Text

unfoldable pub start_savegame_settings_to_bytes : StartSavegameSettings → Bytes
start_savegame_settings_to_bytes m = write_string m.init_attributes ++ []

unfoldable pub start_savegame_settings_from_bytes : Bytes → Result ParseError StartSavegameSettings
start_savegame_settings_from_bytes bs = do
  (init_attributes, bs) ←
      read_string "init_attributes length" "init_attributes data" "init_attributes" bs
  ok (record { init_attributes = init_attributes })

pub record TurnSealed : Type 0 where
  pub turn : ℕ
  pub turn_length : ℕ

unfoldable pub turn_sealed_to_bytes : TurnSealed → Bytes
turn_sealed_to_bytes m = u32_to_be_bytes m.turn ++ (u16_to_be_bytes m.turn_length ++ [])

unfoldable pub turn_sealed_from_bytes : Bytes → Result ParseError TurnSealed
turn_sealed_from_bytes bs = do
  (turn, bs) ← read_u32 "turn" bs
  (turn_length, bs) ← read_u16 "turn_length" bs
  ok (record { turn = turn; turn_length = turn_length })

pub record StateHash : Type 0 where
  pub turn : ℕ
  pub hash : Bytes

unfoldable pub state_hash_to_bytes : StateHash → Bytes
state_hash_to_bytes m = u32_to_be_bytes m.turn ++ (write_blob m.hash ++ [])

unfoldable pub state_hash_from_bytes : Bytes → Result ParseError StateHash
state_hash_from_bytes bs = do
  (turn, bs) ← read_u32 "turn" bs
  (hash, bs) ← read_hash bs
  ok (record { turn = turn; hash = hash })

pub record WrongHashPlayers : Type 0 where
  pub turn : ℕ
  pub hash_expected : Bytes
  pub player_names : List Text

unfoldable pub wrong_hash_players_to_bytes : WrongHashPlayers → Bytes
wrong_hash_players_to_bytes m =
    u32_to_be_bytes m.turn
    ++ (write_blob m.hash_expected ++ (write_all write_wide_string m.player_names))

unfoldable pub wrong_hash_players_from_bytes : Bytes → Result ParseError WrongHashPlayers
wrong_hash_players_from_bytes bs = do
  (turn, bs) ← read_u32 "turn" bs
  (hash_expected, bs) ← read_blob "hash_expected length" "hash_expected data" bs
  player_names ← read_all read_wide_string bs
  ok (record { turn = turn; hash_expected = hash_expected; player_names = player_names })

pub record PlayerCommand : Type 0 where
  pub client : ℕ
  pub player : ℕ
  pub turn : ℕ
  pub payload : Bytes

unfoldable pub player_command_to_bytes : PlayerCommand → Bytes
player_command_to_bytes m =
    u32_to_le_bytes m.client ++ (u32_to_le_bytes m.player ++ (u32_to_le_bytes m.turn ++ m.payload))

unfoldable pub player_command_from_bytes : Bytes → Result ParseError PlayerCommand
player_command_from_bytes bs = do
  (client, bs) ← read_u32_le "client" bs
  (player, bs) ← read_u32_le "player" bs
  (turn, bs) ← read_u32_le "turn" bs
  ok (record { client = client; player = player; turn = turn; payload = bs })
