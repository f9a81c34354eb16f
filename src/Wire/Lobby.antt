-- ===== src/Wire/Lobby.antt =====
-- The messages about who is there, before a match and in it: src/relay/messages, one file each.
-- `from_bytes` stops after the last field, as the source does.
pub mod Back
use veredus.Base.{
  ℕ, ◌≤◌, ◌<◌, ◌≡◌, refl, Bool, List, [], ◌∷◌, ◌++◌, length, All, ap, ◌∙◌, ltb, ◌==◌, if◌then◌else◌,
  suc, arith,
}
use veredus.Base.Result.{Result, ok, err, ◌>>=◌}
use veredus.Base.Words.{u32_max, u16_max}
use veredus.Fault.{ParseError, wrong_size, truncated}
use veredus.Text.{Text, Bytes}
use veredus.Wire.{
  Reader, u32_to_be_bytes, u16_to_be_bytes, u32_to_le_bytes, read_u32, read_u32_le, read_u16,
  read_u8, read_flag, flag_to_byte, read_blob, write_blob, read_string, write_string,
  read_wide_string, write_wide_string, read_all, write_all, read_bytes,
}

pub record Host : Type 0 where
  pub guid : Text
  pub name : Text
  pub player_id : ℕ
  pub status : ℕ

unfoldable pub host_to_bytes : Host → Bytes
host_to_bytes m = write_string m.guid ++ (write_wide_string m.name ++ (m.player_id ∷ m.status ∷ []))

unfoldable pub host_from_bytes : Reader Host
host_from_bytes bs = do
  (guid, bs) ← read_string "guid length" "guid data" "guid" bs
  (name, bs) ← read_wide_string bs
  (player_id, bs) ← read_u8 "player_id" bs
  (status, bs) ← read_u8 "status" bs
  ok (record { guid = guid; name = name; player_id = player_id; status = status }, bs)

pub record PerformanceEntry : Type 0 where
  pub guid : Text
  pub mean_rtt : ℕ

unfoldable pub performance_entry_to_bytes : PerformanceEntry → Bytes
performance_entry_to_bytes m = write_string m.guid ++ (u32_to_be_bytes m.mean_rtt ++ [])

unfoldable pub performance_entry_from_bytes : Reader PerformanceEntry
performance_entry_from_bytes bs = do
  (guid, bs) ← read_string "guid length" "guid data" "guid" bs
  (mean_rtt, bs) ← read_u32 "mean_rtt" bs
  ok (record { guid = guid; mean_rtt = mean_rtt }, bs)

pub record Chat : Type 0 where
  pub sender_guid : Text
  pub message : Text
  pub receivers : List Text

unfoldable pub chat_to_bytes : Chat → Bytes
chat_to_bytes m =
    write_string m.sender_guid
    ++ (write_wide_string m.message ++ (write_all write_string m.receivers))

unfoldable pub chat_from_bytes : Bytes → Result ParseError Chat
chat_from_bytes bs = do
  (sender_guid, bs) ← read_string "sender_guid length" "sender_guid data" "sender_guid" bs
  (message, bs) ← read_wide_string bs
  receivers ← read_all (read_string "receiver guid length" "receiver guid data" "receiver guid") bs
  ok (record { sender_guid = sender_guid; message = message; receivers = receivers })

pub record PreGameStatus : Type 0 where
  pub guid : Text
  pub status : ℕ

unfoldable pub pre_game_status_to_bytes : PreGameStatus → Bytes
pre_game_status_to_bytes m = write_string m.guid ++ (m.status ∷ [])

unfoldable pub pre_game_status_from_bytes : Bytes → Result ParseError PreGameStatus
pre_game_status_from_bytes bs = do
  (guid, bs) ← read_string "guid length" "guid data" "guid" bs
  (status, bs) ← read_u8 "status" bs
  ok (record { guid = guid; status = status })

pub record GameSettings : Type 0 where
  pub payload : Bytes

unfoldable pub game_settings_to_bytes : GameSettings → Bytes
game_settings_to_bytes m = m.payload

unfoldable pub game_settings_from_bytes : Bytes → Result ParseError GameSettings
game_settings_from_bytes bs = ok (record { payload = bs })

pub record MapPlayerIdToSlot : Type 0 where
  pub player_id : ℕ
  pub guid : Text

unfoldable pub map_player_id_to_slot_to_bytes : MapPlayerIdToSlot → Bytes
map_player_id_to_slot_to_bytes m = m.player_id ∷ write_string m.guid ++ []

unfoldable pub map_player_id_to_slot_from_bytes : Bytes → Result ParseError MapPlayerIdToSlot
map_player_id_to_slot_from_bytes bs = do
  (player_id, bs) ← read_u8 "player_id" bs
  (guid, bs) ← read_string "guid length" "guid data" "guid" bs
  ok (record { player_id = player_id; guid = guid })

pub record PlayerSlots : Type 0 where
  pub hosts : List Host

unfoldable pub player_slots_to_bytes : PlayerSlots → Bytes
player_slots_to_bytes m = write_all host_to_bytes m.hosts

unfoldable pub player_slots_from_bytes : Bytes → Result ParseError PlayerSlots
player_slots_from_bytes bs = do hosts ← read_all host_from_bytes bs; ok (record { hosts = hosts })

pub record Joined : Type 0 where
  pub guid : Text

unfoldable pub joined_to_bytes : Joined → Bytes
joined_to_bytes m = write_string m.guid ++ []

unfoldable pub joined_from_bytes : Bytes → Result ParseError Joined
joined_from_bytes bs = do
  (guid, bs) ← read_string "guid length" "guid data" "guid" bs
  ok (record { guid = guid })

pub record Kicked : Type 0 where
  pub name : Text
  pub ban : Bool

unfoldable pub kicked_to_bytes : Kicked → Bytes
kicked_to_bytes m = write_wide_string m.name ++ (flag_to_byte m.ban ∷ [])

unfoldable pub kicked_from_bytes : Bytes → Result ParseError Kicked
kicked_from_bytes bs = do
  (name, bs) ← read_wide_string bs
  (ban, bs) ← read_flag "ban" bs
  ok (record { name = name; ban = ban })

pub record LastSeen : Type 0 where
  pub guid : Text
  pub last_received_time : ℕ

unfoldable pub last_seen_to_bytes : LastSeen → Bytes
last_seen_to_bytes m = write_string m.guid ++ (u32_to_be_bytes m.last_received_time ++ [])

unfoldable pub last_seen_from_bytes : Bytes → Result ParseError LastSeen
last_seen_from_bytes bs = do
  (guid, bs) ← read_string "guid length" "guid data" "guid" bs
  (last_received_time, bs) ← read_u32 "last_received_time" bs
  ok (record { guid = guid; last_received_time = last_received_time })

pub record LaggingClients : Type 0 where
  pub clients : List PerformanceEntry

unfoldable pub lagging_clients_to_bytes : LaggingClients → Bytes
lagging_clients_to_bytes m = write_all performance_entry_to_bytes m.clients

unfoldable pub lagging_clients_from_bytes : Bytes → Result ParseError LaggingClients
lagging_clients_from_bytes bs = do
  clients ← read_all performance_entry_from_bytes bs
  ok (record { clients = clients })

pub record PlayersLoading : Type 0 where
  pub clients : List Text

unfoldable pub players_loading_to_bytes : PlayersLoading → Bytes
players_loading_to_bytes m = write_all write_string m.clients

unfoldable pub players_loading_from_bytes : Bytes → Result ParseError PlayersLoading
players_loading_from_bytes bs = do
  clients ← read_all (read_string "guid length" "guid data" "guid") bs
  ok (record { clients = clients })

pub record PlayerPause : Type 0 where
  pub guid : Text
  pub pause : Bool

unfoldable pub player_pause_to_bytes : PlayerPause → Bytes
player_pause_to_bytes m = write_string m.guid ++ (flag_to_byte m.pause ∷ [])

unfoldable pub player_pause_from_bytes : Bytes → Result ParseError PlayerPause
player_pause_from_bytes bs = do
  (guid, bs) ← read_string "guid length" "guid data" "guid" bs
  (pause, bs) ← read_flag "pause" bs
  ok (record { guid = guid; pause = pause })

pub record Flare : Type 0 where
  pub guid : Text
  pub position_x : Text
  pub position_y : Text
  pub position_z : Text

unfoldable pub flare_to_bytes : Flare → Bytes
flare_to_bytes m =
    write_string m.guid
    ++ (write_string m.position_x
        ++ (write_string m.position_y ++ (write_string m.position_z ++ [])))

unfoldable pub flare_from_bytes : Bytes → Result ParseError Flare
flare_from_bytes bs = do
  (guid, bs) ← read_string "guid length" "guid data" "guid" bs
  (position_x, bs) ← read_string "position_x length" "position_x data" "position_x" bs
  (position_y, bs) ← read_string "position_y length" "position_y data" "position_y" bs
  (position_z, bs) ← read_string "position_z length" "position_z data" "position_z" bs
  ok (record {
    guid = guid;
    position_x = position_x;
    position_y = position_y;
    position_z = position_z;
  })
