-- ===== src/Wire/Lobby/Back.antt =====
-- What each message needs to survive the wire, and that it does.
use veredus.Base.{◌≤◌, ◌<◌, ◌≡◌, refl, [], ◌∷◌, ◌++◌, length, All, ap, ◌∙◌, arith}
use veredus.Base.Result.{ok}
use veredus.Base.Words.{u32_max}
use veredus.Text.{Bytes}
use veredus.Wire.{
  u32_to_be_bytes, flag_to_byte, read_string, write_string, write_wide_string, write_all,
}
use veredus.Wire.RoundTrip.{
  read_u32-write, read_u8-write, read_flag-write, read_string-write, read_wide_string-write,
  read_all-write, IsShort, IsWide, append_assoc, length-write_string, length-write_wide_string,
}
use veredus.Wire.Lobby.{
  Host, host_to_bytes, host_from_bytes, PerformanceEntry, performance_entry_to_bytes,
  performance_entry_from_bytes, Chat, chat_to_bytes, chat_from_bytes, PreGameStatus,
  pre_game_status_to_bytes, pre_game_status_from_bytes, GameSettings, game_settings_to_bytes,
  game_settings_from_bytes, MapPlayerIdToSlot, map_player_id_to_slot_to_bytes,
  map_player_id_to_slot_from_bytes, PlayerSlots, player_slots_to_bytes, player_slots_from_bytes,
  Joined, joined_to_bytes, joined_from_bytes, Kicked, kicked_to_bytes, kicked_from_bytes, LastSeen,
  last_seen_to_bytes, last_seen_from_bytes, LaggingClients, lagging_clients_to_bytes,
  lagging_clients_from_bytes, PlayersLoading, players_loading_to_bytes, players_loading_from_bytes,
  PlayerPause, player_pause_to_bytes, player_pause_from_bytes, Flare, flare_to_bytes,
  flare_from_bytes,
}

pub record IsHost (m : Host) : Type 0 where
  pub guid : IsShort m.guid
  pub name : IsWide m.name

host_split :
    (m : Host) (rest : Bytes)
    → host_to_bytes m ++ rest
      ≡ write_string m.guid ++ (write_wide_string m.name ++ (m.player_id ∷ m.status ∷ rest))
unfolding host_to_bytes
host_split m rest =
    append_assoc (write_string m.guid) _ rest
    ∙ ap (λ t. write_string m.guid ++ t)
        (append_assoc (write_wide_string m.name) (m.player_id ∷ m.status ∷ []) rest)

pub host-back :
    (m : Host) (rest : Bytes) → IsHost m → host_from_bytes (host_to_bytes m ++ rest) ≡ ok (m, rest)
unfolding host_from_bytes
host-back m rest v =
    rw
      (
        host_split m rest,
        read_string-write "guid length" "guid data" "guid" m.guid
            (write_wide_string m.name ++ (m.player_id ∷ m.status ∷ rest)) v.guid,
        read_wide_string-write m.name (m.player_id ∷ m.status ∷ rest) v.name,
        read_u8-write "player_id" m.player_id (m.status ∷ rest),
        read_u8-write "status" m.status rest,
      )
      refl

pub length-host : (m : Host) (rest : Bytes) → length rest < length (host_to_bytes m ++ rest)
length-host m rest =
    let tail = m.player_id ∷ m.status ∷ rest in
    let first = length-write_string m.guid (write_wide_string m.name ++ tail) in
    let second = length-write_wide_string m.name tail in rw (host_split m rest) (omega arith)

pub record IsPerformanceEntry (m : PerformanceEntry) : Type 0 where
  pub guid : IsShort m.guid
  pub mean_rtt : m.mean_rtt ≤ u32_max

performance_entry_split :
    (m : PerformanceEntry) (rest : Bytes)
    → performance_entry_to_bytes m ++ rest
      ≡ write_string m.guid ++ (u32_to_be_bytes m.mean_rtt ++ rest)
unfolding performance_entry_to_bytes
performance_entry_split m rest =
    append_assoc (write_string m.guid) _ rest
    ∙ ap (λ t. write_string m.guid ++ t) (append_assoc (u32_to_be_bytes m.mean_rtt) [] rest)

pub performance_entry-back :
    (m : PerformanceEntry) (rest : Bytes)
    → IsPerformanceEntry m
    → performance_entry_from_bytes (performance_entry_to_bytes m ++ rest) ≡ ok (m, rest)
unfolding performance_entry_from_bytes
performance_entry-back m rest v =
    rw
      (
        performance_entry_split m rest,
        read_string-write "guid length" "guid data" "guid" m.guid
            (u32_to_be_bytes m.mean_rtt ++ rest) v.guid,
        read_u32-write "mean_rtt" m.mean_rtt rest v.mean_rtt,
      )
      refl

pub length-performance_entry :
    (m : PerformanceEntry) (rest : Bytes)
    → length rest < length (performance_entry_to_bytes m ++ rest)
unfolding u32_to_be_bytes
length-performance_entry m rest =
    let first = length-write_string m.guid (u32_to_be_bytes m.mean_rtt ++ rest) in
    rw (performance_entry_split m rest) (omega arith)

pub record IsChat (m : Chat) : Type 0 where
  pub sender_guid : IsShort m.sender_guid
  pub message : IsWide m.message
  pub receivers : All IsShort m.receivers

pub chat-back : (m : Chat) → IsChat m → chat_from_bytes (chat_to_bytes m) ≡ ok m
unfolding chat_from_bytes chat_to_bytes
chat-back m v =
    rw
      (
        read_string-write "sender_guid length" "sender_guid data" "sender_guid" m.sender_guid
            (write_wide_string m.message ++ (write_all write_string m.receivers)) v.sender_guid,
        read_wide_string-write m.message (write_all write_string m.receivers) v.message,
        read_all-write IsShort
            (read_string "receiver guid length" "receiver guid data" "receiver guid") write_string
            (read_string-write "receiver guid length" "receiver guid data" "receiver guid")
            length-write_string m.receivers v.receivers,
      )
      refl

pub record IsPreGameStatus (m : PreGameStatus) : Type 0 where
  pub guid : IsShort m.guid

pub pre_game_status-back :
    (m : PreGameStatus)
    → IsPreGameStatus m
    → pre_game_status_from_bytes (pre_game_status_to_bytes m) ≡ ok m
unfolding pre_game_status_from_bytes pre_game_status_to_bytes
pre_game_status-back m v =
    rw
      (
        read_string-write "guid length" "guid data" "guid" m.guid (m.status ∷ []) v.guid,
        read_u8-write "status" m.status [],
      )
      refl

pub game_settings-back :
    (m : GameSettings) → game_settings_from_bytes (game_settings_to_bytes m) ≡ ok m
unfolding game_settings_from_bytes game_settings_to_bytes
game_settings-back m = refl

pub record IsMapPlayerIdToSlot (m : MapPlayerIdToSlot) : Type 0 where
  pub guid : IsShort m.guid

pub map_player_id_to_slot-back :
    (m : MapPlayerIdToSlot)
    → IsMapPlayerIdToSlot m
    → map_player_id_to_slot_from_bytes (map_player_id_to_slot_to_bytes m) ≡ ok m
unfolding map_player_id_to_slot_from_bytes map_player_id_to_slot_to_bytes
map_player_id_to_slot-back m v =
    rw
      (
        read_u8-write "player_id" m.player_id (write_string m.guid ++ []),
        read_string-write "guid length" "guid data" "guid" m.guid [] v.guid,
      )
      refl

pub record IsPlayerSlots (m : PlayerSlots) : Type 0 where
  pub hosts : All IsHost m.hosts

pub player_slots-back :
    (m : PlayerSlots) → IsPlayerSlots m → player_slots_from_bytes (player_slots_to_bytes m) ≡ ok m
unfolding player_slots_from_bytes player_slots_to_bytes
player_slots-back m v =
    rw (read_all-write IsHost host_from_bytes host_to_bytes host-back length-host m.hosts v.hosts)
      refl

pub record IsJoined (m : Joined) : Type 0 where
  pub guid : IsShort m.guid

pub joined-back : (m : Joined) → IsJoined m → joined_from_bytes (joined_to_bytes m) ≡ ok m
unfolding joined_from_bytes joined_to_bytes
joined-back m v = rw (read_string-write "guid length" "guid data" "guid" m.guid [] v.guid) refl

pub record IsKicked (m : Kicked) : Type 0 where
  pub name : IsWide m.name

pub kicked-back : (m : Kicked) → IsKicked m → kicked_from_bytes (kicked_to_bytes m) ≡ ok m
unfolding kicked_from_bytes kicked_to_bytes
kicked-back m v =
    rw
      (
        read_wide_string-write m.name (flag_to_byte m.ban ∷ []) v.name,
        read_flag-write "ban" m.ban [],
      )
      refl

pub record IsLastSeen (m : LastSeen) : Type 0 where
  pub guid : IsShort m.guid
  pub last_received_time : m.last_received_time ≤ u32_max

pub last_seen-back :
    (m : LastSeen) → IsLastSeen m → last_seen_from_bytes (last_seen_to_bytes m) ≡ ok m
unfolding last_seen_from_bytes last_seen_to_bytes
last_seen-back m v =
    rw
      (
        read_string-write "guid length" "guid data" "guid" m.guid
            (u32_to_be_bytes m.last_received_time ++ []) v.guid,
        read_u32-write "last_received_time" m.last_received_time [] v.last_received_time,
      )
      refl

pub record IsLaggingClients (m : LaggingClients) : Type 0 where
  pub clients : All IsPerformanceEntry m.clients

pub lagging_clients-back :
    (m : LaggingClients)
    → IsLaggingClients m
    → lagging_clients_from_bytes (lagging_clients_to_bytes m) ≡ ok m
unfolding lagging_clients_from_bytes lagging_clients_to_bytes
lagging_clients-back m v =
    rw
      (read_all-write IsPerformanceEntry performance_entry_from_bytes performance_entry_to_bytes
        performance_entry-back length-performance_entry m.clients v.clients)
      refl

pub record IsPlayersLoading (m : PlayersLoading) : Type 0 where
  pub clients : All IsShort m.clients

pub players_loading-back :
    (m : PlayersLoading)
    → IsPlayersLoading m
    → players_loading_from_bytes (players_loading_to_bytes m) ≡ ok m
unfolding players_loading_from_bytes players_loading_to_bytes
players_loading-back m v =
    rw
      (read_all-write IsShort (read_string "guid length" "guid data" "guid") write_string
        (read_string-write "guid length" "guid data" "guid") length-write_string m.clients
        v.clients)
      refl

pub record IsPlayerPause (m : PlayerPause) : Type 0 where
  pub guid : IsShort m.guid

pub player_pause-back :
    (m : PlayerPause) → IsPlayerPause m → player_pause_from_bytes (player_pause_to_bytes m) ≡ ok m
unfolding player_pause_from_bytes player_pause_to_bytes
player_pause-back m v =
    rw
      (
        read_string-write "guid length" "guid data" "guid" m.guid (flag_to_byte m.pause ∷ [])
            v.guid,
        read_flag-write "pause" m.pause [],
      )
      refl

pub record IsFlare (m : Flare) : Type 0 where
  pub guid : IsShort m.guid
  pub position_x : IsShort m.position_x
  pub position_y : IsShort m.position_y
  pub position_z : IsShort m.position_z

pub flare-back : (m : Flare) → IsFlare m → flare_from_bytes (flare_to_bytes m) ≡ ok m
unfolding flare_from_bytes flare_to_bytes
flare-back m v =
    rw
      (
        read_string-write "guid length" "guid data" "guid" m.guid
            (write_string m.position_x
              ++ (write_string m.position_y ++ (write_string m.position_z ++ [])))
            v.guid,
        read_string-write "position_x length" "position_x data" "position_x" m.position_x
            (write_string m.position_y ++ (write_string m.position_z ++ [])) v.position_x,
        read_string-write "position_y length" "position_y data" "position_y" m.position_y
            (write_string m.position_z ++ []) v.position_y,
        read_string-write "position_z length" "position_z data" "position_z" m.position_z []
            v.position_z,
      )
      refl
