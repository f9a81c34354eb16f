-- ===== src/Wire/Handshake.antt =====
-- The messages of a connection until it is admitted: src/relay/messages, one file each.
-- `from_bytes` stops after the last field, as the source does.
pub mod Back
use veredus.Base.{
  ℕ, ◌≤◌, ◌<◌, ◌≡◌, refl, Bool, List, [], ◌∷◌, ◌++◌, length, All, ap, ◌∙◌, ltb, ◌==◌, if◌then◌else◌,
  suc, arith,
}
use veredus.Base.Result.{Result, ok, err, ◌>>=◌}
use veredus.Base.Words.{u32_max, u16_max}
use veredus.Fault.{ParseError, wrong_size, truncated}
use veredus.Text.{Text, Bytes}
use veredus.Wire.{
  Reader, u32_to_be_bytes, u16_to_be_bytes, u32_to_le_bytes, read_u32, read_u32_le, read_u16,
  read_u8, read_flag, flag_to_byte, read_blob, write_blob, read_string, write_string,
  read_wide_string, write_wide_string, read_all, write_all, read_bytes,
}

pub data AuthenticateResultCode : Type 0 where
  code_ok code_ok_saved_game code_ok_rejoining code_password_invalid : AuthenticateResultCode

-- `code as u32`.
unfoldable pub code_to_u32 : AuthenticateResultCode → ℕ
code_to_u32 code_ok = 0
code_to_u32 code_ok_saved_game = 1
code_to_u32 code_ok_rejoining = 2
code_to_u32 code_password_invalid = 3

unfoldable pub u32_to_code : ℕ → AuthenticateResultCode
u32_to_code n =
    if n == 0
    then code_ok
    else if n == 1
    then code_ok_saved_game
    else if n == 2
    then code_ok_rejoining
    else code_password_invalid

pub record EnabledMod : Type 0 where
  pub name : Text
  pub version : Text

unfoldable pub enabled_mod_to_bytes : EnabledMod → Bytes
enabled_mod_to_bytes m = write_string m.name ++ (write_string m.version ++ [])

unfoldable pub enabled_mod_from_bytes : Reader EnabledMod
enabled_mod_from_bytes bs = do
  (name, bs) ← read_string "name length" "name data" "name" bs
  (version, bs) ← read_string "version length" "version data" "version" bs
  ok (record { name = name; version = version }, bs)

pub record Syn : Type 0 where
  pub magic : ℕ
  pub protocol_version : ℕ
  pub engine_version : Text
  pub enabled_mods : List EnabledMod

unfoldable pub syn_to_bytes : Syn → Bytes
syn_to_bytes m =
    u32_to_be_bytes m.magic
    ++ (u32_to_be_bytes m.protocol_version
        ++ (write_string m.engine_version ++ (write_all enabled_mod_to_bytes m.enabled_mods)))

unfoldable pub syn_from_bytes : Bytes → Result ParseError Syn
syn_from_bytes bs = do
  (magic, bs) ← read_u32 "magic" bs
  (protocol_version, bs) ← read_u32 "protocol version" bs
  (engine_version, bs) ←
      read_string "engine version length" "engine version data" "engine version" bs
  enabled_mods ← read_all enabled_mod_from_bytes bs
  ok (record {
    magic = magic;
    protocol_version = protocol_version;
    engine_version = engine_version;
    enabled_mods = enabled_mods;
  })

pub record SynAck : Type 0 where
  pub magic_response : ℕ
  pub protocol_version : ℕ
  pub engine_version : Text
  pub enabled_mods : List EnabledMod

unfoldable pub syn_ack_to_bytes : SynAck → Bytes
syn_ack_to_bytes m =
    u32_to_be_bytes m.magic_response
    ++ (u32_to_be_bytes m.protocol_version
        ++ (write_string m.engine_version ++ (write_all enabled_mod_to_bytes m.enabled_mods)))

unfoldable pub syn_ack_from_bytes : Bytes → Result ParseError SynAck
syn_ack_from_bytes bs = do
  (magic_response, bs) ← read_u32 "magic_response" bs
  (protocol_version, bs) ← read_u32 "protocol_version" bs
  (engine_version, bs) ←
      read_string "engine_version length" "engine_version data" "engine_version" bs
  enabled_mods ← read_all enabled_mod_from_bytes bs
  ok (record {
    magic_response = magic_response;
    protocol_version = protocol_version;
    engine_version = engine_version;
    enabled_mods = enabled_mods;
  })

pub record Ack : Type 0 where
  pub use_protocol_version : ℕ
  pub flags : ℕ
  pub guid : Text

unfoldable pub ack_to_bytes : Ack → Bytes
ack_to_bytes m =
    u32_to_be_bytes m.use_protocol_version
    ++ (u32_to_be_bytes m.flags ++ (write_string m.guid ++ []))

unfoldable pub ack_from_bytes : Bytes → Result ParseError Ack
ack_from_bytes bs = do
  (use_protocol_version, bs) ← read_u32 "use_protocol_version" bs
  (flags, bs) ← read_u32 "flags" bs
  (guid, bs) ← read_string "guid length" "guid data" "guid" bs
  ok (record { use_protocol_version = use_protocol_version; flags = flags; guid = guid })

pub record Authenticate : Type 0 where
  pub name : Text
  pub password : Text
  pub controller_secret : Text

unfoldable pub authenticate_to_bytes : Authenticate → Bytes
authenticate_to_bytes m =
    write_wide_string m.name
    ++ (write_string m.password ++ (write_string m.controller_secret ++ []))

unfoldable pub authenticate_from_bytes : Bytes → Result ParseError Authenticate
authenticate_from_bytes bs = do
  (name, bs) ← read_wide_string bs
  (password, bs) ← read_string "password length" "password data" "password" bs
  (controller_secret, bs) ←
      read_string "controller_secret length" "controller_secret data" "controller_secret" bs
  ok (record { name = name; password = password; controller_secret = controller_secret })

pub record AuthenticateResult : Type 0 where
  pub code : AuthenticateResultCode
  pub host_id : ℕ
  pub is_controller : Bool
  pub message : Text

unfoldable pub authenticate_result_to_bytes : AuthenticateResult → Bytes
authenticate_result_to_bytes m =
    u32_to_be_bytes (code_to_u32 m.code)
    ++ (u16_to_be_bytes m.host_id
        ++ (flag_to_byte m.is_controller ∷ write_wide_string m.message ++ []))

unfoldable pub authenticate_result_from_bytes : Bytes → Result ParseError AuthenticateResult
authenticate_result_from_bytes bs = do
  (code, bs) ← read_u32 "code" bs
  (host_id, bs) ← read_u16 "host_id" bs
  (is_controller, bs) ← read_flag "is_controller" bs
  (message, bs) ← read_wide_string bs
  ok (record {
    code = u32_to_code code;
    host_id = host_id;
    is_controller = is_controller;
    message = message;
  })
