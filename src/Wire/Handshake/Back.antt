-- ===== src/Wire/Handshake/Back.antt =====
-- What each message needs to survive the wire, and that it does.
use veredus.Base.{◌≤◌, ◌<◌, ◌≡◌, refl, [], ◌∷◌, ◌++◌, length, All, ap, ◌∙◌, arith}
use veredus.Base.Result.{ok}
use veredus.Base.Words.{u32_max, u16_max}
use veredus.Text.{Bytes}
use veredus.Wire.{
  u32_to_be_bytes, u16_to_be_bytes, flag_to_byte, write_string, write_wide_string, write_all,
}
use veredus.Wire.RoundTrip.{
  read_u32-write, read_u16-write, read_flag-write, read_string-write, read_wide_string-write,
  read_all-write, IsShort, IsWide, append_assoc, length-write_string,
}
use veredus.Wire.Handshake.{
  EnabledMod, enabled_mod_to_bytes, enabled_mod_from_bytes, Syn, syn_to_bytes, syn_from_bytes,
  SynAck, syn_ack_to_bytes, syn_ack_from_bytes, Ack, ack_to_bytes, ack_from_bytes, Authenticate,
  authenticate_to_bytes, authenticate_from_bytes, AuthenticateResult, authenticate_result_to_bytes,
  authenticate_result_from_bytes, AuthenticateResultCode, code_to_u32, u32_to_code, code_ok,
  code_ok_saved_game, code_ok_rejoining, code_password_invalid,
}

code-le : (c : AuthenticateResultCode) → code_to_u32 c ≤ u32_max
unfolding code_to_u32
code-le code_ok = omega arith
code-le code_ok_saved_game = omega arith
code-le code_ok_rejoining = omega arith
code-le code_password_invalid = omega arith

u32_to_code-code : (c : AuthenticateResultCode) → u32_to_code (code_to_u32 c) ≡ c
unfolding code_to_u32 u32_to_code
u32_to_code-code code_ok = refl
u32_to_code-code code_ok_saved_game = refl
u32_to_code-code code_ok_rejoining = refl
u32_to_code-code code_password_invalid = refl

pub record IsEnabledMod (m : EnabledMod) : Type 0 where
  pub name : IsShort m.name
  pub version : IsShort m.version

enabled_mod_split :
    (m : EnabledMod) (rest : Bytes)
    → enabled_mod_to_bytes m ++ rest ≡ write_string m.name ++ (write_string m.version ++ rest)
unfolding enabled_mod_to_bytes
enabled_mod_split m rest =
    append_assoc (write_string m.name) (write_string m.version ++ []) rest
    ∙ ap (λ t. write_string m.name ++ t) (append_assoc (write_string m.version) [] rest)

pub enabled_mod-back :
    (m : EnabledMod) (rest : Bytes)
    → IsEnabledMod m
    → enabled_mod_from_bytes (enabled_mod_to_bytes m ++ rest) ≡ ok (m, rest)
unfolding enabled_mod_from_bytes
enabled_mod-back m rest v =
    rw
      (
        enabled_mod_split m rest,
        read_string-write "name length" "name data" "name" m.name (write_string m.version ++ rest)
            v.name,
        read_string-write "version length" "version data" "version" m.version rest v.version,
      )
      refl

pub length-enabled_mod :
    (m : EnabledMod) (rest : Bytes) → length rest < length (enabled_mod_to_bytes m ++ rest)
length-enabled_mod m rest =
    let first = length-write_string m.name (write_string m.version ++ rest) in
    let second = length-write_string m.version rest in rw (enabled_mod_split m rest) (omega arith)

pub record IsSyn (m : Syn) : Type 0 where
  pub magic : m.magic ≤ u32_max
  pub protocol_version : m.protocol_version ≤ u32_max
  pub engine_version : IsShort m.engine_version
  pub enabled_mods : All IsEnabledMod m.enabled_mods

pub syn-back : (m : Syn) → IsSyn m → syn_from_bytes (syn_to_bytes m) ≡ ok m
unfolding syn_from_bytes syn_to_bytes
syn-back m v =
    rw
      (
        read_u32-write "magic" m.magic
            (u32_to_be_bytes m.protocol_version
              ++ (write_string m.engine_version ++ (write_all enabled_mod_to_bytes m.enabled_mods)))
            v.magic,
        read_u32-write "protocol version" m.protocol_version
            (write_string m.engine_version ++ (write_all enabled_mod_to_bytes m.enabled_mods))
            v.protocol_version,
        read_string-write "engine version length" "engine version data" "engine version"
            m.engine_version (write_all enabled_mod_to_bytes m.enabled_mods) v.engine_version,
        read_all-write IsEnabledMod enabled_mod_from_bytes enabled_mod_to_bytes enabled_mod-back
            length-enabled_mod m.enabled_mods v.enabled_mods,
      )
      refl

pub record IsSynAck (m : SynAck) : Type 0 where
  pub magic_response : m.magic_response ≤ u32_max
  pub protocol_version : m.protocol_version ≤ u32_max
  pub engine_version : IsShort m.engine_version
  pub enabled_mods : All IsEnabledMod m.enabled_mods

pub syn_ack-back : (m : SynAck) → IsSynAck m → syn_ack_from_bytes (syn_ack_to_bytes m) ≡ ok m
unfolding syn_ack_from_bytes syn_ack_to_bytes
syn_ack-back m v =
    rw
      (
        read_u32-write "magic_response" m.magic_response
            (u32_to_be_bytes m.protocol_version
              ++ (write_string m.engine_version ++ (write_all enabled_mod_to_bytes m.enabled_mods)))
            v.magic_response,
        read_u32-write "protocol_version" m.protocol_version
            (write_string m.engine_version ++ (write_all enabled_mod_to_bytes m.enabled_mods))
            v.protocol_version,
        read_string-write "engine_version length" "engine_version data" "engine_version"
            m.engine_version (write_all enabled_mod_to_bytes m.enabled_mods) v.engine_version,
        read_all-write IsEnabledMod enabled_mod_from_bytes enabled_mod_to_bytes enabled_mod-back
            length-enabled_mod m.enabled_mods v.enabled_mods,
      )
      refl

pub record IsAck (m : Ack) : Type 0 where
  pub use_protocol_version : m.use_protocol_version ≤ u32_max
  pub flags : m.flags ≤ u32_max
  pub guid : IsShort m.guid

pub ack-back : (m : Ack) → IsAck m → ack_from_bytes (ack_to_bytes m) ≡ ok m
unfolding ack_from_bytes ack_to_bytes
ack-back m v =
    rw
      (
        read_u32-write "use_protocol_version" m.use_protocol_version
            (u32_to_be_bytes m.flags ++ (write_string m.guid ++ [])) v.use_protocol_version,
        read_u32-write "flags" m.flags (write_string m.guid ++ []) v.flags,
        read_string-write "guid length" "guid data" "guid" m.guid [] v.guid,
      )
      refl

pub record IsAuthenticate (m : Authenticate) : Type 0 where
  pub name : IsWide m.name
  pub password : IsShort m.password
  pub controller_secret : IsShort m.controller_secret

pub authenticate-back :
    (m : Authenticate) → IsAuthenticate m → authenticate_from_bytes (authenticate_to_bytes m) ≡ ok m
unfolding authenticate_from_bytes authenticate_to_bytes
authenticate-back m v =
    rw
      (
        read_wide_string-write m.name
            (write_string m.password ++ (write_string m.controller_secret ++ [])) v.name,
        read_string-write "password length" "password data" "password" m.password
            (write_string m.controller_secret ++ []) v.password,
        read_string-write "controller_secret length" "controller_secret data" "controller_secret"
            m.controller_secret [] v.controller_secret,
      )
      refl

pub record IsAuthenticateResult (m : AuthenticateResult) : Type 0 where
  pub host_id : m.host_id ≤ u16_max
  pub message : IsWide m.message

pub authenticate_result-back :
    (m : AuthenticateResult)
    → IsAuthenticateResult m
    → authenticate_result_from_bytes (authenticate_result_to_bytes m) ≡ ok m
unfolding authenticate_result_from_bytes authenticate_result_to_bytes
authenticate_result-back m v =
    rw
      (
        read_u32-write "code" (code_to_u32 m.code)
            (u16_to_be_bytes m.host_id
              ++ (flag_to_byte m.is_controller ∷ write_wide_string m.message ++ []))
            (code-le m.code),
        u32_to_code-code m.code,
        read_u16-write "host_id" m.host_id
            (flag_to_byte m.is_controller ∷ write_wide_string m.message ++ []) v.host_id,
        read_flag-write "is_controller" m.is_controller (write_wide_string m.message ++ []),
        read_wide_string-write m.message [] v.message,
      )
      refl
