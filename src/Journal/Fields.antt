-- ===== src/Journal/Fields.antt =====
-- src/savegame/journal.rs: each field, and each record, comes back from its bytes.
use veredus.Base.{
  ℕ, zero, suc, ◌+◌, ◌*◌, ◌/◌, ◌%◌, ◌≡◌, refl, ap, sym, ◌∙◌, ◌≤◌, ◌<◌, min, false, some, List, [],
  ◌∷◌, ◌++◌, length, take, arith, All, ltb, take-length-append, drop-length-append, length-append,
}
use mathlib.Core.List.{append-nil}
use veredus.Base.Words.{u16_max, u32_max}
use veredus.Journal.{
  Record, turn_record, hash_record, resumed_record, stopped_record, u16_to_le_bytes,
  i64_to_le_bytes, write_commands, body_of, next_u8, next_u16, next_i64, parse_command,
  read_commands, read_turn, read_hash_record, read_time, read_kind, from_body, u8_max,
}
use veredus.Script.{read_u32, take_bytes}
use veredus.Text.{Bytes}
use veredus.Wire.{u32_to_le_bytes}
use veredus.Wire.RoundTrip.{append_assoc}
use veredus.Wire.Match.{PlayerCommand, player_command_to_bytes}
use veredus.Wire.Match.Back.{IsPlayerCommand, player_command-back}

pub read_u32-le :
    (n : ℕ) (rest : Bytes) → n ≤ u32_max → read_u32 (u32_to_le_bytes n ++ rest) ≡ some (n, rest)
unfolding read_u32 u32_to_le_bytes
read_u32-le n rest h =
    let same : n % 256
          + n / 256 % 256 * 256
          + n / 65536 % 256 * 65536
          + n / 16777216 % 256 * 16777216
        ≡ n =
      omega arith in
    rw same refl

next_u16-le :
    (n : ℕ) (rest : Bytes) → n ≤ u16_max → next_u16 (u16_to_le_bytes n ++ rest) ≡ some (n, rest)
unfolding next_u16 u16_to_le_bytes
next_u16-le n rest h = let same : n % 256 + n / 256 % 256 * 256 ≡ n = omega arith in rw same refl

pub take_bytes-append : (a b : Bytes) → take_bytes (length a) (a ++ b) ≡ some (a, b)
unfolding take_bytes
take_bytes-append a b =
    let enough : ltb (length (a ++ b)) (length a) ≡ false = ground (arith, length-append a b) in
    rw (enough, take-length-append a b, drop-length-append a b) refl

next_i64-le :
    (n : ℕ) (rest : Bytes)
    → n < 18446744073709551616
    → next_i64 (i64_to_le_bytes n ++ rest) ≡ some (n, rest)
unfolding next_i64 i64_to_le_bytes
next_i64-le n rest h =
    let low = u32_to_le_bytes (n % 4294967296) in
    let high = u32_to_le_bytes (n / 4294967296) in
    rw
      (
        append_assoc low high rest,
        read_u32-le (n % 4294967296) (high ++ rest) (omega arith),
        read_u32-le (n / 4294967296) rest (omega arith),
      )
      (ap (λ m. some (m, rest)) (omega arith))

-- A command that its length and its form on the wire can hold.
pub record IsCommand (k : PlayerCommand) : Type 0 where
  pub valid : IsPlayerCommand k
  pub short : length (player_command_to_bytes k) ≤ u32_max

parse_command-back :
    (k : PlayerCommand) → IsCommand k → parse_command (player_command_to_bytes k) ≡ some k
unfolding parse_command
parse_command-back k v = rw (parse_command, player_command-back k v.valid) refl

read_commands-back :
    (ks : List PlayerCommand) (rest : Bytes)
    → All IsCommand ks
    → read_commands (length ks) (write_commands ks ++ rest) ≡ some (ks, rest)
unfolding read_commands write_commands
read_commands-back [] rest v = refl
read_commands-back (k ∷ ks) rest v =
    let bytes = player_command_to_bytes k in
    rw
      (
        append_assoc (u32_to_le_bytes (length bytes)) (bytes ++ write_commands ks) rest,
        append_assoc bytes (write_commands ks) rest,
        read_u32-le (length bytes) (bytes ++ (write_commands ks ++ rest)) v.0.short,
        take_bytes-append bytes (write_commands ks ++ rest),
        parse_command-back k v.0,
        read_commands-back ks rest v.1,
      )
      refl

-- A record whose fields fit their form.
abbrev pub IsRecord : Record → Type 0
IsRecord (turn_record turn turn_length commands) =
    (turn ≤ u32_max)
    × (turn_length ≤ u16_max)
    × (length commands ≤ u16_max)
    × All IsCommand commands
IsRecord (hash_record turn hash) = (turn ≤ u32_max) × (length hash ≤ u8_max)
IsRecord (resumed_record turn unix_ms) = (turn ≤ u32_max) × (unix_ms < 18446744073709551616)
IsRecord (stopped_record turn unix_ms) = (turn ≤ u32_max) × (unix_ms < 18446744073709551616)

take-all : {A : Type 0} (n : ℕ) (xs : List A) → length xs ≤ n → take n xs ≡ xs
take-all zero [] h = refl
take-all (suc n) [] h = refl
take-all zero (x ∷ xs) h = absurd (omega arith)
take-all (suc n) (x ∷ xs) h = ap (◌∷◌ x) (take-all n xs (omega arith))

read_time-back :
    (make : ℕ → ℕ → Record) (turn unix_ms : ℕ)
    → turn ≤ u32_max
    → unix_ms < 18446744073709551616
    → read_time make (u32_to_le_bytes turn ++ i64_to_le_bytes unix_ms)
      ≡ some (make turn unix_ms, [])
unfolding read_time
read_time-back make turn unix_ms h k =
    rw
      (
        read_u32-le turn (i64_to_le_bytes unix_ms) h,
        ← append-nil (i64_to_le_bytes unix_ms),
        next_i64-le unix_ms [] k,
      )
      refl

read_turn-back :
    (turn turn_length : ℕ) (commands : List PlayerCommand)
    → IsRecord (turn_record turn turn_length commands)
    → read_turn (
        u32_to_le_bytes turn
        ++ (u16_to_le_bytes turn_length
            ++ (u16_to_le_bytes (length commands) ++ write_commands commands)))
      ≡ some (turn_record turn turn_length commands, [])
unfolding read_turn
read_turn-back turn turn_length commands v =
    let (t, l, n, ks) = v in
    rw
      (
        read_u32-le turn _ t,
        next_u16-le turn_length _ l,
        next_u16-le (length commands) (write_commands commands) n,
        ← append-nil (write_commands commands),
        read_commands-back commands [] ks,
      )
      refl

read_hash_record-back :
    (turn : ℕ) (hash : Bytes)
    → turn ≤ u32_max
    → read_hash_record (u32_to_le_bytes turn ++ (length hash ∷ hash))
      ≡ some (hash_record turn hash, [])
unfolding read_hash_record next_u8
read_hash_record-back turn hash h =
    rw
      (
        read_u32-le turn (length hash ∷ hash) h,
        ap (take_bytes (length hash)) (sym (append-nil hash)) ∙ take_bytes-append hash [],
      )
      refl

-- The body of a record is read back as it was.
pub from_body-back : (r : Record) → IsRecord r → from_body (body_of r) ≡ some r
unfolding from_body body_of next_u8 read_kind
from_body-back (turn_record turn turn_length commands) v =
    let (t, l, n, ks) = v in
    let count : min (length commands) u16_max ≡ length commands = omega arith in
    rw (count, take-all u16_max commands n, read_turn-back turn turn_length commands v) refl
from_body-back (hash_record turn hash) v =
    let count : min (length hash) u8_max ≡ length hash = let h = v.1 in omega arith in
    rw (count, take-all (length hash) hash (omega arith), read_hash_record-back turn hash v.0) refl
from_body-back (resumed_record turn unix_ms) v =
    rw (read_time-back resumed_record turn unix_ms v.0 v.1) refl
from_body-back (stopped_record turn unix_ms) v =
    rw (read_time-back stopped_record turn unix_ms v.0 v.1) refl
