-- ===== src/Journal.antt =====
-- src/savegame/journal.rs: the journal of a saved match. A `usize` position is the list of the
-- bytes left there, an `i64` its bit pattern; `checksum`, which a library computes, is a parameter.
pub mod Fields
pub mod Recovery
mod Examples
use veredus.Base.{
  ℕ, zero, suc, ◌+◌, ◌*◌, ◌/◌, ◌%◌, min, Bool, true, false, Option, none, some, List, [], ◌∷◌, ◌++◌,
  length, take, drop, ◌==◌, if◌then◌else◌, is_empty,
}
use veredus.Base.Result.{Result, ok, err}
use veredus.Base.Words.{u16_max}
use veredus.Script.{read_u32, take_bytes, ◌>>?◌}
use veredus.Text.{Bytes, same_text}
use veredus.Wire.{u32_to_le_bytes}
use veredus.Wire.Match.{PlayerCommand, player_command_to_bytes, player_command_from_bytes}

abbrev pub kind_turn : ℕ
kind_turn = 1

abbrev pub kind_hash : ℕ
kind_hash = 2

abbrev pub kind_resumed : ℕ
kind_resumed = 3

abbrev pub kind_stopped : ℕ
kind_stopped = 4

abbrev pub len_bytes : ℕ
len_bytes = 4

abbrev pub checksum_bytes : ℕ
checksum_bytes = 16

abbrev pub u8_max : ℕ
u8_max = 255

pub data Record : Type 0 where
  turn_record : (turn turn_length : ℕ) → List PlayerCommand → Record
  hash_record : (turn : ℕ) → Bytes → Record
  resumed_record stopped_record : (turn unix_ms : ℕ) → Record

unfoldable pub u16_to_le_bytes : ℕ → Bytes
u16_to_le_bytes n = (n % 256) ∷ (n / 256 % 256) ∷ []

unfoldable pub i64_to_le_bytes : ℕ → Bytes
i64_to_le_bytes n = u32_to_le_bytes (n % 4294967296) ++ u32_to_le_bytes (n / 4294967296)

-- Each command with its length.
unfoldable pub write_commands : List PlayerCommand → Bytes
write_commands [] = []
write_commands (k ∷ ks) =
    u32_to_le_bytes (length (player_command_to_bytes k))
    ++ (player_command_to_bytes k ++ write_commands ks)

-- The method `body`.
unfoldable pub body_of : Record → Bytes
unfolding write_commands
body_of (turn_record turn turn_length commands) =
    kind_turn
    ∷ (u32_to_le_bytes turn
        ++ (u16_to_le_bytes turn_length
            ++ (u16_to_le_bytes (min (length commands) u16_max)
                ++ write_commands (take u16_max commands))))
body_of (hash_record turn hash) =
    let len = min (length hash) u8_max in
    kind_hash ∷ (u32_to_le_bytes turn ++ (len ∷ take len hash))
body_of (resumed_record turn unix_ms) =
    kind_resumed ∷ (u32_to_le_bytes turn ++ i64_to_le_bytes unix_ms)
body_of (stopped_record turn unix_ms) =
    kind_stopped ∷ (u32_to_le_bytes turn ++ i64_to_le_bytes unix_ms)

unfoldable pub next_u8 : Bytes → Option (ℕ × Bytes)
next_u8 [] = none
next_u8 (a ∷ rest) = some (a, rest)

unfoldable pub next_u16 : Bytes → Option (ℕ × Bytes)
next_u16 (a ∷ b ∷ rest) = some (a + b * 256, rest)
next_u16 (a ∷ []) = none
next_u16 [] = none

unfoldable pub next_i64 : Bytes → Option (ℕ × Bytes)
next_i64 bs = read_u32 bs >>? λ a. read_u32 a.1 >>? λ b. some (a.0 + b.0 * 4294967296, b.1)

unfoldable pub parse_command : Bytes → Option PlayerCommand
parse_command bs = elim (player_command_from_bytes bs) [ err e ↦ none | ok k ↦ some k ]

-- `for _ in 0..count`.
unfoldable pub read_commands : ℕ → Bytes → Option (List PlayerCommand × Bytes)
read_commands zero bs = some ([], bs)
read_commands (suc n) bs = read_u32 bs >>? λ l. take_bytes l.0 l.1 >>? λ b.
    parse_command b.0 >>? λ k. read_commands n b.1 >>? λ more. some (k ∷ more.0, more.1)

unfoldable pub read_turn : Bytes → Option (Record × Bytes)
read_turn bs = read_u32 bs >>? λ t. next_u16 t.1 >>? λ l.
    next_u16 l.1 >>? λ n. read_commands n.0 n.1 >>? λ ks. some (turn_record t.0 l.0 ks.0, ks.1)

unfoldable pub read_hash_record : Bytes → Option (Record × Bytes)
read_hash_record bs = read_u32 bs >>? λ t.
    next_u8 t.1 >>? λ l. take_bytes l.0 l.1 >>? λ h. some (hash_record t.0 h.0, h.1)

unfoldable pub read_time : (ℕ → ℕ → Record) → Bytes → Option (Record × Bytes)
read_time make bs = read_u32 bs >>? λ t. next_i64 t.1 >>? λ ms. some (make t.0 ms.0, ms.1)

unfoldable pub read_kind : ℕ → Bytes → Option (Record × Bytes)
read_kind kind bs =
    if kind == kind_turn
    then read_turn bs
    else if kind == kind_hash
    then read_hash_record bs
    else if kind == kind_resumed
    then read_time resumed_record bs
    else if kind == kind_stopped
    then read_time stopped_record bs
    else none

-- A record, if nothing is left after it.
unfoldable pub from_body : Bytes → Option Record
from_body bs =
    next_u8 bs >>? λ k. read_kind k.0 k.1 >>? λ r. if is_empty r.1 then some r.0 else none

module _ (checksum : Bytes → Bytes) where
  -- `Record::to_bytes`: the length, the body and its checksum.
  unfoldable pub framed : Record → Bytes
  framed r = u32_to_le_bytes (length (body_of r)) ++ (body_of r ++ checksum (body_of r))

  -- A record, and how many bytes it takes.
  unfoldable pub read_one : Bytes → Option (Record × ℕ)
  read_one bs = read_u32 bs >>? λ l. take_bytes l.0 l.1 >>? λ b.
      take_bytes checksum_bytes b.1 >>? λ s.
      (if same_text s.0 (checksum b.0) then from_body b.0 else none) >>? λ r.
      some (r, len_bytes + l.0 + checksum_bytes)

  -- The loop of `read`, and the bytes that its records take. A record takes 20 bytes at least,
  -- so that as many rounds as there are bytes are enough.
  unfoldable pub read_loop : ℕ → Bytes → List Record × ℕ
  read_loop zero bs = ([], 0)
  read_loop (suc fuel) bs = elim (read_one bs) [
    | none ↦ ([], 0)
    | some (r, used) ↦ let rest = read_loop fuel (drop used bs) in (r ∷ rest.0, used + rest.1)
  ]

  unfoldable pub read_journal : Bytes → List Record × ℕ
  read_journal bs = read_loop (suc (length bs)) bs
