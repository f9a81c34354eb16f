-- ===== src/Wire.antt =====
-- The readers and writers that the messages of src/relay/messages and src/utils.rs are made of. A
-- buffer from `pos` on is the list of the bytes left; a reader gives its value and what it leaves.
pub mod RoundTrip
mod Examples
pub mod Handshake
pub mod Lobby
pub mod Match
pub mod Message
use Prim.Native.String.{String}
use veredus.Base.{
  ℕ, zero, suc, ◌+◌, ◌*◌, ◌/◌, ◌%◌, Bool, true, false, Option, none, some, List, [], ◌∷◌, ◌++◌,
  length, take, drop, ltb, ◌==◌, if◌then◌else◌, not,
}
use veredus.Base.Result.{Result, ok, err, ok_or, ◌>>=◌}
use veredus.Fault.{ParseError, truncated, bad_utf8}
use veredus.Text.{Text, Bytes}
use veredus.Text.Utf8.{as_bytes, from_utf8}
use veredus.Text.Utf16.{encode_utf16, decode_utf16}

abbrev pub Reader : Type 0 → Type 0
Reader A = Bytes → Result ParseError (A × Bytes)

-- `u32::to_be_bytes`, of `n as u32`.
unfoldable pub u32_to_be_bytes : ℕ → Bytes
u32_to_be_bytes n = (n / 16777216 % 256) ∷ (n / 65536 % 256) ∷ (n / 256 % 256) ∷ (n % 256) ∷ []

unfoldable pub u16_to_be_bytes : ℕ → Bytes
u16_to_be_bytes n = (n / 256 % 256) ∷ (n % 256) ∷ []

unfoldable pub u32_to_le_bytes : ℕ → Bytes
u32_to_le_bytes n = (n % 256) ∷ (n / 256 % 256) ∷ (n / 65536 % 256) ∷ (n / 16777216 % 256) ∷ []

-- The check of the buffer's length, then `u32::from_be_bytes`.
unfoldable pub read_u32 : String → Reader ℕ
read_u32 field (a ∷ b ∷ c ∷ d ∷ rest) = ok (a * 16777216 + b * 65536 + c * 256 + d, rest)
read_u32 field (a ∷ b ∷ c ∷ []) = err (truncated field)
read_u32 field (a ∷ b ∷ []) = err (truncated field)
read_u32 field (a ∷ []) = err (truncated field)
read_u32 field [] = err (truncated field)

unfoldable pub read_u32_le : String → Reader ℕ
read_u32_le field (a ∷ b ∷ c ∷ d ∷ rest) = ok (a + b * 256 + c * 65536 + d * 16777216, rest)
read_u32_le field (a ∷ b ∷ c ∷ []) = err (truncated field)
read_u32_le field (a ∷ b ∷ []) = err (truncated field)
read_u32_le field (a ∷ []) = err (truncated field)
read_u32_le field [] = err (truncated field)

unfoldable pub read_u16 : String → Reader ℕ
read_u16 field (a ∷ b ∷ rest) = ok (a * 256 + b, rest)
read_u16 field (a ∷ []) = err (truncated field)
read_u16 field [] = err (truncated field)

unfoldable pub read_u8 : String → Reader ℕ
read_u8 field (a ∷ rest) = ok (a, rest)
read_u8 field [] = err (truncated field)

-- `buffer[pos] != 0`.
unfoldable pub read_flag : String → Reader Bool
read_flag field bs = do (b, rest) ← read_u8 field bs; ok (not (b == 0), rest)

unfoldable pub flag_to_byte : Bool → ℕ
flag_to_byte b = if b then 1 else 0

unfoldable pub read_bytes : String → ℕ → Reader Bytes
read_bytes field n bs =
    if ltb (length bs) n then err (truncated field) else ok (take n bs, drop n bs)

-- A length of 32 bits, then so many bytes.
unfoldable pub read_blob : String → String → Reader Bytes
read_blob length_field data_field bs = do
  (n, rest) ← read_u32 length_field bs
  read_bytes data_field n rest

unfoldable pub write_blob : Bytes → Bytes
write_blob payload = u32_to_be_bytes (length payload) ++ payload

-- The same for a `String`, whose bytes are UTF-8.
unfoldable pub read_string : String → String → String → Reader Text
read_string length_field data_field field bs = do
  (payload, rest) ← read_blob length_field data_field bs
  s ← ok_or (from_utf8 payload) (bad_utf8 field)
  ok (s, rest)

unfoldable pub write_string : Text → Bytes
write_string s = write_blob (as_bytes s)

-- The loop of `read_wide_string`: units up to the null terminator.
unfoldable pub read_units : Reader (List ℕ)
read_units (a ∷ b ∷ rest) =
    let unit = a * 256 + b in
    let more = read_units rest in
    if unit == 0 then ok ([], rest) else (more >>= λ r. ok (unit ∷ r.0, r.1))
read_units (a ∷ []) = err (truncated "wide string")
read_units [] = err (truncated "wide string")

unfoldable pub read_wide_string : Reader Text
read_wide_string bs = do (units, rest) ← read_units bs; ok (decode_utf16 units, rest)

unfoldable pub write_units : List ℕ → Bytes
write_units [] = 0 ∷ 0 ∷ []
write_units (u ∷ us) = u16_to_be_bytes u ++ write_units us

unfoldable pub write_wide_string : Text → Bytes
write_wide_string s = write_units (encode_utf16 s)

-- `while pos < buffer.len()`: items until no byte is left. The fuel is the number of bytes left,
-- each item taking one at least.
unfoldable pub read_items : {A : Type 0} → Reader A → ℕ → Bytes → Result ParseError (List A)
read_items read fuel [] = ok []
read_items read zero (b ∷ bs) = ok []
read_items read (suc fuel) (b ∷ bs) = do
  (a, rest) ← read (b ∷ bs)
  more ← read_items read fuel rest
  ok (a ∷ more)

unfoldable pub read_all : {A : Type 0} → Reader A → Bytes → Result ParseError (List A)
read_all read bs = read_items read (length bs) bs

unfoldable pub write_all : {A : Type 0} → (A → Bytes) → List A → Bytes
write_all write [] = []
write_all write (x ∷ xs) = write x ++ write_all write xs
