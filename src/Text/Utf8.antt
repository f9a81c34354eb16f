-- ===== src/Text/Utf8.antt =====
-- The UTF-8 form of a text: Rust's `String::as_bytes` and `String::from_utf8`.
use veredus.Base.{
  ℕ, zero, suc, ◌+◌, ◌-◌, ◌*◌, ◌/◌, ◌%◌, ◌≤◌, ◌≡◌, refl, Bool, true, ◌&&◌, Option, none, some, [],
  ◌∷◌, ◌++◌, length, ltb, leb, if◌then◌else◌, arith,
}
use veredus.Text.{Text, IsText, is_scalar, Bytes}

-- The bytes of one character.
unfoldable pub encode_char : ℕ → Bytes
encode_char c =
    if ltb c 128
    then c ∷ []
    else if ltb c 2048
    then (192 + c / 64) ∷ (128 + c % 64) ∷ []
    else if ltb c 65536
    then (224 + c / 4096) ∷ (128 + c / 64 % 64) ∷ (128 + c % 64) ∷ []
    else (240 + c / 262144) ∷ (128 + c / 4096 % 64) ∷ (128 + c / 64 % 64) ∷ (128 + c % 64) ∷ []

unfoldable pub as_bytes : Text → Bytes
as_bytes [] = []
as_bytes (c ∷ cs) = encode_char c ++ as_bytes cs

unfoldable pub is_tail : ℕ → Bool
is_tail b = leb 128 b && ltb b 192

-- A character that needs so many bytes, with what follows it: overlong forms are refused.
unfoldable pub accept : ℕ → Bool → ℕ → Bytes → Option (ℕ × Bytes)
accept least tails c rest = if tails && leb least c && is_scalar c then some (c, rest) else none

unfoldable pub two : ℕ → Bytes → Option (ℕ × Bytes)
unfolding accept is_tail
two a (b ∷ rest) = accept 128 (is_tail b) ((a - 192) * 64 + (b - 128)) rest
two a [] = none

unfoldable pub three : ℕ → Bytes → Option (ℕ × Bytes)
unfolding accept is_tail
three a (b ∷ c ∷ rest) =
    accept 2048 (is_tail b && is_tail c) ((a - 224) * 4096 + (b - 128) * 64 + (c - 128)) rest
three a (b ∷ []) = none
three a [] = none

unfoldable pub four : ℕ → Bytes → Option (ℕ × Bytes)
unfolding accept is_tail
four a (b ∷ c ∷ d ∷ rest) =
    accept 65536 (is_tail b && is_tail c && is_tail d)
      ((a - 240) * 262144 + (b - 128) * 4096 + (c - 128) * 64 + (d - 128)) rest
four a (b ∷ c ∷ []) = none
four a (b ∷ []) = none
four a [] = none

unfoldable pub first_char : Bytes → Option (ℕ × Bytes)
first_char [] = none
first_char (a ∷ bs) =
    if ltb a 128
    then some (a, bs)
    else if ltb a 192
    then none
    else if ltb a 224
    then two a bs
    else if ltb a 240
    then three a bs
    else if ltb a 248
    then four a bs
    else none

-- Every character takes a byte at least, so as many rounds as there are bytes are enough.
unfoldable pub decode : ℕ → Bytes → Option Text
decode fuel [] = some []
decode zero (b ∷ bs) = none
decode (suc fuel) (b ∷ bs) = elim (first_char (b ∷ bs)) [
  | none ↦ none
  | some (c, rest) ↦ elim (decode fuel rest) [ none ↦ none | some cs ↦ some (c ∷ cs) ]
]

unfoldable pub from_utf8 : Bytes → Option Text
from_utf8 bs = decode (length bs) bs

first_char-encode_char :
    (c : ℕ) (rest : Bytes)
    → is_scalar c ≡ true
    → first_char (encode_char c ++ rest) ≡ some (c, rest)
unfolding first_char encode_char two three four accept is_tail
first_char-encode_char c rest h = ground arith

length-encode_char : (c : ℕ) (rest : Bytes) → suc (length rest) ≤ length (encode_char c ++ rest)
unfolding encode_char
length-encode_char c rest = ground arith

first_char-nil : first_char [] ≡ none
unfolding first_char
first_char-nil = refl

decode-first_char :
    (fuel c : ℕ) (bs rest : Bytes) (cs : Text)
    → first_char bs ≡ some (c, rest)
    → decode fuel rest ≡ some cs
    → decode (suc fuel) bs ≡ some (c ∷ cs)
unfolding decode
decode-first_char fuel c [] rest cs e d = ground (arith, first_char-nil)
decode-first_char fuel c (b ∷ bs) rest cs e d = rw (e, decode) (rw (d, decode) refl)

decode-as_bytes :
    (fuel : ℕ) (s : Text)
    → IsText s
    → length (as_bytes s) ≤ fuel
    → decode fuel (as_bytes s) ≡ some s
unfolding as_bytes decode
decode-as_bytes zero [] h e = refl
decode-as_bytes (suc fuel) [] h e = refl
decode-as_bytes zero (c ∷ cs) h e = ground (arith, length-encode_char c (as_bytes cs))
decode-as_bytes (suc fuel) (c ∷ cs) h e =
    decode-first_char fuel c (as_bytes (c ∷ cs)) (as_bytes cs) cs
      (first_char-encode_char c (as_bytes cs) h.0)
      (decode-as_bytes fuel cs h.1 (let l = length-encode_char c (as_bytes cs) in omega arith))

-- Every text survives its UTF-8 form.
pub from_utf8-as_bytes : (s : Text) → IsText s → from_utf8 (as_bytes s) ≡ some s
unfolding from_utf8
from_utf8-as_bytes s h = decode-as_bytes (length (as_bytes s)) s h (omega arith)
