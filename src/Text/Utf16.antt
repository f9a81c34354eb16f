-- ===== src/Text/Utf16.antt =====
-- The UTF-16 units of a text: Rust's `str::encode_utf16`, and `char::decode_utf16` with the
-- replacement of what it cannot decode, as src/utils.rs uses them.
use veredus.Base.{
  ℕ, ◌+◌, ◌-◌, ◌*◌, ◌/◌, ◌%◌, ◌≡◌, refl, ap, ◌∙◌, Bool, true, ◌&&◌, Option, none, some, List, [],
  ◌∷◌, ◌++◌, ltb, leb, if◌then◌else◌, arith,
}
use veredus.Text.{Text, IsText, is_scalar}

abbrev pub replacement : ℕ
replacement = 65533

-- The units of one character: a pair of surrogates past the basic plane.
unfoldable pub char_units : ℕ → List ℕ
char_units c =
    if ltb c 65536 then c ∷ [] else (55296 + (c - 65536) / 1024) ∷ (56320 + (c - 65536) % 1024) ∷ []

unfoldable pub encode_utf16 : Text → List ℕ
encode_utf16 [] = []
encode_utf16 (c ∷ cs) = char_units c ++ encode_utf16 cs

abbrev pub is_high : ℕ → Bool
is_high u = leb 55296 u && ltb u 56320

abbrev pub is_low : ℕ → Bool
is_low u = leb 56320 u && ltb u 57344

-- What a unit that completes no pair gives at once; the first half of a pair waits.
unfoldable pub single : ℕ → List ℕ
single u = if is_high u then [] else if is_low u then replacement ∷ [] else u ∷ []

-- What a unit gives, when `held` is the first half of a pair that waits.
unfoldable pub emit : Option ℕ → ℕ → List ℕ
unfolding single
emit none u = single u
emit (some held) u =
    if is_low u then (65536 + (held - 55296) * 1024 + (u - 56320)) ∷ [] else replacement ∷ single u

unfoldable pub holds : ℕ → Option ℕ
holds u = if is_high u then some u else none

unfoldable pub decode_from : Option ℕ → List ℕ → Text
unfolding emit holds
decode_from none [] = []
decode_from (some held) [] = replacement ∷ []
decode_from held (u ∷ us) = emit held u ++ decode_from (holds u) us

unfoldable pub decode_utf16 : List ℕ → Text
decode_utf16 us = decode_from none us

decode_from-char_units :
    (c : ℕ) (us : List ℕ)
    → is_scalar c ≡ true
    → decode_from none (char_units c ++ us) ≡ c ∷ decode_from none us
unfolding char_units decode_from emit single holds
decode_from-char_units c us h = ground arith

-- Every text survives its UTF-16 form, characters outside the basic plane included.
pub decode_utf16-encode_utf16 : (s : Text) → IsText s → decode_utf16 (encode_utf16 s) ≡ s
unfolding decode_utf16 encode_utf16 decode_from
decode_utf16-encode_utf16 [] h = refl
decode_utf16-encode_utf16 (c ∷ cs) h =
    decode_from-char_units c (encode_utf16 cs) h.0
    ∙ ap (λ t. c ∷ t) (decode_utf16-encode_utf16 cs h.1)
