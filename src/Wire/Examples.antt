-- ===== src/Wire/Examples.antt =====
-- The theorems on the wire at concrete messages.
use veredus.Base.{ℕ, ◌+◌, ◌*◌, ◌≤◌, ◌≡◌, refl, [], ◌∷◌, length, arith, ◌++◌}
use veredus.Base.Words.{u16_max}
use veredus.Base.Result.{ok}
use veredus.Text.{Text, Bytes, IsText}
use veredus.Wire.{read_wide_string, write_wide_string, u16_to_be_bytes, u32_to_be_bytes}
use veredus.Wire.RoundTrip.{read_wide_string-write}
use veredus.Wire.Match.{turn_sealed_to_bytes}
use veredus.Wire.Message.{
  WireMessage, turn_sealed, reset_pregame_status, id, body, to_bytes, from_bytes, parse,
}
use veredus.Wire.Message.Back.{IsWire, from_bytes-to_bytes}
use veredus.Wire.Message.Accept.{from_bytes_exact}

-- A letter, a letter of two bytes, and a character of four.
abbrev word : Text
word = 97 ∷ 233 ∷ 128512 ∷ []

word-IsText : IsText word
word-IsText = (refl, (refl, (refl, tt)))

read_wide_string-write_example :
    read_wide_string (write_wide_string word ++ (7 ∷ [])) ≡ ok (word, 7 ∷ [])
read_wide_string-write_example =
    read_wide_string-write word (7 ∷ []) ((refl, refl), ((refl, refl), ((refl, refl), tt)))

abbrev seal : WireMessage
seal = turn_sealed (record { turn = 5; turn_length = 200 })

seal-IsWire : IsWire seal
unfolding IsWire
seal-IsWire = record { turn = omega arith; turn_length = omega arith }

seal_fits : 3 + length (body seal) ≤ u16_max
unfolding body turn_sealed_to_bytes u32_to_be_bytes u16_to_be_bytes
seal_fits = omega arith

from_bytes-to_bytes_example : from_bytes (to_bytes seal) ≡ ok seal
from_bytes-to_bytes_example = from_bytes-to_bytes seal seal-IsWire seal_fits

reset_accepted : from_bytes (8 ∷ 0 ∷ 3 ∷ []) ≡ ok reset_pregame_status
unfolding from_bytes parse
reset_accepted = refl

from_bytes_exact_example :
    (msg_type : ℕ) × (a : ℕ) × (b : ℕ) × (rest : Bytes) × (◌≡◌ {A = Bytes}
      (8 ∷ 0 ∷ 3 ∷ [])
      (msg_type ∷ a ∷ b ∷ rest))
    × (length {A = ℕ} (8 ∷ 0 ∷ 3 ∷ []) ≡ a * 256 + b)
    × (id reset_pregame_status ≡ msg_type)
from_bytes_exact_example = from_bytes_exact (8 ∷ 0 ∷ 3 ∷ []) reset_pregame_status reset_accepted
