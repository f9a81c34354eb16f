-- ===== src/Text.antt =====
-- src/relay/messages/guid.rs, and Rust's `String`, which is the list of its Unicode scalar
-- values; a `Guid` wraps one.
pub mod Utf8
pub mod Utf16
pub mod Decimal
use veredus.Base.{
  ℕ, ◌≡◌, ◌+◌, arith, true, Bool, List, ◌∷◌, [], list_discrete, is_same, ltb, leb, ◌&&◌, not, All,
}

abbrev pub Text : Type 0
Text = List ℕ

-- A `char`: not a surrogate, and at most 0x10ffff.
abbrev pub is_scalar : ℕ → Bool
is_scalar c = ltb c 1114112 && not (leb 55296 c && ltb c 57344)

abbrev pub IsText : Text → Type 0
IsText s = All (λ c. is_scalar c ≡ true) s

abbrev pub Bytes : Type 0
Bytes = List ℕ

abbrev pub Guid : Type 0
Guid = Text

abbrev pub same_text : Text → Text → Bool
same_text = is_same list_discrete

pub same_text→eq : (a b : Text) → same_text a b ≡ true → a ≡ b
same_text→eq a b h = ground arith

pub same_text_refl : (a : Text) → same_text a a ≡ true
same_text_refl a = ground arith
