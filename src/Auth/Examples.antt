-- ===== src/Auth/Examples.antt =====
-- The theorems on src/relay/auth.rs at work: a name in brackets, and the third client of one name.
use veredus.Base.{
  ℕ, ◌≡◌, refl, false, Bool, some, List, [], ◌∷◌, suc, length, arith, ◌==◌, list_discrete,
}
use veredus.Auth.{
  text, sanitize, deduplicate, suffix_stripped, suffix_marker, find_text, starts_with, or_anonymous,
  trim_end, trim_start, is_shown, is_control, brace, is_whitespace, count_up, numbered,
}
use veredus.Auth.Clean.{IsClean, sanitize-IsClean}
use veredus.Auth.Numbered.{is_used, deduplicate-strips}
use veredus.Text.{Text}
use veredus.Text.Decimal.{decimal}

-- A zero-width space is a format character.
abbrev is_format : ℕ → Bool
is_format c = c == 8203

abbrev raw : Text
unfolding text
raw = 8203 ∷ text " [clan] anna "

sanitize-IsClean_example : IsClean is_format (sanitize is_format raw)
sanitize-IsClean_example = sanitize-IsClean is_format raw (λ c h. ground arith)

abbrev anna : Text
unfolding text
anna = text "anna"

abbrev in_use : List Text
unfolding text
in_use = anna ∷ text "anna (2)" ∷ []

deduplicate-strips_example :
    (name : Text) × (deduplicate (suc (length in_use)) anna (is_used in_use) ≡ some name)
    × (is_used in_use name ≡ false)
    × (suffix_stripped name ≡ anna)
unfolding in_use anna find_text starts_with suffix_marker
deduplicate-strips_example = deduplicate-strips in_use anna (omega arith) refl

third_anna : deduplicate 3 anna (is_used in_use) ≡ some (text "anna (3)")
unfolding in_use anna deduplicate text suffix_marker list_discrete count_up numbered decimal
third_anna = refl

clan_anna : sanitize is_format raw ≡ text "{clan} anna"
unfolding raw sanitize text or_anonymous trim_end trim_start is_shown is_control brace is_whitespace
clan_anna = refl
