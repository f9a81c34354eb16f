-- ===== src/Auth/Numbered.antt =====
-- src/relay/auth.rs, `deduplicate` and `suffix_stripped`: the numbers behind a name.
use veredus.Base.{
  ℕ, zero, suc, ◌+◌, ◌-◌, ◌*◌, ◌/◌, ◌%◌, ◌^◌, ◌≡◌, ◌≢◌, refl, ap, sym, ◌∙◌, ◌≤◌, ◌<◌, Bool, true,
  false, ◌||◌, not, Option, none, some, List, [], ◌∷◌, ◌++◌, ltb, if◌then◌else◌, select, drop,
  length, any, arith, Bool-cases, inl, inr, drop-length-append, take-length-append,
  length-select-le,
}
use mathlib.Core.Bool.{true≢false}
use mathlib.Core.Option
use mathlib.Core.Path.{subst}
use veredus.Auth.{
  numbered, count_up, deduplicate, suffix_marker, suffix_stripped, find_text, starts_with,
}
use veredus.Text.{Text, same_text, same_text→eq, same_text_refl}
use veredus.Text.Decimal.{decimal, digits}

-- The number that decimal digits spell, after those read already.
unfoldable spelled : ℕ → Text → ℕ
spelled n [] = n
spelled n (d ∷ ds) = spelled (n * 10 + (d - 48)) ds

spelled-append : (n : ℕ) (a b : Text) → spelled n (a ++ b) ≡ spelled (spelled n a) b
unfolding spelled
spelled-append n [] b = refl
spelled-append n (d ∷ a) b = spelled-append (n * 10 + (d - 48)) a b

spelled-digits : (fuel n : ℕ) → n < fuel → spelled 0 (digits fuel n) ≡ n
unfolding spelled digits
spelled-digits zero n h = absurd (omega arith)
spelled-digits (suc fuel) n h = elim (Bool-cases (ltb n 10)) [
  | inl e ↦ rw (e, digits) (omega arith)
  | inr e ↦
      let more : n / 10 < fuel = ground arith in
      rw
        (
          e,
          digits,
          spelled-append 0 (digits fuel (n / 10)) ((48 + n % 10) ∷ []),
          spelled-digits fuel (n / 10) more,
        )
        (omega arith)
]

-- The number behind a name and its marker, times ten.
number_of : Text → Text → ℕ
number_of candidate name = spelled 0 (drop 2 (drop (length candidate) name))

number_of-numbered :
    (candidate : Text) (n : ℕ) → number_of candidate (numbered candidate n) ≡ n * 10
unfolding number_of numbered decimal suffix_marker spelled
number_of-numbered candidate n =
    rw
      (
        drop-length-append candidate (suffix_marker ++ (decimal n ++ (41 ∷ []))),
        spelled-append 0 (decimal n) (41 ∷ []),
        spelled-digits (suc n) n (omega arith),
      )
      (omega arith)

numbered_differ :
    (candidate : Text) (n m : ℕ)
    → n ≢ m
    → same_text (numbered candidate n) (numbered candidate m) ≡ false
numbered_differ candidate n m h =
    elim (Bool-cases (same_text (numbered candidate n) (numbered candidate m))) [
      | inl e ↦
          let same =
            ap (number_of candidate)
              (same_text→eq (numbered candidate n) (numbered candidate m) e) in
          let a = number_of-numbered candidate n in
          let b = number_of-numbered candidate m in absurd (h (omega arith))
      | inr e ↦ e
    ]

-- Whether a name is in use.
abbrev pub is_used : List Text → Text → Bool
is_used names name = any (same_text name) names

abbrev others : Text → List Text → List Text
others name names = select (λ m. not (same_text name m)) names

other_differs :
    (a b m : Text) → same_text a b ≡ false → same_text a m ≡ true → same_text b m ≡ false
other_differs a b m h e = elim (Bool-cases (same_text b m)) [
  | inl f ↦
      let eq : a ≡ b = same_text→eq a m e ∙ sym (same_text→eq b m f) in
      let one : same_text a b ≡ true = subst (λ x. same_text a x ≡ true) eq (same_text_refl a) in
      absurd (true≢false (sym one ∙ h))
  | inr f ↦ f
]

is_used-others :
    (a b : Text) (names : List Text)
    → same_text a b ≡ false
    → is_used (others a names) b ≡ is_used names b
is_used-others a b [] h = refl
is_used-others a b (m ∷ names) h = elim (Bool-cases (same_text a m)) [
  | inl e ↦ rw (e, others, other_differs a b m h e) (is_used-others a b names h)
  | inr e ↦ rw (e, others) (ap (same_text b m ||◌) (is_used-others a b names h))
]

others-length :
    (a : Text) (names : List Text) → is_used names a ≡ true → length (others a names) < length names
others-length a [] h = absurd (true≢false (sym h))
others-length a (m ∷ names) h = elim (Bool-cases (same_text a m)) [
  | inl e ↦
      rw (e, others)
        (let shorter = length-select-le (λ k. not (same_text a k)) names in omega arith)
  | inr e ↦
      let found : is_used names a ≡ true = ap (◌|| is_used names a) (sym e) ∙ h in
      rw (e, others) (let shorter = others-length a names found in omega arith)
]

count_up-same :
    (p q : Text → Bool) (candidate : Text) (fuel counter : ℕ)
    → counter + fuel < 2 ^ 32
    → ((n : ℕ) → counter ≤ n → p (numbered candidate n) ≡ q (numbered candidate n))
    → count_up p candidate fuel counter ≡ count_up q candidate fuel counter
unfolding count_up
count_up-same p q candidate zero counter h same = refl
count_up-same p q candidate (suc fuel) counter h same =
    let next : (counter + 1) % 2 ^ 32 ≡ counter + 1 = omega arith in
    let more =
      count_up-same p q candidate fuel (counter + 1) (omega arith) (λ n k. same n (omega arith)) in
    rw (next, same counter (omega arith), more) refl

-- A name is found within one round more than there are names in use.
count_up-finds :
    (names : List Text) (candidate : Text) (fuel counter : ℕ)
    → length names < fuel
    → counter + fuel < 2 ^ 32
    → (n : ℕ) × (counter ≤ n)
      × (count_up (is_used names) candidate fuel counter ≡ some (numbered candidate n))
      × (is_used names (numbered candidate n) ≡ false)
unfolding count_up
count_up-finds names candidate zero counter h k = absurd (omega arith)
count_up-finds names candidate (suc fuel) counter h k =
    let name = numbered candidate counter in
    elim (Bool-cases (is_used names name)) [
      | inr free ↦ (counter, omega arith, rw (count_up, free) refl, free)
      | inl taken ↦
          let rest = others name names in
          let later : (n : ℕ)
              → counter + 1 ≤ n
              → is_used rest (numbered candidate n) ≡ is_used names (numbered candidate n) =
            λ n l.
              is_used-others name (numbered candidate n) names
                (numbered_differ candidate counter n (λ e. omega arith)) in
          let shorter = others-length name names taken in
          let (n, l, found, free) =
            count_up-finds rest candidate fuel (counter + 1) (omega arith) (omega arith) in
          let next : (counter + 1) % 2 ^ 32 ≡ counter + 1 = omega arith in
          let same =
            count_up-same (is_used names) (is_used rest) candidate fuel (counter + 1) (omega arith)
              (λ m j. sym (later m j)) in
          (n, omega arith, rw (count_up, taken, next) (same ∙ found), sym (later n l) ∙ free)
    ]

-- The marker behind a name without one is the first.
starts_with-marker :
    (c : ℕ) (cs rest : Text)
    → starts_with suffix_marker (c ∷ cs) ≡ false
    → starts_with suffix_marker (c ∷ (cs ++ (suffix_marker ++ rest))) ≡ false
unfolding starts_with suffix_marker
starts_with-marker c [] rest h = ground arith
starts_with-marker c (d ∷ ds) rest h = h

no_marker :
    (here : Bool) (later : Option ℕ)
    → (if here then some 0 else Option.map suc later) ≡ none
    → (here ≡ false) × (later ≡ none)
no_marker true later h = absurd (cc)
no_marker false none h = (refl, refl)
no_marker false (some n) h = absurd (cc)

find_text-marker :
    (candidate rest : Text)
    → find_text suffix_marker candidate ≡ none
    → find_text suffix_marker (candidate ++ (suffix_marker ++ rest)) ≡ some (length candidate)
unfolding find_text starts_with suffix_marker
find_text-marker [] rest h = refl
find_text-marker (c ∷ cs) rest h =
    let (here, later) =
      no_marker (starts_with suffix_marker (c ∷ cs)) (find_text suffix_marker cs) h in
    rw (find_text, starts_with-marker c cs rest here, find_text-marker cs rest later) refl

suffix_stripped-numbered :
    (candidate : Text) (n : ℕ)
    → find_text suffix_marker candidate ≡ none
    → suffix_stripped (numbered candidate n) ≡ candidate
unfolding suffix_stripped numbered
suffix_stripped-numbered candidate n h =
    rw (suffix_stripped, find_text-marker candidate (decimal n ++ (41 ∷ [])) h)
      (take-length-append candidate (suffix_marker ++ (decimal n ++ (41 ∷ []))))

-- Whatever names are in use, `deduplicate` finds a name that is none of them, in at most one round
-- more than there are names, and cutting it at the marker gives the wanted name back. The wanted
-- name has no marker in it, and fewer than 2^32 - 3 names are in use.
pub deduplicate-strips :
    (names : List Text) (candidate : Text)
    → length names + 3 < 2 ^ 32
    → find_text suffix_marker candidate ≡ none
    → (name : Text) × (deduplicate (suc (length names)) candidate (is_used names) ≡ some name)
      × (is_used names name ≡ false)
      × (suffix_stripped name ≡ candidate)
unfolding deduplicate suffix_stripped
deduplicate-strips names candidate h plain = elim (Bool-cases (is_used names candidate)) [
  | inr free ↦ (candidate, rw (deduplicate, free) refl, free, rw (suffix_stripped, plain) refl)
  | inl taken ↦
      let (n, l, found, free) =
        count_up-finds names candidate (suc (length names)) 2 (omega arith) (omega arith) in
      (
        numbered candidate n,
        rw (deduplicate, taken) found,
        free,
        suffix_stripped-numbered candidate n plain,
      )
]
