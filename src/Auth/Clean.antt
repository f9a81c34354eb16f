-- ===== src/Auth/Clean.antt =====
-- src/relay/auth.rs, `sanitize`: what a sanitized name is made of.
use veredus.Base.{
  ℕ, zero, suc, ◌≡◌, ◌≢◌, ◌⊎◌, refl, ◌≤◌, ◌<◌, Bool, true, false, ◌&&◌, [], ◌∷◌, map, is_empty,
  select, take, length, length-take, All, All-mono, arith, Bool-cases, inl, inr,
}
use veredus.Auth.{
  sanitize, or_anonymous, is_shown, is_control, is_whitespace, trim_start, trim_end, brace,
  max_name_len, anonymous,
}
use veredus.Text.{Text}

-- A character of a name that is shown.
abbrev pub IsPlain : (ℕ → Bool) → ℕ → Type 0
IsPlain is_format c = (c ≢ 91) × (c ≢ 93) × (is_control c ≡ false) × (is_format c ≡ false)

pub record IsClean (is_format : ℕ → Bool) (name : Text) : Type 0 where
  pub short : length name ≤ max_name_len
  pub plain : All (IsPlain is_format) name
  pub shown : is_empty name ≡ false
  pub left_trimmed : trim_start name ≡ name
  pub right_trimmed : trim_end name ≡ name

module _ (is_format : ℕ → Bool) where
  trim_start-length : (s : Text) → length (trim_start s) ≤ length s
  unfolding trim_start
  trim_start-length [] = omega arith
  trim_start-length (c ∷ cs) = ground (arith, trim_start-length cs)

  trim_end-length : (s : Text) → length (trim_end s) ≤ length s
  unfolding trim_end
  trim_end-length [] = omega arith
  trim_end-length (c ∷ cs) = ground (arith, trim_end-length cs)

  trim_start-All : (P : ℕ → Type 0) (s : Text) → All P s → All P (trim_start s)
  unfolding trim_start
  trim_start-All P [] v = v
  trim_start-All P (c ∷ cs) v = elim (Bool-cases (is_whitespace c)) [
    | inl e ↦ rw (e, trim_start) (trim_start-All P cs v.1)
    | inr e ↦ rw (e, trim_start) v
  ]

  trim_end-All : (P : ℕ → Type 0) (s : Text) → All P s → All P (trim_end s)
  unfolding trim_end
  trim_end-All P [] v = v
  trim_end-All P (c ∷ cs) v = elim (Bool-cases (is_whitespace c && is_empty (trim_end cs))) [
    | inl e ↦ rw (e, trim_end) tt
    | inr e ↦ rw (e, trim_end) (v.0, trim_end-All P cs v.1)
  ]

  keep_start : (c : ℕ) (cs : Text) → is_whitespace c ≡ false → trim_start (c ∷ cs) ≡ c ∷ cs
  unfolding trim_start
  keep_start c cs e = rw e refl

  trim_end-twice : (s : Text) → trim_end (trim_end s) ≡ trim_end s
  unfolding trim_end
  trim_end-twice [] = refl
  trim_end-twice (c ∷ cs) = elim (Bool-cases (is_whitespace c && is_empty (trim_end cs))) [
    | inl e ↦ rw (e, trim_end) refl
    | inr e ↦ rw (e, trim_end, trim_end-twice cs, e) refl
  ]

  -- What starts without white space still does when its end is trimmed.
  trim_start-trim_end : (s : Text) → trim_start (trim_end (trim_start s)) ≡ trim_end (trim_start s)
  unfolding trim_start trim_end
  trim_start-trim_end [] = refl
  trim_start-trim_end (c ∷ cs) = elim (Bool-cases (is_whitespace c)) [
    | inl e ↦ rw (e, trim_start) (trim_start-trim_end cs)
    | inr e ↦ rw (e, trim_start, trim_end, e) (keep_start c (trim_end cs) e)
  ]

  select-All :
      (p : ℕ → Bool) (P : ℕ → Type 0) (s : Text)
      → All P s
      → All (λ c. P c × (p c ≡ true)) (select p s)
  select-All p P [] v = tt
  select-All p P (c ∷ cs) v = elim (Bool-cases (p c)) [
    | inl e ↦ rw (e, select) ((v.0, e), select-All p P cs v.1)
    | inr e ↦ rw (e, select) (select-All p P cs v.1)
  ]

  take-All : (P : ℕ → Type 0) (n : ℕ) (s : Text) → All P s → All P (take n s)
  take-All P zero s v = tt
  take-All P (suc n) [] v = tt
  take-All P (suc n) (c ∷ cs) v = (v.0, take-All P n cs v.1)

  braced : (s : Text) → All (λ c. (c ≢ 91) × (c ≢ 93)) (map brace s)
  unfolding brace
  braced [] = tt
  braced (c ∷ cs) = ((λ e. ground arith, λ e. ground arith), braced cs)

  IsPlain-cut :
      (s : Text)
      → All (IsPlain is_format) (take max_name_len (select (is_shown is_format) (map brace s)))
  unfolding is_shown
  IsPlain-cut s =
      take-All (IsPlain is_format) max_name_len (select (is_shown is_format) (map brace s)) (
        All-mono (λ c v. (v.0.0, v.0.1, ground arith, ground arith))
          (select (is_shown is_format) (map brace s))
          (select-All (is_shown is_format) (λ c. (c ≢ 91) × (c ≢ 93)) (map brace s) (braced s)))

  letter-IsPlain :
      (c : ℕ)
      → (c ≡ 65) ⊎ (93 < c)
      → c < 123
      → ((d : ℕ) → d < 128 → is_format d ≡ false)
      → IsPlain is_format c
  unfolding is_control
  letter-IsPlain c h k ascii =
      (λ e. grind arith, λ e. grind arith, grind arith, ascii c (omega arith))

  anonymous-IsClean : ((c : ℕ) → c < 128 → is_format c ≡ false) → IsClean is_format anonymous
  unfolding trim_start trim_end is_whitespace is_control anonymous
  anonymous-IsClean ascii = record {
    short = omega arith;
    plain = (
      letter-IsPlain 65 (inl refl) (omega arith) ascii,
      (
        letter-IsPlain 110 (inr (omega arith)) (omega arith) ascii,
        (
          letter-IsPlain 111 (inr (omega arith)) (omega arith) ascii,
          (
            letter-IsPlain 110 (inr (omega arith)) (omega arith) ascii,
            (
              letter-IsPlain 121 (inr (omega arith)) (omega arith) ascii,
              (
                letter-IsPlain 109 (inr (omega arith)) (omega arith) ascii,
                (
                  letter-IsPlain 111 (inr (omega arith)) (omega arith) ascii,
                  (
                    letter-IsPlain 117 (inr (omega arith)) (omega arith) ascii,
                    (letter-IsPlain 115 (inr (omega arith)) (omega arith) ascii, tt),
                  ),
                ),
              ),
            ),
          ),
        ),
      ),
    );
    shown = refl;
    left_trimmed = refl;
    right_trimmed = refl;
  }

  trimmed-IsClean :
      (s : Text)
      → length s ≤ max_name_len
      → All (IsPlain is_format) s
      → is_empty (trim_end (trim_start s)) ≡ false
      → IsClean is_format (trim_end (trim_start s))
  trimmed-IsClean s h v e = record {
    short = (let a = trim_start-length s in let b = trim_end-length (trim_start s) in omega arith);
    plain =
        trim_end-All (IsPlain is_format) (trim_start s) (trim_start-All (IsPlain is_format) s v);
    shown = e;
    left_trimmed = trim_start-trim_end s;
    right_trimmed = trim_end-twice (trim_start s);
  }

  -- A sanitized name, before `deduplicate` gives it a number, is at most 32 characters (Unicode
  -- scalar values, not UTF-16 code units) long and not empty, has no bracket and no control or
  -- format character, and neither starts nor ends with white space. No ASCII character is a
  -- format character.
  pub sanitize-IsClean :
      (raw : Text)
      → ((c : ℕ) → c < 128 → is_format c ≡ false)
      → IsClean is_format (sanitize is_format raw)
  unfolding sanitize or_anonymous
  sanitize-IsClean raw ascii =
      let shown = select (is_shown is_format) (map brace raw) in
      let cut = take max_name_len shown in
      let short : length cut ≤ max_name_len = rw (length-take max_name_len shown) (omega arith) in
      elim (Bool-cases (is_empty (trim_end (trim_start cut)))) [
        | inl e ↦ rw (e, or_anonymous) (anonymous-IsClean ascii)
        | inr e ↦ rw (e, or_anonymous) (trimmed-IsClean cut short (IsPlain-cut raw) e)
      ]
