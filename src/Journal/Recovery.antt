-- ===== src/Journal/Recovery.antt =====
-- src/savegame/journal.rs: what a crash leaves of the journal is read back up to its torn tail.
use veredus.Base.{
  ℕ, zero, suc, ◌+◌, ◌-◌, ◌≡◌, refl, ap, sym, ◌∙◌, ◌≤◌, ◌<◌, true, none, some, List, [], ◌∷◌, ◌++◌,
  length, take, drop, arith, All, ltb, Bool-cases, inl, inr, drop-length-append, length-append,
  length-take,
}
use mathlib.Core.List.{append_assoc}
use veredus.Base.Words.{u32_max}
use veredus.Journal.{
  Record, body_of, framed, read_one, read_loop, read_journal, len_bytes, checksum_bytes,
}
use veredus.Journal.Fields.{IsRecord, read_u32-le, take_bytes-append, from_body-back}
use veredus.Script.{read_u32, take_bytes}
use veredus.Text.{Bytes, same_text_refl}
use veredus.Wire.{u32_to_le_bytes}

-- A record that can be written: its body has a length of 32 bits.
abbrev pub Writes : Record → Type 0
Writes r = IsRecord r × (length (body_of r) ≤ u32_max)

-- The journal that `rs` are appended to, one after the other.
abbrev pub written : (Bytes → Bytes) → List Record → Bytes
written checksum [] = []
written checksum (r ∷ rs) = framed checksum r ++ written checksum rs

module _ (checksum : Bytes → Bytes)
    (sized : (b : Bytes) → length (checksum b) ≡ checksum_bytes) where
  length-framed :
      (r : Record) → length (framed checksum r) ≡ len_bytes + length (body_of r) + checksum_bytes
  unfolding framed u32_to_le_bytes
  length-framed r =
      let body = length-append (body_of r) (checksum (body_of r)) in
      let sum = sized (body_of r) in omega arith

  read_one-framed :
      (r : Record) (rest : Bytes)
      → Writes r
      → read_one checksum (framed checksum r ++ rest) ≡ some (r, length (framed checksum r))
  unfolding read_one framed
  read_one-framed r rest v =
      let body = body_of r in
      let sum = checksum body in
      let split : (u32_to_le_bytes (length body) ++ (body ++ sum)) ++ rest
          ≡ u32_to_le_bytes (length body) ++ (body ++ (sum ++ rest)) =
        append_assoc (u32_to_le_bytes (length body)) (body ++ sum) rest
        ∙ ap (u32_to_le_bytes (length body) ++◌) (append_assoc body sum rest) in
      let summed : take_bytes checksum_bytes (sum ++ rest) ≡ some (sum, rest) =
        ap (λ n. take_bytes n (sum ++ rest)) (sym (sized body)) ∙ take_bytes-append sum rest in
      rw
        (
          split,
          read_u32-le (length body) (body ++ (sum ++ rest)) v.1,
          take_bytes-append body (sum ++ rest),
          summed,
          same_text_refl sum,
          from_body-back r v.0,
        )
        (ap (λ n. some (r, n)) (sym (length-framed r)))

  short_u32 : (bs : Bytes) → length bs < len_bytes → read_u32 bs ≡ none
  unfolding read_u32
  short_u32 [] h = refl
  short_u32 (a ∷ []) h = refl
  short_u32 (a ∷ b ∷ []) h = refl
  short_u32 (a ∷ b ∷ c ∷ []) h = refl
  short_u32 (a ∷ b ∷ c ∷ d ∷ bs) h = absurd (omega arith)

  short_take : (n : ℕ) (bs : Bytes) → length bs < n → take_bytes n bs ≡ none
  unfolding take_bytes
  short_take n bs h = let short : ltb (length bs) n ≡ true = ground arith in rw short refl

  read_loop-step :
      (bs more : Bytes) (r : Record) (used fuel : ℕ) (rs : List Record) (n : ℕ)
      → read_one checksum bs ≡ some (r, used)
      → drop used bs ≡ more
      → read_loop checksum fuel more ≡ (rs, n)
      → read_loop checksum (suc fuel) bs ≡ (r ∷ rs, used + n)
  unfolding read_loop
  read_loop-step bs more r used fuel rs n e d h = rw (read_loop, e, d, h) refl

  read_loop-framed :
      (rs : List Record) (rest : Bytes) (fuel : ℕ)
      → All Writes rs
      → read_one checksum rest ≡ none
      → length rs < fuel
      → read_loop checksum fuel (written checksum rs ++ rest) ≡ (rs, length (written checksum rs))
  unfolding read_loop
  read_loop-framed [] rest zero v h k = absurd (omega arith)
  read_loop-framed [] rest (suc fuel) v h k = rw (read_loop, h) refl
  read_loop-framed (r ∷ rs) rest zero v h k = absurd (omega arith)
  read_loop-framed (r ∷ rs) rest (suc fuel) v h k =
      let one = framed checksum r in
      let split = append_assoc one (written checksum rs) rest in
      read_loop-step ((one ++ written checksum rs) ++ rest) (written checksum rs ++ rest) r
        (length one) fuel rs (length (written checksum rs))
        (ap (read_one checksum) split ∙ read_one-framed r (written checksum rs ++ rest) v.0)
        (ap (drop (length one)) split ∙ drop-length-append one (written checksum rs ++ rest))
        (read_loop-framed rs rest fuel v.1 h (omega arith))
      ∙ ap (λ n. (r ∷ rs, n)) (sym (length-append one (written checksum rs)))

  take-past : (a b : Bytes) (j : ℕ) → take (length a + j) (a ++ b) ≡ a ++ take j b
  take-past [] b j = ap (λ n. take n b) (omega arith)
  take-past (x ∷ a) b j =
      let next : suc (length a) + j ≡ suc (length a + j) = omega arith in
      ap (λ n. take n (x ∷ (a ++ b))) next ∙ ap (◌∷◌ x) (take-past a b j)

  -- A record that is cut inside its body or its checksum.
  read_one-cut :
      (r : Record) (m : ℕ)
      → length (body_of r) ≤ u32_max
      → m < length (body_of r) + checksum_bytes
      → read_one checksum
          (u32_to_le_bytes (length (body_of r)) ++ take m (body_of r ++ checksum (body_of r)))
        ≡ none
  unfolding read_one
  read_one-cut r m v h =
      let body = body_of r in
      let sum = checksum body in
      let left = take m (body ++ sum) in
      let length-left : length left ≤ m = rw (length-take m (body ++ sum)) (omega arith) in
      rw (read_u32-le (length body) left v) (elim (Bool-cases (ltb m (length body))) [
        | inl inside ↦ rw (short_take (length body) left (ground arith)) refl
        | inr past ↦
            let j = m - length body in
            let split : left ≡ body ++ take j sum =
              ap (λ n. take n (body ++ sum)) (ground arith) ∙ take-past body sum j in
            let short : length (take j sum) < checksum_bytes =
              rw (length-take j sum) (ground arith) in
            rw
              (
                split,
                take_bytes-append body (take j sum),
                short_take checksum_bytes (take j sum) short,
              )
              refl
      ])

  read_one-torn :
      (r : Record) (n : ℕ)
      → length (body_of r) ≤ u32_max
      → n < length (framed checksum r)
      → read_one checksum (take n (framed checksum r)) ≡ none
  unfolding framed read_one u32_to_le_bytes
  read_one-torn r n v h =
      let len = u32_to_le_bytes (length (body_of r)) in
      let tail = body_of r ++ checksum (body_of r) in
      let bound = length-framed r in
      elim (Bool-cases (ltb n len_bytes)) [
        | inl torn ↦
            let short : length (take n (len ++ tail)) < len_bytes =
              rw (length-take n (len ++ tail)) (ground arith) in
            rw (read_one, short_u32 (take n (len ++ tail)) short) refl
        | inr whole ↦
            let m = n - len_bytes in
            let split : take n (len ++ tail) ≡ len ++ take m tail =
              ap (λ k. take k (len ++ tail)) (ground arith) ∙ take-past len tail m in
            ap (read_one checksum) split ∙ read_one-cut r m v (ground arith)
      ]

  length-written : (rs : List Record) → length rs ≤ length (written checksum rs)
  length-written [] = omega arith
  length-written (r ∷ rs) =
      let more = length-written rs in
      let one = length-framed r in
      let both = length-append (framed checksum r) (written checksum rs) in omega arith

  -- A journal whose records were appended one after the other, and whose last record a crash cut off
  -- after `n` bytes, is read as all its whole records, and the count of bytes is where the torn tail
  -- begins. The records fit their form, and a checksum is 16 bytes long.
  pub read_journal-recovers :
      (rs : List Record) (r : Record) (n : ℕ)
      → All Writes rs
      → Writes r
      → n < length (framed checksum r)
      → read_journal checksum (written checksum rs ++ take n (framed checksum r))
        ≡ (rs, length (written checksum rs))
  unfolding read_journal
  read_journal-recovers rs r n v w h =
      read_loop-framed rs (take n (framed checksum r)) _ v (read_one-torn r n w.1 h) (
        let enough = length-written rs in
        let both = length-append (written checksum rs) (take n (framed checksum r)) in omega arith)
