-- ===== src/RateLimit/Bucket.antt =====
-- The token bucket: what it lets through in a span of time.
use veredus.Base.{
  ℕ, ◌+◌, ◌*◌, ◌≤◌, ◌≡◌, ◌≢◌, refl, false, Option, none, some, List, [], ◌∷◌, arith, ◌==◌, length,
  inl, inr, ◌⊎◌,
}
use veredus.Base.Int.{
  ℤ, pos, negsuc, pos_part, neg_part, saturating_add_i64, min_ℤ, max_ℤ, sub_i64_parts,
}
use veredus.RateLimit.{
  TokenBucket, Verdict, pass, drop, kick, new_bucket, cost, elapsed_ms, refill_of, level_at, refill,
  charge_message, take,
}

-- `burst` is a `u32`, and the level is at most the burst.
pub record IsSound (b : TokenBucket) : Type 0 where
  pub narrow : b.burst ≤ 4294967295
  pub full : pos_part b.milli ≤ b.burst * cost

-- `l` is at most `a + n`.
abbrev AtMost : ℤ → ℤ → ℕ → Type 0
AtMost l a n = pos_part l + neg_part a ≤ neg_part l + pos_part a + n

-- The level after a refill by `n`.
abbrev refilled : ℤ → ℕ → ℕ → ℤ
refilled a n full = min_ℤ (saturating_add_i64 a (pos n)) (pos full)

refilled_bounds :
    (a : ℤ) (n full : ℕ)
    → pos_part a ≤ full
    → neg_part a ≤ 9223372036854775808
    → AtMost (refilled a n full) a n
      × (pos_part (refilled a n full) ≤ full)
      × (neg_part (refilled a n full) ≤ neg_part a)
unfolding min_ℤ saturating_add_i64
refilled_bounds (pos m) n full h k = ground arith
refilled_bounds (negsuc m) n full h k = ground arith

-- The time that a call at `now` refills for.
abbrev pub elapsed_for : Option ℕ → ℕ → ℕ
elapsed_for none now = 0
elapsed_for (some last) now = elapsed_ms last now

pub level_at_bounds :
    (last : Option ℕ) (now rate full : ℕ) (a : ℤ)
    → pos_part a ≤ full
    → neg_part a ≤ 9223372036854775808
    → AtMost (level_at last now rate full a) a (elapsed_for last now * rate)
      × (pos_part (level_at last now rate full a) ≤ full)
      × (neg_part (level_at last now rate full a) ≤ neg_part a)
unfolding level_at
level_at_bounds none now rate full a h k = omega arith
level_at_bounds (some last) now rate full a h k =
    omega (arith, refilled_bounds a (refill_of (elapsed_ms last now) rate) full h k)

-- What a message does to the level.
charge_message_bounds :
    (k : ℕ) (b : TokenBucket)
    → IsSound b
    → neg_part b.milli + cost ≤ 9223372036854775808
    → (k ≡ 0 → neg_part b.milli ≡ 0)
    → let (b', v) = charge_message k b in
      (b'.rate_per_sec ≡ b.rate_per_sec)
      × (b'.last ≡ b.last)
      × IsSound b'
      × (neg_part b'.milli ≤ neg_part b.milli + cost)
      × (k ≡ 0 → neg_part b'.milli ≡ 0)
      × ((v ≡ pass)
            × (neg_part b'.milli ≡ 0)
            × (neg_part b.milli ≡ 0)
            × (pos_part b'.milli + cost ≡ pos_part b.milli)
          ⊎ (v ≢ pass) × AtMost b'.milli b.milli 0)
unfolding charge_message max_ℤ
charge_message_bounds k b v low nil = ground (arith, sub_i64_parts b.milli cost)

abbrev pub one_if_pass : Verdict → ℕ
one_if_pass pass = 1
one_if_pass _ = 0

-- How many of the messages sent at these times pass.
unfoldable pub passes : ℕ → List ℕ → TokenBucket → ℕ
passes k [] b = 0
passes k (now ∷ nows) b = let (b', v) = take (some now) k b in one_if_pass v + passes k nows b'

-- The milliseconds that the clock moves forward over these times; a step back counts nothing.
unfoldable pub forward : Option ℕ → List ℕ → ℕ
forward last [] = 0
forward last (now ∷ nows) = elapsed_for last now + forward (some now) nows

pub take_bounds :
    (now k : ℕ) (b : TokenBucket)
    → IsSound b
    → (b.rate_per_sec == 0) ≡ false
    → neg_part b.milli + cost ≤ 9223372036854775808
    → (k ≡ 0 → neg_part b.milli ≡ 0)
    → let (b', v) = take (some now) k b in
      (b'.rate_per_sec ≡ b.rate_per_sec)
      × (b'.last ≡ some now)
      × IsSound b'
      × (neg_part b'.milli ≤ neg_part b.milli + cost)
      × (k ≡ 0 → neg_part b'.milli ≡ 0)
      × ((v ≡ pass)
            × (pos_part b'.milli + cost + neg_part b.milli
                ≤ pos_part b.milli + elapsed_for b.last now * b.rate_per_sec)
            × (neg_part b'.milli ≡ 0)
          ⊎ (v ≢ pass) × AtMost b'.milli b.milli (elapsed_for b.last now * b.rate_per_sec))
unfolding take refill
take_bounds now k b v on low nil =
    let level : ℤ = level_at b.last now b.rate_per_sec (b.burst * cost) b.milli in
    let (rise, cap, deep) =
      level_at_bounds b.last now b.rate_per_sec (b.burst * cost) b.milli v.full (omega arith) in
    let full_bucket : TokenBucket = record b { milli = level; last = some now } in
    let (rate, last, sound, low', nil', outcome) =
      charge_message_bounds k full_bucket (record { narrow = v.narrow; full = cap }) (omega arith)
        (λ z. omega (arith, nil z)) in
    rw on (
      rate,
      last,
      sound,
      omega arith,
      nil',
      elim outcome [
        | inl (p, q, r, s) ↦ inl (p, omega arith, q)
        | inr (p, q) ↦ inr (p, omega arith)
      ],
    )

add_up :
    (v : Verdict) (p e f r high low high' low' : ℕ)
    → ((v ≡ pass) × (high' + cost + low ≤ high + e * r) × (low' ≡ 0)
        ⊎ (v ≢ pass) × (high' + low ≤ low' + high + e * r))
    → ((p ≡ 0) ⊎ (p * cost + low' ≤ high' + f * r))
    → (one_if_pass v + p ≡ 0) ⊎ ((one_if_pass v + p) * cost + low ≤ high + (e + f) * r)
add_up pass p e f r high low high' low' o h = ground arith
add_up drop p e f r high low high' low' o h = ground arith
add_up kick p e f r high low high' low' o h = ground arith

passes_bound :
    (k : ℕ) (nows : List ℕ) (b : TokenBucket)
    → IsSound b
    → (b.rate_per_sec == 0) ≡ false
    → neg_part b.milli + length nows * cost ≤ 9223372036854775808
    → (k ≡ 0 → neg_part b.milli ≡ 0)
    → (passes k nows b ≡ 0)
      ⊎ (passes k nows b * cost + neg_part b.milli
          ≤ pos_part b.milli + forward b.last nows * b.rate_per_sec)
unfolding passes forward
passes_bound k [] b v on low nil = inl refl
passes_bound k (now ∷ nows) b v on low nil =
    let b' : TokenBucket = (take (some now) k b).0 in
    let (rate, last, sound, low', nil', outcome) = take_bounds now k b v on (omega arith) nil in
    let rest = passes_bound k nows b' sound (rw rate on) (omega arith) nil' in
    add_up (take (some now) k b).1 (passes k nows b') (elapsed_for b.last now)
      (forward (some now) nows) b.rate_per_sec (pos_part b.milli) (neg_part b.milli)
      (pos_part b'.milli) (neg_part b'.milli) outcome (rw (rate, last) at rest)

-- In any span a bucket lets through at most its burst, and one message for each 1000 / rate
-- milliseconds that the clock moved forward; the clock may step back at will. The bucket is new,
-- the rate is not 0, and fewer than 9 * 10^15 messages are sent.
pub passes-le :
    (k rate burst : ℕ) (nows : List ℕ)
    → (rate == 0) ≡ false
    → burst ≤ 4294967295
    → length nows ≤ 9000000000000000
    → passes k nows (new_bucket rate burst) * cost ≤ burst * cost + forward none nows * rate
passes-le k rate burst nows on narrow few = omega (
  arith,
  passes_bound k nows (new_bucket rate burst) (record { narrow = narrow; full = omega arith }) on
      (omega arith) (λ z. refl),
)
