-- ===== src/RateLimit/Kick.antt =====
-- When the token bucket asks for a kick.
use veredus.Base.{
  ℕ, zero, suc, ◌+◌, ◌-◌, ◌*◌, ◌≤◌, ◌≡◌, ◌≢◌, refl, min, Bool, true, false, Option, none, some,
  List, [], ◌∷◌, arith, ◌==◌, length, Bool-cases, inl, inr, ◌||◌,
}
use native.Mathlib.Nat.{zero-add}
use veredus.Base.Int.{
  ℤ, pos, negsuc, pos_part, neg_part, i64_max, saturating_add_i64, min_ℤ, max_ℤ, sub_i64_parts,
}
use veredus.RateLimit.{
  TokenBucket, Verdict, pass, drop, kick, new_bucket, cost, level_at, refill, charge_message, take,
  floor,
}
use veredus.RateLimit.Bucket.{IsSound, take_bounds, level_at_bounds}

-- `l` is at least `a` less `n`.
abbrev AtLeast : ℤ → ℤ → ℕ → Type 0
AtLeast l a n = pos_part a + neg_part l ≤ neg_part a + pos_part l + n

level_at-AtLeast :
    (last : Option ℕ) (now rate full : ℕ) (a : ℤ)
    → pos_part a ≤ full
    → full ≤ i64_max
    → neg_part a ≤ 9223372036854775808
    → AtLeast (level_at last now rate full a) a 0
unfolding level_at min_ℤ saturating_add_i64
level_at-AtLeast none now rate full a h c k = omega arith
level_at-AtLeast (some last) now rate full (pos m) h c k = ground arith
level_at-AtLeast (some last) now rate full (negsuc m) h c k = ground arith

charge_message-AtLeast :
    (k : ℕ) (b : TokenBucket)
    → IsSound b
    → neg_part b.milli + cost ≤ 9223372036854775808
    → AtLeast (charge_message k b).0.milli b.milli cost
      × ((charge_message k b).1 ≡ kick
          → (k ≢ 0)
            × (pos_part (charge_message k b).0.milli + min (b.burst * cost * (k - 1)) i64_max
                ≤ neg_part (charge_message k b).0.milli))
unfolding charge_message max_ℤ floor
charge_message-AtLeast k b v low =
    (ground (arith, sub_i64_parts b.milli cost), λ e. ground (arith, e, sub_i64_parts b.milli cost))

take-AtLeast :
    (now k : ℕ) (b : TokenBucket)
    → IsSound b
    → (b.rate_per_sec == 0) ≡ false
    → neg_part b.milli + cost ≤ 9223372036854775808
    → AtLeast (take (some now) k b).0.milli b.milli cost
      × ((take (some now) k b).1 ≡ kick
          → (k ≢ 0)
            × (pos_part (take (some now) k b).0.milli + min (b.burst * cost * (k - 1)) i64_max
                ≤ neg_part (take (some now) k b).0.milli))
      × ((take (some now) k b).0.burst ≡ b.burst)
unfolding take refill
take-AtLeast now k b v on low =
    let level : ℤ = level_at b.last now b.rate_per_sec (b.burst * cost) b.milli in
    let (rise, cap, deep) =
      level_at_bounds b.last now b.rate_per_sec (b.burst * cost) b.milli v.full (omega arith) in
    let lift =
      level_at-AtLeast b.last now b.rate_per_sec (b.burst * cost) b.milli v.full (omega arith)
        (omega arith) in
    let full_bucket : TokenBucket = record b { milli = level; last = some now } in
    let (least, debt) =
      charge_message-AtLeast k full_bucket (record { narrow = v.narrow; full = cap })
        (omega arith) in
    rw on (omega arith, debt, unfold charge_message in ground arith)

abbrev pub is_kick : Verdict → Bool
is_kick kick = true
is_kick _ = false

is_kick→eq : (v : Verdict) → is_kick v ≡ true → v ≡ kick
is_kick→eq pass e = cc
is_kick→eq drop e = cc
is_kick→eq kick e = refl

-- Some message of these gets the sender kicked.
unfoldable pub is_kicked : ℕ → List ℕ → TokenBucket → Bool
is_kicked k [] b = false
is_kicked k (now ∷ nows) b =
    is_kick (take (some now) k b).1 || is_kicked k nows (take (some now) k b).0

product_le : (k b s : ℕ) → k ≢ 0 → b * cost + b * cost * (k - 1) ≤ s * cost → b * k ≤ s
product_le zero b s n h = absurd (n refl)
product_le (suc k) b s n h = let less : suc k - 1 ≡ k = omega arith in omega (arith, rw less at h)

is_kicked_bound :
    (k : ℕ) (nows : List ℕ) (b : TokenBucket) (sent : ℕ)
    → IsSound b
    → (b.rate_per_sec == 0) ≡ false
    → sent + length nows ≤ 9000000000000000
    → b.burst * cost + neg_part b.milli ≤ pos_part b.milli + sent * cost
    → (k ≡ 0 → neg_part b.milli ≡ 0)
    → is_kicked k nows b ≡ true
    → b.burst * k ≤ sent + length nows
unfolding is_kicked
is_kicked_bound k [] b sent v on few level nil h = cc
is_kicked_bound k (now ∷ nows) b sent v on few level nil h =
    let b' : TokenBucket = (take (some now) k b).0 in
    let (least, debt, same) = take-AtLeast now k b v on (omega arith) in
    let (rate, last, sound, low, nil', outcome) = take_bounds now k b v on (omega arith) nil in
    elim (Bool-cases (is_kick (take (some now) k b).1)) [
      | inl e ↦
          let (some_k, owed) = debt (is_kick→eq (take (some now) k b).1 e) in
          omega (arith, product_le k b.burst (sent + 1) some_k (omega arith))
      | inr e ↦
          let later =
            is_kicked_bound k nows b' (sent + 1) sound (rw rate on) (omega arith)
              (rw same (omega arith)) nil' (ground (arith, h, e)) in
          omega (arith, rw same at later)
    ]

-- No sender is kicked for flooding before it has sent the burst as often as the kick multiple
-- says, however its messages are timed. The bucket is new, the rate is not 0, and fewer than
-- 9 * 10^15 messages are sent.
pub is_kicked-le :
    (k rate burst : ℕ) (nows : List ℕ)
    → (rate == 0) ≡ false
    → burst ≤ 4294967295
    → length nows ≤ 9000000000000000
    → is_kicked k nows (new_bucket rate burst) ≡ true
    → burst * k ≤ length nows
is_kicked-le k rate burst nows on narrow few h = rw zero-add at (
    is_kicked_bound k nows (new_bucket rate burst) 0
      (record { narrow = narrow; full = omega arith }) on (omega arith) (omega arith) (λ z. refl) h)
