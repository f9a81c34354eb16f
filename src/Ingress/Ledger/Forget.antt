-- ===== src/Ingress/Ledger/Forget.antt =====
-- `prune` of src/relay/ingress.rs: forgetting a full bucket cannot be seen.
use veredus.Base.{
  ℕ, ◌-◌, ◌≡◌, refl, sym, ◌∙◌, ◌≤◌, ◌<◌, Bool, true, Option, none, some, arith, ltb, leb,
  if◌then◌else◌, Bool-cases, inl, inr,
}
use veredus.Base.Words.{u32_max}
use veredus.Ingress.Ledger.{Bucket, refill, take_token}

-- What a lookup amounts to: a full bucket is the same as none.
unfoldable pub held : ℕ → Option Bucket → Option Bucket
held burst none = none
held burst (some b) = if ltb b.tokens burst then some b else none

unfoldable pub refilled : ℕ → ℕ → ℕ → Option Bucket → Option Bucket
refilled burst interval now none = none
refilled burst interval now (some b) = some (refill burst interval now b)

abbrev pub Bounded : ℕ → Option Bucket → Type 0
Bounded burst none = Unit {0}
Bounded burst (some b) = b.tokens ≤ burst

pub refill-le :
    (burst interval now : ℕ) (b : Bucket)
    → b.tokens ≤ burst
    → (refill burst interval now b).tokens ≤ burst
unfolding refill
refill-le burst interval now b h = ground arith

refill-full :
    (burst interval now : ℕ) (b : Bucket)
    → burst ≤ u32_max
    → burst ≤ b.tokens
    → burst ≤ (refill burst interval now b).tokens
unfolding refill
refill-full burst interval now b u h = ground arith

-- Whether an identity has a token.
abbrev pub answer : ℕ → ℕ → ℕ → Option Bucket → Bool
answer burst interval now none = true
answer burst interval now (some b) = ltb 0 (refill burst interval now b).tokens

pub answer-held :
    (burst interval now : ℕ) (o : Option Bucket)
    → burst ≤ u32_max
    → 0 < burst
    → answer burst interval now (held burst o) ≡ answer burst interval now o
unfolding held
answer-held burst interval now none u p = refl
answer-held burst interval now (some b) u p = elim (Bool-cases (ltb b.tokens burst)) [
  | inl e ↦ rw (e, held) refl
  | inr e ↦
      let full = refill-full burst interval now b u (ground arith) in rw (e, held) (ground arith)
]

pub held-refilled :
    (burst interval now : ℕ) (o : Option Bucket)
    → burst ≤ u32_max
    → held burst (refilled burst interval now (held burst o))
      ≡ held burst (refilled burst interval now o)
unfolding held refilled
held-refilled burst interval now none u = refl
held-refilled burst interval now (some b) u = elim (Bool-cases (ltb b.tokens burst)) [
  | inl e ↦ rw (e, held) refl
  | inr e ↦
      let full = refill-full burst interval now b u (ground arith) in
      rw (e, held, refilled) (ground arith)
]

-- A full bucket loses its first token now.
take_token-full :
    (burst interval now : ℕ) (b : Bucket)
    → burst ≤ u32_max
    → b.tokens ≡ burst
    → take_token burst interval now (some b) ≡ record { tokens = burst - 1; anchor = now }
unfolding take_token
take_token-full burst interval now b u h =
    let up = refill-full burst interval now b u (omega arith) in
    let down = refill-le burst interval now b (omega arith) in
    let same : (refill burst interval now b).tokens ≡ burst = omega arith in
    let full : leb burst burst ≡ true = ground arith in rw same (rw full refl)

take_token-none :
    (burst interval now : ℕ)
    → take_token burst interval now none
      ≡ take_token burst interval now (some (record { tokens = burst; anchor = now }))
unfolding take_token
take_token-none burst interval now = refl

pub take_token-held :
    (burst interval now : ℕ) (o : Option Bucket)
    → burst ≤ u32_max
    → Bounded burst o
    → take_token burst interval now (held burst o) ≡ take_token burst interval now o
unfolding held
take_token-held burst interval now none u h = refl
take_token-held burst interval now (some b) u h = elim (Bool-cases (ltb b.tokens burst)) [
  | inl e ↦ rw (e, held) refl
  | inr e ↦
      let fresh : Bucket = record { tokens = burst; anchor = now } in
      rw (e, held)
        (take_token-none burst interval now
          ∙ take_token-full burst interval now fresh u refl
          ∙ sym (take_token-full burst interval now b u (ground arith)))
]
