-- ===== src/Ingress/Ledger/Like.antt =====
-- src/relay/ingress.rs: buckets that nobody can tell apart stay so, whatever is done with them.
use veredus.Base.{ℕ, ◌≡◌, refl, sym, ap, ◌∙◌, ◌≤◌, ◌<◌, Option, none, some, arith}
use veredus.Base.Words.{u32_max}
use veredus.Ingress.Ledger.{Bucket, take_token}
use veredus.Ingress.Ledger.Forget.{
  held, refilled, Bounded, answer, answer-held, held-refilled, take_token-held, refill-le,
}

-- Two lookups that nobody can tell apart.
pub record Like (burst : ℕ) (o p : Option Bucket) : Type 0 where
  pub seen : held burst o ≡ held burst p
  pub left : Bounded burst o
  pub right : Bounded burst p

refilled-Bounded :
    (burst interval now : ℕ) (o : Option Bucket)
    → Bounded burst o
    → Bounded burst (refilled burst interval now o)
unfolding refilled
refilled-Bounded burst interval now none h = tt
refilled-Bounded burst interval now (some b) h = refill-le burst interval now b h

held-Bounded : (burst : ℕ) (o : Option Bucket) → Bounded burst o → Bounded burst (held burst o)
unfolding held
held-Bounded burst none h = tt
held-Bounded burst (some b) h = ground (arith, h)

held_twice : (burst : ℕ) (o : Option Bucket) → held burst (held burst o) ≡ held burst o
unfolding held
held_twice burst none = refl
held_twice burst (some b) = ground arith

pub refilled-Like :
    (burst interval now : ℕ) (o p : Option Bucket)
    → burst ≤ u32_max
    → Like burst o p
    → Like burst (refilled burst interval now o) (refilled burst interval now p)
refilled-Like burst interval now o p u v = record {
  seen =
      sym (held-refilled burst interval now o u)
      ∙ ap (λ x. held burst (refilled burst interval now x)) v.seen
      ∙ held-refilled burst interval now p u;
  left = refilled-Bounded burst interval now o v.left;
  right = refilled-Bounded burst interval now p v.right;
}

pub forgotten-Like :
    (burst interval now : ℕ) (o p : Option Bucket)
    → burst ≤ u32_max
    → Like burst o p
    → Like burst (held burst (refilled burst interval now o)) (refilled burst interval now p)
forgotten-Like burst interval now o p u v =
    let w = refilled-Like burst interval now o p u v in
    record {
      seen = held_twice burst (refilled burst interval now o) ∙ w.seen;
      left = held-Bounded burst _ w.left;
      right = w.right;
    }

pub take_token-Bounded :
    (burst interval now : ℕ) (o : Option Bucket)
    → Bounded burst o
    → (take_token burst interval now o).tokens ≤ burst
unfolding take_token
take_token-Bounded burst interval now none h =
    let low =
      refill-le burst interval now (record { tokens = burst; anchor = now }) (omega arith) in
    omega arith
take_token-Bounded burst interval now (some b) h =
    let low = refill-le burst interval now b h in omega arith

pub take_token-eq :
    (burst interval now : ℕ) (o p : Option Bucket)
    → burst ≤ u32_max
    → Like burst o p
    → take_token burst interval now o ≡ take_token burst interval now p
take_token-eq burst interval now o p u v =
    sym (take_token-held burst interval now o u v.left)
    ∙ ap (take_token burst interval now) v.seen
    ∙ take_token-held burst interval now p u v.right

pub answer-eq :
    (burst interval now : ℕ) (o p : Option Bucket)
    → burst ≤ u32_max
    → 0 < burst
    → Like burst o p
    → answer burst interval now o ≡ answer burst interval now p
answer-eq burst interval now o p u h v =
    sym (answer-held burst interval now o u h)
    ∙ ap (answer burst interval now) v.seen
    ∙ answer-held burst interval now p u h
