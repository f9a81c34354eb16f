-- ===== src/Base/Runs.antt =====
-- Sequences of steps, and what every step keeps.
pub data Run {ℓ κ} {S : Type ℓ} (Step : S → S → Type κ) (start : S) : S → Type (ℓ ⊔ κ) where
  idle : Run Step start start
  after : {before now : S} → Step before now → Run Step start before → Run Step start now

module _ {ℓ κ μ} {S : Type ℓ} {Step : S → S → Type κ} (IsKept : S → Type μ)
    (step : (before now : S) → Step before now → IsKept before → IsKept now) where
  pub Run-IsKept : {start now : S} → Run Step start now → IsKept start → IsKept now
  Run-IsKept idle k = k
  Run-IsKept (after s r) k = step _ _ s (Run-IsKept r k)

module _ {ℓ κ} {S : Type ℓ} {Step : S → S → Type κ} where
  pub Run-trans : {a b c : S} → Run Step a b → Run Step b c → Run Step a c
  Run-trans r idle = r
  Run-trans r (after s q) = after s (Run-trans r q)
