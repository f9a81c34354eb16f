-- ===== src/Base/Result.antt =====
-- Rust's `Result`, with the `?` operator as its bind.
use mathlib.Core.Path.{◌≡◌, refl}
use mathlib.Core.Logic.{◌⊎◌, inl, inr}
use mathlib.Core.Option.{Option, none, some}

pub data Result {ℓ κ} (E : Type ℓ) (T : Type κ) : Type (ℓ ⊔ κ) where
  err : E → Result E T
  ok : T → Result E T

module _ {ℓ κ} {E : Type ℓ} {T : Type κ} where
  -- `Option::ok_or`.
  abbrev pub ok_or : Option T → E → Result E T
  ok_or found fault = elim found [ some t ↦ ok t | none ↦ err fault ]

  module _ {μ} {U : Type μ} where
    infixl 5 ◌>>=◌
    abbrev pub ◌>>=◌ : Result E T → (T → Result E U) → Result E U
    (result >>= rest) = elim result [ err fault ↦ err fault | ok t ↦ rest t ]

    -- A chain that succeeds has succeeded at its first step.
    pub >>=-eq-ok :
        (result : Result E T) (rest : T → Result E U) {u : U}
        → (result >>= rest) ≡ ok u
        → (t : T) × (result ≡ ok t) × (rest t ≡ ok u)
    >>=-eq-ok (err fault) rest e = cc
    >>=-eq-ok (ok t) rest e = (t, refl, e)

  pub Result-cases : (r : Result E T) → ((e : E) × (r ≡ err e)) ⊎ ((t : T) × (r ≡ ok t))
  Result-cases (err e) = inl (e, refl)
  Result-cases (ok t) = inr (t, refl)
