-- ===== src/Base/Maps.antt =====
-- `HashMap` and `HashSet` as association lists, the key's equality being a parameter.
use mathlib.Core.Path.{◌≡◌, refl}
use mathlib.Core.List.{List, [], ◌∷◌}
use mathlib.Core.Option.{Option, none, some}
use mathlib.Core.Logic.{◌≢◌, ◌⊎◌, inl, inr}
use native.Mathlib.Omega.{arith}
use veredus.Base.Tests.{if◌then◌else◌, is_same, Bool-cases}
use veredus.Base.Lists.{All}

module _ {ℓ κ} {K : Type ℓ} {V : Type κ} (d : Discrete K) where
  unfoldable pub get : K → List (K × V) → Option V
  get k [] = none
  get k ((j, v) ∷ m) = if is_same d j k then some v else get k m

  -- `insert`: an entry there is replaced, a new one is added at the end.
  unfoldable pub put : K → V → List (K × V) → List (K × V)
  put k v [] = (k, v) ∷ []
  put k v ((j, w) ∷ m) = if is_same d j k then (k, v) ∷ m else (j, w) ∷ put k v m

  -- `remove`: every entry of the key goes.
  unfoldable pub erase : K → List (K × V) → List (K × V)
  erase k [] = []
  erase k ((j, v) ∷ m) = if is_same d j k then erase k m else (j, v) ∷ erase k m

  pub get-put :
      (k j : K) (v : V) (m : List (K × V))
      → get j (put k v m) ≡ (if is_same d k j then some v else get j m)
  unfolding get put
  get-put k j v [] = refl
  get-put k j v ((i, w) ∷ m) = ground (arith, get-put k j v m)

  pub get-erase :
      (k j : K) (m : List (K × V)) → get j (erase k m) ≡ (if is_same d k j then none else get j m)
  unfolding get erase
  get-erase k j [] = ground arith
  get-erase k j ((i, w) ∷ m) = ground (arith, get-erase k j m)

module _ {ℓ κ} {K : Type ℓ} {V : Type κ} (d : Discrete K) where
  pub get-cons :
      (k j : K) (v w : V) (m : List (K × V))
      → get d k ((j, w) ∷ m) ≡ some v
      → (j ≡ k) × (w ≡ v) ⊎ (get d k m ≡ some v)
  unfolding get
  get-cons k j v w m e = ground arith

module _ {ℓ κ μ} {K : Type ℓ} {V : Type κ} (d : Discrete K) (P : K × V → Type μ) where
  pub All-put : (k : K) (v : V) (m : List (K × V)) → P (k, v) → All P m → All P (put d k v m)
  unfolding put
  All-put k v [] p h = (p, tt)
  All-put k v ((j, w) ∷ m) p h = ground (arith, All-put k v m p h.1)

  pub All-erase : (k : K) (m : List (K × V)) → All P m → All P (erase d k m)
  unfolding erase
  All-erase k [] h = tt
  All-erase k ((j, w) ∷ m) h = ground (arith, All-erase k m h.1)

  -- What `erase` leaves has another key.
  pub All-erase_ne : (k : K) (m : List (K × V)) → All P m → All (λ e. P e × (e.0 ≢ k)) (erase d k m)
  unfolding erase
  All-erase_ne k [] h = tt
  All-erase_ne k ((j, w) ∷ m) h = ground (arith, All-erase_ne k m h.1)

  pub All-get : (k : K) (v : V) (m : List (K × V)) → get d k m ≡ some v → All P m → P (k, v)
  unfolding get
  All-get k v [] e h = cc
  All-get k v ((j, w) ∷ m) e h = elim (get-cons d k j v w m e) [
    | inl (p, q) ↦ rw (← p, ← q) h.0
    | inr later ↦ All-get k v m later h.1
  ]

module _ {ℓ κ} {K : Type ℓ} {V : Type κ} where
  -- Each key of the map once.
  abbrev pub AreDistinct : List (K × V) → Type ℓ
  AreDistinct [] = Unit {ℓ}
  AreDistinct ((k, v) ∷ m) = All (λ e. e.0 ≢ k) m × AreDistinct m

module _ {ℓ κ} {K : Type ℓ} {V : Type κ} (d : Discrete K) where
  pub put-AreDistinct :
      (k : K) (v : V) (m : List (K × V)) → AreDistinct m → AreDistinct (put d k v m)
  unfolding put
  put-AreDistinct k v [] h = (tt, tt)
  put-AreDistinct k v ((j, w) ∷ m) h = elim (Bool-cases (is_same d j k)) [
    | inl e ↦ let same : j ≡ k = ground (arith, e) in rw (e, put) (rw same at h.0, h.1)
    | inr e ↦
        let other : k ≢ j = ground (arith, e) in
        rw (e, put) (All-put d (λ x. x.0 ≢ j) k v m other h.0, put-AreDistinct k v m h.1)
  ]

  -- A key that no entry has is not found.
  pub get-absent : (k : K) (m : List (K × V)) → All (λ e. e.0 ≢ k) m → get d k m ≡ none
  unfolding get
  get-absent k [] h = refl
  get-absent k ((j, w) ∷ m) h = ground (arith, get-absent k m h.1)
