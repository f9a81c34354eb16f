-- ===== src/Ingress/Ledger/Equal.antt =====
-- src/relay/ingress.rs: a ledger that forgets full buckets answers as one that keeps them all.
use veredus.Base.{
  ℕ, ◌≡◌, ◌≢◌, refl, sym, ap, ◌∙◌, ◌≤◌, ◌<◌, Bool, true, false, Option, none, some, List, [], ◌∷◌,
  arith, ltb, if◌then◌else◌, is_same, All, Bool-cases, Option-cases, inl, inr,
}
use veredus.Base.Maps.{get, put, get-put, get-absent, AreDistinct, put-AreDistinct}
use veredus.Base.Words.{u32_max}
use veredus.Ingress.Ledger.{
  Bucket, refill, Ledger, prune_buckets, prune, has_token, take_token, spend, new_ledger,
}
use veredus.Ingress.Ledger.Like.{
  Like, refilled-Like, forgotten-Like, take_token-Bounded, take_token-eq, answer-eq,
}
use veredus.Ingress.Ledger.Forget.{held, refilled, answer}

-- The input of a ledger, and the ledger that only refills where the code prunes.
pub data Op {ℓ} (K : Type ℓ) : Type ℓ where
  asks spends : K → (now : ℕ) → Op K
  prunes : (now : ℕ) → Op K

module _ {ℓ} {K : Type ℓ} where
  unfoldable pub refill_all : ℕ → ℕ → ℕ → List (K × Bucket) → List (K × Bucket)
  refill_all burst interval now [] = []
  refill_all burst interval now ((k, b) ∷ m) =
      (k, refill burst interval now b) ∷ refill_all burst interval now m

  unfoldable pub keep : ℕ → Ledger K → Ledger K
  unfolding refill_all
  keep now l = elim l.interval [
    | none ↦ l
    | some interval ↦ record l { buckets = refill_all l.burst interval now l.buckets }
  ]

  All-prune :
      (burst interval now : ℕ) (j : K) (m : List (K × Bucket))
      → All (λ e. e.0 ≢ j) m
      → All (λ e. e.0 ≢ j) (prune_buckets burst interval now m)
  unfolding prune_buckets
  All-prune burst interval now j [] h = tt
  All-prune burst interval now j ((k, b) ∷ m) h =
      ground (arith, All-prune burst interval now j m h.1)

  prune-AreDistinct :
      (burst interval now : ℕ) (m : List (K × Bucket))
      → AreDistinct m
      → AreDistinct (prune_buckets burst interval now m)
  unfolding prune_buckets
  prune-AreDistinct burst interval now [] h = tt
  prune-AreDistinct burst interval now ((k, b) ∷ m) h =
      elim (Bool-cases (ltb (refill burst interval now b).tokens burst)) [
        | inl e ↦
            rw (e, prune_buckets)
              (All-prune burst interval now k m h.0, prune-AreDistinct burst interval now m h.1)
        | inr e ↦ rw (e, prune_buckets) (prune-AreDistinct burst interval now m h.1)
      ]

module _ {ℓ} {K : Type ℓ} (d : Discrete K) where
  -- The ledger of the code, or, if it does not forget, the one that keeps every bucket.
  unfoldable pub step : Bool → Op K → Ledger K → Ledger K
  unfolding keep
  step forgets (asks k now) l = (has_token d k now l).0
  step forgets (spends k now) l = spend d k now l
  step forgets (prunes now) l = if forgets then prune now l else keep now l

  unfoldable pub answer_to : Op K → Ledger K → Option Bool
  answer_to (asks k now) l = some (has_token d k now l).1
  answer_to (spends k now) l = none
  answer_to (prunes now) l = none

  -- What the ledger says to each input.
  unfoldable pub answers : Bool → List (Op K) → Ledger K → List (Option Bool)
  unfolding step answer_to
  answers forgets [] l = []
  answers forgets (op ∷ ops) l = answer_to op l ∷ answers forgets ops (step forgets op l)

  get-refill_all :
      (burst interval now : ℕ) (j : K) (m : List (K × Bucket))
      → get d j (refill_all burst interval now m) ≡ refilled burst interval now (get d j m)
  unfolding get refill_all refilled
  get-refill_all burst interval now j [] = refl
  get-refill_all burst interval now j ((k, b) ∷ m) =
      ground (arith, get-refill_all burst interval now j m)

  get-prune :
      (burst interval now : ℕ) (j : K) (m : List (K × Bucket))
      → AreDistinct m
      → get d j (prune_buckets burst interval now m)
        ≡ held burst (refilled burst interval now (get d j m))
  unfolding get prune_buckets refilled held
  get-prune burst interval now j [] h = refl
  get-prune burst interval now j ((k, b) ∷ m) h = elim (Bool-cases (is_same d k j)) [
    | inl e ↦
        let same : k ≡ j = ground (arith, e) in
        let gone : get d j m ≡ none = get-absent d j m (rw same at h.0) in
        let later = get-prune burst interval now j m h.1 in ground (arith, e, gone, later)
    | inr e ↦ ground (arith, e, get-prune burst interval now j m h.1)
  ]

  record Alike (burst : ℕ) (xs ys : List (K × Bucket)) : Type ℓ where
    like : (j : K) → Like burst (get d j xs) (get d j ys)
    distinct : AreDistinct xs

  -- One entry of each replaced.
  put-Alike :
      (burst : ℕ) (k : K) (a b : Bucket) (xs ys : List (K × Bucket))
      → Alike burst xs ys
      → Like burst (some a) (some b)
      → Alike burst (put d k a xs) (put d k b ys)
  put-Alike burst k a b xs ys v w = record {
    like = λ j. elim (Bool-cases (is_same d k j)) [
      | inl e ↦ rw (get-put d k j a xs, get-put d k j b ys, e) w
      | inr e ↦ rw (get-put d k j a xs, get-put d k j b ys, e) (v.like j)
    ];
    distinct = put-AreDistinct d k a xs v.distinct;
  }

  abbrev on : ℕ → ℕ → List (K × Bucket) → Ledger K
  on burst interval xs = record { burst = burst; interval = some interval; buckets = xs }

  -- The buckets after a question.
  abbrev asked_with : ℕ → ℕ → K → ℕ → List (K × Bucket) → Option Bucket → List (K × Bucket)
  asked_with burst interval k now xs none = xs
  asked_with burst interval k now xs (some b) = put d k (refill burst interval now b) xs

  abbrev asked : ℕ → ℕ → K → ℕ → List (K × Bucket) → List (K × Bucket)
  asked burst interval k now xs = asked_with burst interval k now xs (get d k xs)

  has_token-asked :
      (burst interval now : ℕ) (k : K) (xs : List (K × Bucket))
      → has_token d k now (on burst interval xs) ≡ (
        on burst interval (asked burst interval k now xs),
        answer burst interval now (get d k xs),
      )
  unfolding has_token
  has_token-asked burst interval now k xs = elim (Option-cases (get d k xs)) [
    | inl e ↦ rw (e, has_token) refl
    | inr (b, e) ↦ rw (e, has_token) refl
  ]

  get-asked :
      (burst interval now : ℕ) (k j : K) (xs : List (K × Bucket))
      → get d j (asked burst interval k now xs)
        ≡ (if is_same d k j then refilled burst interval now (get d j xs) else get d j xs)
  unfolding refilled
  get-asked burst interval now k j xs = elim (Bool-cases (is_same d k j)) [
    | inl e ↦
        let same : k ≡ j = ground (arith, e) in
        elim (Option-cases (get d k xs)) [
          | inl q ↦ let q' : get d j xs ≡ none = rw same at q in rw (q, e, q', refilled) refl
          | inr (b, q) ↦
              let q' : get d j xs ≡ some b = rw same at q in
              rw (q, get-put d k j (refill burst interval now b) xs, e, q', refilled) refl
        ]
    | inr e ↦ elim (Option-cases (get d k xs)) [
      | inl q ↦ rw (q, e) refl
      | inr (b, q) ↦ rw (q, get-put d k j (refill burst interval now b) xs, e) refl
    ]
  ]

  asked-AreDistinct :
      (burst interval now : ℕ) (k : K) (xs : List (K × Bucket))
      → AreDistinct xs
      → AreDistinct (asked burst interval k now xs)
  asked-AreDistinct burst interval now k xs v = elim (Option-cases (get d k xs)) [
    | inl e ↦ rw e v
    | inr (b, e) ↦ rw e (put-AreDistinct d k _ xs v)
  ]

  asked-Alike :
      (burst interval now : ℕ) (k : K) (xs ys : List (K × Bucket))
      → burst ≤ u32_max
      → Alike burst xs ys
      → Alike burst (asked burst interval k now xs) (asked burst interval k now ys)
  asked-Alike burst interval now k xs ys u v = record {
    like = λ j. elim (Bool-cases (is_same d k j)) [
      | inl e ↦
          rw (get-asked burst interval now k j xs, get-asked burst interval now k j ys, e)
            (refilled-Like burst interval now _ _ u (v.like j))
      | inr e ↦
          rw (get-asked burst interval now k j xs, get-asked burst interval now k j ys, e)
            (v.like j)
    ];
    distinct = asked-AreDistinct burst interval now k xs v.distinct;
  }

  -- The code forgets, the other ledger keeps, and nobody can tell.
  pruned-Alike :
      (burst interval now : ℕ) (xs ys : List (K × Bucket))
      → burst ≤ u32_max
      → Alike burst xs ys
      → Alike burst (prune_buckets burst interval now xs) (refill_all burst interval now ys)
  pruned-Alike burst interval now xs ys u v = record {
    like = λ j.
        rw (get-prune burst interval now j xs v.distinct, get-refill_all burst interval now j ys)
          (forgotten-Like burst interval now _ _ u (v.like j));
    distinct = prune-AreDistinct burst interval now xs v.distinct;
  }

  spent-Alike :
      (burst interval now : ℕ) (k : K) (xs ys : List (K × Bucket))
      → burst ≤ u32_max
      → Alike burst xs ys
      → Alike burst
          (put d k (take_token burst interval now (get d k xs)) xs)
          (put d k (take_token burst interval now (get d k ys)) ys)
  spent-Alike burst interval now k xs ys u v =
      let same = take_token-eq burst interval now _ _ u (v.like k) in
      put-Alike burst k _ _ xs ys v (record {
        seen = ap (λ b. held burst (some b)) same;
        left = take_token-Bounded burst interval now _ (v.like k).left;
        right = take_token-Bounded burst interval now _ (v.like k).right;
      })

  answers-on :
      (burst interval : ℕ) (ops : List (Op K)) (xs ys : List (K × Bucket))
      → burst ≤ u32_max
      → 0 < burst
      → Alike burst xs ys
      → answers true ops (on burst interval xs) ≡ answers false ops (on burst interval ys)
  unfolding answers step answer_to prune keep spend
  answers-on burst interval [] xs ys u h v = refl
  answers-on burst interval (asks k now ∷ ops) xs ys u h v =
      ap (λ r. some r.1 ∷ answers true ops r.0) (has_token-asked burst interval now k xs)
      ∙ ap (λ b. some b ∷ answers true ops (on burst interval (asked burst interval k now xs)))
          (answer-eq burst interval now _ _ u h (v.like k))
      ∙ ap (◌∷◌ (some (answer burst interval now (get d k ys))))
          (answers-on burst interval ops _ _ u h (asked-Alike burst interval now k xs ys u v))
      ∙ sym (ap (λ r. some r.1 ∷ answers false ops r.0) (has_token-asked burst interval now k ys))
  answers-on burst interval (spends k now ∷ ops) xs ys u h v =
      ap (◌∷◌ none)
        (answers-on burst interval ops _ _ u h (spent-Alike burst interval now k xs ys u v))
  answers-on burst interval (prunes now ∷ ops) xs ys u h v =
      ap (◌∷◌ none)
        (answers-on burst interval ops _ _ u h (pruned-Alike burst interval now xs ys u v))

  -- A ledger that is off never refuses, and never changes.
  answers-off :
      (burst : ℕ) (ops : List (Op K)) (xs : List (K × Bucket))
      → answers true ops (record { burst = burst; interval = none; buckets = xs })
        ≡ answers false ops (record { burst = burst; interval = none; buckets = xs })
  unfolding answers step answer_to prune keep spend has_token
  answers-off burst [] xs = refl
  answers-off burst (asks k now ∷ ops) xs = ap (◌∷◌ (some true)) (answers-off burst ops xs)
  answers-off burst (spends k now ∷ ops) xs = ap (◌∷◌ none) (answers-off burst ops xs)
  answers-off burst (prunes now ∷ ops) xs = ap (◌∷◌ none) (answers-off burst ops xs)

  -- Whatever is asked of a new ledger, spent on it and pruned, and however the clock steps: it
  -- answers as one that never forgets a bucket, so that a full bucket is the same as none. The
  -- burst is a `u32` and not 0.
  pub prune_unseen :
      (burst : ℕ) (interval : Option ℕ) (ops : List (Op K))
      → burst ≤ u32_max
      → 0 < burst
      → answers true ops (new_ledger burst interval) ≡ answers false ops (new_ledger burst interval)
  unfolding new_ledger get
  prune_unseen burst none ops u h = answers-off burst ops []
  prune_unseen burst (some i) ops u h = elim (Bool-cases (ltb 0 i)) [
    | inl e ↦ rw (e, new_ledger) (answers-on burst i ops [] [] u h nothing)
    | inr e ↦ rw (e, new_ledger) (answers-off burst ops [])
  ]
    where
      nothing : Alike burst [] []
      nothing = record { like = λ j. record { seen = refl; left = tt; right = tt }; distinct = tt }
