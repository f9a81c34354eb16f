-- ===== src/Ingress/Ledger.antt =====
-- src/relay/ingress.rs, `Ledger`: a bucket of tokens for each identity that spent some.
pub mod Forget
pub mod Like
pub mod Equal
use veredus.Base.{
  ℕ, ◌+◌, ◌-◌, ◌*◌, ◌/◌, min, max, Bool, true, false, Option, none, some, List, [], ◌∷◌, ltb, leb,
  ◌==◌, if◌then◌else◌,
}
use veredus.Base.Int.{i64_max}
use veredus.Base.Maps.{get, put}
use veredus.Base.Words.{u32_max, saturating_add_u32}

abbrev pub nanos_per_milli : ℕ
nanos_per_milli = 1000000

pub record Bucket : Type 0 where
  pub tokens : ℕ
  pub anchor : ℕ

-- `interval.num_milliseconds().max(1)`.
abbrev pub interval_ms : ℕ → ℕ
interval_ms interval = max (interval / nanos_per_milli) 1

-- The whole intervals since the anchor.
abbrev pub steps_since : ℕ → ℕ → ℕ → ℕ
steps_since anchor interval now = (now - anchor) / nanos_per_milli / interval_ms interval

-- `u32::try_from(steps).unwrap_or(u32::MAX)`, added up to the burst.
abbrev pub gain : ℕ → ℕ → ℕ → ℕ
gain tokens steps burst = min (saturating_add_u32 tokens (min steps u32_max)) burst

unfoldable pub refill : ℕ → ℕ → ℕ → Bucket → Bucket
refill burst interval now b =
    let steps = steps_since b.anchor interval now in
    let tokens = gain b.tokens steps burst in
    if ltb now b.anchor then record b { anchor = now } else if steps == 0 then b else record {
      tokens = tokens;
      anchor =
          if leb burst tokens
          then now
          else b.anchor + min (steps * interval_ms interval) i64_max * nanos_per_milli;
    }

-- The bucket before a token is taken: a full one waits from now on.
unfoldable pub take_token : ℕ → ℕ → ℕ → Option Bucket → Bucket
take_token burst interval now found =
    let b : Bucket = elim found [ none ↦ record { tokens = burst; anchor = now } | some b ↦ b ] in
    let filled = refill burst interval now b in
    record {
      tokens = filled.tokens - 1;
      anchor = if leb burst filled.tokens then now else filled.anchor;
    }

pub record Ledger {ℓ} (K : Type ℓ) : Type ℓ where
  pub burst : ℕ
  pub interval : Option ℕ
  pub buckets : List (K × Bucket)

module _ {ℓ} {K : Type ℓ} where
  -- `Ledger::new`: an interval that is not positive turns the ledger off.
  unfoldable pub new_ledger : ℕ → Option ℕ → Ledger K
  new_ledger burst interval = record {
    burst = burst;
    interval = elim interval [ none ↦ none | some i ↦ if ltb 0 i then some i else none ];
    buckets = [];
  }

  -- `retain`: the buckets are refilled, and a full one goes.
  unfoldable pub prune_buckets : ℕ → ℕ → ℕ → List (K × Bucket) → List (K × Bucket)
  prune_buckets burst interval now [] = []
  prune_buckets burst interval now ((k, b) ∷ m) =
      let filled = refill burst interval now b in
      let rest = prune_buckets burst interval now m in
      if ltb filled.tokens burst then (k, filled) ∷ rest else rest

  unfoldable pub prune : ℕ → Ledger K → Ledger K
  prune now l = elim l.interval [
    | none ↦ l
    | some interval ↦ record l { buckets = prune_buckets l.burst interval now l.buckets }
  ]

module _ {ℓ} {K : Type ℓ} (d : Discrete K) where
  unfoldable pub has_token : K → ℕ → Ledger K → Ledger K × Bool
  has_token key now l = elim l.interval [
    | none ↦ (l, true)
    | some interval ↦ elim (get d key l.buckets) [
      | none ↦ (l, true)
      | some b ↦
          let filled = refill l.burst interval now b in
          (record l { buckets = put d key filled l.buckets }, ltb 0 filled.tokens)
    ]
  ]

  unfoldable pub spend : K → ℕ → Ledger K → Ledger K
  unfolding take_token
  spend key now l = elim l.interval [
    | none ↦ l
    | some interval ↦ record l {
      buckets = put d key (take_token l.burst interval now (get d key l.buckets)) l.buckets;
    }
  ]
