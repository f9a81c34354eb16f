-- ===== src/RateLimit.antt =====
-- src/relay/rate_limit.rs: the token bucket of chat and flares, and the quota of commands by turn.
-- A time is a number of nanoseconds; a bucket's level is in thousandths of a message.
pub mod Bucket
pub mod Quota
pub mod Kick
mod Examples
use veredus.Base.{
  ℕ, ◌+◌, ◌-◌, ◌*◌, ◌/◌, min, suc, Bool, true, false, ◌&&◌, ◌||◌, not, Option, none, some, List, [],
  ◌∷◌, ◌++◌, ltb, leb, ◌==◌, if◌then◌else◌, select, is_some, find,
}
use veredus.Base.Words.{
  saturating_add_u32, saturating_mul_u32, saturating_add_usize, saturating_mul_usize,
}
use veredus.Base.Int.{
  ℤ, pos, negsuc, leb_ℤ, i64_max, sub_i64, saturating_add_i64, min_ℤ, max_ℤ, sub_ℕ,
}

abbrev pub cost : ℕ
cost = 1000

abbrev pub nanos_per_milli : ℕ
nanos_per_milli = 1000000

pub data Verdict : Type 0 where
  pass drop kick : Verdict

pub record TokenBucket : Type 0 where
  pub milli : ℤ
  pub rate_per_sec : ℕ
  pub burst : ℕ
  pub last : Option ℕ

-- `TokenBucket::new`.
abbrev pub new_bucket : ℕ → ℕ → TokenBucket
new_bucket rate burst = record {
  milli = pos (burst * cost);
  rate_per_sec = rate;
  burst = burst;
  last = none;
}

-- `elapsed_ms`, which is 0 if the clock stepped backwards.
abbrev pub elapsed_ms : ℕ → ℕ → ℕ
elapsed_ms last now = (now - last) / nanos_per_milli

-- `elapsed_ms.saturating_mul(i64::from(self.rate_per_sec))`.
abbrev pub refill_of : ℕ → ℕ → ℕ
refill_of elapsed rate = min (elapsed * rate) i64_max

-- The level at `now`, given when the bucket was last used.
unfoldable pub level_at : Option ℕ → ℕ → ℕ → ℕ → ℤ → ℤ
level_at none now rate full milli = milli
level_at (some last) now rate full milli =
    min_ℤ (saturating_add_i64 milli (pos (refill_of (elapsed_ms last now) rate))) (pos full)

-- The part of `take` that runs if it is given the time.
unfoldable pub refill : Option ℕ → TokenBucket → TokenBucket
refill none b = b
refill (some now) b = record b {
  milli = level_at b.last now b.rate_per_sec (b.burst * cost) b.milli;
  last = some now;
}

-- `-full.saturating_mul(i64::from(kick_multiple - 1))`, for a multiple that is not 0.
unfoldable pub floor : ℕ → ℕ → ℤ
floor burst kick_multiple = sub_ℕ 0 (min (burst * cost * (kick_multiple - 1)) i64_max)

-- The rest of `take`.
unfoldable pub charge_message : ℕ → TokenBucket → TokenBucket × Verdict
charge_message kick_multiple b =
    if leb_ℤ (pos cost) b.milli
    then (record b { milli = sub_i64 b.milli (pos cost) }, pass)
    else if kick_multiple == 0
    then (record b { milli = max_ℤ b.milli (pos 0) }, drop)
    else (let left = sub_i64 b.milli (pos cost) in
        (
          record b { milli = left },
          if leb_ℤ left (floor b.burst kick_multiple) then kick else drop,
        ))

unfoldable pub take : Option ℕ → ℕ → TokenBucket → TokenBucket × Verdict
take now kick_multiple b =
    if b.rate_per_sec == 0 then (b, pass) else charge_message kick_multiple (refill now b)

pub record TurnUse : Type 0 where
  pub turn : ℕ
  pub count : ℕ
  pub bytes : ℕ

-- `TurnQuota`: the field `open`.
abbrev pub TurnQuota : Type 0
TurnQuota = List TurnUse

-- The uses of the turn before this command, and the change of its entry, which is added if needed.
unfoldable pub used_for : ℕ → TurnQuota → TurnUse
used_for turn uses = elim (find (λ u. u.turn == turn) uses) [
  | some u ↦ u
  | none ↦ record { turn = turn; count = 0; bytes = 0 }
]

unfoldable pub set_used : ℕ → TurnUse → TurnQuota → TurnQuota
set_used turn used [] = used ∷ []
set_used turn used (u ∷ us) = if u.turn == turn then used ∷ us else u ∷ set_used turn used us

abbrev pub over : ℕ → ℕ → Bool
over cap amount = not (cap == 0) && ltb cap amount

unfoldable pub judge : ℕ → ℕ → ℕ → TurnUse → Verdict
judge max_count max_bytes k used =
    if not (over max_count used.count) && not (over max_bytes used.bytes)
    then pass
    else if not (k == 0)
        && (over (saturating_mul_u32 max_count k) used.count
            || over (saturating_mul_usize max_bytes k) used.bytes)
    then kick
    else drop

unfoldable pub charge : ℕ → ℕ → ℕ → ℕ → ℕ → ℕ → TurnQuota → TurnQuota × Verdict
charge turn bytes ready_turn max_count max_bytes kick_multiple quota =
    let still = select (λ u. ltb ready_turn u.turn) quota in
    let before = used_for turn still in
    let used : TurnUse = record before {
      count = saturating_add_u32 before.count 1;
      bytes = saturating_add_usize before.bytes bytes;
    } in
    (set_used turn used still, judge max_count max_bytes kick_multiple used)

-- The limits that `Limits::new` reads from `Config`.
pub record LimitSettings : Type 0 where
  pub chat_per_sec : ℕ
  pub chat_burst : ℕ
  pub flare_per_sec : ℕ
  pub flare_burst : ℕ

pub record Limits : Type 0 where
  pub chat : TokenBucket
  pub flare : TokenBucket
  pub commands : TurnQuota

-- `Limits::new`.
unfoldable pub new_limits : LimitSettings → Limits
new_limits config = record {
  chat = new_bucket config.chat_per_sec config.chat_burst;
  flare = new_bucket config.flare_per_sec config.flare_burst;
  commands = [];
}
