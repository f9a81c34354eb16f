-- ===== src/RateLimit/Examples.antt =====
-- The theorems on the limits at concrete senders. The burst is 1 message, the rate 1 a second.
use veredus.Base.{ℕ, ◌+◌, ◌*◌, ◌≤◌, ◌≡◌, refl, true, none, List, [], ◌∷◌, arith, length}
use veredus.Base.Int.{min_ℤ, sub_i64, saturating_add_i64}
use veredus.RateLimit.{new_bucket, cost, take, refill, charge_message, level_at, floor, TurnQuota}
use veredus.RateLimit.Bucket.{passes, forward, passes-le}
use veredus.RateLimit.Kick.{is_kicked, is_kicked-le}

-- Three messages at once, and one a second later.
abbrev nows : List ℕ
nows = 5 ∷ 5 ∷ 5 ∷ 1000000005 ∷ []

passes-le_example : passes 2 nows (new_bucket 1 1) * cost ≤ 1 * cost + forward none nows * 1
passes-le_example = passes-le 2 1 1 nows refl (omega arith) (omega arith)

nows_kick : is_kicked 2 nows (new_bucket 1 1) ≡ true
unfolding is_kicked take refill charge_message level_at floor min_ℤ saturating_add_i64 sub_i64
nows_kick = refl

is_kicked-le_example : 1 * 2 ≤ length nows
is_kicked-le_example = is_kicked-le 2 1 1 nows refl (omega arith) (omega arith) nows_kick

abbrev uses : TurnQuota
uses = record { turn = 3; count = 2; bytes = 10 } ∷ record { turn = 6; count = 1; bytes = 8 } ∷ []
