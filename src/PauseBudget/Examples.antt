-- ===== src/PauseBudget/Examples.antt =====
-- The theorems on the pause budget at a concrete match.
use veredus.Base.{◌+◌, ◌-◌, ◌≡◌, ◌∙◌, refl, some, [], ◌∷◌, list_discrete}
use veredus.Base.Maps.{get}
use veredus.Text.{Guid}
use veredus.PauseBudget.{PauseBudget, new_budget, remaining_for, left_of, check}
use veredus.PauseBudget.Spend.{remaining_for-check, owed, paying, gone_by}

abbrev anna : Guid
anna = 97 ∷ []

abbrev bert : Guid
bert = 98 ∷ []

-- Anna pauses since 3, and the last pass was at 5.
abbrev paused : PauseBudget
paused = record (new_budget 100 8) {
  pausing = anna ∷ [];
  remaining = (anna, 90) ∷ [];
  paused_at = (anna, 3) ∷ [];
  last_check = some 5;
}

remaining_for-check_example :
    remaining_for anna (check 20 2 (bert ∷ []) paused).0
    ≡ remaining_for anna paused
      - (owed anna (paying 2 paused) (gone_by (some 5) 20)
          + owed anna (bert ∷ []) (gone_by (some 5) 20))
remaining_for-check_example = remaining_for-check anna 20 2 (bert ∷ []) paused

-- The clock goes on by 15, and then it steps back.
anna_pays : remaining_for anna (check 20 2 (bert ∷ []) paused).0 ≡ 75
unfolding remaining_for left_of get list_discrete
anna_pays = remaining_for-check anna 20 2 (bert ∷ []) paused ∙ refl

nobody_pays : remaining_for anna (check 2 2 (anna ∷ []) paused).0 ≡ 90
unfolding remaining_for left_of get list_discrete
nobody_pays = remaining_for-check anna 2 2 (anna ∷ []) paused ∙ refl
