-- ===== src/PauseBudget.antt =====
-- src/relay/pause_budget.rs: how long each player may hold the match. A time is a number of
-- nanoseconds, and the budgets are not negative, so that `-` on ℕ is `(a - b).max(zero)`. A
-- `HashSet` is a list without repeats.
pub mod Spend
mod Examples
use veredus.Base.{
  ℕ, ◌-◌, Bool, true, false, ◌&&◌, ◌||◌, not, Option, none, some, List, [], ◌∷◌, ◌++◌, length, any,
  select, ltb, leb, ◌==◌, if◌then◌else◌, is_empty, list_discrete, map,
}
use veredus.Base.Maps.{get, put, erase}
use veredus.Text.{Guid, same_text}

abbrev pub status_interval : ℕ
status_interval = 10000000000

pub data BudgetEvent : Type 0 where
  expired : Guid → BudgetEvent
  status : Guid → ℕ → BudgetEvent
  coordinated_started coordinated_ended : BudgetEvent
  auto_pause_started : List Guid → BudgetEvent
  auto_pause_ended : BudgetEvent
  absent_expired : Guid → BudgetEvent
  absent_status : Guid → ℕ → BudgetEvent

pub record PauseBudget : Type 0 where
  pub pausing : List Guid
  pub remaining : List (Guid × ℕ)
  pub budget : ℕ
  pub min_charge : ℕ
  pub paused_at : List (Guid × ℕ)
  pub last_check : Option ℕ
  pub last_status : Option ℕ
  pub coordinated : Bool
  pub auto_paused : Bool

-- `PauseBudget::new`.
abbrev pub new_budget : ℕ → ℕ → PauseBudget
new_budget budget min_charge = record {
  pausing = [];
  remaining = [];
  budget = budget;
  min_charge = min_charge;
  paused_at = [];
  last_check = none;
  last_status = none;
  coordinated = false;
  auto_paused = false;
}

unfoldable pub is_pausing : Guid → PauseBudget → Bool
is_pausing uuid b = any (λ u. same_text u uuid) b.pausing

-- `remaining.get(uuid).copied().unwrap_or(budget)`.
unfoldable pub left_of : Guid → ℕ → List (Guid × ℕ) → ℕ
left_of uuid budget remaining = elim (get list_discrete uuid remaining) [
  | none ↦ budget
  | some left ↦ left
]

-- The method `remaining`.
unfoldable pub remaining_for : Guid → PauseBudget → ℕ
remaining_for uuid b = left_of uuid b.budget b.remaining

-- `entry(uuid).or_insert(budget)`, less an amount.
unfoldable pub spend : Guid → ℕ → ℕ → List (Guid × ℕ) → List (Guid × ℕ)
unfolding left_of
spend uuid amount budget remaining =
    put list_discrete uuid (left_of uuid budget remaining - amount) remaining

unfoldable pub charge_shortfall : Guid → PauseBudget → PauseBudget
charge_shortfall uuid b =
    let moved : PauseBudget = record b { paused_at = erase list_discrete uuid b.paused_at } in
    elim (get list_discrete uuid b.paused_at) [
      | none ↦ moved
      | some start ↦ elim b.last_check [
        | none ↦ moved
        | some now ↦
            if ltb 0 (b.min_charge - (now - start))
            then record moved {
              remaining = spend uuid (b.min_charge - (now - start)) b.budget b.remaining;
            }
            else moved
      ]
    ]

unfoldable pub set_pausing : Guid → Bool → PauseBudget → PauseBudget × Bool
set_pausing uuid true b = if is_pausing uuid b then (b, false) else (
  record b {
    pausing = b.pausing ++ (uuid ∷ []);
    paused_at = elim b.last_check [
      | none ↦ b.paused_at
      | some now ↦ put list_discrete uuid now b.paused_at
    ];
  },
  true,
)
set_pausing uuid false b =
    if is_pausing uuid b
    then (
      charge_shortfall uuid (record b { pausing = select (λ u. not (same_text u uuid)) b.pausing }),
      true,
    )
    else (b, false)

unfoldable pub clear_pausing : Guid → PauseBudget → PauseBudget
clear_pausing uuid b = (set_pausing uuid false b).0

unfoldable pub inherit : Guid → Guid → PauseBudget → PauseBudget
inherit old new b = elim (get list_discrete old b.remaining) [
  | none ↦ b
  | some left ↦ record b {
    remaining = put list_discrete new left (erase list_discrete old b.remaining);
  }
]

-- `(now - last).max(TimeDelta::zero())`.
unfoldable pub elapsed_since : Option ℕ → ℕ → ℕ
elapsed_since none now = 0
elapsed_since (some last) now = if ltb now last then 0 else now - last

-- The drain of every player who pauses.
unfoldable pub drain : List Guid → ℕ → ℕ → List (Guid × ℕ) → List (Guid × ℕ)
unfolding spend
drain [] elapsed budget remaining = remaining
drain (u ∷ us) elapsed budget remaining = drain us elapsed budget (spend u elapsed budget remaining)

unfoldable pub forget_pauses : List Guid → List (Guid × ℕ) → List (Guid × ℕ)
forget_pauses [] paused_at = paused_at
forget_pauses (u ∷ us) paused_at = forget_pauses us (erase list_discrete u paused_at)

-- The loop over the players who are away: what is left, the events, and those still waited for.
unfoldable pub charge_absent :
    List Guid → ℕ → ℕ → List (Guid × ℕ) → List (Guid × ℕ) × List BudgetEvent × List Guid
unfolding spend left_of
charge_absent [] elapsed budget remaining = (remaining, [], [])
charge_absent (u ∷ us) elapsed budget remaining =
    let spent = left_of u budget remaining == 0 in
    let gone = left_of u budget remaining - elapsed == 0 in
    let rest =
      charge_absent us elapsed budget (spend u (if spent then 0 else elapsed) budget remaining) in
    (
      rest.0,
      if not spent && gone then absent_expired u ∷ rest.1 else rest.1,
      if spent || gone then rest.2 else u ∷ rest.2,
    )

unfoldable pub status_due : ℕ → PauseBudget → PauseBudget × Bool
status_due now b = elim b.last_status [
  | none ↦ (record b { last_status = some now }, false)
  | some last ↦
      if leb status_interval (now - last) || ltb now last
      then (record b { last_status = some now }, true)
      else (b, false)
]

-- The first part of `check`: the clock, the coordinated pause and the drain.
unfoldable pub drained : ℕ → ℕ → PauseBudget → PauseBudget × List BudgetEvent
drained now players b =
    let coordinated = leb 2 players && length b.pausing == players in
    let elapsed = elapsed_since b.last_check now in
    (
      record b {
        last_check = some now;
        coordinated = coordinated;
        remaining =
            if coordinated then b.remaining else drain b.pausing elapsed b.budget b.remaining;
      },
      if (if coordinated then b.coordinated else not b.coordinated)
          then []
          else (if coordinated then coordinated_started else coordinated_ended) ∷ [],
    )

-- The second part: players without a quota left do not pause any more.
unfoldable pub expire : PauseBudget → PauseBudget × List BudgetEvent
expire b =
    let spent = select (λ u. remaining_for u b == 0) b.pausing in
    (
      record b {
        pausing = select (λ u. not (remaining_for u b == 0)) b.pausing;
        paused_at = forget_pauses spent b.paused_at;
      },
      map expired spent,
    )

-- The third part: the players who are away, and the pause of the match that waits for them.
unfoldable pub wait_for : ℕ → List Guid → PauseBudget → PauseBudget × List BudgetEvent × List Guid
wait_for elapsed absent b =
    let (r, es, waiting) = charge_absent absent elapsed b.budget b.remaining in
    (
      record b { remaining = r; auto_paused = not (is_empty waiting) },
      es
          ++ (if not (is_empty waiting) && not b.auto_paused
              then auto_pause_started waiting ∷ []
              else if is_empty waiting && b.auto_paused
              then auto_pause_ended ∷ []
              else []),
      waiting,
    )

-- The last part: what the clients are told of the quotas.
unfoldable pub report : ℕ → List Guid → PauseBudget → PauseBudget × List BudgetEvent
report now waiting b =
    let asked = not b.coordinated || not (is_empty waiting) in
    let r = status_due now b in
    let due = asked && r.1 in
    (
      if asked then r.0 else b,
      (if not b.coordinated && due then map (λ u. status u (remaining_for u b)) b.pausing else [])
          ++ (if due then map (λ u. absent_status u (remaining_for u b)) waiting else []),
    )

unfoldable pub check : ℕ → ℕ → List Guid → PauseBudget → PauseBudget × List BudgetEvent
check now players absent b =
    let elapsed = elapsed_since b.last_check now in
    let first = drained now players b in
    let second = expire first.0 in
    let third = wait_for elapsed absent second.0 in
    let fourth = report now third.2 third.0 in
    (fourth.0, first.1 ++ second.1 ++ third.1 ++ fourth.1)
