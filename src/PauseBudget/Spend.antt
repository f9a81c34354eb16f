-- ===== src/PauseBudget/Spend.antt =====
-- What a player has left: it never grows, and a pass takes exactly the time that went by.
use veredus.Base.{
  ℕ, ◌+◌, ◌-◌, max, ◌≤◌, ◌≡◌, refl, Bool, true, false, ◌&&◌, Option, none, some, length, List, [],
  ◌∷◌, ltb, leb, ◌==◌, if◌then◌else◌, list_discrete, arith, Bool-cases, Option-cases, inl, inr, ap,
  ◌∙◌,
}
use veredus.Base.Maps.{get, put, get-put}
use veredus.Text.{Guid, same_text, same_text→eq}
use veredus.PauseBudget.{
  PauseBudget, left_of, spend, drain, charge_absent, charge_shortfall, set_pausing, remaining_for,
  check, drained, expire, wait_for, report, status_due, elapsed_since, is_pausing,
}

abbrev in_budget : ℕ → Option ℕ → ℕ
in_budget budget none = budget
in_budget budget (some left) = left

left_of-put :
    (v u : Guid) (left budget : ℕ) (r : List (Guid × ℕ))
    → left_of v budget (put list_discrete u left r)
      ≡ (if same_text u v then left else left_of v budget r)
unfolding left_of
left_of-put v u left budget r =
    ap (in_budget budget) (get-put list_discrete u v left r)
    ∙ elim (Bool-cases (same_text u v)) [ inl same ↦ rw same refl | inr other ↦ rw other refl ]

left_of-spend-le :
    (v u : Guid) (amount budget : ℕ) (r : List (Guid × ℕ))
    → left_of v budget (spend u amount budget r) ≤ left_of v budget r
unfolding spend
left_of-spend-le v u amount budget r = elim (Bool-cases (same_text u v)) [
  | inl same ↦
      rw (left_of-put v u (left_of u budget r - amount) budget r, same)
        (rw (same_text→eq u v same) (omega arith))
  | inr other ↦ rw (left_of-put v u (left_of u budget r - amount) budget r, other) (omega arith)
]

-- What a player owes: the time once for each time it is named.
abbrev pub owed : Guid → List Guid → ℕ → ℕ
owed v [] elapsed = 0
owed v (u ∷ us) elapsed = (if same_text u v then elapsed else 0) + owed v us elapsed

left_of-spend :
    (v u : Guid) (amount budget : ℕ) (r : List (Guid × ℕ))
    → left_of v budget (spend u amount budget r)
      ≡ left_of v budget r - (if same_text u v then amount else 0)
unfolding spend
left_of-spend v u amount budget r = elim (Bool-cases (same_text u v)) [
  | inl same ↦
      rw (left_of-put v u (left_of u budget r - amount) budget r, same)
        (rw (same_text→eq u v same) refl)
  | inr other ↦ rw (left_of-put v u (left_of u budget r - amount) budget r, other) (omega arith)
]

left_of-drain :
    (v : Guid) (us : List Guid) (elapsed budget : ℕ) (r : List (Guid × ℕ))
    → left_of v budget (drain us elapsed budget r) ≡ left_of v budget r - owed v us elapsed
unfolding drain
left_of-drain v [] elapsed budget r = omega arith
left_of-drain v (u ∷ us) elapsed budget r =
    let one = left_of-spend v u elapsed budget r in
    let rest = left_of-drain v us elapsed budget (spend u elapsed budget r) in omega arith

-- A player without anything left is charged nothing, which comes to the same.
left_of-spend-if :
    (v u : Guid) (elapsed budget : ℕ) (r : List (Guid × ℕ))
    → left_of v budget (spend u (if left_of u budget r == 0 then 0 else elapsed) budget r)
      ≡ left_of v budget r - (if same_text u v then elapsed else 0)
left_of-spend-if v u elapsed budget r =
    let cost = if left_of u budget r == 0 then 0 else elapsed in
    left_of-spend v u cost budget r ∙ elim (Bool-cases (same_text u v)) [
      | inl same ↦ rw (same, same_text→eq u v same) (ground arith)
      | inr other ↦ rw other refl
    ]

left_of-charge_absent :
    (v : Guid) (us : List Guid) (elapsed budget : ℕ) (r : List (Guid × ℕ))
    → left_of v budget (charge_absent us elapsed budget r).0
      ≡ left_of v budget r - owed v us elapsed
unfolding charge_absent
left_of-charge_absent v [] elapsed budget r = omega arith
left_of-charge_absent v (u ∷ us) elapsed budget r =
    let cost = if left_of u budget r == 0 then 0 else elapsed in
    let one = left_of-spend-if v u elapsed budget r in
    let rest = left_of-charge_absent v us elapsed budget (spend u cost budget r) in omega arith

shortfall-le :
    (v u : Guid) (b : PauseBudget) → remaining_for v (charge_shortfall u b) ≤ remaining_for v b
unfolding remaining_for charge_shortfall
shortfall-le v u b = elim (Option-cases (get list_discrete u b.paused_at)) [
  | inl none_there ↦ rw (none_there, charge_shortfall) (omega arith)
  | inr (start, there) ↦ elim (Option-cases b.last_check) [
    | inl unset ↦ rw (there, charge_shortfall) (rw unset (omega arith))
    | inr (now, set) ↦
        rw (there, charge_shortfall)
          (rw set (elim (Bool-cases (ltb 0 (b.min_charge - (now - start)))) [
            | inl owes ↦ rw owes (left_of-spend-le v u _ b.budget b.remaining)
            | inr paid ↦ rw paid (omega arith)
          ]))
  ]
]

-- Whatever a player does with its pause, and whatever the others do with theirs: what anybody has
-- left does not grow.
pub set_pausing-le :
    (v u : Guid) (pausing : Bool) (b : PauseBudget)
    → remaining_for v (set_pausing u pausing b).0 ≤ remaining_for v b
unfolding set_pausing remaining_for
set_pausing-le v u true b = ground arith
set_pausing-le v u false b = elim (Bool-cases (is_pausing u b)) [
  | inl held ↦ rw (held, set_pausing) (shortfall-le v u _)
  | inr free ↦ rw (free, set_pausing) (omega arith)
]

-- Whose pauses a pass charges: nobody's while every player, two at least, pauses.
abbrev pub paying : ℕ → PauseBudget → List Guid
paying players b = if leb 2 players && length b.pausing == players then [] else b.pausing

remaining-drained :
    (v : Guid) (now players : ℕ) (b : PauseBudget)
    → remaining_for v (drained now players b).0
      ≡ remaining_for v b - owed v (paying players b) (elapsed_since b.last_check now)
unfolding drained remaining_for
remaining-drained v now players b =
    elim (Bool-cases (leb 2 players && length b.pausing == players)) [
      | inl together ↦ rw together (omega arith)
      | inr apart ↦
          rw apart (left_of-drain v b.pausing (elapsed_since b.last_check now) b.budget b.remaining)
    ]

remaining-expire : (v : Guid) (b : PauseBudget) → remaining_for v (expire b).0 ≡ remaining_for v b
unfolding expire remaining_for
remaining-expire v b = refl

remaining-wait_for :
    (v : Guid) (elapsed : ℕ) (absent : List Guid) (b : PauseBudget)
    → remaining_for v (wait_for elapsed absent b).0 ≡ remaining_for v b - owed v absent elapsed
unfolding wait_for remaining_for
remaining-wait_for v elapsed absent b = left_of-charge_absent v absent elapsed b.budget b.remaining

remaining-report :
    (v : Guid) (now : ℕ) (waiting : List Guid) (b : PauseBudget)
    → remaining_for v (report now waiting b).0 ≡ remaining_for v b
unfolding report status_due remaining_for
remaining-report v now waiting b = ground arith

-- The time that went by: none if the clock stands or steps back, or at the first pass.
abbrev pub gone_by : Option ℕ → ℕ → ℕ
gone_by none now = 0
gone_by (some last) now = max now last - last

elapsed_since-gone_by : (last : Option ℕ) (now : ℕ) → elapsed_since last now ≡ gone_by last now
unfolding elapsed_since
elapsed_since-gone_by none now = refl
elapsed_since-gone_by (some last) now = ground arith

-- A pass takes from what each player has left exactly the time since the last pass: once for its
-- pause, unless all the players pause together, and once if it is away. A clock that steps back
-- takes nothing, nothing is taken from anybody else, and what is left does not fall below 0.
pub remaining_for-check :
    (v : Guid) (now players : ℕ) (absent : List Guid) (b : PauseBudget)
    → remaining_for v (check now players absent b).0
      ≡ remaining_for v b
        - (owed v (paying players b) (gone_by b.last_check now)
            + owed v absent (gone_by b.last_check now))
unfolding check
remaining_for-check v now players absent b =
    let elapsed = elapsed_since b.last_check now in
    let first : PauseBudget = (drained now players b).0 in
    let second : PauseBudget = (expire first).0 in
    let third = wait_for elapsed absent second in
    let a = remaining-drained v now players b in
    let e = remaining-expire v first in
    let c = remaining-wait_for v elapsed absent second in
    let d = remaining-report v now third.2 third.0 in
    rw (← elapsed_since-gone_by b.last_check now) (omega arith)
