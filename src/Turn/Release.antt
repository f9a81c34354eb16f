-- ===== src/Turn/Release.antt =====
-- `release_paced` of src/relay/turn.rs: its loop ends, it releases consecutive turns, never one
-- that a player has not sealed, and stops only where the code says it must.
use veredus.Base.{
  ◌∙◌, ℕ, zero, suc, ◌+◌, ◌-◌, ◌≤◌, ◌<◌, ◌≡◌, refl, ◌⊎◌, inl, inr, Bool, true, false, ◌&&◌, ◌||◌,
  Option, some, List, [], ◌∷◌, ◌++◌, arith, ltb, is_some, is_empty, all, select, length, Bool-cases,
}
use native.Mathlib.Nat.{add-zero, zero-add}
use mathlib.Core.List.{append-nil, append_assoc}
use native.Mathlib.Decide.{ℕ_discrete}
use veredus.Base.Maps.{get}
use veredus.Base.Words.{u32_max, add_u32}
use veredus.Turn.{
  PeerId, ClientTurn, TurnManager, blocks, ai_alone, blocking, everyone_ahead, pace_allows,
  release_loop, max_sealed, release_fuel, release_paced,
}

abbrev Sealed : ℕ → List (PeerId × ClientTurn) → Type 0
Sealed t [] = ⊥
Sealed t ((p, c) ∷ cs) = (t < c.ready_turn) ⊎ Sealed t cs

-- A nonempty selection whose entries all pass `t < ready_turn` shows a client that is ahead.
select-ahead :
    (t : ℕ) (p : PeerId × ClientTurn → Bool) (cs : List (PeerId × ClientTurn))
    → is_empty (select p cs) ≡ false
    → all (λ e. ltb t e.1.ready_turn) (select p cs) ≡ true
    → t < max_sealed cs
unfolding max_sealed
select-ahead t p [] h a = cc
select-ahead t p ((q, c) ∷ cs) h a = elim (Bool-cases (p (q, c))) [
  | inl e ↦ ground arith
  | inr e ↦ ground (arith, select-ahead t p cs)
]

-- Turns are released only below the highest seal.
pub everyone_ahead-lt :
    (m : TurnManager) (lag : Option ℕ) (clocked : Bool)
    → everyone_ahead m lag clocked ≡ true
    → m.ready_turn < max_sealed m.clients
unfolding everyone_ahead blocking
everyone_ahead-lt m lag clocked h = ground (
  arith,
  select-ahead m.ready_turn (λ e. ai_alone m lag clocked || blocks m.ready_turn lag e.1) m.clients,
)

-- The turns after `t`, `k` of them.
unfoldable pub turns_from : ℕ → ℕ → List ℕ
turns_from t zero = []
turns_from t (suc k) = (t + 1) ∷ turns_from (t + 1) k

-- The manager once its ready turn is `t`, which is all that a release changes.
abbrev pub at_turn : TurnManager → ℕ → TurnManager
at_turn m t = record m { ready_turn = t }

-- The test of the loop when `count` turns are out and the ready turn is `t`.
abbrev pub goes_on : Option ℕ → Option ℕ → TurnManager → ℕ → ℕ → Bool
goes_on lag pace m count t =
    pace_allows pace count && everyone_ahead (at_turn m t) lag (is_some pace)

-- The loop makes `k` rounds: its test holds before each of them and fails after the last.
record Outcome (lag pace : Option ℕ) (m : TurnManager) (count k : ℕ) (out : List ℕ)
    (result : Option (TurnManager × List ℕ)) : Type 0 where
  returns : result ≡ some (at_turn m (m.ready_turn + k), out ++ turns_from m.ready_turn k)
  went : (j : ℕ) → j < k → goes_on lag pace m (count + j) (m.ready_turn + j) ≡ true
  stopped : goes_on lag pace m (count + k) (m.ready_turn + k) ≡ false

went_suc :
    (lag pace : Option ℕ) (m : TurnManager) (count k : ℕ)
    → goes_on lag pace m count m.ready_turn ≡ true
    → ((j : ℕ) → j < k → goes_on lag pace m (count + 1 + j) (m.ready_turn + 1 + j) ≡ true)
    → (j : ℕ) → j < suc k
    → goes_on lag pace m (count + j) (m.ready_turn + j) ≡ true
went_suc lag pace m count k first later zero h = rw (add-zero count, add-zero m.ready_turn) first
went_suc lag pace m count k first later (suc j) h =
    rw (shift count j, shift m.ready_turn j) (later j (omega arith))
  where
    shift : (a b : ℕ) → a + suc b ≡ a + 1 + b
    shift a b = omega arith

Outcome-suc :
    (lag pace : Option ℕ) (m : TurnManager) (count k : ℕ) (out : List ℕ)
    (result : Option (TurnManager × List ℕ))
    → goes_on lag pace m count m.ready_turn ≡ true
    → Outcome lag pace
        (at_turn m (m.ready_turn + 1))
        (count + 1)
        k
        (out ++ ((m.ready_turn + 1) ∷ []))
        result
    → Outcome lag pace m count (suc k) out result
unfolding turns_from
Outcome-suc lag pace m count k out result go r = record {
  returns = r.returns ∙ rw (shift m.ready_turn, append_assoc out ((m.ready_turn + 1) ∷ [])) refl;
  went = went_suc lag pace m count k go r.went;
  stopped = rw (shift count, shift m.ready_turn) r.stopped;
}
  where
    shift : (a : ℕ) → a + suc k ≡ a + 1 + k
    shift a = omega arith

Outcome-zero :
    (lag pace : Option ℕ) (m : TurnManager) (count : ℕ) (out : List ℕ)
    → goes_on lag pace m count m.ready_turn ≡ false
    → Outcome lag pace m count zero out (some (m, out))
unfolding turns_from
Outcome-zero lag pace m count out stop = record {
  returns = rw (add-zero m.ready_turn, append-nil out) refl;
  went = λ j hj. absurd (omega arith);
  stopped = rw (add-zero count, add-zero m.ready_turn) stop;
}

-- One round: the test holds, so the ready turn moves up by one without wrapping.
release_loop_step :
    (fuel : ℕ) (lag pace : Option ℕ) (m : TurnManager) (out : List ℕ) (count : ℕ)
    → m.ready_turn + 1 ≤ u32_max
    → goes_on lag pace m count m.ready_turn ≡ true
    → release_loop (suc fuel) lag pace m out count
      ≡ release_loop fuel lag pace
          (at_turn m (m.ready_turn + 1))
          (out ++ ((m.ready_turn + 1) ∷ []))
          (count + 1)
unfolding release_loop
release_loop_step fuel lag pace m out count h go =
    let wrap : add_u32 m.ready_turn 1 ≡ m.ready_turn + 1 = omega arith in rw (go, wrap) refl

loop-Outcome :
    (fuel : ℕ) (lag pace : Option ℕ) (m : TurnManager) (out : List ℕ) (count : ℕ)
    → max_sealed m.clients ≤ u32_max
    → max_sealed m.clients - m.ready_turn < fuel
    → (k : ℕ) × Outcome lag pace m count k out (release_loop fuel lag pace m out count)
unfolding release_loop
loop-Outcome zero lag pace m out count bound h = absurd (omega arith)
loop-Outcome (suc fuel) lag pace m out count bound h =
    elim (Bool-cases (goes_on lag pace m count m.ready_turn)) [
      | inr stop ↦ (zero, rw (stop, release_loop) (Outcome-zero lag pace m count out stop))
      | inl go ↦
          let low : m.ready_turn < max_sealed m.clients = ahead go in
          let (k, r) =
            loop-Outcome fuel lag pace (at_turn m (m.ready_turn + 1))
              (out ++ ((m.ready_turn + 1) ∷ [])) (count + 1) bound (omega arith) in
          (
            suc k,
            rw (release_loop_step fuel lag pace m out count (omega arith) go)
                (Outcome-suc lag pace m count k out _ go r),
          )
    ]
  where
    ahead : goes_on lag pace m count m.ready_turn ≡ true → m.ready_turn < max_sealed m.clients
    ahead go = everyone_ahead-lt m lag (is_some pace) (ground arith)

-- Whatever the lag limit and the pace, `release_paced` returns: it releases the `k` turns after the
-- ready turn in order and changes nothing else, where `k` is the first number of rounds at which
-- the pace or a client that blocks holds the match. The seals of all clients are `u32`.
pub release_paced_exact :
    (lag pace : Option ℕ) (m : TurnManager)
    → max_sealed m.clients ≤ u32_max
    → (k : ℕ) × (release_paced lag pace m
        ≡ some (at_turn m (m.ready_turn + k), turns_from m.ready_turn k))
      × ((j : ℕ) → j < k → goes_on lag pace m j (m.ready_turn + j) ≡ true)
      × (goes_on lag pace m k (m.ready_turn + k) ≡ false)
unfolding release_paced release_fuel
release_paced_exact lag pace m bound =
    let (k, r) = loop-Outcome (release_fuel m) lag pace m [] 0 bound (omega arith) in
    (k, r.returns, λ j h. rw (zero-add j) at (r.went j h), rw (zero-add k) at r.stopped)

-- A client that `q` selects passes a test that all selected clients pass.
all-select-get :
    (f q : ClientTurn → Bool) (p : PeerId) (c : ClientTurn) (cs : List (PeerId × ClientTurn))
    → get ℕ_discrete p cs ≡ some c
    → q c ≡ true
    → all (λ e. f e.1) (select (λ e. q e.1) cs) ≡ true
    → f c ≡ true
unfolding get
all-select-get f q p c [] h t a = cc
all-select-get f q p c ((j, d) ∷ cs) h t a = ground (arith, all-select-get f q p c cs)

player-ahead :
    (lag pace : Option ℕ) (m : TurnManager) (count t : ℕ) (p : PeerId) (c : ClientTurn)
    → get ℕ_discrete p m.clients ≡ some c
    → c.observer ≡ false
    → c.delayed ≡ false
    → goes_on lag pace m count t ≡ true
    → t < c.ready_turn
unfolding everyone_ahead blocking blocks
player-ahead lag pace m count t p c here player live go = ground (
  arith,
  all-select-get (λ d. ltb t d.ready_turn)
      (λ d. ai_alone (at_turn m t) lag (is_some pace) || blocks t lag d) p c m.clients,
)

rounds-le :
    (lag pace : Option ℕ) (m : TurnManager) (k : ℕ) (p : PeerId) (c : ClientTurn)
    → get ℕ_discrete p m.clients ≡ some c
    → c.observer ≡ false
    → c.delayed ≡ false
    → m.ready_turn ≤ c.ready_turn
    → ((j : ℕ) → j < k → goes_on lag pace m j (m.ready_turn + j) ≡ true)
    → m.ready_turn + k ≤ c.ready_turn
rounds-le lag pace m zero p c here player live le went = omega arith
rounds-le lag pace m (suc k) p c here player live le went = omega (
  arith,
  player-ahead lag pace m k (m.ready_turn + k) p c here player live (went k (omega arith)),
)

-- No turn is released that a registered player has not sealed: with the ready turn at or below
-- its seal before, it is so afterwards. A player is neither observer nor delayed; the AI host is
-- one. The seals of all clients are `u32`.
pub release_paced-le_seal :
    (lag pace : Option ℕ) (m m' : TurnManager) (out : List ℕ) (p : PeerId) (c : ClientTurn)
    → max_sealed m.clients ≤ u32_max
    → get ℕ_discrete p m.clients ≡ some c
    → c.observer ≡ false
    → c.delayed ≡ false
    → m.ready_turn ≤ c.ready_turn
    → release_paced lag pace m ≡ some (m', out)
    → m'.ready_turn ≤ c.ready_turn
release_paced-le_seal lag pace m m' out p c bound here player live le e =
    let (k, returns, went, stopped) = release_paced_exact lag pace m bound in
    let top : m'.ready_turn ≡ m.ready_turn + k = ground (arith, returns) in
    omega (arith, rounds-le lag pace m k p c here player live le went)

length-turns_from : (t k : ℕ) → length (turns_from t k) ≡ k
unfolding turns_from
length-turns_from t zero = refl
length-turns_from t (suc k) = omega (arith, length-turns_from (t + 1) k)

paced-le :
    (lag : Option ℕ) (limit : ℕ) (m : TurnManager) (k : ℕ)
    → ((j : ℕ) → j < k → goes_on lag (some limit) m j (m.ready_turn + j) ≡ true)
    → k ≤ limit
unfolding pace_allows
paced-le lag limit m zero went = omega arith
paced-le lag limit m (suc k) went = ground (arith, went k (omega arith))

-- With a pace, at most that many turns are released. The seals of all clients are `u32`.
pub release_paced-le_pace :
    (lag : Option ℕ) (limit : ℕ) (m m' : TurnManager) (out : List ℕ)
    → max_sealed m.clients ≤ u32_max
    → release_paced lag (some limit) m ≡ some (m', out)
    → length out ≤ limit
release_paced-le_pace lag limit m m' out bound e =
    let (k, returns, went, stopped) = release_paced_exact lag (some limit) m bound in
    let turns : out ≡ turns_from m.ready_turn k = ground (arith, returns) in
    rw (turns, length-turns_from) (paced-le lag limit m k went)
