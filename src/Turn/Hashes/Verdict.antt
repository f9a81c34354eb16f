-- ===== src/Turn/Hashes/Verdict.antt =====
-- What a comparison of hashes concludes.
use native.Mathlib.Decide.{ℕ_discrete}
use veredus.Base.{
  ℕ, ◌≡◌, refl, ◌<◌, max, true, false, some, List, [], ◌∷◌, ◌++◌, arith, ltb, is_empty, select, All,
  All-mono, All-select-true, ◌⊎◌, ◌∙◌, ap,
}
use veredus.Base.Maps.{get, erase, get-put}
use veredus.Turn.{PeerId, Hash, TurnManager}
use veredus.Turn.Hashes.{
  Reports, reports_of, sort_key, key_lt, reference_of, compare_observer, compare_waiting, settle,
  mismatched_peers, add_peers, release_observers, compare_reports, compare, everyone_reported,
}
use veredus.Turn.Hashes.Known.{Clients}

abbrev pub IsIn : PeerId × Hash → Reports → Type 0
IsIn r [] = ⊥
IsIn r (s ∷ rs) = (r ≡ s) ⊎ IsIn r rs

-- No report of the list has a key below that of `r`.
abbrev pub IsLeast : Clients → PeerId × Hash → Reports → Type 0
IsLeast clients r rs = All (λ s. key_lt (sort_key clients s.0) (sort_key clients r.0) ≡ false) rs

abbrev IsLe : Clients → PeerId × Hash → PeerId × Hash → Type 0
IsLe clients s r = key_lt (sort_key clients r.0) (sort_key clients s.0) ≡ false

-- What the observers' comparison leaves alone.
abbrev Keeps : TurnManager → TurnManager → Type 0
Keeps m m' =
    (m'.out_of_sync ≡ m.out_of_sync)
    × (m'.references ≡ m.references)
    × (m'.settled ≡ m.settled)
    × (m'.last_compared ≡ m.last_compared)
    × (m'.pending ≡ m.pending)

compare_observer-Keeps :
    (peer turn : ℕ) (hash : Hash) (m : TurnManager) → Keeps m (compare_observer peer turn hash m).0
unfolding compare_observer
compare_observer-Keeps peer turn hash m = ground arith

compare_waiting-Keeps :
    (turn : ℕ) (rs : Reports) (m : TurnManager) → Keeps m (compare_waiting turn rs m).0
unfolding compare_waiting
compare_waiting-Keeps turn [] m = (refl, refl, refl, refl, refl)
compare_waiting-Keeps turn ((peer, hash) ∷ rs) m =
    let (a, b, c, d, e) = compare_observer-Keeps peer turn hash m in
    let (a', b', c', d', e') =
      compare_waiting-Keeps turn rs (compare_observer peer turn hash m).0 in
    (a' ∙ a, b' ∙ b, c' ∙ c, d' ∙ d, e' ∙ e)

release_observers-Keeps : (turn : ℕ) (m : TurnManager) → Keeps m (release_observers turn m).0
unfolding release_observers
release_observers-Keeps turn m =
    compare_waiting-Keeps turn (reports_of turn m.observer_pending)
      (record m { observer_pending = erase ℕ_discrete turn m.observer_pending })

pub compare_state :
    (turn : ℕ) (m : TurnManager) (reported : Reports) (reference : Hash)
    → m.out_of_sync ≡ []
    → get ℕ_discrete turn m.pending ≡ some reported
    → everyone_reported turn m.clients reported ≡ true
    → reference_of m.clients reported ≡ some reference
    → (compare turn m).0 ≡ (release_observers turn (settle turn reference reported m)).0
unfolding compare compare_reports
compare_state turn m reported reference quiet here all_in least =
    let idle : is_empty m.out_of_sync ≡ true = ap is_empty quiet in
    rw (idle, here, all_in, least, compare, compare_reports) refl

All-unit {ℓ} : {A : Type ℓ} (xs : List A) → All (λ x. Unit {0}) xs
All-unit [] = tt
All-unit (x ∷ xs) = (tt, All-unit xs)

pub compare_settles :
    (turn : ℕ) (m : TurnManager) (reported : Reports) (reference : Hash)
    → m.out_of_sync ≡ []
    → get ℕ_discrete turn m.pending ≡ some reported
    → everyone_reported turn m.clients reported ≡ true
    → reference_of m.clients reported ≡ some reference
    → let m' = (compare turn m).0 in
      (get ℕ_discrete turn m'.references ≡ some reference)
      × (m'.settled ≡ m.settled ++ ((turn, reference) ∷ []))
      × (m'.last_compared ≡ max m.last_compared turn)
      × All (λ e. turn < e.0) m'.pending
      × (m'.out_of_sync ≡ add_peers (mismatched_peers reference reported) [])
unfolding settle
compare_settles turn m reported reference quiet here all_in least =
    let n : TurnManager = settle turn reference reported m in
    let (sync, refs, done, last, waits) = release_observers-Keeps turn n in
    rw (compare_state turn m reported reference quiet here all_in least) (
      rw (refs, get-put ℕ_discrete turn turn reference m.references) (ground arith),
      done,
      last,
      rw waits later,
      rw (sync, quiet) refl,
    )
  where
    later : All (λ e. turn < e.0) (select (λ e. ltb turn e.0) m.pending)
    later =
        All-mono (λ e h. ground (arith, h.1)) (select (λ e. ltb turn e.0) m.pending)
          (All-select-true (λ e. Unit {0}) (λ e. ltb turn e.0) m.pending (All-unit m.pending))
