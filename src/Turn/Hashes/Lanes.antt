-- ===== src/Turn/Hashes/Lanes.antt =====
-- The hashes of src/relay/turn.rs do not touch the seals: the ready turn and the clients' seals stay.
use native.Mathlib.Decide.{ℕ_discrete}
use veredus.Base.{
  ℕ, ◌≡◌, refl, ap, ◌∙◌, ◌≤◌, max, Bool, ◌||◌, some, List, [], ◌∷◌, arith, inl, inr, Bool-cases,
  Option-cases, is_empty, map,
}
use veredus.Base.Maps.{get, put, erase}
use veredus.Base.Result.{ok}
use veredus.Turn.{PeerId, Hash, ClientTurn, TurnManager, HashMismatch, max_sealed}
use veredus.Turn.Hashes.{
  Reports, add_report, compare_observer, compare_waiting, release_observers, compare_reports,
  compare, compare_all, sort, recheck_pending, on_observer_hash, on_player_hash, on_state_hash,
  reports_of, settle, everyone_reported, reference_of, simulated,
}
use veredus.Turn.Hashes.Sound.{on_state_hash_ok}

abbrev pub lanes : TurnManager → ℕ × List (PeerId × ClientTurn)
lanes m = (m.ready_turn, m.clients)

lanes-compare_observer :
    (peer turn : ℕ) (hash : Hash) (m : TurnManager)
    → lanes (compare_observer peer turn hash m).0 ≡ lanes m
unfolding compare_observer
lanes-compare_observer peer turn hash m =
    ground (arith, Option-cases (get ℕ_discrete turn m.references))

lanes-compare_waiting :
    (turn : ℕ) (rs : Reports) (m : TurnManager) → lanes (compare_waiting turn rs m).0 ≡ lanes m
unfolding compare_waiting
lanes-compare_waiting turn [] m = refl
lanes-compare_waiting turn ((p, h) ∷ rs) m =
    lanes-compare_waiting turn rs _ ∙ lanes-compare_observer p turn h m

lanes-release_observers :
    (turn : ℕ) (m : TurnManager) → lanes (release_observers turn m).0 ≡ lanes m
unfolding release_observers
lanes-release_observers turn m = lanes-compare_waiting turn (reports_of turn m.observer_pending) _

lanes-compare_reports :
    (turn : ℕ) (rs : Reports) (m : TurnManager) → lanes (compare_reports turn rs m).0 ≡ lanes m
unfolding compare_reports settle
lanes-compare_reports turn rs m = elim (Bool-cases (everyone_reported turn m.clients rs)) [
  | inr e ↦ rw (e, compare_reports) refl
  | inl e ↦ elim (Option-cases (reference_of m.clients rs)) [
    | inl q ↦ rw (e, compare_reports, q) refl
    | inr (r, q) ↦ rw (e, compare_reports, q) (settled r)
  ]
]
  where
    settled : (r : Hash) → lanes (release_observers turn (settle turn r rs m)).0 ≡ lanes m
    settled r = lanes-release_observers turn (settle turn r rs m)

lanes-compare : (turn : ℕ) (m : TurnManager) → lanes (compare turn m).0 ≡ lanes m
unfolding compare
lanes-compare turn m = elim (Bool-cases (is_empty m.out_of_sync)) [
  | inr e ↦ rw (e, compare) refl
  | inl e ↦ elim (Option-cases (get ℕ_discrete turn m.pending)) [
    | inl q ↦ rw (e, compare, q) refl
    | inr (r, q) ↦ rw (e, compare, q) (lanes-compare_reports turn r m)
  ]
]

lanes-compare_all : (ts : List ℕ) (m : TurnManager) → lanes (compare_all ts m).0 ≡ lanes m
unfolding compare_all
lanes-compare_all [] m = refl
lanes-compare_all (t ∷ ts) m = lanes-compare_all ts (compare t m).0 ∙ lanes-compare t m

pub lanes-recheck_pending : (m : TurnManager) → lanes (recheck_pending m).0 ≡ lanes m
unfolding recheck_pending
lanes-recheck_pending m = elim (Bool-cases (is_empty m.out_of_sync)) [
  | inr e ↦ rw (e, recheck_pending) refl
  | inl e ↦ rw (e, recheck_pending) (lanes-compare_all (sort (map (λ e. e.0) m.pending)) m)
]

lanes-on_observer_hash :
    (peer turn : ℕ) (hash : Hash) (m : TurnManager)
    → lanes (on_observer_hash peer turn hash m).0 ≡ lanes m
unfolding on_observer_hash
lanes-on_observer_hash peer turn hash m = ground (arith, lanes-compare_observer peer turn hash m)

lanes-on_player_hash :
    (ai_host : Bool) (peer turn : ℕ) (hash : Hash) (m : TurnManager)
    → lanes (on_player_hash ai_host peer turn hash m).0 ≡ lanes m
unfolding on_player_hash
lanes-on_player_hash ai_host peer turn hash m =
    let reported : TurnManager = record m { pending = add_report turn peer hash m.pending } in
    ground (arith, lanes-compare turn reported)

pub max_sealed-put :
    (p : PeerId) (c : ClientTurn) (cs : List (PeerId × ClientTurn))
    → max_sealed (put ℕ_discrete p c cs) ≤ max c.ready_turn (max_sealed cs)
unfolding max_sealed put
max_sealed-put p c [] = omega arith
max_sealed-put p c ((q, d) ∷ cs) = ground (arith, max_sealed-put p c cs)

pub max_sealed-erase :
    (p : PeerId) (cs : List (PeerId × ClientTurn))
    → max_sealed (erase ℕ_discrete p cs) ≤ max_sealed cs
unfolding max_sealed erase
max_sealed-erase p [] = omega arith
max_sealed-erase p ((q, d) ∷ cs) = ground (arith, max_sealed-erase p cs)

pub get-max_sealed :
    (p : PeerId) (c : ClientTurn) (cs : List (PeerId × ClientTurn))
    → get ℕ_discrete p cs ≡ some c
    → c.ready_turn ≤ max_sealed cs
unfolding max_sealed get
get-max_sealed p c [] e = absurd cc
get-max_sealed p c ((q, d) ∷ cs) e = ground (arith, get-max_sealed p c cs)

noted-max_sealed :
    (peer turn : ℕ) (client : ClientTurn) (m m' : TurnManager)
    → get ℕ_discrete peer m.clients ≡ some client
    → lanes m' ≡ lanes (simulated peer client turn m)
    → (m'.ready_turn ≡ m.ready_turn) × (max_sealed m'.clients ≤ max_sealed m.clients)
unfolding simulated
noted-max_sealed peer turn client m m' q l =
    let up = max_sealed-put peer (record client { simulated_turn = turn }) m.clients in
    let old = get-max_sealed peer client m.clients q in
    let same = ap (λ n. max_sealed n.1) l in (ap (λ n. n.0) l, omega arith)

-- A hash that is accepted leaves the ready turn, and no seal goes up.
pub on_state_hash-max_sealed :
    (peer turn : ℕ) (hash : Hash) (m m' : TurnManager) (found : List HashMismatch)
    → on_state_hash peer turn hash m ≡ ok (m', found)
    → (m'.ready_turn ≡ m.ready_turn) × (max_sealed m'.clients ≤ max_sealed m.clients)
on_state_hash-max_sealed peer turn hash m m' found e =
    let (client, q, seq, same) = on_state_hash_ok peer turn hash m m' found e in
    let noted : TurnManager = simulated peer client turn m in
    elim (Bool-cases (client.observer || client.delayed)) [
      | inl o ↦
          let after : m' ≡ (on_observer_hash peer turn hash noted).0 = ground (arith, same, o) in
          noted-max_sealed peer turn client m m' q
            (ap lanes after ∙ lanes-on_observer_hash peer turn hash noted)
      | inr o ↦
          let after : m' ≡ (on_player_hash client.ai_host peer turn hash noted).0 =
            ground (arith, same, o) in
          noted-max_sealed peer turn client m m' q
            (ap lanes after ∙ lanes-on_player_hash client.ai_host peer turn hash noted)
    ]
