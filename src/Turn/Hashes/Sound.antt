-- ===== src/Turn/Hashes/Sound.antt =====
-- The invariant of a `TurnManager`, and that every operation on hashes keeps it.
use native.Mathlib.Decide.{ℕ_discrete}
use veredus.Base.{
  ℕ, ◌≡◌, ◌⊎◌, refl, ◌≤◌, ◌<◌, max, Bool, not, some, List, [], ◌∷◌, map, arith, ltb, ◌==◌,
  if◌then◌else◌, is_some, is_empty, any, All, All-mono, All-select, All-select-true, Bool-cases,
  Option-cases, inl, inr, ◌&&◌, ◌||◌,
}
use veredus.Base.Maps.{get, erase, All-put, All-erase, All-get}
use veredus.Turn.{PeerId, Hash, ClientTurn, TurnManager, HashMismatch, add_peer, needs_full_hash}
use veredus.Base.Words.{add_u32}
use veredus.Base.Result.{ok}
use veredus.Turn.Hashes.{
  Reports, reports_of, compare_observer, compare_waiting, settle, mismatched_peers,
  release_observers, compare_reports, compare, on_observer_hash, on_player_hash, on_state_hash,
  compare_all, recheck_pending, simulated, add_report, sort, everyone_reported, reference_of,
  reference_may_come,
}
use veredus.Turn.Hashes.Known.{
  IsKnown, AllKnown, WaitingKnown, All-add_peer, All-add_peers, AllKnown-mismatched_peers,
  AllKnown-reports_of, WaitingKnown-add_report, WaitingKnown-mono, Clients,
}

-- Every turn with a reference is at or before the last compared turn, observers wait only on turns
-- after it, and every peer that a report or a latch names is a registered client.
pub record IsSound (m : TurnManager) : Type 0 where
  pub agreed_old : All (λ e. e.0 ≤ m.last_compared) m.references
  pub waiting_new : All (λ e. m.last_compared < e.0) m.observer_pending
  pub players_known : WaitingKnown m.clients m.pending
  pub observers_known : WaitingKnown m.clients m.observer_pending
  pub latch_known : All (IsKnown m.clients) m.out_of_sync
  pub observer_latch_known : All (IsKnown m.clients) m.observers_out_of_sync

compare_observer_state :
    (peer turn : ℕ) (hash : Hash) (m : TurnManager)
    → ((compare_observer peer turn hash m).0 ≡ m)
      ⊎ ((compare_observer peer turn hash m).0
          ≡ record m { observers_out_of_sync = add_peer peer m.observers_out_of_sync })
unfolding compare_observer
compare_observer_state peer turn hash m = ground arith

-- The observers' comparison changes their latch only, and latches known peers.
abbrev LatchesOnly : TurnManager → TurnManager → Type 0
LatchesOnly m m' =
    (ps : List PeerId) × (m' ≡ record m { observers_out_of_sync = ps }) × All (IsKnown m.clients) ps

compare_observer-LatchesOnly :
    (peer turn : ℕ) (hash : Hash) (m : TurnManager)
    → IsKnown m.clients peer
    → All (IsKnown m.clients) m.observers_out_of_sync
    → LatchesOnly m (compare_observer peer turn hash m).0
compare_observer-LatchesOnly peer turn hash m k v = elim (compare_observer_state peer turn hash m) [
  | inl e ↦ (m.observers_out_of_sync, e, v)
  | inr e ↦ (
    add_peer peer m.observers_out_of_sync,
    e,
    All-add_peer (IsKnown m.clients) peer m.observers_out_of_sync k v,
  )
]

compare_waiting-LatchesOnly :
    (turn : ℕ) (rs : Reports) (m : TurnManager)
    → AllKnown m.clients rs
    → All (IsKnown m.clients) m.observers_out_of_sync
    → LatchesOnly m (compare_waiting turn rs m).0
unfolding compare_waiting
compare_waiting-LatchesOnly turn [] m k v = (m.observers_out_of_sync, refl, v)
compare_waiting-LatchesOnly turn ((peer, hash) ∷ rs) m k v =
    let (ps, e, k') = compare_observer-LatchesOnly peer turn hash m k.0 v in
    rw e (compare_waiting-LatchesOnly turn rs (record m { observers_out_of_sync = ps }) k.1 k')

release_observers-IsSound :
    (turn : ℕ) (n : TurnManager)
    → All (λ e. e.0 ≤ n.last_compared) n.references
    → All (λ e. turn < e.0 → n.last_compared < e.0) n.observer_pending
    → WaitingKnown n.clients n.pending
    → WaitingKnown n.clients n.observer_pending
    → All (IsKnown n.clients) n.out_of_sync
    → All (IsKnown n.clients) n.observers_out_of_sync
    → IsSound (release_observers turn n).0
unfolding release_observers
release_observers-IsSound turn n old new players observers latch watch =
    let left : List (ℕ × Reports) = erase ℕ_discrete turn n.observer_pending in
    let (ps, e, k) =
      compare_waiting-LatchesOnly turn (reports_of turn n.observer_pending)
        (record n { observer_pending = left })
        (AllKnown-reports_of n.clients turn n.observer_pending observers) watch in
    rw e (record {
      agreed_old = old;
      waiting_new =
          All-mono (λ w h. h.0 (ground (arith, h.1))) _
            (All-select-true (λ w. turn < w.0 → n.last_compared < w.0) (λ w. ltb turn w.0) left
              (All-erase ℕ_discrete (λ w. turn < w.0 → n.last_compared < w.0) turn
                n.observer_pending new));
      players_known = players;
      observers_known =
          All-select (λ w. AllKnown n.clients w.1) (λ w. ltb turn w.0) left
            (All-erase ℕ_discrete (λ w. AllKnown n.clients w.1) turn n.observer_pending observers);
      latch_known = latch;
      observer_latch_known = k;
    })

settle-IsSound :
    (turn : ℕ) (reference : Hash) (reported : Reports) (m : TurnManager)
    → AllKnown m.clients reported
    → IsSound m
    → IsSound (release_observers turn (settle turn reference reported m)).0
unfolding settle
settle-IsSound turn reference reported m k v =
    release_observers-IsSound turn (settle turn reference reported m)
      (All-put ℕ_discrete (λ e. e.0 ≤ max m.last_compared turn) turn reference m.references
        (omega arith) (All-mono (λ e h. omega arith) m.references v.agreed_old))
      (All-mono (λ e h later. omega arith) m.observer_pending v.waiting_new)
      (All-select (λ w. AllKnown m.clients w.1) (λ w. ltb turn w.0) m.pending v.players_known)
      v.observers_known
      (All-add_peers (IsKnown m.clients) (mismatched_peers reference reported) m.out_of_sync
        (AllKnown-mismatched_peers m.clients reference reported k) v.latch_known)
      v.observer_latch_known

compare_reports-IsSound :
    (turn : ℕ) (reported : Reports) (m : TurnManager)
    → AllKnown m.clients reported
    → IsSound m
    → IsSound (compare_reports turn reported m).0
unfolding compare_reports
compare_reports-IsSound turn reported m k v =
    elim (Bool-cases (everyone_reported turn m.clients reported)) [
      | inr e ↦ rw e v
      | inl e ↦ elim (Option-cases (reference_of m.clients reported)) [
        | inl e' ↦ rw (e, e', compare_reports) v
        | inr (reference, e') ↦
            rw (e, e', compare_reports) (settle-IsSound turn reference reported m k v)
      ]
    ]

pub compare-IsSound : (turn : ℕ) (m : TurnManager) → IsSound m → IsSound (compare turn m).0
unfolding compare
compare-IsSound turn m v = elim (Bool-cases (is_empty m.out_of_sync)) [
  | inr e ↦ rw e v
  | inl e ↦ elim (Option-cases (get ℕ_discrete turn m.pending)) [
    | inl e' ↦ rw (e, e', compare) v
    | inr (reported, e') ↦
        rw (e, e', compare)
          (compare_reports-IsSound turn reported m
            (All-get ℕ_discrete (λ w. AllKnown m.clients w.1) turn reported m.pending e'
              v.players_known)
            v)
  ]
]

pub compare_all-IsSound : (ts : List ℕ) (m : TurnManager) → IsSound m → IsSound (compare_all ts m).0
unfolding compare_all
compare_all-IsSound [] m v = v
compare_all-IsSound (t ∷ ts) m v = compare_all-IsSound ts (compare t m).0 (compare-IsSound t m v)

pub recheck_pending-IsSound : (m : TurnManager) → IsSound m → IsSound (recheck_pending m).0
unfolding recheck_pending
recheck_pending-IsSound m v = elim (Bool-cases (is_empty m.out_of_sync)) [
  | inr e ↦ rw e v
  | inl e ↦ rw e (compare_all-IsSound (sort (map (λ w. w.0) m.pending)) m v)
]

pub on_observer_hash-IsSound :
    (peer turn : ℕ) (hash : Hash) (m : TurnManager)
    → IsKnown m.clients peer
    → IsSound m
    → IsSound (on_observer_hash peer turn hash m).0
unfolding on_observer_hash add_report
on_observer_hash-IsSound peer turn hash m k v =
    elim (Bool-cases (is_some (get ℕ_discrete turn m.references))) [
      | inl e ↦
          rw (e, on_observer_hash)
            (let (ps, e', k') =
                compare_observer-LatchesOnly peer turn hash m k v.observer_latch_known in
              rw e' (latched ps k'))
      | inr e ↦ elim (Bool-cases waits) [
        | inr e' ↦ rw (e, e', on_observer_hash) v
        | inl e' ↦ rw (e, e', on_observer_hash) (waiting (ground (arith, e')))
      ]
    ]
  where
    waits : Bool
    waits = not (any (λ p. p == peer) m.observers_out_of_sync) && reference_may_come turn m

    latched :
        (ps : List PeerId)
        → All (IsKnown m.clients) ps
        → IsSound (record m { observers_out_of_sync = ps })
    latched ps k' = record {
      agreed_old = v.agreed_old;
      waiting_new = v.waiting_new;
      players_known = v.players_known;
      observers_known = v.observers_known;
      latch_known = v.latch_known;
      observer_latch_known = k';
    }

    waiting :
        m.last_compared < turn
        → IsSound (record m { observer_pending = add_report turn peer hash m.observer_pending })
    waiting late = record {
      agreed_old = v.agreed_old;
      waiting_new =
          All-put ℕ_discrete (λ e. m.last_compared < e.0) turn _ m.observer_pending late
            v.waiting_new;
      players_known = v.players_known;
      observers_known =
          WaitingKnown-add_report m.clients turn peer hash m.observer_pending k v.observers_known;
      latch_known = v.latch_known;
      observer_latch_known = v.observer_latch_known;
    }

pub on_player_hash-IsSound :
    (ai_host : Bool) (peer turn : ℕ) (hash : Hash) (m : TurnManager)
    → IsKnown m.clients peer
    → IsSound m
    → IsSound (on_player_hash ai_host peer turn hash m).0
unfolding on_player_hash
on_player_hash-IsSound ai_host peer turn hash m k v =
    elim (Bool-cases (ai_host && needs_full_hash turn)) [
      | inl e ↦ rw (e, on_player_hash) v
      | inr e ↦ elim (Bool-cases (is_empty m.out_of_sync)) [
        | inr e' ↦ rw (e, e', on_player_hash) v
        | inl e' ↦
            rw (e, e', on_player_hash)
              (compare-IsSound turn (record m { pending = add_report turn peer hash m.pending })
                reported)
      ]
    ]
  where
    reported : IsSound (record m { pending = add_report turn peer hash m.pending })
    reported = record {
      agreed_old = v.agreed_old;
      waiting_new = v.waiting_new;
      players_known = WaitingKnown-add_report m.clients turn peer hash m.pending k v.players_known;
      observers_known = v.observers_known;
      latch_known = v.latch_known;
      observer_latch_known = v.observer_latch_known;
    }

-- More clients, or clients changed, but none gone.
pub clients-IsSound :
    (m : TurnManager) (cs : Clients)
    → ((p : PeerId) → IsKnown m.clients p → IsKnown cs p)
    → IsSound m
    → IsSound (record m { clients = cs })
clients-IsSound m cs f v = record {
  agreed_old = v.agreed_old;
  waiting_new = v.waiting_new;
  players_known = WaitingKnown-mono m.clients cs f m.pending v.players_known;
  observers_known = WaitingKnown-mono m.clients cs f m.observer_pending v.observers_known;
  latch_known = All-mono f m.out_of_sync v.latch_known;
  observer_latch_known = All-mono f m.observers_out_of_sync v.observer_latch_known;
}

-- A hash is accepted exactly when the peer is registered and its turn is the next one; then the
-- observers' or the players' part runs on the state with the new simulated turn.
pub on_state_hash_ok :
    (peer turn : ℕ) (hash : Hash) (m m' : TurnManager) (found : List HashMismatch)
    → on_state_hash peer turn hash m ≡ ok (m', found)
    → (client : ClientTurn) × (get ℕ_discrete peer m.clients ≡ some client)
      × (turn ≡ add_u32 client.simulated_turn 1)
      × ((m', found) ≡ (
          if client.observer || client.delayed
          then on_observer_hash peer turn hash (simulated peer client turn m)
          else on_player_hash client.ai_host peer turn hash (simulated peer client turn m)))
unfolding on_state_hash
on_state_hash_ok peer turn hash m m' found e = elim (Option-cases (get ℕ_discrete peer m.clients)) [
  | inl q ↦ absurd (ground (arith, e, q))
  | inr (client, q) ↦ (client, q, ground arith, ground arith)
]
