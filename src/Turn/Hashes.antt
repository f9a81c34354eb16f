-- ===== src/Turn/Hashes.antt =====
-- src/relay/turn.rs: `on_state_hash`, `compare`, `compare_observer` and `recheck_pending`. The
-- order of a `HashMap`'s entries is that of its association list.
pub mod Known
pub mod Sound
pub mod Verdict
pub mod Desync
pub mod Lanes
use native.Mathlib.Decide.{ℕ_discrete}
use veredus.Base.{
  ℕ, ◌≡◌, suc, Bool, true, false, ◌&&◌, ◌||◌, not, Option, none, some, List, [], ◌∷◌, ◌++◌, map,
  max, ltb, leb, ◌==◌, if◌then◌else◌, is_some, is_empty, any, all, select, list_discrete, is_same,
}
use veredus.Base.Words.{add_u32, u16_max}
use veredus.Base.Result.{Result, ok, err, ok_or, ◌>>=◌}
use veredus.Base.Maps.{get, put, erase}
use veredus.Fault.{PeerFault, no_session, state_hash_out_of_sequence}
use veredus.Turn.{
  PeerId, Hash, ClientTurn, TurnManager, HashMismatch, needs_full_hash, add_peer, fresh,
}

abbrev pub Reports : Type 0
Reports = List (PeerId × Hash)

-- The key of `min_by_key`: the AI host sorts last, then the client id; an unknown peer sorts last.
unfoldable pub sort_key : List (PeerId × ClientTurn) → PeerId → Bool × ℕ
sort_key clients p = elim (get ℕ_discrete p clients) [
  | some c ↦ (c.ai_host, c.client_id)
  | none ↦ (true, u16_max)
]

-- `<` on such keys, `false` before `true`.
unfoldable pub key_lt : Bool × ℕ → Bool × ℕ → Bool
key_lt (false, i) (true, j) = true
key_lt (true, i) (false, j) = false
key_lt (false, i) (false, j) = ltb i j
key_lt (true, i) (true, j) = ltb i j

-- The lesser of two reports, the second if their keys tie.
unfoldable pub better : List (PeerId × ClientTurn) → PeerId × Hash → PeerId × Hash → PeerId × Hash
better clients r best = if key_lt (sort_key clients r.0) (sort_key clients best.0) then r else best

-- The first of the least entries, `best` being the least so far.
unfoldable pub min_report : List (PeerId × ClientTurn) → PeerId × Hash → Reports → PeerId × Hash
min_report clients best [] = best
min_report clients best (r ∷ rs) = min_report clients (better clients r best) rs

-- `reported.iter().min_by_key(..).map(|(_, hash)| hash.clone())`.
unfoldable pub reference_of : List (PeerId × ClientTurn) → Reports → Option Hash
reference_of clients [] = none
reference_of clients (r ∷ rs) = some (min_report clients r rs).1

abbrev pub same_hash : Hash → Hash → Bool
same_hash = is_same list_discrete

-- The players whose hash of `turn` the comparison waits for.
unfoldable pub is_compared : ℕ → ClientTurn → Bool
is_compared turn c = not c.observer && not c.delayed && not (c.ai_host && needs_full_hash turn)

unfoldable pub everyone_reported : ℕ → List (PeerId × ClientTurn) → Reports → Bool
unfolding is_compared
everyone_reported turn clients reported =
    all (λ e. is_some (get ℕ_discrete e.0 reported)) (select (λ e. is_compared turn e.1) clients)

-- `reported.iter().filter(|(_, hash)| **hash != reference).map(|(peer, _)| *peer)`.
unfoldable pub mismatched_peers : Hash → Reports → List PeerId
mismatched_peers reference reported =
    map (λ r. r.0) (select (λ r. not (same_hash r.1 reference)) reported)

-- `out_of_sync.extend(..)`.
unfoldable pub add_peers : List PeerId → List PeerId → List PeerId
unfolding add_peer
add_peers [] set = set
add_peers (p ∷ ps) set = add_peers ps (add_peer p set)

unfoldable pub compare_observer :
    PeerId → ℕ → Hash → TurnManager → TurnManager × Option HashMismatch
unfolding add_peer
compare_observer peer turn hash m =
    if any (λ p. p == peer) m.observers_out_of_sync
    then (m, none)
    else elim (get ℕ_discrete turn m.references) [
      | none ↦ (m, none)
      | some reference ↦ if same_hash reference hash then (m, none) else (
        record m { observers_out_of_sync = add_peer peer m.observers_out_of_sync },
        some (record {
          turn = turn;
          reference = reference;
          mismatched = peer ∷ [];
          recipient = some peer;
        }),
      )
    ]

abbrev pub to_list {ℓ} : {A : Type ℓ} → Option A → List A
to_list none = []
to_list (some a) = a ∷ []

-- The loop over the observers that reported `turn` before the players agreed on it.
unfoldable pub compare_waiting : ℕ → Reports → TurnManager → TurnManager × List HashMismatch
compare_waiting turn [] m = (m, [])
compare_waiting turn ((peer, hash) ∷ rs) m =
    let (m', found) = compare_observer peer turn hash m in
    let (m'', more) = compare_waiting turn rs m' in (m'', to_list found ++ more)

unfoldable pub reports_of : ℕ → List (ℕ × Reports) → Reports
reports_of turn waiting = elim (get ℕ_discrete turn waiting) [ none ↦ [] | some rs ↦ rs ]

-- The part of `compare` after a reference is found: the state with the turn settled.
unfoldable pub settle : ℕ → Hash → Reports → TurnManager → TurnManager
unfolding mismatched_peers add_peers
settle turn reference reported m = record m {
  pending = select (λ e. ltb turn e.0) m.pending;
  last_compared = max m.last_compared turn;
  references = put ℕ_discrete turn reference m.references;
  settled = m.settled ++ ((turn, reference) ∷ []);
  out_of_sync = add_peers (mismatched_peers reference reported) m.out_of_sync;
}

unfoldable pub players_mismatch : ℕ → Hash → Reports → List HashMismatch
unfolding mismatched_peers
players_mismatch turn reference reported =
    if is_empty (mismatched_peers reference reported)
    then []
    else (record {
      turn = turn;
      reference = reference;
      mismatched = mismatched_peers reference reported;
      recipient = none;
    })
      ∷ []

-- The end of `compare`: the observers that waited on this reference.
unfoldable pub release_observers : ℕ → TurnManager → TurnManager × List HashMismatch
unfolding compare_waiting reports_of
release_observers turn m =
    let (m', more) =
      compare_waiting turn (reports_of turn m.observer_pending)
        (record m { observer_pending = erase ℕ_discrete turn m.observer_pending }) in
    (record m' { observer_pending = select (λ e. ltb turn e.0) m'.observer_pending }, more)

unfoldable pub compare_reports : ℕ → Reports → TurnManager → TurnManager × List HashMismatch
compare_reports turn reported m =
    if not (everyone_reported turn m.clients reported)
    then (m, [])
    else elim (reference_of m.clients reported) [
      | none ↦ (m, [])
      | some reference ↦
          let (m', more) = release_observers turn (settle turn reference reported m) in
          (m', players_mismatch turn reference reported ++ more)
    ]

unfoldable pub compare : ℕ → TurnManager → TurnManager × List HashMismatch
compare turn m =
    if not (is_empty m.out_of_sync) then (m, []) else elim (get ℕ_discrete turn m.pending) [
      | none ↦ (m, [])
      | some reported ↦ compare_reports turn reported m
    ]

unfoldable pub reference_may_come : ℕ → TurnManager → Bool
reference_may_come turn m =
    is_empty m.out_of_sync
    && ltb m.last_compared turn
    && any (λ e. not e.1.observer && not e.1.delayed) m.clients

-- `entry(turn).or_default().insert(peer, hash)`.
unfoldable pub add_report : ℕ → PeerId → Hash → List (ℕ × Reports) → List (ℕ × Reports)
unfolding reports_of
add_report turn peer hash waiting =
    put ℕ_discrete turn (put ℕ_discrete peer hash (reports_of turn waiting)) waiting

unfoldable pub on_observer_hash : PeerId → ℕ → Hash → TurnManager → TurnManager × List HashMismatch
unfolding add_report reference_may_come
on_observer_hash peer turn hash m =
    if is_some (get ℕ_discrete turn m.references)
    then (let (m', found) = compare_observer peer turn hash m in (m', to_list found))
    else if not (any (λ p. p == peer) m.observers_out_of_sync) && reference_may_come turn m
    then (record m { observer_pending = add_report turn peer hash m.observer_pending }, [])
    else (m, [])

unfoldable pub on_player_hash :
    Bool → PeerId → ℕ → Hash → TurnManager → TurnManager × List HashMismatch
unfolding add_report
on_player_hash ai_host peer turn hash m =
    if ai_host && needs_full_hash turn
    then (m, [])
    else if not (is_empty m.out_of_sync)
    then (m, [])
    else compare turn (record m { pending = add_report turn peer hash m.pending })

-- The state in which `on_state_hash` has noted the client's new simulated turn.
unfoldable pub simulated : PeerId → ClientTurn → ℕ → TurnManager → TurnManager
simulated peer client turn m = record m {
  clients = put ℕ_discrete peer (record client { simulated_turn = turn }) m.clients;
}

unfoldable pub on_state_hash :
    PeerId → ℕ → Hash → TurnManager → Result PeerFault (TurnManager × List HashMismatch)
on_state_hash peer turn hash m = do
  client ← ok_or (get ℕ_discrete peer m.clients) no_session
  let want = add_u32 client.simulated_turn 1
  let m' = simulated peer client turn m
  if not (turn == want)
      then err (state_hash_out_of_sequence turn want)
      else if client.observer || client.delayed
      then ok (on_observer_hash peer turn hash m')
      else ok (on_player_hash client.ai_host peer turn hash m')

-- `turns.sort_unstable()`; the keys of a map are distinct.
unfoldable pub insert_sorted : ℕ → List ℕ → List ℕ
insert_sorted t [] = t ∷ []
insert_sorted t (u ∷ us) = if leb t u then t ∷ u ∷ us else u ∷ insert_sorted t us

unfoldable pub sort : List ℕ → List ℕ
unfolding insert_sorted
sort [] = []
sort (t ∷ ts) = insert_sorted t (sort ts)

unfoldable pub compare_all : List ℕ → TurnManager → TurnManager × List HashMismatch
compare_all [] m = (m, [])
compare_all (t ∷ ts) m =
    let (m', found) = compare t m in let (m'', more) = compare_all ts m' in (m'', found ++ more)

unfoldable pub recheck_pending : TurnManager → TurnManager × List HashMismatch
unfolding compare_all sort
recheck_pending m =
    if not (is_empty m.out_of_sync)
    then (m, [])
    else compare_all (sort (map (λ e. e.0) m.pending)) m

-- The references of a saved match; a later entry replaces an earlier one of its turn.
unfoldable pub collect : List (ℕ × Hash) → List (ℕ × Hash) → List (ℕ × Hash)
collect [] acc = acc
collect ((t, h) ∷ es) acc = collect es (put ℕ_discrete t h acc)

unfoldable pub max_key : List (ℕ × Hash) → ℕ
max_key [] = 0
max_key ((t, h) ∷ es) = max t (max_key es)

unfoldable pub resumed : ℕ → List (ℕ × Hash) → TurnManager
unfolding collect max_key
resumed ready_turn references = record fresh {
  ready_turn = ready_turn;
  references = collect references [];
  last_compared = max_key (collect references []);
}
