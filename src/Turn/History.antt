-- ===== src/Turn/History.antt =====
-- Every history of a `TurnManager`: the calls of turn.rs in any order, from a fresh match or from
-- one rebuilt from its save.
use native.Mathlib.Decide.{ℕ_discrete}
use veredus.Base.Runs.{Run, Run-IsKept}
use veredus.Base.{
  ℕ, ◌+◌, ◌≡◌, ◌≤◌, ◌<◌, Bool, true, Option, some, List, [], ◌∷◌, arith, All, Option-cases,
  Bool-cases, inl, inr, ◌||◌,
}
use veredus.Base.Words.{u32_max, add_u32}
use veredus.Base.Result.{ok}
use veredus.Base.Maps.{get, put}
use veredus.Turn.{
  PeerId, Hash, ClientTurn, TurnManager, HashMismatch, fresh, register, mark_ai_host, forget,
  drop_reports, on_turn_sealed, release_paced, take_settled, max_sealed,
}
use veredus.Turn.Release.{release_paced_exact}
use veredus.Turn.Hashes.{
  Reports, on_state_hash, compare, recheck_pending, on_observer_hash, on_player_hash, resumed,
  collect, max_key, simulated,
}
use veredus.Turn.Hashes.Known.{
  IsKnown, IsKnown-put, IsKnown-put_self, WaitingKnown-drop_reports, All-drop_peer,
}
use veredus.Turn.Hashes.Sound.{
  IsSound, compare-IsSound, recheck_pending-IsSound, clients-IsSound, on_state_hash_ok,
  on_observer_hash-IsSound, on_player_hash-IsSound,
}

-- One call of a method that changes the manager. A call that answers with a fault changes nothing.
pub data Step : TurnManager → TurnManager → Type 0 where
  registers :
      (m : TurnManager) (peer client_id ready_turn simulated_turn : ℕ) (observer delayed : Bool)
      → Step m (register peer client_id ready_turn simulated_turn observer delayed m)
  marks : (m : TurnManager) (peer : ℕ) → Step m (mark_ai_host peer m)
  forgets : (m : TurnManager) (peer : ℕ) → Step m (forget peer m)
  seals : (m m' : TurnManager) (peer turn : ℕ) → on_turn_sealed peer turn m ≡ ok m' → Step m m'
  releases :
      (m m' : TurnManager) (lag pace : Option ℕ) (turns : List ℕ)
      → max_sealed m.clients ≤ u32_max
      → release_paced lag pace m ≡ some (m', turns)
      → Step m m'
  hashes :
      (m m' : TurnManager) (peer turn : ℕ) (hash : Hash) (found : List HashMismatch)
      → on_state_hash peer turn hash m ≡ ok (m', found)
      → Step m m'
  compares : (m : TurnManager) (turn : ℕ) → Step m (compare turn m).0
  rechecks : (m : TurnManager) → Step m (recheck_pending m).0
  takes : (m : TurnManager) → Step m (take_settled m).0

abbrev pub Reach : TurnManager → TurnManager → Type 0
Reach start now = Run Step start now

fresh-IsSound : IsSound fresh
fresh-IsSound = record {
  agreed_old = tt;
  waiting_new = tt;
  players_known = tt;
  observers_known = tt;
  latch_known = tt;
  observer_latch_known = tt;
}

max_key-All : (n : ℕ) (es : List (ℕ × Hash)) → max_key es ≤ n → All (λ e. e.0 ≤ n) es
unfolding max_key
max_key-All n [] h = tt
max_key-All n ((t, x) ∷ es) h = (omega arith, max_key-All n es (omega arith))

resumed-IsSound :
    (ready_turn : ℕ) (references : List (ℕ × Hash)) → IsSound (resumed ready_turn references)
unfolding resumed
resumed-IsSound ready_turn references = record {
  agreed_old = max_key-All _ (collect references []) (omega arith);
  waiting_new = tt;
  players_known = tt;
  observers_known = tt;
  latch_known = tt;
  observer_latch_known = tt;
}

register-IsSound :
    (m : TurnManager) (peer client_id ready_turn simulated_turn : ℕ) (observer delayed : Bool)
    → IsSound m
    → IsSound (register peer client_id ready_turn simulated_turn observer delayed m)
unfolding register
register-IsSound m peer client_id ready_turn simulated_turn observer delayed v =
    clients-IsSound m _ (λ p. IsKnown-put p peer _ m.clients) v

mark_ai_host-IsSound : (m : TurnManager) (peer : ℕ) → IsSound m → IsSound (mark_ai_host peer m)
unfolding mark_ai_host
mark_ai_host-IsSound m peer v = elim (Option-cases (get ℕ_discrete peer m.clients)) [
  | inl e ↦ rw (e, mark_ai_host) v
  | inr (c, e) ↦
      rw (e, mark_ai_host)
        (clients-IsSound m (put ℕ_discrete peer (record c { ai_host = true }) m.clients)
          (λ p. IsKnown-put p peer (record c { ai_host = true }) m.clients) v)
]

drop_reports-All :
    (peer : PeerId) (P : ℕ → Type 0) (ws : List (ℕ × Reports))
    → All (λ w. P w.0) ws
    → All (λ w. P w.0) (drop_reports peer ws)
unfolding drop_reports
drop_reports-All peer P [] h = tt
drop_reports-All peer P ((t, rs) ∷ ws) h = (h.0, drop_reports-All peer P ws h.1)

forget-IsSound : (m : TurnManager) (peer : ℕ) → IsSound m → IsSound (forget peer m)
unfolding forget
forget-IsSound m peer v = record {
  agreed_old = v.agreed_old;
  waiting_new = drop_reports-All peer (λ t. m.last_compared < t) m.observer_pending v.waiting_new;
  players_known = WaitingKnown-drop_reports peer m.clients m.pending v.players_known;
  observers_known = WaitingKnown-drop_reports peer m.clients m.observer_pending v.observers_known;
  latch_known = All-drop_peer peer m.clients m.out_of_sync v.latch_known;
  observer_latch_known =
      All-drop_peer peer m.clients m.observers_out_of_sync v.observer_latch_known;
}

pub on_turn_sealed_ok :
    (peer turn : ℕ) (m m' : TurnManager)
    → on_turn_sealed peer turn m ≡ ok m'
    → (c : ClientTurn) × (get ℕ_discrete peer m.clients ≡ some c)
      × (turn ≡ add_u32 c.ready_turn 1)
      × (m' ≡ record m { clients = put ℕ_discrete peer (record c { ready_turn = turn }) m.clients })
unfolding on_turn_sealed
on_turn_sealed_ok peer turn m m' e = elim (Option-cases (get ℕ_discrete peer m.clients)) [
  | inl q ↦ absurd (ground (arith, e, q))
  | inr (c, q) ↦ (c, q, ground arith, ground arith)
]

on_turn_sealed-IsSound :
    (peer turn : ℕ) (m m' : TurnManager)
    → on_turn_sealed peer turn m ≡ ok m'
    → IsSound m
    → IsSound m'
on_turn_sealed-IsSound peer turn m m' e v =
    let (c, q, seq, same) = on_turn_sealed_ok peer turn m m' e in
    rw same (
      clients-IsSound m (put ℕ_discrete peer (record c { ready_turn = turn }) m.clients)
        (λ p. IsKnown-put p peer (record c { ready_turn = turn }) m.clients) v)

at_turn-IsSound : (m : TurnManager) (t : ℕ) → IsSound m → IsSound (record m { ready_turn = t })
at_turn-IsSound m t v = record {
  agreed_old = v.agreed_old;
  waiting_new = v.waiting_new;
  players_known = v.players_known;
  observers_known = v.observers_known;
  latch_known = v.latch_known;
  observer_latch_known = v.observer_latch_known;
}

release_paced-IsSound :
    (lag pace : Option ℕ) (m m' : TurnManager) (turns : List ℕ)
    → max_sealed m.clients ≤ u32_max
    → release_paced lag pace m ≡ some (m', turns)
    → IsSound m
    → IsSound m'
release_paced-IsSound lag pace m m' turns bound e v =
    let (k, returns, went, stopped) = release_paced_exact lag pace m bound in
    let same : m' ≡ record m { ready_turn = m.ready_turn + k } = ground (arith, returns) in
    rw same (at_turn-IsSound m (m.ready_turn + k) v)

on_state_hash-IsSound :
    (peer turn : ℕ) (hash : Hash) (m m' : TurnManager) (found : List HashMismatch)
    → on_state_hash peer turn hash m ≡ ok (m', found)
    → IsSound m
    → IsSound m'
unfolding simulated
on_state_hash-IsSound peer turn hash m m' found e v =
    let (client, q, seq, same) = on_state_hash_ok peer turn hash m m' found e in
    let noted : TurnManager = simulated peer client turn m in
    let sound : IsSound noted = noted-IsSound client in
    let known : IsKnown noted.clients peer = noted-IsKnown client in
    elim (Bool-cases (client.observer || client.delayed)) [
      | inl o ↦
          let after : m' ≡ (on_observer_hash peer turn hash noted).0 = ground (arith, same, o) in
          rw after (on_observer_hash-IsSound peer turn hash noted known sound)
      | inr o ↦
          let after : m' ≡ (on_player_hash client.ai_host peer turn hash noted).0 =
            ground (arith, same, o) in
          rw after (on_player_hash-IsSound client.ai_host peer turn hash noted known sound)
    ]
  where
    noted-IsSound : (client : ClientTurn) → IsSound (simulated peer client turn m)
    noted-IsSound client =
        clients-IsSound m (put ℕ_discrete peer (record client { simulated_turn = turn }) m.clients)
          (λ p. IsKnown-put p peer (record client { simulated_turn = turn }) m.clients) v

    noted-IsKnown : (client : ClientTurn) → IsKnown (simulated peer client turn m).clients peer
    noted-IsKnown client = IsKnown-put_self peer (record client { simulated_turn = turn }) m.clients

take_settled-IsSound : (m : TurnManager) → IsSound m → IsSound (take_settled m).0
unfolding take_settled
take_settled-IsSound m v = record {
  agreed_old = v.agreed_old;
  waiting_new = v.waiting_new;
  players_known = v.players_known;
  observers_known = v.observers_known;
  latch_known = v.latch_known;
  observer_latch_known = v.observer_latch_known;
}

Step-IsSound : (m m' : TurnManager) → Step m m' → IsSound m → IsSound m'
Step-IsSound _ _ (registers m p i r s o d) v = register-IsSound m p i r s o d v
Step-IsSound _ _ (marks m p) v = mark_ai_host-IsSound m p v
Step-IsSound _ _ (forgets m p) v = forget-IsSound m p v
Step-IsSound _ _ (seals m m' p t e) v = on_turn_sealed-IsSound p t m m' e v
Step-IsSound _ _ (releases m m' lag pace ts b e) v = release_paced-IsSound lag pace m m' ts b e v
Step-IsSound _ _ (hashes m m' p t h f e) v = on_state_hash-IsSound p t h m m' f e v
Step-IsSound _ _ (compares m t) v = compare-IsSound t m v
Step-IsSound _ _ (rechecks m) v = recheck_pending-IsSound m v
Step-IsSound _ _ (takes m) v = take_settled-IsSound m v

Reach-IsSound : {s m : TurnManager} → IsSound s → Reach s m → IsSound m
Reach-IsSound h r = Run-IsKept IsSound Step-IsSound r h

-- In every state that the calls of a match can reach, from its start: each turn with an agreed
-- hash is at or before the last compared turn, observers wait only on later turns, and every peer
-- that a report or an out-of-sync mark names is a registered client.
pub fresh-Reach-IsSound : (m : TurnManager) → Reach fresh m → IsSound m
fresh-Reach-IsSound m r = Reach-IsSound fresh-IsSound r

-- The same in a match that was rebuilt from its save, whatever was saved.
pub resumed-Reach-IsSound :
    (ready_turn : ℕ) (references : List (ℕ × Hash)) (m : TurnManager)
    → Reach (resumed ready_turn references) m
    → IsSound m
resumed-Reach-IsSound ready_turn references m r =
    Reach-IsSound (resumed-IsSound ready_turn references) r
