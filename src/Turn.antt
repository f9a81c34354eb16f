-- ===== src/Turn.antt =====
-- src/relay/turn.rs, `TurnManager`: which turns may be released, and whether the clients' hashes
-- of a turn agree. A `HashMap` is an association list, a `HashSet` a list, a peer its number, and
-- a hash the list of its bytes.
pub mod Release
pub mod Hold
pub mod Hashes
pub mod History
mod Examples
use native.Mathlib.Decide.{ℕ_discrete}
use veredus.Base.{
  ℕ, ◌%◌, zero, suc, ◌+◌, ◌++◌, max, Bool, true, false, ◌&&◌, ◌||◌, not, Option, none, some, List,
  [], ◌∷◌, map, ltb, leb, ◌==◌, if◌then◌else◌, is_some, is_empty, any, all, select, ◌-◌,
}
use veredus.Base.Words.{add_u32}
use veredus.Base.Result.{Result, ok, err, ok_or, ◌>>=◌}
use veredus.Base.Maps.{get, put, erase}
use veredus.Fault.{PeerFault, no_session, turn_seal_out_of_sequence}

abbrev pub initial_ready_turn : ℕ
initial_ready_turn = 3

abbrev pub full_hash_every : ℕ
full_hash_every = 20

unfoldable pub needs_full_hash : ℕ → Bool
needs_full_hash turn = turn == 1 || turn % full_hash_every == 0

abbrev pub PeerId : Type 0
PeerId = ℕ

abbrev pub Hash : Type 0
Hash = List ℕ

pub record ClientTurn : Type 0 where
  pub client_id : ℕ
  pub ready_turn : ℕ
  pub simulated_turn : ℕ
  pub observer : Bool
  pub delayed : Bool
  pub ai_host : Bool

pub record TurnManager : Type 0 where
  pub ready_turn : ℕ
  pub clients : List (PeerId × ClientTurn)
  pub pending : List (ℕ × List (PeerId × Hash))
  pub out_of_sync : List PeerId
  pub last_compared : ℕ
  pub references : List (ℕ × Hash)
  pub observer_pending : List (ℕ × List (PeerId × Hash))
  pub observers_out_of_sync : List PeerId
  pub settled : List (ℕ × Hash)

pub record HashMismatch : Type 0 where
  pub turn : ℕ
  pub reference : Hash
  pub mismatched : List PeerId
  pub recipient : Option PeerId

-- `TurnManager::default`.
abbrev pub fresh : TurnManager
fresh = record {
  ready_turn = initial_ready_turn;
  clients = [];
  pending = [];
  out_of_sync = [];
  last_compared = 0;
  references = [];
  observer_pending = [];
  observers_out_of_sync = [];
  settled = [];
}

unfoldable pub register : PeerId → ℕ → ℕ → ℕ → Bool → Bool → TurnManager → TurnManager
register peer client_id ready_turn simulated_turn observer delayed m = record m {
  clients = put ℕ_discrete peer client m.clients;
}
  where
    client : ClientTurn
    client = record {
      client_id = client_id;
      ready_turn = ready_turn;
      simulated_turn = simulated_turn;
      observer = observer;
      delayed = delayed;
      ai_host = false;
    }

unfoldable pub mark_ai_host : PeerId → TurnManager → TurnManager
mark_ai_host peer m = elim (get ℕ_discrete peer m.clients) [
  | none ↦ m
  | some client ↦ record m {
    clients = put ℕ_discrete peer (record client { ai_host = true }) m.clients;
  }
]

unfoldable pub is_registered : PeerId → TurnManager → Bool
is_registered peer m = is_some (get ℕ_discrete peer m.clients)

unfoldable pub is_out_of_sync : PeerId → TurnManager → Bool
is_out_of_sync peer m =
    any (λ p. p == peer) m.out_of_sync || any (λ p. p == peer) m.observers_out_of_sync

unfoldable pub on_turn_sealed : PeerId → ℕ → TurnManager → Result PeerFault TurnManager
on_turn_sealed peer turn m = do
  client ← ok_or (get ℕ_discrete peer m.clients) no_session
  let want = add_u32 client.ready_turn 1
  if turn == want
      then ok (record m {
        clients = put ℕ_discrete peer (record client { ready_turn = turn }) m.clients;
      })
      else err (turn_seal_out_of_sequence turn want)

-- `blocks`: whether the match waits for this client's seal. `saturating_sub` is `-` on ℕ.
unfoldable pub blocks : ℕ → Option ℕ → ClientTurn → Bool
blocks ready_turn observer_lag_limit client =
    if client.delayed
    then false
    else if not client.observer
    then true
    else elim observer_lag_limit [
      | some limit ↦ leb limit (ready_turn - client.ready_turn)
      | none ↦ false
    ]

unfoldable pub humans_block : TurnManager → Option ℕ → Bool
unfolding blocks
humans_block m lag = any (λ e. not e.1.ai_host && blocks m.ready_turn lag e.1) m.clients

-- `ai_alone`: only the AI host would pace release, and the wall clock does not.
unfoldable pub ai_alone : TurnManager → Option ℕ → Bool → Bool
unfolding humans_block blocks
ai_alone m lag clocked =
    not clocked
    && not (humans_block m lag)
    && any (λ e. e.1.ai_host && blocks m.ready_turn lag e.1) m.clients

unfoldable pub blocking : TurnManager → Option ℕ → Bool → List (PeerId × ClientTurn)
blocking m lag clocked =
    select (λ e. ai_alone m lag clocked || blocks m.ready_turn lag e.1) m.clients

unfoldable pub everyone_ahead : TurnManager → Option ℕ → Bool → Bool
everyone_ahead m lag clocked =
    if ai_alone m lag clocked && all (λ e. e.1.ai_host) m.clients
    then false
    else if is_empty (blocking m lag clocked)
    then false
    else all (λ e. ltb m.ready_turn e.1.ready_turn) (blocking m lag clocked)

-- `pace.is_none_or(|limit| released.len() < limit)`.
unfoldable pub pace_allows : Option ℕ → ℕ → Bool
pace_allows none released = true
pace_allows (some limit) released = ltb released limit

-- The loop of `release_paced`; `count` is `released.len()`. `none` means that the fuel ran out.
unfoldable pub release_loop :
    ℕ → Option ℕ → Option ℕ → TurnManager → List ℕ → ℕ → Option (TurnManager × List ℕ)
release_loop zero lag pace m released count = none
release_loop (suc fuel) lag pace m released count =
    let turn = add_u32 m.ready_turn 1 in
    let rest =
      release_loop fuel lag pace (record m { ready_turn = turn }) (released ++ (turn ∷ []))
        (count + 1) in
    if pace_allows pace count && everyone_ahead m lag (is_some pace)
    then rest
    else some (m, released)

-- The highest turn that a client has sealed.
unfoldable pub max_sealed : List (PeerId × ClientTurn) → ℕ
max_sealed [] = 0
max_sealed ((p, c) ∷ cs) = max c.ready_turn (max_sealed cs)

-- A turn is released only below some client's seal, so this many rounds are enough.
unfoldable pub release_fuel : TurnManager → ℕ
release_fuel m = suc (max_sealed m.clients - m.ready_turn)

unfoldable pub release_paced : Option ℕ → Option ℕ → TurnManager → Option (TurnManager × List ℕ)
release_paced lag pace m = release_loop (release_fuel m) lag pace m [] 0

unfoldable pub release : Option ℕ → TurnManager → Option (TurnManager × List ℕ)
release lag m = release_paced lag none m

-- `HashSet::insert` and `remove` on a list of peers.
unfoldable pub add_peer : PeerId → List PeerId → List PeerId
add_peer p ps = if any (λ q. q == p) ps then ps else ps ++ (p ∷ [])

unfoldable pub drop_peer : PeerId → List PeerId → List PeerId
drop_peer p ps = select (λ q. not (q == p)) ps

-- `reported.remove(&peer)` in every turn's reports.
unfoldable pub drop_reports :
    PeerId → List (ℕ × List (PeerId × Hash)) → List (ℕ × List (PeerId × Hash))
drop_reports p [] = []
drop_reports p ((t, rs) ∷ m) = (t, erase ℕ_discrete p rs) ∷ drop_reports p m

unfoldable pub forget : PeerId → TurnManager → TurnManager
forget peer m = record m {
  clients = erase ℕ_discrete peer m.clients;
  out_of_sync = drop_peer peer m.out_of_sync;
  observers_out_of_sync = drop_peer peer m.observers_out_of_sync;
  pending = drop_reports peer m.pending;
  observer_pending = drop_reports peer m.observer_pending;
}

unfoldable pub take_settled : TurnManager → TurnManager × List (ℕ × Hash)
take_settled m = (record m { settled = [] }, m.settled)

-- The readers of the state. `simulated_turn_of` is the method `simulated_turn`.
unfoldable pub reference : ℕ → TurnManager → Option Hash
reference turn m = get ℕ_discrete turn m.references

unfoldable pub simulated_turn_of : PeerId → TurnManager → Option ℕ
simulated_turn_of peer m = elim (get ℕ_discrete peer m.clients) [
  | none ↦ none
  | some c ↦ some c.simulated_turn
]

unfoldable pub is_delayed : PeerId → TurnManager → Bool
is_delayed peer m = elim (get ℕ_discrete peer m.clients) [ none ↦ false | some c ↦ c.delayed ]

unfoldable pub delayed_peers : TurnManager → List PeerId
delayed_peers m = map (λ e. e.0) (select (λ e. e.1.delayed) m.clients)
