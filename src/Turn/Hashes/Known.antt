-- ===== src/Turn/Hashes/Known.antt =====
-- Lemmas on the peers that the reports and the sets of a `TurnManager` name: each is a registered
-- client, and stays so under the map operations that turn.rs uses.
use native.Mathlib.Decide.{ℕ_discrete}
use veredus.Base.{
  ℕ, ◌≡◌, ◌≢◌, true, List, [], ◌∷◌, arith, ◌==◌, is_some, any, All, All-append, All-mono,
  Bool-cases, Option-cases, inl, inr,
}
use veredus.Base.Maps.{get, put, erase, get-put, get-erase, All-put, All-erase_ne, All-get}
use veredus.Turn.{PeerId, Hash, ClientTurn, add_peer, drop_peer, drop_reports}
use veredus.Turn.Hashes.{Reports, reports_of, add_report, mismatched_peers, add_peers}

abbrev pub Clients : Type 0
Clients = List (PeerId × ClientTurn)

abbrev pub IsKnown : Clients → PeerId → Type 0
IsKnown cs p = is_some (get ℕ_discrete p cs) ≡ true

-- All reports of a turn are by known peers; all turns' reports are.
abbrev pub AllKnown : Clients → Reports → Type 0
AllKnown cs rs = All (λ r. IsKnown cs r.0) rs

abbrev pub WaitingKnown : Clients → List (ℕ × Reports) → Type 0
WaitingKnown cs ws = All (λ e. AllKnown cs e.1) ws

pub IsKnown-put :
    (p q : PeerId) (c : ClientTurn) (cs : Clients)
    → IsKnown cs p
    → IsKnown (put ℕ_discrete q c cs) p
IsKnown-put p q c cs h = ground (arith, get-put ℕ_discrete q p c cs)

pub IsKnown-put_self :
    (p : PeerId) (c : ClientTurn) (cs : Clients) → IsKnown (put ℕ_discrete p c cs) p
IsKnown-put_self p c cs = ground (arith, get-put ℕ_discrete p p c cs)

pub IsKnown-erase :
    (p q : PeerId) (cs : Clients) → IsKnown cs p → p ≢ q → IsKnown (erase ℕ_discrete q cs) p
IsKnown-erase p q cs h n = ground (arith, get-erase ℕ_discrete q p cs)

-- If every client known to `cs` is known to `ds`, so is every reporter.
pub WaitingKnown-mono :
    (cs ds : Clients)
    → ((p : PeerId) → IsKnown cs p → IsKnown ds p)
    → (ws : List (ℕ × Reports)) → WaitingKnown cs ws
    → WaitingKnown ds ws
WaitingKnown-mono cs ds f ws h = All-mono (λ e k. All-mono (λ r. f r.0) e.1 k) ws h

pub WaitingKnown-drop_reports :
    (p : PeerId) (cs : Clients) (ws : List (ℕ × Reports))
    → WaitingKnown cs ws
    → WaitingKnown (erase ℕ_discrete p cs) (drop_reports p ws)
unfolding drop_reports
WaitingKnown-drop_reports p cs [] h = tt
WaitingKnown-drop_reports p cs ((t, rs) ∷ ws) h = (
  All-mono (λ r k. IsKnown-erase r.0 p cs k.0 k.1) (erase ℕ_discrete p rs)
      (All-erase_ne ℕ_discrete (λ r. IsKnown cs r.0) p rs h.0),
  WaitingKnown-drop_reports p cs ws h.1,
)

pub All-drop_peer :
    (p : PeerId) (cs : Clients) (ps : List PeerId)
    → All (IsKnown cs) ps
    → All (IsKnown (erase ℕ_discrete p cs)) (drop_peer p ps)
unfolding drop_peer
All-drop_peer p cs [] h = tt
All-drop_peer p cs (q ∷ ps) h = ground (arith, IsKnown-erase q p cs h.0, All-drop_peer p cs ps h.1)

pub All-add_peer :
    (P : PeerId → Type 0) (p : PeerId) (ps : List PeerId) → P p → All P ps → All P (add_peer p ps)
unfolding add_peer
All-add_peer P p ps hp h = elim (Bool-cases (any (λ q. q == p) ps)) [
  | inl old ↦ rw old h
  | inr new ↦ rw new (All-append P ps (p ∷ []) h (hp, tt))
]

pub All-add_peers :
    (P : PeerId → Type 0) (new old : List PeerId)
    → All P new
    → All P old
    → All P (add_peers new old)
unfolding add_peers
All-add_peers P [] old hn ho = ho
All-add_peers P (p ∷ ps) old hn ho =
    All-add_peers P ps (add_peer p old) hn.1 (All-add_peer P p old hn.0 ho)

pub AllKnown-mismatched_peers :
    (cs : Clients) (reference : Hash) (rs : Reports)
    → AllKnown cs rs
    → All (IsKnown cs) (mismatched_peers reference rs)
unfolding mismatched_peers
AllKnown-mismatched_peers cs reference [] h = tt
AllKnown-mismatched_peers cs reference (r ∷ rs) h =
    ground (arith, AllKnown-mismatched_peers cs reference rs h.1)

pub AllKnown-reports_of :
    (cs : Clients) (t : ℕ) (ws : List (ℕ × Reports))
    → WaitingKnown cs ws
    → AllKnown cs (reports_of t ws)
unfolding reports_of
AllKnown-reports_of cs t ws h = elim (Option-cases (get ℕ_discrete t ws)) [
  | inl e ↦ rw (e, reports_of) tt
  | inr (rs, e) ↦ rw (e, reports_of) (All-get ℕ_discrete (λ w. AllKnown cs w.1) t rs ws e h)
]

pub WaitingKnown-add_report :
    (cs : Clients) (t : ℕ) (p : PeerId) (hash : Hash) (ws : List (ℕ × Reports))
    → IsKnown cs p
    → WaitingKnown cs ws
    → WaitingKnown cs (add_report t p hash ws)
unfolding add_report
WaitingKnown-add_report cs t p hash ws k h =
    All-put ℕ_discrete (λ e. AllKnown cs e.1) t _ ws
      (All-put ℕ_discrete (λ r. IsKnown cs r.0) p hash (reports_of t ws) k
        (AllKnown-reports_of cs t ws h))
      h
