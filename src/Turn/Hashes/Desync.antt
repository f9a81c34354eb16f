-- ===== src/Turn/Hashes/Desync.antt =====
-- When the players' hashes of a turn are compared, and who is marked out of sync by that.
use native.Mathlib.Decide.{ℕ_discrete}
use veredus.Base.{
  ℕ, ◌≡◌, ◌≢◌, refl, ap, ◌∙◌, ◌<◌, ◌⊎◌, inl, inr, max, Bool, true, false, ◌&&◌, ◌||◌, not, none,
  some, List, [], ◌∷◌, ◌++◌, arith, ◌==◌, any, All, is_some, is_empty, Bool-cases, Option-cases,
}
use veredus.Base.Maps.{get}
use veredus.Turn.{PeerId, Hash, ClientTurn, TurnManager, add_peer, needs_full_hash}
use veredus.Turn.Hashes.{
  Reports, same_hash, mismatched_peers, add_peers, reference_of, everyone_reported, is_compared,
  compare, compare_reports, on_player_hash,
}
use veredus.Turn.Hashes.Known.{Clients}
use veredus.Turn.Hashes.Verdict.{compare_settles}

abbrev pub has_peer : PeerId → List PeerId → Bool
has_peer p ps = any (λ q. q == p) ps

has_peer-append :
    (p : PeerId) (xs ys : List PeerId) → has_peer p (xs ++ ys) ≡ (has_peer p xs || has_peer p ys)
has_peer-append p [] ys = refl
has_peer-append p (x ∷ xs) ys = ground (arith, has_peer-append p xs ys)

has_peer-add_peer :
    (p q : PeerId) (ps : List PeerId) → has_peer p (add_peer q ps) ≡ ((q == p) || has_peer p ps)
unfolding add_peer
has_peer-add_peer p q ps = elim (Bool-cases (has_peer q ps)) [
  | inl e ↦ rw (e, add_peer) (known p q ps e)
  | inr e ↦ rw (e, add_peer) (has_peer-append p ps (q ∷ []) ∙ ground arith)
]
  where
    known :
        (p q : PeerId) (ps : List PeerId)
        → has_peer q ps ≡ true
        → has_peer p ps ≡ ((q == p) || has_peer p ps)
    known p q ps e = elim (Bool-cases (q == p)) [
      | inl same ↦ ground (arith, same, e)
      | inr other ↦ rw other refl
    ]

has_peer-add_peers :
    (p : PeerId) (new old : List PeerId)
    → has_peer p (add_peers new old) ≡ (has_peer p new || has_peer p old)
unfolding add_peers
has_peer-add_peers p [] old = refl
has_peer-add_peers p (q ∷ new) old =
    has_peer-add_peers p new (add_peer q old)
    ∙ ap (has_peer p new ||◌) (has_peer-add_peer p q old)
    ∙ ground arith

-- Whether a peer sent another hash than the reference.
abbrev pub differs : PeerId → Hash → Reports → Bool
differs p reference rs = any (λ r. (r.0 == p) && not (same_hash r.1 reference)) rs

has_peer-mismatched_peers :
    (p : PeerId) (reference : Hash) (rs : Reports)
    → has_peer p (mismatched_peers reference rs) ≡ differs p reference rs
unfolding mismatched_peers
has_peer-mismatched_peers p reference [] = refl
has_peer-mismatched_peers p reference (r ∷ rs) =
    ground (arith, has_peer-mismatched_peers p reference rs)

abbrev pub Has {ℓ} : {A : Type ℓ} → (A → Type 0) → List A → Type 0
Has P [] = ⊥
Has P (x ∷ xs) = P x ⊎ Has P xs

-- A client that a comparison of the turn waits for, and one that it does not: it has reported, or its
-- hash does not count, as that of an observer, of a delayed client, and of the AI host in a turn of
-- a full hash.
abbrev pub IsMissing : ℕ → Reports → PeerId × ClientTurn → Type 0
IsMissing turn reported e =
    (e.1.observer ≡ false)
    × (e.1.delayed ≡ false)
    × ((e.1.ai_host && needs_full_hash turn) ≡ false)
    × (get ℕ_discrete e.0 reported ≡ none)

abbrev pub IsDone : ℕ → Reports → PeerId × ClientTurn → Type 0
IsDone turn reported e =
    (e.1.observer ≡ true)
    ⊎ (e.1.delayed ≡ true)
    ⊎ ((e.1.ai_host && needs_full_hash turn) ≡ true)
    ⊎ (is_some (get ℕ_discrete e.0 reported) ≡ true)

IsMissing-or-IsDone :
    (turn : ℕ) (reported : Reports) (e : PeerId × ClientTurn)
    → IsMissing turn reported e ⊎ IsDone turn reported e
IsMissing-or-IsDone turn reported (p, c) = elim (Bool-cases c.observer) [
  | inl o ↦ inr (inl o)
  | inr o ↦ elim (Bool-cases c.delayed) [
    | inl d ↦ inr (inr (inl d))
    | inr d ↦ elim (Bool-cases (c.ai_host && needs_full_hash turn)) [
      | inl a ↦ inr (inr (inr (inl a)))
      | inr a ↦ elim (Option-cases (get ℕ_discrete p reported)) [
        | inl g ↦ inl (o, d, a, g)
        | inr (h, g) ↦ inr (inr (inr (inr (ap is_some g))))
      ]
    ]
  ]
]

everyone_reported-missing :
    (turn : ℕ) (reported : Reports) (e : PeerId × ClientTurn) (es : Clients)
    → IsMissing turn reported e
    → everyone_reported turn (e ∷ es) reported ≡ false
unfolding everyone_reported is_compared
everyone_reported-missing turn reported (p, c) es (o, d, a, g) =
    rw (o, d, a, everyone_reported) (ap (λ f. is_some f && everyone_reported turn es reported) g)

everyone_reported-done :
    (turn : ℕ) (reported : Reports) (e : PeerId × ClientTurn) (es : Clients)
    → IsDone turn reported e
    → everyone_reported turn (e ∷ es) reported ≡ everyone_reported turn es reported
unfolding everyone_reported is_compared
everyone_reported-done turn reported (p, c) es h = ground arith

everyone_reported_cases :
    (turn : ℕ) (reported : Reports) (clients : Clients)
    → ((everyone_reported turn clients reported ≡ false) × Has (IsMissing turn reported) clients)
      ⊎ ((everyone_reported turn clients reported ≡ true) × All (IsDone turn reported) clients)
unfolding everyone_reported
everyone_reported_cases turn reported [] = inr (refl, tt)
everyone_reported_cases turn reported (e ∷ es) = elim (IsMissing-or-IsDone turn reported e) [
  | inl missing ↦ inl (everyone_reported-missing turn reported e es missing, inl missing)
  | inr done ↦ elim (everyone_reported_cases turn reported es) [
    | inl (no_one, later) ↦ inl (everyone_reported-done turn reported e es done ∙ no_one, inr later)
    | inr (all_in, rest) ↦
        inr (everyone_reported-done turn reported e es done ∙ all_in, (done, rest))
  ]
]

-- Why a comparison changes nothing.
abbrev pub Waits : ℕ → TurnManager → Type 0
Waits turn m =
    (m.out_of_sync ≢ [])
    ⊎ (get ℕ_discrete turn m.pending ≡ none)
    ⊎ ((reported : Reports) × (get ℕ_discrete turn m.pending ≡ some reported)
        × ((reported ≡ []) ⊎ Has (IsMissing turn reported) m.clients))

-- What a comparison that runs leaves: the reference is recorded for the turn and queued, the
-- reports of the turn and of older ones are gone, and `peer` is latched if it sent another hash.
abbrev pub Settles : ℕ → PeerId → Reports → Hash → TurnManager → TurnManager → Type 0
Settles turn peer reported reference m m' =
    (get ℕ_discrete turn m'.references ≡ some reference)
    × (m'.settled ≡ m.settled ++ ((turn, reference) ∷ []))
    × (m'.last_compared ≡ max m.last_compared turn)
    × All (λ e. turn < e.0) m'.pending
    × (has_peer peer m'.out_of_sync ≡ differs peer reference reported)

compare_waits :
    (turn : ℕ) (m : TurnManager) (reported : Reports)
    → get ℕ_discrete turn m.pending ≡ some reported
    → (everyone_reported turn m.clients reported ≡ false) ⊎ (reference_of m.clients reported ≡ none)
    → compare turn m ≡ (m, [])
unfolding compare compare_reports
compare_waits turn m reported here why = elim (Bool-cases (is_empty m.out_of_sync)) [
  | inr latched ↦ rw (latched, compare) refl
  | inl quiet ↦ elim why [
    | inl e ↦ rw (quiet, here, compare, compare_reports, e) refl
    | inr e ↦ elim (Bool-cases (everyone_reported turn m.clients reported)) [
      | inl all_in ↦ rw (quiet, here, compare, compare_reports, all_in, e) refl
      | inr out ↦ rw (quiet, here, compare, compare_reports, out) refl
    ]
  ]
]

nil-or-not {ℓ} : {A : Type ℓ} (xs : List A) → (xs ≡ []) ⊎ (xs ≢ [])
nil-or-not [] = inl refl
nil-or-not (x ∷ xs) = inr (λ e. cc)

compare-latched : (turn : ℕ) (m : TurnManager) → m.out_of_sync ≢ [] → compare turn m ≡ (m, [])
unfolding compare
compare-latched turn m latched = ground arith

compare-unreported :
    (turn : ℕ) (m : TurnManager) → get ℕ_discrete turn m.pending ≡ none → compare turn m ≡ (m, [])
unfolding compare
compare-unreported turn m e = elim (Bool-cases (is_empty m.out_of_sync)) [
  | inl quiet ↦ rw (quiet, e, compare) refl
  | inr latched ↦ rw (latched, compare) refl
]

-- A comparison that all the reports are there for.
pub compare-Settles :
    (turn : ℕ) (m : TurnManager) (peer : PeerId) (reported : Reports) (reference : Hash)
    → m.out_of_sync ≡ []
    → get ℕ_discrete turn m.pending ≡ some reported
    → everyone_reported turn m.clients reported ≡ true
    → reference_of m.clients reported ≡ some reference
    → Settles turn peer reported reference m (compare turn m).0
compare-Settles turn m peer reported reference quiet here all_in least =
    let (refs, done, last, waits, sync) =
      compare_settles turn m reported reference quiet here all_in least in
    let latch : has_peer peer (compare turn m).0.out_of_sync ≡ differs peer reference reported =
      ap (has_peer peer) sync
      ∙ has_peer-add_peers peer (mismatched_peers reference reported) []
      ∙ ground (arith, has_peer-mismatched_peers peer reference reported) in
    (refs, done, last, waits, latch)

reference_of-nil : (clients : Clients) (rs : Reports) → reference_of clients rs ≡ none → rs ≡ []
unfolding reference_of
reference_of-nil clients [] e = refl
reference_of-nil clients (r ∷ rs) e = absurd cc

-- A comparison of a turn changes nothing while somebody is latched, while nobody has reported the
-- turn, or while a client whose hash counts for it has not. Otherwise the reference is recorded for
-- the turn and queued for the caller, the reports of that turn and of older ones are retired, and
-- a peer is latched exactly if it sent another hash than the reference.
pub compare_cases :
    (turn : ℕ) (m : TurnManager) (peer : PeerId)
    → (Waits turn m × (compare turn m ≡ (m, [])))
      ⊎ ((reported : Reports) × (reference : Hash) × (m.out_of_sync ≡ [])
          × (get ℕ_discrete turn m.pending ≡ some reported)
          × All (IsDone turn reported) m.clients
          × (reference_of m.clients reported ≡ some reference)
          × Settles turn peer reported reference m (compare turn m).0)
compare_cases turn m peer = elim (nil-or-not m.out_of_sync) [
  | inr latched ↦ inl (inl latched, compare-latched turn m latched)
  | inl quiet ↦ elim (Option-cases (get ℕ_discrete turn m.pending)) [
    | inl e ↦ inl (inr (inl e), compare-unreported turn m e)
    | inr (reported, e) ↦ elim (everyone_reported_cases turn reported m.clients) [
      | inl (out, missing) ↦
          inl (inr (inr (reported, e, inr missing)), compare_waits turn m reported e (inl out))
      | inr (all_in, done) ↦ elim (Option-cases (reference_of m.clients reported)) [
        | inl q ↦ inl (
          inr (inr (reported, e, inl (reference_of-nil m.clients reported q))),
          compare_waits turn m reported e (inr q),
        )
        | inr (reference, q) ↦ inr (
          reported,
          reference,
          quiet,
          e,
          done,
          q,
          compare-Settles turn m peer reported reference quiet e all_in q,
        )
      ]
    ]
  ]
]

-- While somebody is out of sync, a player's hash is neither stored nor compared.
pub on_player_hash_latched :
    (ai_host : Bool) (peer turn : ℕ) (hash : Hash) (m : TurnManager)
    → m.out_of_sync ≢ []
    → on_player_hash ai_host peer turn hash m ≡ (m, [])
unfolding on_player_hash
on_player_hash_latched ai_host peer turn hash m latched = ground arith
