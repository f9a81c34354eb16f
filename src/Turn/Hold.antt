-- ===== src/Turn/Hold.antt =====
-- When `release` of src/relay/turn.rs holds the match: nobody blocks, or only the AI host is left.
use veredus.Base.{
  ℕ, ◌≡◌, refl, Bool, true, false, ◌&&◌, ◌||◌, not, Option, none, some, List, [], ◌∷◌, arith,
  is_some, any, all, select,
}
use veredus.Turn.{
  PeerId, ClientTurn, TurnManager, blocks, humans_block, ai_alone, blocking, everyone_ahead,
  pace_allows, release_loop, release_fuel, release_paced, release,
}

abbrev Clients : Type 0
Clients = List (PeerId × ClientTurn)

-- The one round of a loop whose test fails at once.
release_paced_hold :
    (lag pace : Option ℕ) (m : TurnManager)
    → (pace_allows pace 0 && everyone_ahead m lag (is_some pace)) ≡ false
    → release_paced lag pace m ≡ some (m, [])
unfolding release_paced release_fuel release_loop
release_paced_hold lag pace m h = rw h refl

any-observers :
    (q : ClientTurn → Bool) (t : ℕ) (cs : Clients)
    → all (λ e. e.1.delayed || e.1.observer) cs ≡ true
    → any (λ e. q e.1 && blocks t none e.1) cs ≡ false
unfolding blocks
any-observers q t [] h = refl
any-observers q t ((p, c) ∷ cs) h = ground (arith, any-observers q t cs)

select-observers :
    (t : ℕ) (cs : Clients)
    → all (λ e. e.1.delayed || e.1.observer) cs ≡ true
    → select (λ e. blocks t none e.1) cs ≡ []
unfolding blocks
select-observers t [] h = refl
select-observers t ((p, c) ∷ cs) h = ground (arith, select-observers t cs)

everyone_ahead-observers :
    (m : TurnManager) (clocked : Bool)
    → all (λ e. e.1.delayed || e.1.observer) m.clients ≡ true
    → everyone_ahead m none clocked ≡ false
unfolding everyone_ahead blocking ai_alone humans_block
everyone_ahead-observers m clocked h = ground (
  arith,
  any-observers (λ c. c.ai_host) m.ready_turn m.clients,
  select-observers m.ready_turn m.clients,
)

-- Without a lag limit, a match whose every client is an observer or on the delayed feed releases
-- nothing, with or without a pace: the loop ends at once and the state stays as it was.
pub release_paced_observers :
    (pace : Option ℕ) (m : TurnManager)
    → all (λ e. e.1.delayed || e.1.observer) m.clients ≡ true
    → release_paced none pace m ≡ some (m, [])
release_paced_observers pace m h =
    release_paced_hold none pace m (ground (arith, everyone_ahead-observers m (is_some pace)))

any-humans :
    (lag : Option ℕ) (t : ℕ) (cs : Clients)
    → all (λ e. e.1.ai_host) cs ≡ true
    → any (λ e. not e.1.ai_host && blocks t lag e.1) cs ≡ false
any-humans lag t [] h = refl
any-humans lag t ((p, c) ∷ cs) h = ground (arith, any-humans lag t cs)

select-ai_hosts :
    (lag : Option ℕ) (t : ℕ) (cs : Clients)
    → all (λ e. e.1.ai_host) cs ≡ true
    → any (λ e. e.1.ai_host && blocks t lag e.1) cs ≡ false
    → select (λ e. blocks t lag e.1) cs ≡ []
select-ai_hosts lag t [] h n = refl
select-ai_hosts lag t ((p, c) ∷ cs) h n = ground (arith, select-ai_hosts lag t cs)

everyone_ahead-ai_hosts :
    (m : TurnManager) (lag : Option ℕ)
    → all (λ e. e.1.ai_host) m.clients ≡ true
    → everyone_ahead m lag false ≡ false
unfolding everyone_ahead blocking ai_alone humans_block
everyone_ahead-ai_hosts m lag h =
    ground
      (arith, any-humans lag m.ready_turn m.clients, select-ai_hosts lag m.ready_turn m.clients)

-- With only the AI host left, and no wall clock that paces the match, `release` releases nothing,
-- whatever the AI host has sealed.
pub release_ai_hosts :
    (lag : Option ℕ) (m : TurnManager)
    → all (λ e. e.1.ai_host) m.clients ≡ true
    → release lag m ≡ some (m, [])
unfolding release
release_ai_hosts lag m h =
    release_paced_hold lag none m (ground (arith, everyone_ahead-ai_hosts m lag h))
