-- ===== src/Server/Advance.antt =====
-- `release_turns` of src/relay/server_fsm.rs: what a release does to the match.
use veredus.Base.{
  ℕ, ◌≡◌, refl, ap, ◌∙◌, ◌+◌, ◌≤◌, ◌<◌, max, Bool, true, not, Option, none, some, List, [], ◌∷◌,
  arith, Bool-cases, Option-cases, if◌then◌else◌, length, is_some, zero, suc,
}
use veredus.MatchLog.{commands_for, record_turn_length}
use veredus.ObserverFeed.{ObserverFeed, advance, target, due_flares, due_joins}
use veredus.Server.{Context}
use veredus.Server.Cast.{push, send, broadcast_live, broadcast_delayed, send_all, players_remain}
use veredus.Server.Feed.{
  clock_allowance, release_due, advance_anchor, seal_turn, seal_turns, delay_commands, delay_turn,
  delay_turns, delay_flares, release_joins, advance_feed, release_turns,
}
use veredus.Server.Frame.{match_of}
use veredus.Text.{Bytes}
use veredus.Turn.{PeerId, TurnManager, max_sealed, release_paced}
use veredus.Turn.Release.{release_paced_exact, at_turn, goes_on, turns_from, everyone_ahead-lt}
use veredus.Base.Words.{u32_max}
use veredus.Wire.Lobby.{Flare}
use veredus.Wire.Match.{Join, PlayerCommand}

match-delay_commands :
    (ks : List PlayerCommand) (c : Context) → match_of (delay_commands ks c) ≡ match_of c
unfolding delay_commands broadcast_delayed send_all push
match-delay_commands [] c = refl
match-delay_commands (k ∷ ks) c = match-delay_commands ks _

match-delay_turns : (ts : List ℕ) (c : Context) → match_of (delay_turns ts c) ≡ match_of c
unfolding delay_turns delay_turn broadcast_delayed send_all push
match-delay_turns [] c = refl
match-delay_turns (t ∷ ts) c =
    match-delay_turns ts _ ∙ match-delay_commands (commands_for t c.log) c

match-delay_flares : (fs : List Flare) (c : Context) → match_of (delay_flares fs c) ≡ match_of c
unfolding delay_flares broadcast_delayed send_all push
match-delay_flares [] c = refl
match-delay_flares (f ∷ fs) c = match-delay_flares fs _

match-release_joins :
    (js : List (PeerId × Join × Bytes)) (c : Context) → match_of (release_joins js c) ≡ match_of c
unfolding release_joins send push
match-release_joins [] c = refl
match-release_joins ((p, j, s) ∷ js) c = match-release_joins js _

-- The feed as `advance_feed` leaves it.
abbrev pub fed : Context → ObserverFeed
fed c = (due_joins (due_flares (advance c.turns.ready_turn (not (players_remain c)) c.feed).0).0).0

pub match-advance_feed : (c : Context) → match_of (advance_feed c) ≡ (c.turns, c.log, fed c)
unfolding advance_feed
match-advance_feed c =
    match-release_joins _ _
    ∙ ap (λ m. (m.0, m.1, (due_joins m.2).0))
        (match-delay_flares _ _ ∙ ap (λ m. (m.0, m.1, (due_flares m.2).0)) (match-delay_turns _ _))

head-fed :
    (c : Context)
    → (fed c).head ≡ max c.feed.head (target c.turns.ready_turn (not (players_remain c)) c.feed)
unfolding advance due_flares due_joins
head-fed c = refl

match-clock_allowance : (c : Context) → match_of (clock_allowance c).0 ≡ match_of c
unfolding clock_allowance
match-clock_allowance c = ground (arith, Option-cases c.now)

match-advance_anchor :
    (paced : Bool) (n : ℕ) (c : Context) → match_of (advance_anchor paced n c) ≡ match_of c
unfolding advance_anchor
match-advance_anchor paced n c = ground (arith, Option-cases c.pace_anchor)

-- The commands of the log, which a release leaves alone, between the turns and the feed.
abbrev pub played_of : Context → TurnManager × List (ℕ × List PlayerCommand) × ObserverFeed
played_of c = (c.turns, c.log.commands, c.feed)

pub played-seal_turns :
    (len : ℕ) (ts : List ℕ) (c : Context) → played_of (seal_turns len ts c) ≡ played_of c
unfolding seal_turns seal_turn broadcast_live send_all push record_turn_length
played-seal_turns len [] c = refl
played-seal_turns len (t ∷ ts) c = played-seal_turns len ts _

-- A release of `k` turns, none past the highest seal.
pub record Released (lag pace : Option ℕ) (m : TurnManager) (k : ℕ) : Type 0 where
  pub due : release_due lag pace m ≡ (at_turn m (m.ready_turn + k), turns_from m.ready_turn k)
  pub paced :
      release_paced lag pace m ≡ some (at_turn m (m.ready_turn + k), turns_from m.ready_turn k)
  pub sealed : m.ready_turn + k ≤ max m.ready_turn (max_sealed m.clients)

went-le_seal :
    (lag pace : Option ℕ) (m : TurnManager) (k : ℕ)
    → ((j : ℕ) → j < k → goes_on lag pace m j (m.ready_turn + j) ≡ true)
    → m.ready_turn + k ≤ max m.ready_turn (max_sealed m.clients)
went-le_seal lag pace m zero went = omega arith
went-le_seal lag pace m (suc k) went =
    let ahead =
      everyone_ahead-lt (at_turn m (m.ready_turn + k)) lag (is_some pace)
        (ground (arith, went k (omega arith))) in
    omega arith

pub release_due-Released :
    (lag pace : Option ℕ) (m : TurnManager)
    → max_sealed m.clients ≤ u32_max
    → (k : ℕ) × Released lag pace m k
unfolding release_due
release_due-Released lag pace m bound =
    let (k, returns, went, stopped) = release_paced_exact lag pace m bound in
    (
      k,
      record {
        due = rw (returns, release_due) refl;
        paced = returns;
        sealed = went-le_seal lag pace m k went;
      },
    )

-- The clock that `release_turns` reads, and the pace it gives.
abbrev pub clocked : Context → Context × ℕ
clocked c = if c.config.scripted then clock_allowance c else (c, 0)

abbrev pub pace_of : Context → Option ℕ
pace_of c = if c.config.scripted then some (clocked c).1 else none

match-clocked : (c : Context) → match_of (clocked c).0 ≡ match_of c
match-clocked c = ground (arith, match-clock_allowance c)

config-clocked : (c : Context) → (clocked c).0.config ≡ c.config
unfolding clock_allowance
config-clocked c = ground (arith, Option-cases c.now)

-- The state in which the turns that are released get their seals.
abbrev pub sealing : ℕ → Context → Context
sealing len c =
    let r = release_due (clocked c).0.config.observer_lag_limit (pace_of c) (clocked c).0.turns in
    seal_turns len r.1
      (advance_anchor c.config.scripted (length r.1) (record (clocked c).0 { turns = r.0 }))

pub head-fed_le : (c : Context) → (fed c).head ≤ max c.feed.head c.turns.ready_turn
unfolding advance due_flares due_joins target
head-fed_le c = ground (arith, Bool-cases (players_remain c))

played-sealing :
    (len k : ℕ) (c : Context)
    → Released c.config.observer_lag_limit (pace_of c) c.turns k
    → played_of (sealing len c) ≡ (at_turn c.turns (c.turns.ready_turn + k), c.log.commands, c.feed)
played-sealing len k c v =
    played-seal_turns len _ _
    ∙ ap (λ m. (m.0, m.1.commands, m.2)) (match-advance_anchor c.config.scripted _ _)
    ∙ ap
        (λ f. (
          (release_due f.observer_lag_limit (pace_of c) (clocked c).0.turns).0,
          (clocked c).0.log.commands,
          (clocked c).0.feed,
        ))
        (config-clocked c)
    ∙ ap (λ m. ((release_due c.config.observer_lag_limit (pace_of c) m.0).0, m.1.commands, m.2))
        (match-clocked c)
    ∙ ap (λ r. (r.0, c.log.commands, c.feed)) v.due

max_le : (h f a b x y : ℕ) → h ≡ f → f ≤ max a b → a ≡ x → b ≡ y → h ≤ max x y
max_le h f a b x y p q r t = omega arith

-- A release changes of the match: the ready turn, which goes up by `k`, the lengths of the turns,
-- and the delayed feed, whose head does not pass the ready turn.
pub release_turns-exact :
    (len : ℕ) (c : Context)
    → max_sealed c.turns.clients ≤ u32_max
    → (k : ℕ) × Released c.config.observer_lag_limit (pace_of c) c.turns k
      × ((release_turns len c).turns ≡ at_turn c.turns (c.turns.ready_turn + k))
      × ((release_turns len c).log.commands ≡ c.log.commands)
      × ((release_turns len c).feed.head ≤ max c.feed.head (c.turns.ready_turn + k))
unfolding release_turns
release_turns-exact len c bound =
    let (k, v) = release_due-Released c.config.observer_lag_limit (pace_of c) c.turns bound in
    let s = played-sealing len k c v in
    let e : match_of (release_turns len c)
        ≡ ((sealing len c).turns, (sealing len c).log, fed (sealing len c)) =
      match-advance_feed (sealing len c) in
    (
      k,
      v,
      ap (λ m. m.0) e ∙ ap (λ m. m.0) s,
      ap (λ m. m.1.commands) e ∙ ap (λ m. m.1) s,
      max_le _ _ _ _ _ _ (ap (λ m. m.2.head) e) (head-fed_le (sealing len c)) (ap (λ m. m.2.head) s)
          (ap (λ m. m.0.ready_turn) s),
    )
