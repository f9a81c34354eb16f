-- ===== src/ObserverFeed.antt =====
-- src/relay/observer_feed.rs: what observers on a delay see of a match, and when. A `BTreeMap` is an
-- association list in the order of its keys, a range of turns the list of them.
pub mod Schedule
mod Examples
use native.Mathlib.Decide.{ℕ_discrete}
use veredus.Base.{
  ℕ, zero, suc, ◌+◌, ◌-◌, max, Bool, true, false, not, List, [], ◌∷◌, ◌++◌, map, ltb, leb, ◌==◌,
  if◌then◌else◌, select,
}
use veredus.Base.Words.{add_u32}
use veredus.Base.Maps.{put, erase}
use veredus.Text.{Bytes}
use veredus.Turn.{PeerId, initial_ready_turn}
use veredus.Wire.Lobby.{Flare}
use veredus.Wire.Match.{Join}

pub record HeldJoin : Type 0 where
  pub bound : ℕ
  pub join : Join
  pub snapshot : Bytes

pub record ObserverFeed : Type 0 where
  pub delay : ℕ
  pub head : ℕ
  pub flares : List (ℕ × List Flare)
  pub joins : List (PeerId × HeldJoin)

-- `ObserverFeed::new`.
abbrev pub new_feed : ℕ → ObserverFeed
new_feed delay = record { delay = delay; head = initial_ready_turn; flares = []; joins = [] }

-- `ObserverFeed::resumed`.
abbrev pub resumed_feed : ℕ → ℕ → ObserverFeed
resumed_feed delay head = record (new_feed delay) { head = max head initial_ready_turn }

-- `from..=to`, as `n` turns from `from`.
unfoldable pub turns : ℕ → ℕ → List ℕ
turns start zero = []
turns start (suc n) = start ∷ turns (start + 1) n

abbrev pub range : ℕ → ℕ → List ℕ
range start end = turns start (end + 1 - start)

unfoldable pub target : ℕ → Bool → ObserverFeed → ℕ
target live_ready_turn draining feed =
    if draining then live_ready_turn else live_ready_turn - feed.delay

unfoldable pub advance : ℕ → Bool → ObserverFeed → ObserverFeed × List ℕ
unfolding target
advance live_ready_turn draining feed =
    let head = max feed.head (target live_ready_turn draining feed) in
    (record feed { head = head }, range (add_u32 feed.head 1) head)

-- `flares.entry(turn).or_default().push(flare)`.
unfoldable pub push_at : ℕ → Flare → List (ℕ × List Flare) → List (ℕ × List Flare)
push_at turn flare [] = (turn, flare ∷ []) ∷ []
push_at turn flare ((t, fs) ∷ es) =
    if t == turn
    then (t, fs ++ (flare ∷ [])) ∷ es
    else if ltb turn t
    then (turn, flare ∷ []) ∷ (t, fs) ∷ es
    else (t, fs) ∷ push_at turn flare es

unfoldable pub queue_flare : ℕ → Flare → ObserverFeed → ObserverFeed
unfolding push_at
queue_flare turn flare feed = record feed { flares = push_at turn flare feed.flares }

unfoldable pub all_flares : List (ℕ × List Flare) → List Flare
all_flares [] = []
all_flares ((t, fs) ∷ es) = fs ++ all_flares es

unfoldable pub due_flares : ObserverFeed → ObserverFeed × List Flare
due_flares feed =
    let next = add_u32 feed.head 1 in
    (
      record feed { flares = select (λ e. leb next e.0) feed.flares },
      all_flares (select (λ e. ltb e.0 next) feed.flares),
    )

unfoldable pub hold_join : PeerId → ℕ → Join → Bytes → ObserverFeed → ObserverFeed
hold_join joiner bound join snapshot feed = record feed {
  joins =
      put ℕ_discrete joiner (record { bound = bound; join = join; snapshot = snapshot }) feed.joins;
}

-- The keys of a map are distinct, so that removing the peers that are due leaves the others.
unfoldable pub due_joins : ObserverFeed → ObserverFeed × List (PeerId × Join × Bytes)
due_joins feed = (
  record feed { joins = select (λ e. not (leb e.1.bound feed.head)) feed.joins },
  map (λ e. (e.0, e.1.join, e.1.snapshot)) (select (λ e. leb e.1.bound feed.head) feed.joins),
)

unfoldable pub forget : PeerId → ObserverFeed → ObserverFeed
forget peer feed = record feed { joins = erase ℕ_discrete peer feed.joins }
