-- ===== src/ObserverFeed/Examples.antt =====
-- The theorems on the feed at a concrete match, two turns behind the players.
use native.Mathlib.Decide.{ℕ_discrete}
use veredus.Base.{
  ℕ, ◌+◌, ◌-◌, ◌≤◌, ◌<◌, ◌≡◌, refl, Bool, true, false, some, List, [], ◌∷◌, ◌++◌, All, any, arith,
  ◌⊎◌, ◌==◌,
}
use veredus.Base.Maps.{get}
use veredus.Wire.Lobby.{Flare}
use veredus.ObserverFeed.{
  ObserverFeed, HeldJoin, new_feed, turns, advance, due_flares, all_flares, due_joins,
}
use veredus.ObserverFeed.Schedule.{
  advance_all, advance_all_exact, advance_delayed, due_flares_front, due_joins_held,
}

abbrev calls : List (ℕ × Bool)
calls = (4, false) ∷ (9, false) ∷ (9, true) ∷ []

advance_all_exact_example :
    ((advance_all calls (new_feed 2)).1
      ≡ turns (3 + 1) ((advance_all calls (new_feed 2)).0.head - 3))
    × (3 ≤ (advance_all calls (new_feed 2)).0.head)
advance_all_exact_example =
    advance_all_exact calls (new_feed 2) (omega arith)
      (omega arith, (omega arith, (omega arith, tt)))

advance_delayed_example : All (λ t. t + 2 ≤ 9) (advance 9 false (new_feed 2)).1
advance_delayed_example = advance_delayed 9 (new_feed 2) (omega arith)

abbrev flare : Flare
flare = record { guid = []; position_x = []; position_y = []; position_z = [] }

abbrev held : HeldJoin
held = record { bound = 7; join = record { init_attributes = [] }; snapshot = 1 ∷ [] }

abbrev waiting : ObserverFeed
waiting = record (new_feed 2) {
  flares = (3, flare ∷ []) ∷ (5, flare ∷ []) ∷ [];
  joins = (8, held) ∷ [];
}

due_flares_front_example :
    (front : List (ℕ × List Flare)) × (waiting.flares ≡ front ++ (due_flares waiting).0.flares)
    × All (λ e. e.0 ≤ 3) front
    × All (λ e. 3 < e.0) (due_flares waiting).0.flares
    × ((due_flares waiting).1 ≡ all_flares front)
due_flares_front_example = due_flares_front waiting ((omega arith, tt), (tt, tt)) (omega arith)

held_here : get ℕ_discrete 8 waiting.joins ≡ some held
unfolding get ℕ_discrete
held_here = refl

due_joins_held_example :
    (3 < 7) × (get ℕ_discrete 8 (due_joins waiting).0.joins ≡ some held)
    ⊎ (7 ≤ 3) × (any (λ r. r.0 == 8) (due_joins waiting).1 ≡ true)
due_joins_held_example = due_joins_held 8 held waiting held_here
