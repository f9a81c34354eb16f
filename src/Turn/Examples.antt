-- ===== src/Turn/Examples.antt =====
-- The theorems on a `TurnManager` at concrete matches: two players, one of which is the AI host,
-- and an observer.
use native.Mathlib.Decide.{ℕ_discrete}
use veredus.Base.Runs.{idle, after}
use veredus.Base.{
  ℕ, ◌+◌, ◌≤◌, ◌<◌, ◌≡◌, refl, true, false, none, some, [], ◌∷◌, arith, All, ◌⊎◌, ◌∙◌,
  list_discrete,
}
use veredus.Base.Words.{u32_max}
use veredus.Base.Maps.{get}
use veredus.Turn.{
  Hash, ClientTurn, TurnManager, fresh, register, release_paced, max_sealed, release_fuel,
  release_loop, pace_allows, everyone_ahead, ai_alone, humans_block, blocking, blocks,
  needs_full_hash,
}
use veredus.Turn.Release.{release_paced_exact, release_paced-le_seal, at_turn, turns_from, goes_on}
use veredus.Turn.Hashes.{
  Reports, reference_of, resumed, compare, everyone_reported, is_compared, min_report, better,
  key_lt, sort_key,
}
use veredus.Turn.Hashes.Sound.{IsSound}
use veredus.Turn.Hashes.Known.{Clients}
use veredus.Turn.Hashes.Desync.{
  compare_cases, compare-Settles, Waits, IsDone, Settles, has_peer, differs,
}
use veredus.Turn.History.{registers, fresh-Reach-IsSound, resumed-Reach-IsSound}

abbrev player : ℕ → ℕ → ClientTurn
player client_id ready_turn = record {
  client_id = client_id;
  ready_turn = ready_turn;
  simulated_turn = 3;
  observer = false;
  delayed = false;
  ai_host = false;
}

abbrev watcher : ClientTurn
watcher = record {
  client_id = 9;
  ready_turn = 3;
  simulated_turn = 3;
  observer = true;
  delayed = false;
  ai_host = false;
}

abbrev ai : ClientTurn
ai = record {
  client_id = 1;
  ready_turn = 8;
  simulated_turn = 3;
  observer = false;
  delayed = false;
  ai_host = true;
}

-- Two players that have sealed the turns to 6 and to 5, with the ready turn at 3.
abbrev two_players : TurnManager
two_players = record fresh { clients = (10, player 1 6) ∷ (11, player 2 5) ∷ (12, watcher) ∷ [] }

abbrev only_observers : TurnManager
only_observers = record fresh { clients = (12, watcher) ∷ [] }

abbrev only_ai : TurnManager
only_ai = record fresh { clients = (13, ai) ∷ [] }

abbrev agreed_hash : Hash
agreed_hash = 1 ∷ 2 ∷ []

abbrev other_hash : Hash
other_hash = 7 ∷ []

abbrev two_reports : Reports
two_reports = (11, other_hash) ∷ (10, agreed_hash) ∷ []

abbrev same_reports : Reports
same_reports = (11, agreed_hash) ∷ (10, agreed_hash) ∷ []

abbrev reporting : Reports → TurnManager
reporting rs = record two_players { pending = (4, rs) ∷ [] }

two_players-bound : max_sealed two_players.clients ≤ u32_max
unfolding max_sealed
two_players-bound = omega arith

release_paced_exact_example :
    (k : ℕ) × (release_paced none none two_players
      ≡ some (at_turn two_players (3 + k), turns_from 3 k))
    × ((j : ℕ) → j < k → goes_on none none two_players j (3 + j) ≡ true)
    × (goes_on none none two_players k (3 + k) ≡ false)
release_paced_exact_example = release_paced_exact none none two_players two_players-bound

-- The second player has sealed turn 5, so the release stops there.
two_players_run : release_paced none none two_players ≡ some (at_turn two_players 5, 4 ∷ 5 ∷ [])
unfolding release_paced release_fuel max_sealed release_loop pace_allows everyone_ahead ai_alone
    humans_block blocking blocks
two_players_run = refl

two_players_paced : release_paced none (some 1) two_players ≡ some (at_turn two_players 4, 4 ∷ [])
unfolding release_paced release_fuel max_sealed release_loop pace_allows everyone_ahead ai_alone
    humans_block blocking blocks
two_players_paced = refl

second_player : get ℕ_discrete 11 two_players.clients ≡ some (player 2 5)
unfolding get ℕ_discrete
second_player = refl

release_paced-le_seal_example : 5 ≤ 5
release_paced-le_seal_example =
    release_paced-le_seal none none two_players (at_turn two_players 5) (4 ∷ 5 ∷ []) 11 (player 2 5)
      two_players-bound second_player refl refl (omega arith) two_players_run

-- The AI host has the smallest id of the reporters, and sorts last.
abbrev with_ai : Clients
with_ai = (13, ai) ∷ two_players.clients

abbrev three_reports : Reports
three_reports = (13, other_hash) ∷ two_reports

three_reports-reference : reference_of with_ai three_reports ≡ some agreed_hash
unfolding reference_of min_report better key_lt sort_key get ℕ_discrete
three_reports-reference = refl

two_reports-reported : everyone_reported 4 two_players.clients two_reports ≡ true
unfolding everyone_reported is_compared needs_full_hash get ℕ_discrete
two_reports-reported = refl

same_reports-reported : everyone_reported 4 two_players.clients same_reports ≡ true
unfolding everyone_reported is_compared needs_full_hash get ℕ_discrete
same_reports-reported = refl

two_reports-reference : reference_of two_players.clients two_reports ≡ some agreed_hash
unfolding reference_of min_report better key_lt sort_key get ℕ_discrete
two_reports-reference = refl

same_reports-reference : reference_of two_players.clients same_reports ≡ some agreed_hash
unfolding reference_of min_report better key_lt sort_key get ℕ_discrete
same_reports-reference = refl

two_reports-pending : get ℕ_discrete 4 (reporting two_reports).pending ≡ some two_reports
unfolding get ℕ_discrete
two_reports-pending = refl

same_reports-pending : get ℕ_discrete 4 (reporting same_reports).pending ≡ some same_reports
unfolding get ℕ_discrete
same_reports-pending = refl

compare_cases_example :
    (Waits 4 (reporting two_reports)
      × (compare 4 (reporting two_reports) ≡ (reporting two_reports, [])))
    ⊎ ((reported : Reports) × (reference : Hash) × ((reporting two_reports).out_of_sync ≡ [])
        × (get ℕ_discrete 4 (reporting two_reports).pending ≡ some reported)
        × All (IsDone 4 reported) two_players.clients
        × (reference_of two_players.clients reported ≡ some reference)
        × Settles 4 11 reported reference
            (reporting two_reports)
            (compare 4 (reporting two_reports)).0)
compare_cases_example = compare_cases 4 (reporting two_reports) 11

second_differs : differs 11 agreed_hash two_reports ≡ true
unfolding list_discrete
second_differs = refl

-- The second player sent another hash than the reference.
second_latched : has_peer 11 (compare 4 (reporting two_reports)).0.out_of_sync ≡ true
second_latched =
    let (refs, done, last, waits, latch) =
      compare-Settles 4 (reporting two_reports) 11 two_reports agreed_hash refl two_reports-pending
        two_reports-reported two_reports-reference in
    latch ∙ second_differs

abbrev latched : TurnManager
latched = record two_players { out_of_sync = 11 ∷ [] }

abbrev one_client : TurnManager
one_client = register 10 1 3 3 false false fresh

fresh-Reach-IsSound_example : IsSound one_client
fresh-Reach-IsSound_example =
    fresh-Reach-IsSound one_client (after (registers fresh 10 1 3 3 false false) idle)

abbrev saved : TurnManager
saved = resumed 40 ((20, agreed_hash) ∷ (39, other_hash) ∷ [])

resumed-Reach-IsSound_example : IsSound (register 10 1 40 40 false false saved)
resumed-Reach-IsSound_example =
    resumed-Reach-IsSound 40 ((20, agreed_hash) ∷ (39, other_hash) ∷ [])
      (register 10 1 40 40 false false saved) (after (registers saved 10 1 40 40 false false) idle)
