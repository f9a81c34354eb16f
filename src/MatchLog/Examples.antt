-- ===== src/MatchLog/Examples.antt =====
-- The theorems on the log of a match at a concrete one.
use native.Mathlib.Decide.{ℕ_discrete}
use veredus.Base.{ℕ, ◌≡◌, refl, some, List, [], ◌∷◌, ◌++◌}
use veredus.Base.Maps.{get}
use veredus.Wire.Match.{PlayerCommand}
use veredus.MatchLog.{MatchLog, empty_log, commands_for}
use veredus.MatchLog.Replay.{
  Entry, command, turn_took, record_all, commands_of, commands_for-record_all,
}

abbrev order : ℕ → ℕ → PlayerCommand
order turn b = record { client = 1; player = 1; turn = turn; payload = b ∷ [] }

abbrev told : List Entry
told = command (order 5 1) ∷ turn_took 4 200 ∷ command (order 4 2) ∷ command (order 5 3) ∷ []

commands_for-record_all_example :
    commands_for 5 (record_all told empty_log) ≡ commands_for 5 empty_log ++ commands_of 5 told
commands_for-record_all_example = commands_for-record_all 5 told empty_log

abbrev two_turns : MatchLog
two_turns = record { commands = (5, order 5 1 ∷ []) ∷ (4, order 4 2 ∷ []) ∷ []; turn_lengths = [] }

four_here : get ℕ_discrete 4 two_turns.commands ≡ some (order 4 2 ∷ [])
unfolding get ℕ_discrete
four_here = refl
