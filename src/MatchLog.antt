-- ===== src/MatchLog.antt =====
-- src/relay/turn.rs, `MatchLog`: the commands and turn lengths of a match, for those that join late.
-- A `BTreeMap` is an association list; its greatest key is looked for.
pub mod Replay
mod Examples
use native.Mathlib.Decide.{ℕ_discrete}
use veredus.Base.{ℕ, max, Option, none, some, List, [], ◌∷◌, ◌++◌}
use veredus.Base.Maps.{get, put}
use veredus.Wire.Match.{PlayerCommand}

pub record MatchLog : Type 0 where
  pub commands : List (ℕ × List PlayerCommand)
  pub turn_lengths : List (ℕ × ℕ)

-- `MatchLog::default`.
abbrev pub empty_log : MatchLog
empty_log = record { commands = []; turn_lengths = [] }

unfoldable pub commands_for : ℕ → MatchLog → List PlayerCommand
commands_for turn log = elim (get ℕ_discrete turn log.commands) [ none ↦ [] | some cs ↦ cs ]

unfoldable pub record_command : PlayerCommand → MatchLog → MatchLog
unfolding commands_for
record_command command log = record log {
  commands =
      put ℕ_discrete command.turn (commands_for command.turn log ++ (command ∷ [])) log.commands;
}

unfoldable pub record_turn_length : ℕ → ℕ → MatchLog → MatchLog
record_turn_length turn len log = record log {
  turn_lengths = put ℕ_discrete turn len log.turn_lengths;
}

unfoldable pub turn_length : ℕ → MatchLog → Option ℕ
turn_length turn log = get ℕ_discrete turn log.turn_lengths

unfoldable pub greatest : List (ℕ × List PlayerCommand) → Option ℕ
greatest [] = none
greatest ((t, cs) ∷ es) = elim (greatest es) [ none ↦ some t | some u ↦ some (max t u) ]

unfoldable pub last_command_turn : MatchLog → Option ℕ
last_command_turn log = greatest log.commands
