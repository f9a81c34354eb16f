-- ===== src/MatchLog/Replay.antt =====
-- What a joiner is replayed from the log.
use native.Mathlib.Decide.{ℕ_discrete}
use veredus.Base.{
  ℕ, ◌≡◌, refl, ◌≤◌, ◌∙◌, ap, max, Option, none, some, List, [], ◌∷◌, ◌++◌, ◌==◌, if◌then◌else◌,
  arith, Bool-cases, inl, inr, Option-cases, is_same,
}
use veredus.Base.Maps.{get, get-put}
use veredus.Wire.Match.{PlayerCommand}
use veredus.MatchLog.{
  MatchLog, commands_for, record_command, record_turn_length, last_command_turn, greatest,
}

-- What the log is told: a command, or the length of a turn.
pub data Entry : Type 0 where
  command : PlayerCommand → Entry
  turn_took : (turn len : ℕ) → Entry

unfoldable pub record_all : List Entry → MatchLog → MatchLog
record_all [] log = log
record_all (command c ∷ es) log = record_all es (record_command c log)
record_all (turn_took t len ∷ es) log = record_all es (record_turn_length t len log)

-- The commands for a turn among what the log is told.
unfoldable pub commands_of : ℕ → List Entry → List PlayerCommand
commands_of turn [] = []
commands_of turn (command c ∷ es) =
    if c.turn == turn then c ∷ commands_of turn es else commands_of turn es
commands_of turn (turn_took t len ∷ es) = commands_of turn es

append_assoc_commands : (xs ys zs : List PlayerCommand) → (xs ++ ys) ++ zs ≡ xs ++ (ys ++ zs)
append_assoc_commands [] ys zs = refl
append_assoc_commands (x ∷ xs) ys zs = ap (λ t. x ∷ t) (append_assoc_commands xs ys zs)

append_nil_commands : (xs : List PlayerCommand) → xs ++ [] ≡ xs
append_nil_commands [] = refl
append_nil_commands (x ∷ xs) = ap (λ t. x ∷ t) (append_nil_commands xs)

abbrev commands_in : Option (List PlayerCommand) → List PlayerCommand
commands_in none = []
commands_in (some cs) = cs

same-turn : (t u : ℕ) → is_same ℕ_discrete t u ≡ (t == u)
unfolding ℕ_discrete
same-turn t u = ground arith

commands_for-record_turn_length :
    (turn t len : ℕ) (log : MatchLog)
    → commands_for turn (record_turn_length t len log) ≡ commands_for turn log
unfolding commands_for record_turn_length
commands_for-record_turn_length turn t len log = refl

commands_for-record_command :
    (turn : ℕ) (c : PlayerCommand) (log : MatchLog)
    → commands_for turn (record_command c log)
      ≡ (if c.turn == turn then commands_for turn log ++ (c ∷ []) else commands_for turn log)
unfolding commands_for record_command
commands_for-record_command turn c log =
    let told = commands_for c.turn log ++ (c ∷ []) in
    ap commands_in (get-put ℕ_discrete c.turn turn told log.commands)
    ∙ rw (same-turn c.turn turn) (elim (Bool-cases (c.turn == turn)) [
      | inl same ↦ let e : c.turn ≡ turn = ground (arith, same) in rw (same, e) refl
      | inr other ↦ rw other refl
    ])

-- Whatever the log is told, and in whatever order: a joiner is replayed, for each turn, all the
-- commands that were recorded for it, in the order they were recorded.
pub commands_for-record_all :
    (turn : ℕ) (es : List Entry) (log : MatchLog)
    → commands_for turn (record_all es log) ≡ commands_for turn log ++ commands_of turn es
unfolding record_all commands_of
commands_for-record_all turn [] log = rw append_nil_commands refl
commands_for-record_all turn (command c ∷ es) log =
    let rest = commands_for-record_all turn es (record_command c log) in
    let first = commands_for-record_command turn c log in
    elim (Bool-cases (c.turn == turn)) [
      | inl same ↦
          rest
          ∙ rw (first, same)
              (append_assoc_commands (commands_for turn log) (c ∷ []) (commands_of turn es))
      | inr other ↦ rest ∙ rw (first, other) refl
    ]
commands_for-record_all turn (turn_took t len ∷ es) log =
    commands_for-record_all turn es (record_turn_length t len log)
    ∙ ap (λ cs. cs ++ commands_of turn es) (commands_for-record_turn_length turn t len log)

greatest-le :
    (turn : ℕ) (es : List (ℕ × List PlayerCommand)) (cs : List PlayerCommand)
    → get ℕ_discrete turn es ≡ some cs
    → (last : ℕ) × (greatest es ≡ some last) × (turn ≤ last)
unfolding greatest get ℕ_discrete
greatest-le turn [] cs e = absurd (cc e)
greatest-le turn ((t, ds) ∷ es) cs e = elim (Bool-cases (t == turn)) [
  | inl same ↦ elim (Option-cases (greatest es)) [
    | inl nothing ↦ (t, rw nothing refl, ground (arith, same))
    | inr (u, found) ↦ (max t u, rw found refl, ground (arith, same))
  ]
  | inr other ↦
      let (u, found, le) = greatest-le turn es cs (ground (arith, e, other)) in
      (max t u, rw found refl, omega arith)
]

-- The last turn with a command is at or after every turn that has one.
pub last_command_turn_le :
    (turn : ℕ) (log : MatchLog) (cs : List PlayerCommand)
    → get ℕ_discrete turn log.commands ≡ some cs
    → (last : ℕ) × (last_command_turn log ≡ some last) × (turn ≤ last)
unfolding last_command_turn
last_command_turn_le turn log cs e = greatest-le turn log.commands cs e
