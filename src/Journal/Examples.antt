-- ===== src/Journal/Examples.antt =====
-- The theorem on src/savegame/journal.rs at work: a turn with one command, a hash, and a torn record.
use veredus.Base.{◌≡◌, refl, List, [], ◌∷◌, ◌++◌, take, arith, length}
use veredus.Journal.{
  Record, turn_record, hash_record, stopped_record, framed, read_journal, body_of, write_commands,
  u16_to_le_bytes, i64_to_le_bytes,
}
use veredus.Wire.{u32_to_le_bytes}
use veredus.Journal.Fields.{IsCommand}
use veredus.Journal.Recovery.{read_journal-recovers, written}
use veredus.Text.{Bytes}
use veredus.Wire.Match.{PlayerCommand, player_command_to_bytes}

abbrev zeros : Bytes
zeros = 0 ∷ 0 ∷ 0 ∷ 0 ∷ 0 ∷ 0 ∷ 0 ∷ 0 ∷ 0 ∷ 0 ∷ 0 ∷ 0 ∷ 0 ∷ 0 ∷ 0 ∷ 0 ∷ []

abbrev checksum : Bytes → Bytes
checksum body = zeros

abbrev command : PlayerCommand
command = record { client = 9; player = 1; turn = 5; payload = 3 ∷ 0 ∷ [] }

command-IsCommand : IsCommand command
unfolding player_command_to_bytes u32_to_le_bytes
command-IsCommand = record {
  valid = record { client = omega arith; player = omega arith; turn = omega arith };
  short = omega arith;
}

abbrev whole : List Record
whole = turn_record 5 200 (command ∷ []) ∷ hash_record 5 (17 ∷ 34 ∷ []) ∷ []

abbrev torn : Record
torn = stopped_record 6 1700000000000

read_journal-recovers_example :
    read_journal checksum (written checksum whole ++ take 9 (framed checksum torn))
    ≡ (whole, length (written checksum whole))
unfolding framed body_of write_commands player_command_to_bytes u32_to_le_bytes u16_to_le_bytes
    i64_to_le_bytes
read_journal-recovers_example =
    read_journal-recovers checksum (λ b. refl) whole torn 9
      (
        ((omega arith, omega arith, omega arith, (command-IsCommand, tt)), omega arith),
        (((omega arith, omega arith), omega arith), tt),
      )
      ((omega arith, omega arith), omega arith) (omega arith)
