-- ===== src/Fault.antt =====
-- src/relay/fault.rs: what a peer can do wrong, and the wire consequence of each fault. A field's
-- name is a text.
use Prim.Native.String.{String}
use veredus.Base.{ℕ, Option, none, some}

pub data ParseError : Type 0 where
  truncated : String → ParseError
  bad_utf8 : String → ParseError
  size_mismatch : (declared actual : ℕ) → ParseError
  wrong_size : String → (declared should_be : ℕ) → ParseError
  unknown_type : ℕ → ParseError

pub data PeerFault : Type 0 where
  no_session not_controller wrong_phase : PeerFault
  malformed : ParseError → PeerFault
  turn_seal_out_of_sequence : (got want : ℕ) → PeerFault
  state_hash_out_of_sequence : (got want : ℕ) → PeerFault
  turn_seal_ahead : (got ready : ℕ) → PeerFault
  state_hash_ahead : (got ready : ℕ) → PeerFault
  transfer_overrun flooding loaded_before_snapshot : PeerFault
  loaded_turn_out_of_range : (got lo hi : ℕ) → PeerFault

-- `DisconnectReason` of src/relay/server_fsm.rs.
pub data DisconnectReason : Type 0 where
  server_shutting_down game_version_mismatch server_loading match_in_progress : DisconnectReason
  kicked banned name_in_use server_full lobby_auth_failed no_uuid : DisconnectReason
  out_of_sequence_turn_seal out_of_sequence_state_hash refused : DisconnectReason
  simulation_or_mod_mismatch : DisconnectReason

-- `PeerFault::reason`; `none` drops the message and keeps the connection.
unfoldable pub reason : PeerFault → Option DisconnectReason
reason (turn_seal_out_of_sequence got want) = some out_of_sequence_turn_seal
reason (turn_seal_ahead got ready) = some out_of_sequence_turn_seal
reason (state_hash_out_of_sequence got want) = some out_of_sequence_state_hash
reason (state_hash_ahead got ready) = some out_of_sequence_state_hash
reason flooding = some kicked
reason loaded_before_snapshot = some kicked
reason (loaded_turn_out_of_range got lo hi) = some kicked
reason no_session = none
reason not_controller = none
reason wrong_phase = none
reason (malformed e) = none
reason transfer_overrun = none
