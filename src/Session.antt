-- ===== src/Session.antt =====
-- src/relay/session.rs: one connected client. Its tracing span, its round trip times and the lobby
-- flag `unprompted` are left out: no modelled handler reads them.
use veredus.Base.{ℕ, Bool, true, false, Option, none, some, List, []}
use mathlib.Core.Option
use veredus.Text.{Text, Guid}
use veredus.RateLimit.{Limits}

pub data Role : Type 0 where
  setup syncing in_game : Role

pub record Admitted : Type 0 where
  pub client_id : ℕ
  pub name : Text
  pub role : Role

-- `snapshot_turns` is the range from its first to its last turn.
pub record Session : Type 0 where
  pub addr : ℕ
  pub uuid : Option Guid
  pub lobby_name : Option Text
  pub admitted : Option Admitted
  pub tried_sources : List ℕ
  pub snapshot_turns : Option (ℕ × ℕ)
  pub pending_since : Option ℕ
  pub limits : Limits

-- `Session::new`.
unfoldable pub new_session : ℕ → Limits → Session
new_session addr limits = record {
  addr = addr;
  uuid = none;
  lobby_name = none;
  admitted = none;
  tried_sources = [];
  snapshot_turns = none;
  pending_since = none;
  limits = limits;
}

-- The method `role`.
unfoldable pub role_of : Session → Option Role
role_of s = Option.map (λ a. a.role) s.admitted

unfoldable pub is_setup : Session → Bool
unfolding role_of
is_setup s = elim (role_of s) [ some setup ↦ true | _ ↦ false ]

unfoldable pub is_syncing : Session → Bool
unfolding role_of
is_syncing s = elim (role_of s) [ some syncing ↦ true | _ ↦ false ]

unfoldable pub is_in_game : Session → Bool
unfolding role_of
is_in_game s = elim (role_of s) [ some in_game ↦ true | _ ↦ false ]

unfoldable pub is_unauthenticated : Session → Bool
is_unauthenticated s = elim s.admitted [ none ↦ true | some a ↦ false ]

-- The methods `name` and `client_id`.
unfoldable pub name_in : Session → Option Text
name_in s = Option.map (λ a. a.name) s.admitted

unfoldable pub client_id_of : Session → Option ℕ
client_id_of s = Option.map (λ a. a.client_id) s.admitted

unfoldable pub set_role : Role → Session → Session
set_role role s = elim s.admitted [
  | none ↦ s
  | some a ↦ record s { admitted = some (record a { role = role }) }
]
