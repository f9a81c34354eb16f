-- ===== src/Ingress/Gate.antt =====
-- src/relay/ingress.rs, `Gate`: who may authenticate, before the phase handlers see it.
use Prim.Native.String.{String}
use native.Mathlib.Decide.{ℕ_discrete}
use veredus.Base.{
  ℕ, ◌/◌, Bool, true, false, ◌||◌, not, Option, none, some, List, [], ◌∷◌, ◌==◌, if◌then◌else◌,
  list_discrete, is_some,
}
use mathlib.Core.Option
use veredus.Base.Maps.{get}
use veredus.Fault.{DisconnectReason, banned, refused}
use veredus.Ingress.Ledger.{Ledger, new_ledger, has_token, spend, prune}
use veredus.Server.{Phase, in_game, post_game, resuming, Effect, send_to, password_rejected}
use veredus.Session.{Session}
use veredus.Text.{Text}
use veredus.Turn.{PeerId}
use veredus.Wire.Handshake.{code_ok_rejoining}
use veredus.Wire.Message.{authenticate_result}

pub data Decision : Type 0 where
  pass drop : Decision
  refuse : DisconnectReason → (cause : String) → Decision

pub record Gate : Type 0 where
  pub join_by_addr : Ledger ℕ
  pub join_by_lobby_name : Ledger Text
  pub auth_fail_by_addr : Ledger ℕ
  pub auth_fail_by_lobby_name : Ledger Text

-- `Gate::new`, given the settings that it reads.
unfoldable pub new_gate :
    (join_burst auth_fail_burst auth_fail_burst_per_addr : ℕ)
    → (join_interval auth_fail_interval : Option ℕ) → Gate
new_gate join_burst auth_fail_burst auth_fail_burst_per_addr join_interval auth_fail_interval =
    record {
      join_by_addr = new_ledger join_burst join_interval;
      join_by_lobby_name = new_ledger join_burst join_interval;
      auth_fail_by_addr = new_ledger auth_fail_burst_per_addr auth_fail_interval;
      auth_fail_by_lobby_name = new_ledger auth_fail_burst auth_fail_interval;
    }

-- `Ipv4Addr::is_loopback`: 127.0.0.0/8.
unfoldable pub is_loopback : ℕ → Bool
is_loopback addr = addr / 16777216 == 127

-- The inputs that the gate tells apart.
pub data GateInput : Type 0 where
  of_tick : (now : ℕ) → GateInput
  of_authenticate : PeerId → GateInput
  of_other : GateInput

unfoldable pub prune_all : ℕ → Gate → Gate
prune_all now g = record {
  join_by_addr = prune now g.join_by_addr;
  join_by_lobby_name = prune now g.join_by_lobby_name;
  auth_fail_by_addr = prune now g.auth_fail_by_addr;
  auth_fail_by_lobby_name = prune now g.auth_fail_by_lobby_name;
}

-- Whether an identity, if there is one to charge, is out of tokens.
unfoldable pub holds_back {ℓ} :
    {K : Type ℓ} → Discrete K → Option K → ℕ → Ledger K → Ledger K × Bool
holds_back d none now l = (l, false)
holds_back d (some key) now l = let r = has_token d key now l in (r.0, not r.1)

-- The tokens of a match that runs.
unfoldable pub is_running : Phase → Bool
is_running in_game = true
is_running post_game = true
is_running resuming = true
is_running _ = false

-- The address that is charged, if it is not loopback.
unfoldable pub addr_key : Session → Option ℕ
unfolding is_loopback
addr_key s = if is_loopback s.addr then none else some s.addr

unfoldable pub charge_one {ℓ} : {K : Type ℓ} → Discrete K → Option K → ℕ → Ledger K → Ledger K
charge_one d none now l = l
charge_one d (some key) now l = spend d key now l

module _ (lowercase : Text → Text) where
  unfoldable pub name_key : Session → Option Text
  name_key s = Option.map lowercase s.lobby_name

  -- The allowance of wrong passwords, then that of joins.
  unfoldable pub check_session : Phase → ℕ → Session → Gate → Gate × Decision
  check_session phase now s g =
      let a = holds_back ℕ_discrete (addr_key s) now g.auth_fail_by_addr in
      let n = holds_back list_discrete (name_key s) now g.auth_fail_by_lobby_name in
      let g : Gate = record g { auth_fail_by_addr = a.0; auth_fail_by_lobby_name = n.0 } in
      let j = holds_back ℕ_discrete (addr_key s) now g.join_by_addr in
      let k = holds_back list_discrete (name_key s) now g.join_by_lobby_name in
      let joined : Gate = record g { join_by_addr = j.0; join_by_lobby_name = k.0 } in
      if a.1 || n.1
      then (g, refuse banned "password failures")
      else if not (is_running phase)
      then (g, pass)
      else (joined, if j.1 || k.1 then refuse refused "join rate" else pass)

  unfoldable pub check :
      Phase → GateInput → List (PeerId × Session) → Option ℕ → Gate → Gate × Decision
  check phase (of_tick now) sessions clock g = (prune_all now g, pass)
  check phase of_other sessions clock g = (g, pass)
  check phase (of_authenticate peer) sessions clock g = elim clock [
    | none ↦ (g, pass)
    | some now ↦ elim (get ℕ_discrete peer sessions) [
      | none ↦ (g, pass)
      | some s ↦ if is_some s.admitted then (g, pass) else check_session phase now s g
    ]
  ]

  unfoldable pub charge_join : ℕ → Session → Gate → Gate
  charge_join now s g = record g {
    join_by_addr = charge_one ℕ_discrete (addr_key s) now g.join_by_addr;
    join_by_lobby_name = charge_one list_discrete (name_key s) now g.join_by_lobby_name;
  }

  unfoldable pub charge_failure : ℕ → Session → Gate → Gate
  charge_failure now s g = record g {
    auth_fail_by_addr = charge_one ℕ_discrete (addr_key s) now g.auth_fail_by_addr;
    auth_fail_by_lobby_name = charge_one list_discrete (name_key s) now g.auth_fail_by_lobby_name;
  }

  -- Whose join, or whose wrong password, an effect tells of.
  unfoldable pub observe_one : List (PeerId × Session) → ℕ → Effect → Gate → Gate
  observe_one sessions now (send_to peer (authenticate_result r)) g = elim r.code [
    | code_ok_rejoining ↦ elim (get ℕ_discrete peer sessions) [
      | none ↦ g
      | some s ↦ charge_join now s g
    ]
    | _ ↦ g
  ]
  observe_one sessions now (password_rejected peer) g = elim (get ℕ_discrete peer sessions) [
    | none ↦ g
    | some s ↦ charge_failure now s g
  ]
  observe_one sessions now _ g = g

  unfoldable pub observe_all : List Effect → List (PeerId × Session) → ℕ → Gate → Gate
  observe_all [] sessions now g = g
  observe_all (e ∷ es) sessions now g = observe_all es sessions now (observe_one sessions now e g)

  unfoldable pub observe : List Effect → List (PeerId × Session) → Option ℕ → Gate → Gate
  unfolding observe_all
  observe effects sessions clock g = elim clock [
    | none ↦ g
    | some now ↦ observe_all effects sessions now g
  ]
