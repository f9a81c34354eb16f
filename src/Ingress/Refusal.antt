-- ===== src/Ingress/Refusal.antt =====
-- src/relay/ingress.rs, `Gate::check`: whom the gate can refuse.
use native.Mathlib.Decide.{ℕ_discrete}
use veredus.Base.{ℕ, ◌≡◌, refl, ◌⊎◌, inl, inr, true, Option, none, some, List, is_some, Bool-cases}
use veredus.Base.Maps.{get}
use veredus.Ingress.Gate.{
  pass, Gate, of_authenticate, check, check_session, is_loopback, is_running, addr_key, name_key,
  holds_back,
}
use veredus.Server.{Phase}
use veredus.Session.{Session}
use veredus.Text.{Text}
use veredus.Turn.{PeerId}

-- The AI host, which dials in from this machine and has no lobby account, is never refused, however
-- many wrong passwords or joins were charged, and neither is a client that is admitted already.
pub check_passes :
    (lowercase : Text → Text) (phase : Phase) (peer : PeerId) (s : Session)
    (sessions : List (PeerId × Session)) (clock : Option ℕ) (g : Gate)
    → get ℕ_discrete peer sessions ≡ some s
    → (is_some s.admitted ≡ true) ⊎ ((is_loopback s.addr ≡ true) × (s.lobby_name ≡ none))
    → (check lowercase phase (of_authenticate peer) sessions clock g).1 ≡ pass
unfolding check check_session addr_key name_key holds_back
check_passes lowercase phase peer s sessions none g e h = refl
check_passes lowercase phase peer s sessions (some now) g e (inl admitted) =
    rw (e, check, admitted) refl
check_passes lowercase phase peer s sessions (some now) g e (inr (here, no_name)) =
    elim (Bool-cases (is_some s.admitted)) [
      | inl admitted ↦ rw (e, check, admitted) refl
      | inr new ↦ elim (Bool-cases (is_running phase)) [
        | inl r ↦ rw (e, check, new, check_session, here, no_name, r) refl
        | inr r ↦ rw (e, check, new, check_session, here, no_name, r) refl
      ]
    ]
