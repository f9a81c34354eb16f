-- ===== src/Ingress/Examples.antt =====
-- The theorems on src/relay/ingress.rs at work: a small ledger, and the AI host at the gate.
use native.Mathlib.Decide.{ℕ_discrete}
use veredus.Base.{ℕ, ◌≡◌, refl, inr, true, false, none, some, List, [], ◌∷◌, arith}
use veredus.Base.Maps.{get}
use veredus.Ingress.Gate.{new_gate, check, of_authenticate, pass, is_loopback}
use veredus.Ingress.Ledger.{new_ledger}
use veredus.Ingress.Ledger.Equal.{Op, asks, spends, prunes, answers, prune_unseen}
use veredus.Ingress.Refusal.{check_passes}
use veredus.RateLimit.{new_bucket}
use veredus.Server.{in_game}
use veredus.Session.{Session}
use veredus.Text.{Text}
use veredus.Turn.{PeerId}

-- Three attempts, a pause long enough for one token and then for both, and one more attempt.
abbrev attempts : List (Op ℕ)
attempts =
    spends 7 0
    ∷ spends 7 1
    ∷ asks 7 2
    ∷ prunes 12000000
    ∷ asks 7 13000000
    ∷ prunes 40000000
    ∷ spends 7 41000000
    ∷ asks 7 41000001
    ∷ []

prune_unseen_example :
    answers ℕ_discrete true attempts (new_ledger 2 (some 10000000))
    ≡ answers ℕ_discrete false attempts (new_ledger 2 (some 10000000))
prune_unseen_example =
    prune_unseen ℕ_discrete 2 (some 10000000) attempts (omega arith) (omega arith)

abbrev ai_host : Session
ai_host = record {
  addr = 2130706433;
  uuid = some (5 ∷ []);
  lobby_name = none;
  admitted = none;
  tried_sources = [];
  snapshot_turns = none;
  pending_since = none;
  limits = record { chat = new_bucket 0 0; flare = new_bucket 0 0; commands = [] };
}

abbrev sessions : List (PeerId × Session)
sessions = (4, ai_host) ∷ []

abbrev lowercase : Text → Text
lowercase name = name

ai_host_here : get ℕ_discrete 4 sessions ≡ some ai_host
unfolding get ℕ_discrete
ai_host_here = refl

ai_host_loopback : is_loopback ai_host.addr ≡ true
unfolding is_loopback
ai_host_loopback = refl

check_passes_example :
    (check lowercase in_game
      (of_authenticate 4)
      sessions
      (some 9)
      (new_gate 0 0 0 (some 1) (some 1))).1
    ≡ pass
check_passes_example =
    check_passes lowercase in_game 4 ai_host sessions (some 9) (new_gate 0 0 0 (some 1) (some 1))
      ai_host_here (inr (ai_host_loopback, refl))
