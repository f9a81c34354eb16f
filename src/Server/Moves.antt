-- ===== src/Server/Moves.antt =====
-- What every input of src/relay/server_fsm.rs does to the match: it goes on as the turn manager
-- allows, and nobody seals, or sends a command for, a turn that is not near.
pub mod Messages
pub mod Commands
pub mod Joins
pub mod Rejoins
pub mod Departs
use native.Mathlib.Decide.{ℕ_discrete}
use veredus.Base.{ℕ, ◌+◌, ◌≡◌, refl, ap, ◌∙◌, ◌≤◌, ◌<◌, List, All, arith, All-mono}
use veredus.Base.Maps.{get}
use veredus.Base.Runs.{Run, idle, after, Run-trans}
use veredus.Base.Words.{u32_max}
use veredus.Server.{Context, command_delay}
use veredus.Server.Frame.{match_of}
use veredus.Turn.{TurnManager, max_sealed}
use veredus.Turn.History.{Reach}
use veredus.Wire.Match.{PlayerCommand}

-- The turn manager, the recorded commands, and the last turn of the delayed feed.
abbrev pub View : Type 0
View = TurnManager × List (ℕ × List PlayerCommand) × ℕ

abbrev pub view : Context → View
view c = (c.turns, c.log.commands, c.feed.head)

-- No client has sealed, and no command is recorded for, a turn more than `command_delay` past the
-- ready turn; the delayed feed is not ahead of it.
pub record IsPaced (v : View) : Type 0 where
  pub ready_u32 : v.0.ready_turn ≤ u32_max
  pub sealed : max_sealed v.0.clients ≤ v.0.ready_turn + command_delay
  pub sealed_u32 : max_sealed v.0.clients ≤ u32_max
  pub logged : All (λ e. e.0 ≤ v.0.ready_turn + command_delay) v.1
  pub behind : v.2 ≤ v.0.ready_turn

-- From one view to a later one: through the methods of the turn manager, the ready turn not going
-- back, the commands of released turns as they were.
pub record Moves (v w : View) : Type 0 where
  pub reaches : Reach v.0 w.0
  pub ready : v.0.ready_turn ≤ w.0.ready_turn
  pub kept : (t : ℕ) → t ≤ v.0.ready_turn → get ℕ_discrete t w.1 ≡ get ℕ_discrete t v.1
  pub paced : IsPaced w

pub Moves-refl : (v : View) → IsPaced v → Moves v v
Moves-refl v p = record { reaches = idle; ready = omega arith; kept = λ t h. refl; paced = p }

pub Moves-trans : {u v w : View} → Moves u v → Moves v w → Moves u w
Moves-trans {u} {v} {w} a b = record {
  reaches = Run-trans a.reaches b.reaches;
  ready = ready_trans a.ready b.ready;
  kept = λ t h. b.kept t (ready_trans h a.ready) ∙ a.kept t h;
  paced = b.paced;
}
  where
    ready_trans : {x y z : ℕ} → x ≤ y → y ≤ z → x ≤ z
    ready_trans h k = omega arith

pub Moves-eq : (v w : View) → w ≡ v → IsPaced v → Moves v w
Moves-eq v w e p = rw e (Moves-refl v p)

pub Moves-same :
    (c d : Context) → match_of d ≡ match_of c → IsPaced (view c) → Moves (view c) (view d)
Moves-same c d e p = Moves-eq (view c) (view d) (ap (λ m. (m.0, m.1.commands, m.2.head)) e) p
