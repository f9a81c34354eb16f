-- ===== src/Server/Moves/Departs.antt =====
-- src/relay/server_fsm.rs: what a delayed join, and a client that leaves, do to the match.
use veredus.Base.{ℕ, ◌≡◌, refl, ap, ◌≤◌, max, arith}
use veredus.Base.Runs.{idle, after}
use veredus.ObserverFeed as Feed
use veredus.ObserverFeed.{hold_join}
use veredus.Server.{Context, Phase}
use veredus.Server.Advance.{match-advance_feed, head-fed_le, fed}
use veredus.Server.Depart.{hold_snapshot, leave_match, settle_departure}
use veredus.Server.Feed.{advance_feed, report_all}
use veredus.Server.Frame.{match_of, match-report_all}
use veredus.Server.Moves.{View, view, IsPaced, Moves, Moves-trans, Moves-same}
use veredus.Server.Moves.Messages.{Moves-release_in, Moves-save_settled_hashes}
use veredus.Server.Play.{release_in}
use veredus.Text.{Bytes}
use veredus.Turn as Turns
use veredus.Turn.{PeerId, TurnManager, max_sealed}
use veredus.Turn.Hashes.{recheck_pending}
use veredus.Turn.Hashes.Lanes.{lanes-recheck_pending, max_sealed-erase}
use veredus.Turn.History.{Step, forgets, rechecks}
use veredus.Wire.Match.{Join}

-- One call of the turn manager that leaves the ready turn, and raises no seal.
Moves-call :
    (v : View) (m : TurnManager)
    → IsPaced v
    → Step v.0 m
    → m.ready_turn ≡ v.0.ready_turn
    → max_sealed m.clients ≤ max_sealed v.0.clients
    → Moves v (m, v.1, v.2)
Moves-call v m p s ready clients =
    let a = p.sealed in
    let b = p.sealed_u32 in
    record {
      reaches = after s idle;
      ready = omega arith;
      kept = λ t h. refl;
      paced = record {
        ready_u32 = rw ready p.ready_u32;
        sealed = omega arith;
        sealed_u32 = omega arith;
        logged = rw ready p.logged;
        behind = rw ready p.behind;
      };
    }

-- A feed whose head stays, or goes up to the ready turn at most.
Moves-head :
    (v : View) (head : ℕ) → IsPaced v → head ≤ max v.2 v.0.ready_turn → Moves v (v.0, v.1, head)
Moves-head v head p h =
    let b = p.behind in
    record {
      reaches = idle;
      ready = omega arith;
      kept = λ t h. refl;
      paced = record {
        ready_u32 = p.ready_u32;
        sealed = p.sealed;
        sealed_u32 = p.sealed_u32;
        logged = p.logged;
        behind = omega arith;
      };
    }

pub Moves-hold_snapshot :
    (joiner : PeerId) (bound : ℕ) (join : Join) (snapshot : Bytes) (c : Context)
    → IsPaced (view c)
    → Moves (view c) (view (hold_snapshot joiner bound join snapshot c))
unfolding hold_snapshot hold_join
Moves-hold_snapshot joiner bound join snapshot c p =
    let d : Context = record c { feed = hold_join joiner bound join snapshot c.feed } in
    let same : match_of (advance_feed d) ≡ (d.turns, d.log, fed d) = match-advance_feed d in
    let seen : view (advance_feed d) ≡ (c.turns, c.log.commands, (fed d).head) =
      ap (λ m. (m.0, m.1.commands, m.2.head)) same in
    rw seen (Moves-head (view c) (fed d).head p (head-fed_le d))

pub Moves-leave_match :
    (peer : PeerId) (c : Context) → IsPaced (view c) → Moves (view c) (view (leave_match peer c))
unfolding leave_match Turns.forget Feed.forget
Moves-leave_match peer c p =
    Moves-call (view c) (Turns.forget peer c.turns) p (forgets c.turns peer) refl
      (max_sealed-erase peer c.turns.clients)

pub Moves-settle_departure :
    (phase : Phase) (c : Context)
    → IsPaced (view c)
    → Moves (view c) (view (settle_departure phase c))
unfolding settle_departure
Moves-settle_departure phase c p =
    let d = release_in phase c.config.turn_length_ms c in
    let r = recheck_pending d.turns in
    let checked : Context = record d { turns = r.0 } in
    let told = report_all r.1 checked in
    let released = Moves-release_in phase c.config.turn_length_ms c p in
    let same = lanes-recheck_pending d.turns in
    let clients = ap (λ l. max_sealed l.1) same in
    let compared : Moves (view d) (view checked) =
      Moves-call (view d) r.0 released.paced (rechecks d.turns) (ap (λ l. l.0) same)
        (omega arith) in
    let reported = Moves-same checked told (match-report_all r.1 checked) compared.paced in
    Moves-trans released
      (Moves-trans compared (Moves-trans reported (Moves-save_settled_hashes told reported.paced)))
