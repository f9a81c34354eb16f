-- ===== src/Server/Moves/Rejoins.antt =====
-- src/relay/server_fsm.rs: what a client that comes into a running match does to it.
use native.Mathlib.Decide.{ℕ_discrete}
use veredus.Base.{
  ℕ, ◌-◌, ◌≡◌, refl, ap, ◌∙◌, ◌≤◌, Bool, true, false, ◌&&◌, none, List, [], ◌∷◌, arith, Bool-cases,
  Option-cases, inl, inr, if◌then◌else◌, leb,
}
use veredus.Base.Maps.{get, put}
use veredus.Base.Runs.{idle, after}
use veredus.Base.Words.{add_u32, saturating_add_u32}
use veredus.MatchLog.{commands_for}
use veredus.ObserverFeed.{forget, range}
use veredus.Server.{Context, FrozenSettings, command_delay}
use veredus.Server.Cast.{push, send, is_ai_host, is_observer, is_delayed_observer}
use veredus.Server.Frame.{match_of}
use veredus.Server.Moves.{View, view, IsPaced, Moves, Moves-refl, Moves-trans, Moves-same}
use veredus.Server.Moves.Joins.{match-if}
use veredus.Server.Rejoin.{
  send_commands, send_seal, replay_turns, enter_game, resume_delayed, resume_live, replay_end,
  resume_client, handle_loaded_game,
}
use veredus.Session.{Session, is_syncing, client_id_of}
use veredus.Text.{Guid}
use veredus.Turn.{PeerId, register, mark_ai_host}
use veredus.Turn.Hashes.Lanes.{max_sealed-put, get-max_sealed}
use veredus.Turn.History.{Reach, registers, marks}
use veredus.Wire.Message.{loaded_game}
use veredus.Wire.Match.{LoadedGame, PlayerCommand}

match-send_commands :
    (peer : PeerId) (ks : List PlayerCommand) (c : Context)
    → match_of (send_commands peer ks c) ≡ match_of c
unfolding send_commands send push
match-send_commands peer [] c = refl
match-send_commands peer (k ∷ ks) c = match-send_commands peer ks _

match-replay_turns :
    (peer : PeerId) (len last : ℕ) (ts : List ℕ) (c : Context)
    → match_of (replay_turns peer len last ts c) ≡ match_of c
unfolding replay_turns send_seal send push
match-replay_turns peer len last [] c = refl
match-replay_turns peer len last (t ∷ ts) c =
    let sent = send_commands peer (commands_for t c.log) c in
    match-replay_turns peer len last ts _
    ∙ match-if (leb t last) (send_seal peer len t sent) sent sent refl refl
    ∙ match-send_commands peer (commands_for t c.log) c

match-enter_game : (peer : PeerId) (c : Context) → match_of (enter_game peer c) ≡ match_of c
unfolding enter_game
match-enter_game peer c = ground (arith, Option-cases (get ℕ_discrete peer c.sessions))

-- A client that starts at a turn that is not ahead may seal the next `command_delay`.
Moves-register :
    (v : View) (peer client_id turn : ℕ) (observer delayed : Bool)
    → IsPaced v
    → turn ≤ v.0.ready_turn
    → Moves v (
      register peer client_id (add_u32 turn (command_delay - 1)) turn observer delayed v.0,
      v.1,
      v.2,
    )
unfolding register
Moves-register v peer client_id turn observer delayed p h =
    let put_le =
      max_sealed-put peer
        (record {
          client_id = client_id;
          ready_turn = add_u32 turn (command_delay - 1);
          simulated_turn = turn;
          observer = observer;
          delayed = delayed;
          ai_host = false;
        })
        v.0.clients in
    let a = p.sealed in
    let b = p.sealed_u32 in
    record {
      reaches =
          after
            (registers v.0 peer client_id (add_u32 turn (command_delay - 1)) turn observer delayed)
            idle;
      ready = omega arith;
      kept = λ t k. refl;
      paced = record {
        ready_u32 = p.ready_u32;
        sealed = omega arith;
        sealed_u32 = omega arith;
        logged = p.logged;
        behind = p.behind;
      };
    }

Moves-mark_ai_host :
    (v : View) (peer : PeerId) → IsPaced v → Moves v (mark_ai_host peer v.0, v.1, v.2)
unfolding mark_ai_host
Moves-mark_ai_host v peer p = elim (Option-cases (get ℕ_discrete peer v.0.clients)) [
  | inl e ↦ rw (e, mark_ai_host) (Moves-refl v p)
  | inr (c, e) ↦
      let put_le = max_sealed-put peer (record c { ai_host = true }) v.0.clients in
      let old = get-max_sealed peer c v.0.clients e in
      let a = p.sealed in
      let b = p.sealed_u32 in
      let step : Reach v.0 (mark_ai_host peer v.0) = after (marks v.0 peer) idle in
      rw (e, mark_ai_host)
        (record {
          reaches = rw (e, mark_ai_host) at step;
          ready = omega arith;
          kept = λ t k. refl;
          paced = record {
            ready_u32 = p.ready_u32;
            sealed = omega arith;
            sealed_u32 = omega arith;
            logged = p.logged;
            behind = p.behind;
          };
        })
]

-- The state once a joiner has its replay.
abbrev replayed : PeerId → ℕ → ℕ → List ℕ → Context → Context
replayed peer len last turns c =
    enter_game peer (
      send peer (loaded_game (record { current_turn = last })) (replay_turns peer len last turns c))

match-replayed :
    (peer : PeerId) (len last : ℕ) (turns : List ℕ) (c : Context)
    → match_of (replayed peer len last turns c) ≡ match_of c
unfolding send push
match-replayed peer len last turns c =
    match-enter_game peer (
      send peer (loaded_game (record { current_turn = last })) (replay_turns peer len last turns c))
    ∙ match-replay_turns peer len last turns c

Moves-resume_delayed :
    (peer : PeerId) (client_id snapshot len : ℕ) (c : Context)
    → IsPaced (view c)
    → Moves (view c) (view (resume_delayed peer client_id snapshot len c))
unfolding resume_delayed forget
Moves-resume_delayed peer client_id snapshot len c p =
    let turns = range (saturating_add_u32 snapshot 1) c.feed.head in
    let d : Context = replayed peer len c.feed.head turns c in
    let same : match_of d ≡ match_of c = match-replayed peer len c.feed.head turns c in
    let moved : Moves (view c) (view d) = Moves-same c d same p in
    let ready : d.turns.ready_turn ≡ c.turns.ready_turn = ap (λ m. m.0.ready_turn) same in
    let low : c.feed.head ≤ d.turns.ready_turn = rw ready p.behind in
    Moves-trans moved (Moves-register (view d) peer client_id c.feed.head true true moved.paced low)

Moves-resume_live :
    (peer : PeerId) (uuid : Guid) (client_id snapshot len : ℕ) (c : Context)
    → IsPaced (view c)
    → Moves (view c) (view (resume_live peer uuid client_id snapshot len c))
unfolding resume_live
Moves-resume_live peer uuid client_id snapshot len c p =
    let turns = range (saturating_add_u32 snapshot 1) (replay_end c) in
    let d : Context = replayed peer len c.turns.ready_turn turns c in
    let same : match_of d ≡ match_of c = match-replayed peer len c.turns.ready_turn turns c in
    let moved : Moves (view c) (view d) = Moves-same c d same p in
    let ready : d.turns.ready_turn ≡ c.turns.ready_turn = ap (λ m. m.0.ready_turn) same in
    let low : c.turns.ready_turn ≤ d.turns.ready_turn = omega arith in
    let entered = Moves-trans moved (
      Moves-register (view d) peer client_id c.turns.ready_turn (is_observer uuid d) false
        moved.paced low) in
    marked (is_ai_host peer d) d entered
  where
    marked :
        (ai : Bool) (d : Context)
        → Moves (view c) (
          register peer client_id
              (add_u32 c.turns.ready_turn (command_delay - 1))
              c.turns.ready_turn
              (is_observer uuid d)
              false
              d.turns,
          d.log.commands,
          d.feed.head,
        )
        → Moves (view c) (
          (let turns =
                register peer client_id
                  (add_u32 c.turns.ready_turn (command_delay - 1))
                  c.turns.ready_turn
                  (is_observer uuid d)
                  false
                  d.turns in
              if ai then mark_ai_host peer turns else turns),
          d.log.commands,
          d.feed.head,
        )
    marked true d m = Moves-trans m (Moves-mark_ai_host _ peer m.paced)
    marked false d m = m

Moves-resume_client :
    (peer : PeerId) (s : Session) (snapshot len : ℕ) (c : Context)
    → IsPaced (view c)
    → Moves (view c) (view (resume_client peer s snapshot len c).0)
unfolding resume_client
Moves-resume_client peer s snapshot len c p = elim (Option-cases s.uuid) [
  | inl e ↦ rw (e, resume_client) (Moves-refl (view c) p)
  | inr (uuid, e) ↦ elim (Option-cases (client_id_of s)) [
    | inl q ↦ rw (e, resume_client, q) (Moves-refl (view c) p)
    | inr (id, q) ↦ elim (Bool-cases (is_delayed_observer uuid c)) [
      | inl o ↦ rw (e, resume_client, q, o) (Moves-resume_delayed peer id snapshot len c p)
      | inr o ↦ rw (e, resume_client, q, o) (Moves-resume_live peer uuid id snapshot len c p)
    ]
  ]
]

-- The state in which the session's range of turns is used up.
abbrev taken : PeerId → Session → Context → Context
taken peer s c = record c {
  sessions = put ℕ_discrete peer (record s { snapshot_turns = none }) c.sessions;
}

pub Moves-handle_loaded_game :
    (settings : FrozenSettings) (peer : PeerId) (msg : LoadedGame) (c : Context)
    → IsPaced (view c)
    → Moves (view c) (view (handle_loaded_game settings peer msg c).0)
unfolding handle_loaded_game
Moves-handle_loaded_game settings peer msg c p =
    elim (Option-cases (get ℕ_discrete peer c.sessions)) [
      | inl e ↦ rw (e, handle_loaded_game) (Moves-refl (view c) p)
      | inr (s, e) ↦ elim (Bool-cases (is_syncing s)) [
        | inr n ↦ rw (e, handle_loaded_game, n) (Moves-refl (view c) p)
        | inl n ↦ elim (Option-cases s.snapshot_turns) [
          | inl q ↦ rw (e, handle_loaded_game, n, q) (Moves-refl (view c) p)
          | inr ((lo, hi), q) ↦
              elim (Bool-cases (leb lo msg.current_turn && leb msg.current_turn hi)) [
                | inl b ↦
                    rw (e, handle_loaded_game, n, q, b)
                      (Moves-resume_client peer s msg.current_turn settings.turn_length_ms
                        (taken peer s c) p)
                | inr b ↦ rw (e, handle_loaded_game, n, q, b) (Moves-refl (view c) p)
              ]
        ]
      ]
    ]
