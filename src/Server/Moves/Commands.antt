-- ===== src/Server/Moves/Commands.antt =====
-- src/relay/server_fsm.rs: what flares and commands do to the match.
use native.Mathlib.Decide.{ℕ_discrete}
use veredus.Base.{
  ℕ, ◌+◌, ◌-◌, ◌≡◌, refl, ap, ◌∙◌, ◌≤◌, ◌<◌, Bool, true, false, ◌&&◌, ◌||◌, not, Option, [], ◌∷◌,
  ◌++◌, All, arith, Bool-cases, Option-cases, inl, inr, if◌then◌else◌, ltb, leb, length,
}
use veredus.Base.Maps.{get, get-put, All-put}
use veredus.Base.Result.{Result, ok, Result-cases}
use veredus.Base.Runs.{idle}
use veredus.Fault.{PeerFault}
use veredus.MatchLog.{record_command, commands_for}
use veredus.Script.{has_repeated_type}
use veredus.Server.{holds_ℕ, Context, FrozenSettings, command_delay}
use veredus.Server.Cast.{
  push, send_all, broadcast_live, broadcast_delayed, is_ai_host, speaker, within_limit,
}
use veredus.RateLimit.{Limits, Verdict}
use veredus.Text.{Guid}
use veredus.Session.{is_in_game}
use veredus.ObserverFeed.{queue_flare}
use veredus.Wire.Lobby.{Flare}
use veredus.Server.Frame.{match_of, match-save_slots}
use veredus.Server.Moves.{view, IsPaced, Moves, Moves-refl, Moves-trans, Moves-same}
use veredus.Server.Play.{
  handle_flare, charge_flare, raise_flare, handle_player_command, accept_command, resign, probe_at,
  charge_command, own_slot, is_ai_player, is_resign, may_command,
}
use veredus.Turn.{is_delayed, PeerId}
use veredus.Wire.Match.{PlayerCommand}

-- A handler that leaves the match alone, whatever else it does.
view-within_limit :
    (peer : PeerId) (charge : Limits → Option ℕ → ℕ → Limits × Verdict) (c : Context)
    → match_of (within_limit peer charge c).0 ≡ match_of c
unfolding within_limit
view-within_limit peer charge c = ground (arith, Option-cases (get ℕ_discrete peer c.sessions))

Moves-raise_flare :
    (peer : PeerId) (f : Flare) (c : Context)
    → IsPaced (view c)
    → Moves (view c) (view (raise_flare peer f c))
unfolding raise_flare broadcast_live broadcast_delayed send_all push queue_flare
Moves-raise_flare peer f c p =
    elim (Bool-cases
      (leb (if is_delayed peer c.turns then c.feed.head else c.turns.ready_turn) c.feed.head)) [
        | inl e ↦ rw (e, raise_flare) (Moves-refl (view c) p)
        | inr e ↦ rw (e, raise_flare) (Moves-refl (view c) p)
      ]

pub Moves-handle_flare :
    (peer : PeerId) (msg : Flare) (c : Context)
    → IsPaced (view c)
    → Moves (view c) (view (handle_flare peer msg c).0)
unfolding handle_flare
Moves-handle_flare peer msg c p = elim (Result-cases (speaker peer is_in_game c)) [
  | inl (f, e) ↦ rw (e, handle_flare) (Moves-refl (view c) p)
  | inr (uuid, e) ↦
      let r = within_limit peer charge_flare c in
      let charged : Moves (view c) (view r.0) =
        Moves-same c r.0 (view-within_limit peer charge_flare c) p in
      elim (Result-cases r.1) [
        | inl (f, q) ↦ rw (e, handle_flare, q) charged
        | inr (within, q) ↦ elim (Bool-cases within) [
          | inl w ↦
              rw (e, handle_flare, q, w)
                (Moves-trans charged
                  (Moves-raise_flare peer (record msg { guid = uuid }) r.0 charged.paced))
          | inr w ↦ rw (e, handle_flare, q, w) charged
        ]
      ]
]

match-resign : (msg : PlayerCommand) (c : Context) → match_of (resign msg c) ≡ match_of c
unfolding resign probe_at
match-resign msg c = match-save_slots (record c {
  resigned = if holds_ℕ msg.player c.resigned then c.resigned else c.resigned ++ (msg.player ∷ []);
})

-- A command for a turn near enough is recorded.
Moves-command :
    (c d : Context) (msg : PlayerCommand)
    → IsPaced (view c)
    → c.turns.ready_turn < msg.turn
    → msg.turn ≤ c.turns.ready_turn + command_delay
    → match_of d ≡ match_of c
    → Moves (view c) (d.turns, (record_command msg d.log).commands, d.feed.head)
unfolding record_command
Moves-command c d msg p low high e =
    let (turns, log, feed) : (d.turns ≡ c.turns) × (d.log ≡ c.log) × (d.feed ≡ c.feed) =
      (ap (λ m. m.0) e, ap (λ m. m.1) e, ap (λ m. m.2) e) in
    rw (turns, log, feed)
      (record {
        reaches = idle;
        ready = omega arith;
        kept = earlier;
        paced = record {
          ready_u32 = p.ready_u32;
          sealed = p.sealed;
          sealed_u32 = p.sealed_u32;
          logged = recorded;
          behind = p.behind;
        };
      })
  where
    earlier :
        (t : ℕ)
        → t ≤ c.turns.ready_turn
        → get ℕ_discrete t (record_command msg c.log).commands ≡ get ℕ_discrete t c.log.commands
    earlier t h =
        get-put ℕ_discrete msg.turn t (commands_for msg.turn c.log ++ (msg ∷ [])) c.log.commands
        ∙ ground arith

    recorded :
        All (λ e. e.0 ≤ c.turns.ready_turn + command_delay) (record_command msg c.log).commands
    recorded =
        All-put ℕ_discrete (λ e. e.0 ≤ c.turns.ready_turn + command_delay) msg.turn
          (commands_for msg.turn c.log ++ (msg ∷ [])) c.log.commands high p.logged

Moves-accept_command :
    (cheats : Bool) (peer : PeerId) (uuid : Guid) (msg : PlayerCommand) (c : Context)
    → IsPaced (view c)
    → c.turns.ready_turn < msg.turn
    → msg.turn ≤ c.turns.ready_turn + command_delay
    → Moves (view c) (view (accept_command cheats peer uuid msg c))
unfolding accept_command broadcast_live send_all push
Moves-accept_command cheats peer uuid msg c p low high =
    elim (Bool-cases
      (has_repeated_type msg.payload || not (cheats || may_command peer uuid msg.player c))) [
        | inl e ↦ rw (e, accept_command) (Moves-refl (view c) p)
        | inr e ↦
            elim (Bool-cases
              ((own_slot uuid msg.player c || is_ai_player peer msg.player c) && is_resign msg)) [
                | inl q ↦
                    rw (e, accept_command, q)
                      (Moves-command c (resign msg c) msg p low high (match-resign msg c))
                | inr q ↦ rw (e, accept_command, q) (Moves-command c c msg p low high refl)
              ]
      ]

match-charged :
    (peer : PeerId) (charge : Limits → Option ℕ → ℕ → Limits × Verdict) (ai : Bool) (c : Context)
    → match_of (if ai then (c, ok true) else within_limit peer charge c).0 ≡ match_of c
match-charged peer charge true c = refl
match-charged peer charge false c = view-within_limit peer charge c

pub Moves-handle_player_command :
    (settings : FrozenSettings) (peer : PeerId) (msg : PlayerCommand) (c : Context)
    → IsPaced (view c)
    → Moves (view c) (view (handle_player_command settings peer msg c).0)
unfolding handle_player_command
Moves-handle_player_command settings peer msg c p =
    elim (Result-cases (speaker peer is_in_game c)) [
      | inl (f, e) ↦ rw (e, handle_player_command) (Moves-refl (view c) p)
      | inr (uuid, e) ↦
          elim (Bool-cases (
            leb msg.turn c.turns.ready_turn || ltb command_delay (msg.turn - c.turns.ready_turn))) [
              | inl far ↦ rw (e, handle_player_command, far) (Moves-refl (view c) p)
              | inr near ↦
                  let charge = charge_command msg.turn (length msg.payload) c in
                  let r : Context × Result PeerFault Bool =
                    if is_ai_host peer c then (c, ok true) else within_limit peer charge c in
                  let same = match-charged peer charge (is_ai_host peer c) c in
                  let charged : Moves (view c) (view r.0) = Moves-same c r.0 same p in
                  let ready : r.0.turns.ready_turn ≡ c.turns.ready_turn =
                    ap (λ m. m.0.ready_turn) same in
                  elim (Result-cases r.1) [
                    | inl (f, q) ↦ rw (e, handle_player_command, near, q) charged
                    | inr (within, q) ↦ elim (Bool-cases within) [
                      | inl w ↦
                          rw (e, handle_player_command, near, q, w)
                            (Moves-trans charged (
                              Moves-accept_command settings.cheats_enabled peer uuid msg r.0
                                charged.paced (ground arith) (ground arith)))
                      | inr w ↦ rw (e, handle_player_command, near, q, w) charged
                    ]
                  ]
            ]
    ]
