-- ===== src/Server/Command.antt =====
-- `on_player_command` of src/relay/server_fsm.rs: which commands become part of the match.
use native.Mathlib.Decide.{ℕ_discrete}
use veredus.Base.{
  ℕ, ◌+◌, ◌-◌, ◌≡◌, refl, ap, ◌∙◌, ◌≤◌, ◌<◌, ◌⊎◌, inl, inr, Bool, true, false, ◌&&◌, ◌||◌, not,
  Option, [], ◌∷◌, ◌++◌, arith, Bool-cases, Option-cases, if◌then◌else◌, ltb, leb, length,
}
use veredus.Base.Maps.{get}
use veredus.Base.Result.{Result, ok, Result-cases}
use veredus.Fault.{PeerFault}
use veredus.MatchLog.{record_command}
use veredus.RateLimit.{Limits, Verdict}
use veredus.Script.{has_repeated_type}
use veredus.Server.{Context, FrozenSettings, command_delay, holds_ℕ, AiHost}
use veredus.Server.Cast.{
  push, send_all, broadcast_live, speaker, within_limit, is_ai_host, holds_slot,
}
use veredus.Server.Frame.{match-save_slots}
use veredus.Server.Save.{save_slots, slots_snapshot, same_snapshot}
use veredus.Server.Play.{
  handle_player_command, accept_command, charge_command, resign, probe_at, own_slot, is_ai_player,
  is_resign, may_command,
}
use veredus.Session.{is_in_game}
use veredus.Slots.{Slots}
use veredus.Text.{Guid}
use veredus.Turn.{PeerId}
use veredus.Wire.Match.{PlayerCommand}

-- What the right to command rests on: the slots and the AI host.
abbrev Rights : Type 0
Rights = Slots × Option AiHost

abbrev rights : Context → Rights
rights c = (c.slots, c.ai_host)

rights-eq :
    (peer player : ℕ) (uuid : Guid) (c d : Context)
    → rights d ≡ rights c
    → (may_command peer uuid player d ≡ may_command peer uuid player c)
      × ((own_slot uuid player d || is_ai_player peer player d)
          ≡ (own_slot uuid player c || is_ai_player peer player c))
unfolding may_command own_slot is_ai_player is_ai_host holds_slot
rights-eq peer player uuid c d e =
    let (slots, ai) : (d.slots ≡ c.slots) × (d.ai_host ≡ c.ai_host) =
      (ap (λ r. r.0) e, ap (λ r. r.1) e) in
    (rw (slots, ai) refl, rw (slots, ai) refl)

resigned-save_slots : (c : Context) → (save_slots c).resigned ≡ c.resigned
unfolding save_slots push
resigned-save_slots c = elim (Option-cases c.saved_slots) [
  | inl e ↦ rw (e, save_slots) refl
  | inr (p, e) ↦ elim (Bool-cases (same_snapshot (slots_snapshot p c) p)) [
    | inl q ↦ rw (e, save_slots, q) refl
    | inr q ↦ rw (e, save_slots, q) refl
  ]
]

log-resign : (msg : PlayerCommand) (c : Context) → (resign msg c).log ≡ c.log
unfolding resign probe_at
log-resign msg c =
    ap (λ m. m.1)
      (match-save_slots (record c {
        resigned =
            if holds_ℕ msg.player c.resigned then c.resigned else c.resigned ++ (msg.player ∷ []);
      }))

accept_command_cases :
    (cheats : Bool) (peer : PeerId) (uuid : Guid) (msg : PlayerCommand) (c : Context)
    → ((accept_command cheats peer uuid msg c).log ≡ c.log)
      ⊎ ((has_repeated_type msg.payload ≡ false)
          × ((cheats || may_command peer uuid msg.player c) ≡ true)
          × ((accept_command cheats peer uuid msg c).log ≡ record_command msg c.log))
unfolding accept_command broadcast_live send_all push
accept_command_cases cheats peer uuid msg c =
    elim (Bool-cases
      (has_repeated_type msg.payload || not (cheats || may_command peer uuid msg.player c))) [
        | inl e ↦ inl (rw (e, accept_command) refl)
        | inr e ↦
            elim (Bool-cases
              ((own_slot uuid msg.player c || is_ai_player peer msg.player c) && is_resign msg)) [
                | inl q ↦ inr (
                  ground arith,
                  ground arith,
                  rw (e, accept_command, q) (ap (record_command msg) (log-resign msg c)),
                )
                | inr q ↦ inr (ground arith, ground arith, rw (e, accept_command, q) refl)
              ]
      ]

-- `resign` notes the player that the command names, and nobody else.
resigned-resign :
    (msg : PlayerCommand) (c : Context)
    → ((resign msg c).resigned ≡ c.resigned)
      ⊎ ((resign msg c).resigned ≡ c.resigned ++ (msg.player ∷ []))
unfolding resign probe_at
resigned-resign msg c = elim (Bool-cases (holds_ℕ msg.player c.resigned)) [
  | inl e ↦ inl (rw e (resigned-save_slots _))
  | inr e ↦ inr (rw e (resigned-save_slots _))
]

accept_command-resigned :
    (cheats : Bool) (peer : PeerId) (uuid : Guid) (msg : PlayerCommand) (c : Context)
    → ((accept_command cheats peer uuid msg c).resigned ≡ c.resigned)
      ⊎ ((is_resign msg ≡ true)
          × ((own_slot uuid msg.player c || is_ai_player peer msg.player c) ≡ true)
          × ((accept_command cheats peer uuid msg c).resigned ≡ c.resigned ++ (msg.player ∷ [])))
unfolding accept_command broadcast_live send_all push
accept_command-resigned cheats peer uuid msg c =
    elim (Bool-cases
      (has_repeated_type msg.payload || not (cheats || may_command peer uuid msg.player c))) [
        | inl e ↦ inl (rw (e, accept_command) refl)
        | inr e ↦
            elim (Bool-cases
              ((own_slot uuid msg.player c || is_ai_player peer msg.player c) && is_resign msg)) [
                | inl q ↦ elim (resigned-resign msg c) [
                  | inl same ↦ inl (rw (e, accept_command, q) same)
                  | inr more ↦ inr (ground arith, ground arith, rw (e, accept_command, q) more)
                ]
                | inr q ↦ inl (rw (e, accept_command, q) refl)
              ]
      ]

-- The state once a limit is charged.
abbrev charged : PeerId → PlayerCommand → Context → Context × Result PeerFault Bool
charged peer msg c =
    if is_ai_host peer c
    then (c, ok true)
    else within_limit peer (charge_command msg.turn (length msg.payload) c) c

-- Neither the log, nor the rights, nor who gave up: a charge touches sessions only.
abbrev Kept : Context → Context → Type 0
Kept c d = (d.log ≡ c.log) × (rights d ≡ rights c) × (d.resigned ≡ c.resigned)

within_limit-Kept :
    (peer : PeerId) (charge : Limits → Option ℕ → ℕ → Limits × Verdict) (c : Context)
    → Kept c (within_limit peer charge c).0
unfolding within_limit
within_limit-Kept peer charge c = elim (Option-cases (get ℕ_discrete peer c.sessions)) [
  | inl e ↦ rw (e, within_limit) (refl, refl, refl)
  | inr (s, e) ↦ rw (e, within_limit) (refl, refl, refl)
]

charged-Kept : (peer : PeerId) (msg : PlayerCommand) (c : Context) → Kept c (charged peer msg c).0
charged-Kept peer msg c = elim (Bool-cases (is_ai_host peer c)) [
  | inl e ↦ rw e (refl, refl, refl)
  | inr e ↦ rw e (within_limit-Kept peer (charge_command msg.turn (length msg.payload) c) c)
]

-- How a command can end: it changes nothing, or it is accepted after the charge.
handle_player_command_ends :
    (settings : FrozenSettings) (peer : PeerId) (msg : PlayerCommand) (c : Context)
    → Kept c (handle_player_command settings peer msg c).0
      ⊎ ((uuid : Guid) × (speaker peer is_in_game c ≡ ok uuid)
          × (c.turns.ready_turn < msg.turn)
          × (msg.turn ≤ c.turns.ready_turn + command_delay)
          × ((handle_player_command settings peer msg c).0
              ≡ accept_command settings.cheats_enabled peer uuid msg (charged peer msg c).0))
unfolding handle_player_command
handle_player_command_ends settings peer msg c = elim (Result-cases (speaker peer is_in_game c)) [
  | inl (f, e) ↦ inl (rw (e, handle_player_command) (refl, refl, refl))
  | inr (uuid, e) ↦
      elim (Bool-cases
        (leb msg.turn c.turns.ready_turn || ltb command_delay (msg.turn - c.turns.ready_turn))) [
          | inl far ↦ inl (rw (e, handle_player_command, far) (refl, refl, refl))
          | inr near ↦ elim (Result-cases (charged peer msg c).1) [
            | inl (f, q) ↦ inl (rw (e, handle_player_command, near, q) (charged-Kept peer msg c))
            | inr (within, q) ↦ elim (Bool-cases within) [
              | inr w ↦ inl (rw (e, handle_player_command, near, q, w) (charged-Kept peer msg c))
              | inl w ↦ inr (
                uuid,
                e,
                ground arith,
                ground arith,
                rw (e, handle_player_command, near, q, w) refl,
              )
            ]
          ]
        ]
]

-- A command becomes part of the match only if its sender is in the game, its turn is one of the
-- `COMMAND_DELAY` after the ready turn, `has_repeated_type` finds no second type in its payload
-- (in one that does not parse it finds none), and, without cheats, it is for the sender's own slot
-- or comes from the AI host for one of its players. Whatever else is sent, the log of commands
-- stays as it is.
pub handle_player_command_cases :
    (settings : FrozenSettings) (peer : PeerId) (msg : PlayerCommand) (c : Context)
    → ((handle_player_command settings peer msg c).0.log ≡ c.log)
      ⊎ ((uuid : Guid) × (speaker peer is_in_game c ≡ ok uuid)
          × (c.turns.ready_turn < msg.turn)
          × (msg.turn ≤ c.turns.ready_turn + command_delay)
          × (has_repeated_type msg.payload ≡ false)
          × ((settings.cheats_enabled || may_command peer uuid msg.player c) ≡ true)
          × ((handle_player_command settings peer msg c).0.log ≡ record_command msg c.log))
handle_player_command_cases settings peer msg c =
    elim (handle_player_command_ends settings peer msg c) [
      | inl k ↦ inl k.0
      | inr (uuid, s, low, high, e) ↦
          let d = (charged peer msg c).0 in
          let (log, right, gone) = charged-Kept peer msg c in
          let may = (rights-eq peer msg.player uuid c d right).0 in
          elim (accept_command_cases settings.cheats_enabled peer uuid msg d) [
            | inl same ↦ inl (ap (λ x. x.log) e ∙ same ∙ log)
            | inr (once, allowed, recorded) ↦ inr (
              uuid,
              s,
              low,
              high,
              once,
              rw may at allowed,
              ap (λ x. x.log) e ∙ recorded ∙ ap (record_command msg) log,
            )
          ]
    ]

-- Nobody can give up for another player, cheats or not: the players who have resigned stay as they
-- are, or the player that the command names is the one who is added. Then it is a "resign" of a
-- sender in the game, and that player is the one of the sender's own slot or an AI player that
-- the sender, the AI host, plays.
pub handle_player_command-resigned :
    (settings : FrozenSettings) (peer : PeerId) (msg : PlayerCommand) (c : Context)
    → ((handle_player_command settings peer msg c).0.resigned ≡ c.resigned)
      ⊎ ((uuid : Guid) × (speaker peer is_in_game c ≡ ok uuid)
          × (is_resign msg ≡ true)
          × ((own_slot uuid msg.player c || is_ai_player peer msg.player c) ≡ true)
          × ((handle_player_command settings peer msg c).0.resigned
              ≡ c.resigned ++ (msg.player ∷ [])))
handle_player_command-resigned settings peer msg c =
    elim (handle_player_command_ends settings peer msg c) [
      | inl k ↦ inl k.2
      | inr (uuid, s, low, high, e) ↦
          let d = (charged peer msg c).0 in
          let (log, right, gone) = charged-Kept peer msg c in
          elim (accept_command-resigned settings.cheats_enabled peer uuid msg d) [
            | inl same ↦ inl (ap (λ x. x.resigned) e ∙ same ∙ gone)
            | inr (says, own, more) ↦ inr (
              uuid,
              s,
              says,
              rw (rights-eq peer msg.player uuid c d right).1 at own,
              ap (λ x. x.resigned) e ∙ more ∙ ap (◌++ (msg.player ∷ [])) gone,
            )
          ]
    ]
