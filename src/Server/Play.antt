-- ===== src/Server/Play.antt =====
-- src/relay/server_fsm.rs, `MatchPhase`: the messages of the clients in a running match. A handler
-- gives the state it leaves, and the fault if it answers with one.
use veredus.Auth.{text}
use veredus.Base.{
  ℕ, ◌-◌, ◌/◌, min, Bool, true, false, ◌&&◌, ◌||◌, not, Option, none, some, List, [], ◌∷◌, ◌++◌,
  length, ltb, leb, ◌==◌, if◌then◌else◌, find,
}
use veredus.Base.Result.{ok, err}
use veredus.Base.Words.{saturating_add_u32}
use veredus.Fault.{PeerFault, turn_seal_ahead, state_hash_ahead}
use veredus.MatchLog.{record_command}
use veredus.ObserverFeed.{queue_flare}
use veredus.PauseBudget.{set_pausing, remaining_for}
use veredus.RateLimit.{Limits, Verdict, take, charge}
use veredus.Script.{extract_command_type, has_repeated_type}
use veredus.Server.{
  Context, FrozenSettings, Phase, resuming, command_delay, player_of_slot, holds_ℕ,
}
use veredus.Server.Cast.{
  send, broadcast, broadcast_except, broadcast_live, broadcast_delayed, speaker, within_limit,
  is_ai_host, server_chat, holds_slot,
}
use veredus.Server.Feed.{release_turns, report_all}
use veredus.Server.Save.{save_slots, save_settled_hashes, has_uuid}
use veredus.Session.{is_in_game, name_in}
use veredus.Slots.{slot_of}
use veredus.Text.{Text, Guid, same_text}
use veredus.Text.Decimal.{decimal}
use veredus.Turn.{PeerId, is_delayed, on_turn_sealed}
use veredus.Turn.Hashes.{on_state_hash}
use veredus.Wire.Lobby.{PlayerPause, Flare}
use veredus.Wire.Match.{PlayerCommand, TurnSealed, StateHash}
use veredus.Wire.Message.{joined, player_pause, player_command, flare}

abbrev pub Outcome : Type 0
Outcome = Context × Option PeerFault

unfoldable pub in_resuming : Phase → Bool
in_resuming resuming = true
in_resuming _ = false

-- `Server::release_turns`: a held match releases nothing.
unfoldable pub release_in : Phase → ℕ → Context → Context
unfolding in_resuming
release_in phase turn_length_ms c = if in_resuming phase then c else release_turns turn_length_ms c

unfoldable pub handle_turn_sealed : Phase → FrozenSettings → PeerId → TurnSealed → Context → Outcome
handle_turn_sealed phase settings peer msg c =
    if ltb (saturating_add_u32 c.turns.ready_turn command_delay) msg.turn
    then (c, some (turn_seal_ahead msg.turn c.turns.ready_turn))
    else elim (on_turn_sealed peer msg.turn c.turns) [
      | err fault ↦ (c, some fault)
      | ok turns ↦ (release_in phase settings.turn_length_ms (record c { turns = turns }), none)
    ]

unfoldable pub handle_state_hash : PeerId → StateHash → Context → Outcome
handle_state_hash peer msg c =
    if ltb c.turns.ready_turn msg.turn
    then (c, some (state_hash_ahead msg.turn c.turns.ready_turn))
    else elim (on_state_hash peer msg.turn msg.hash c.turns) [
      | err fault ↦ (c, some fault)
      | ok r ↦ (save_settled_hashes (report_all r.1 (record c { turns = r.0 })), none)
    ]

-- The limit on flares is charged as `Limits::flare`.
unfoldable pub charge_flare : Limits → Option ℕ → ℕ → Limits × Verdict
charge_flare l now k = let r = take now k l.flare in (record l { flare = r.0 }, r.1)

unfoldable pub raise_flare : PeerId → Flare → Context → Context
raise_flare peer f c =
    let c = broadcast_live (flare f) c in
    let turn = if is_delayed peer c.turns then c.feed.head else c.turns.ready_turn in
    if leb turn c.feed.head
    then broadcast_delayed (flare f) c
    else record c { feed = queue_flare turn f c.feed }

unfoldable pub handle_flare : PeerId → Flare → Context → Outcome
handle_flare peer msg c = elim (speaker peer is_in_game c) [
  | err fault ↦ (c, some fault)
  | ok uuid ↦
      let r = within_limit peer charge_flare c in
      elim r.1 [
        | err fault ↦ (r.0, some fault)
        | ok within ↦
            (if within then raise_flare peer (record msg { guid = uuid }) r.0 else r.0, none)
      ]
]

unfoldable pub charge_command : ℕ → ℕ → Context → Limits → Option ℕ → ℕ → Limits × Verdict
charge_command turn bytes c l now k =
    let r =
      charge turn bytes c.turns.ready_turn c.config.commands_per_turn
        c.config.command_bytes_per_turn k l.commands in
    (record l { commands = r.0 }, r.1)

-- Whether the AI host sent a command of one of its players.
unfoldable pub is_ai_player : PeerId → ℕ → Context → Bool
is_ai_player peer player c =
    is_ai_host peer c && elim c.ai_host [ none ↦ false | some h ↦ holds_ℕ player h.players ]

-- Whether the sender's slot, which may be none, is the player that the command claims.
unfoldable pub own_slot : Guid → ℕ → Context → Bool
own_slot uuid player c = elim (slot_of uuid c.slots) [
  | none ↦ false
  | some slot ↦ player_of_slot slot == player
]

-- The test without cheats.
unfoldable pub may_command : PeerId → Guid → ℕ → Context → Bool
may_command peer uuid player c =
    (holds_slot uuid c && own_slot uuid player c) || is_ai_player peer player c

-- `CheckpointChain::probe_at`.
unfoldable pub probe_at : ℕ → Context → Context
probe_at turn c = record c {
  probe = elim c.probe [ none ↦ some turn | some t ↦ some (min t turn) ];
}

unfoldable pub is_resign : PlayerCommand → Bool
unfolding text
is_resign msg = elim (extract_command_type msg.payload) [
  | none ↦ false
  | some kind ↦ same_text kind (text "resign")
]

unfoldable pub resign : PlayerCommand → Context → Context
resign msg c = probe_at msg.turn (
    save_slots (record c {
      resigned =
          if holds_ℕ msg.player c.resigned then c.resigned else c.resigned ++ (msg.player ∷ []);
    }))

-- What follows once the limits allow the command.
unfoldable pub accept_command : Bool → PeerId → Guid → PlayerCommand → Context → Context
accept_command cheats_enabled peer uuid msg c =
    let resigns = (own_slot uuid msg.player c || is_ai_player peer msg.player c) && is_resign msg in
    let after = if resigns then resign msg c else c in
    let sent = broadcast_live (player_command msg) after in
    if has_repeated_type msg.payload || not (cheats_enabled || may_command peer uuid msg.player c)
    then c
    else record sent { log = record_command msg sent.log }

unfoldable pub handle_player_command : FrozenSettings → PeerId → PlayerCommand → Context → Outcome
handle_player_command settings peer msg c = elim (speaker peer is_in_game c) [
  | err fault ↦ (c, some fault)
  | ok uuid ↦
      let ready_turn = c.turns.ready_turn in
      if leb msg.turn ready_turn || ltb command_delay (msg.turn - ready_turn)
      then (c, none)
      else (let r =
            if is_ai_host peer c
            then (c, ok true)
            else within_limit peer (charge_command msg.turn (length msg.payload) c) c in
          elim r.1 [
            | err fault ↦ (r.0, some fault)
            | ok within ↦ (
              if within then accept_command settings.cheats_enabled peer uuid msg r.0 else r.0,
              none,
            )
          ])
]

unfoldable pub ai_healing : Context → Bool
ai_healing c = elim c.ai_host [ none ↦ false | some h ↦ h.healing ]

unfoldable pub server_pause : Bool → Context → Context
server_pause pause c =
    if not pause && (c.pause_budget.auto_paused || ai_healing c)
    then c
    else broadcast (player_pause (record { guid = c.server_uuid; pause = pause })) is_in_game c

unfoldable pub ai_host_healed : Phase → Context → Context
ai_host_healed phase c = elim c.ai_host [
  | none ↦ c
  | some host ↦
      let healed = record c {
        ai_host = some (record host { healing = false; last_pull = none });
      } in
      if host.healing
      then server_chat none (text "AI players restored.")
          (if in_resuming phase then healed else server_pause false healed)
      else c
]

-- A pause that the joiner missed, for each player who holds one.
unfoldable pub tell_pauses : PeerId → List Guid → Context → Context
tell_pauses peer [] c = c
tell_pauses peer (u ∷ us) c =
    tell_pauses peer us (send peer (player_pause (record { guid = u; pause = true })) c)

unfoldable pub handle_joined : Phase → PeerId → Context → Outcome
handle_joined phase peer c = elim (speaker peer is_in_game c) [
  | err fault ↦ (c, some fault)
  | ok uuid ↦
      let c = broadcast (joined (record { guid = uuid })) is_in_game c in
      let c = if is_ai_host peer c then ai_host_healed phase c else c in
      let c = tell_pauses peer c.pause_budget.pausing c in
      (
        if c.pause_budget.auto_paused || ai_healing c || in_resuming phase
            then send peer (player_pause (record { guid = c.server_uuid; pause = true })) c
            else c,
        none,
      )
]

-- The lift of a client's own overlay, after a line that tells it why.
unfoldable pub refuse_pause : PeerId → Guid → Text → Context → Context
refuse_pause peer uuid line c =
    send peer (player_pause (record { guid = uuid; pause = false }))
      (server_chat (some peer) line c)

unfoldable pub relay_pause : PeerId → Guid → Bool → Context → Context
relay_pause peer uuid pause c =
    broadcast_except peer (player_pause (record { guid = uuid; pause = pause })) is_in_game c

-- The method `name_of`.
unfoldable pub name_of_client : Guid → Context → Option Text
name_of_client uuid c = elim (find (λ e. has_uuid uuid e.1) c.sessions) [
  | none ↦ none
  | some e ↦ name_in e.1
]

unfoldable pub announce_pause : Guid → ℕ → Context → Context
unfolding text
announce_pause uuid left c = elim (name_of_client uuid c) [
  | none ↦ c
  | some name ↦
      server_chat none
        (name
          ++ (text " paused. " ++ (decimal (left / 1000000000) ++ text "s of pause budget left.")))
        c
]

unfoldable pub start_pause : PeerId → Guid → Context → Context
unfolding text
start_pause peer uuid c =
    let left = remaining_for uuid c.pause_budget in
    let r = set_pausing uuid true c.pause_budget in
    let paused : Context = record c { pause_budget = r.0 } in
    if not (holds_slot uuid c)
    then refuse_pause peer uuid (text "Only players can pause the game.") c
    else if left == 0
    then refuse_pause peer uuid (text "You are out of pause budget.") c
    else if r.1
    then announce_pause uuid left (relay_pause peer uuid true paused)
    else paused

unfoldable pub end_pause : PeerId → Guid → Context → Context
end_pause peer uuid c =
    let r = set_pausing uuid false c.pause_budget in
    let lifted : Context = record c { pause_budget = r.0 } in
    if r.1 then relay_pause peer uuid false lifted else lifted

unfoldable pub handle_player_pause : PeerId → PlayerPause → Context → Outcome
handle_player_pause peer msg c = elim (speaker peer is_in_game c) [
  | err fault ↦ (c, some fault)
  | ok uuid ↦ (
    if is_delayed peer c.turns
        then c
        else if msg.pause
        then start_pause peer uuid c
        else end_pause peer uuid c,
    none,
  )
]
