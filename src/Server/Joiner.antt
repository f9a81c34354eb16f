-- ===== src/Server/Joiner.antt =====
-- `on_loaded_game` of src/relay/server_fsm.rs: a joiner's replay is whole, and a delayed one shows
-- nothing that is not due.
use native.Mathlib.Decide.{ℕ_discrete}
use veredus.Base.{ℕ, ◌≡◌, refl, ◌≤◌, ◌<◌, none, List, [], ◌∷◌, ◌++◌, arith, Option-cases, inl, inr}
use veredus.Base.Maps.{get}
use veredus.Base.Words.{saturating_add_u32, u32_max}
use veredus.MatchLog.{MatchLog, commands_for}
use veredus.MatchLog.Replay.{last_command_turn_le}
use veredus.ObserverFeed.{range}
use veredus.Server.{Context}
use veredus.Server.Rejoin.{resume_live, resume_delayed, replay_end}
use veredus.Server.Replay.{
  messages_to, replay_messages, entered, IsReplay, replay_messages-IsReplay,
}
use veredus.Text.{Guid}
use veredus.Turn.{PeerId}
use veredus.Wire.Message.{WireMessage, loaded_game}

-- The messages to a joiner end with LOADED_GAME of its turn; those before are a replay.
abbrev pub Joins : PeerId → MatchLog → ℕ → ℕ → ℕ → Context → Context → Type 0
Joins peer log snapshot last end c d =
    (ms : List WireMessage) × (messages_to peer d.effects
      ≡ messages_to peer c.effects ++ (ms ++ (loaded_game (record { current_turn = last }) ∷ [])))
    × IsReplay log snapshot last end ms

ready-replay_end : (c : Context) → c.turns.ready_turn < u32_max → c.turns.ready_turn ≤ replay_end c
unfolding replay_end
ready-replay_end c b = omega arith

none-after : (c : Context) (t : ℕ) → replay_end c < t → get ℕ_discrete t c.log.commands ≡ none
unfolding replay_end
none-after c t h = elim (Option-cases (get ℕ_discrete t c.log.commands)) [
  | inl e ↦ e
  | inr (cs, e) ↦
      let (last, found, le) = last_command_turn_le t c.log cs e in
      absurd (ground (arith, h, found, le))
]

-- A client that loads the state of a turn which is not ahead of the match is sent, in order, the
-- commands of every turn from the next one to the last with a command, and the seals of the turns up
-- to the ready turn, one after the other; then it is told the ready turn. No command is left out:
-- no turn after those has one. The ready turn is below the greatest `u32`.
pub resume_live-replays :
    (peer : PeerId) (uuid : Guid) (client_id snapshot len : ℕ) (c : Context)
    → snapshot ≤ c.turns.ready_turn
    → c.turns.ready_turn < u32_max
    → Joins peer c.log snapshot c.turns.ready_turn
        (replay_end c)
        c
        (resume_live peer uuid client_id snapshot len c)
      × ((t : ℕ) → replay_end c < t → commands_for t c.log ≡ [])
unfolding resume_live commands_for
resume_live-replays peer uuid client_id snapshot len c h b =
    let ready = c.turns.ready_turn in
    let ts = range (saturating_add_u32 snapshot 1) (replay_end c) in
    (
      (
        replay_messages len ready c.log ts,
        entered peer len ready ts c,
        replay_messages-IsReplay len snapshot ready (replay_end c) c.log h (ready-replay_end c b) b,
      ),
      λ t k. rw (none-after c t k, commands_for) refl,
    )

-- An observer on a delay is sent the turns after its snapshot up to the head of the delayed feed,
-- commands and seals, and nothing of a later turn.
pub resume_delayed-replays :
    (peer : PeerId) (client_id snapshot len : ℕ) (c : Context)
    → snapshot ≤ c.feed.head
    → c.feed.head < u32_max
    → Joins peer c.log snapshot c.feed.head c.feed.head c
        (resume_delayed peer client_id snapshot len c)
unfolding resume_delayed
resume_delayed-replays peer client_id snapshot len c h b =
    let ts = range (saturating_add_u32 snapshot 1) c.feed.head in
    (
      replay_messages len c.feed.head c.log ts,
      entered peer len c.feed.head ts c,
      replay_messages-IsReplay len snapshot c.feed.head c.feed.head c.log h (omega arith) b,
    )
