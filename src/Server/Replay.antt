-- ===== src/Server/Replay.antt =====
-- What `on_loaded_game` of src/relay/server_fsm.rs sends a client that comes into a running match.
use native.Mathlib.Decide.{ℕ_discrete}
use mathlib.Core.List.{append-nil, append_assoc}
use veredus.Base.{
  ℕ, zero, suc, ◌+◌, ◌-◌, ◌≡◌, refl, sym, ap, ◌∙◌, ◌≤◌, ◌<◌, none, some, List, [], ◌∷◌, ◌++◌, map,
  arith, Bool-cases, Option-cases, if◌then◌else◌, leb, ◌==◌, inl, inr, select,
}
use veredus.Base.Maps.{get}
use veredus.Base.Words.{saturating_add_u32, u32_max}
use veredus.MatchLog.{MatchLog, commands_for, turn_length}
use veredus.ObserverFeed.{range, turns}
use veredus.Server.{
  Context, Effect, send_to, disconnects, save_turn, save_hash, saves_slots, password_rejected,
}
use veredus.Server.Cast.{push, send}
use veredus.Server.Rejoin.{send_commands, send_seal, replay_turns, enter_game}
use veredus.Turn.{PeerId}
use veredus.Wire.Match.{PlayerCommand}
use veredus.Wire.Message.{WireMessage, turn_sealed, player_command, loaded_game}

-- The messages that a peer is sent, in order.
unfoldable pub messages_to : PeerId → List Effect → List WireMessage
messages_to peer [] = []
messages_to peer (send_to p msg ∷ es) =
    if p == peer then msg ∷ messages_to peer es else messages_to peer es
messages_to peer (disconnects p why ∷ es) = messages_to peer es
messages_to peer (save_turn t len ks ∷ es) = messages_to peer es
messages_to peer (save_hash t h ∷ es) = messages_to peer es
messages_to peer (saves_slots s ∷ es) = messages_to peer es
messages_to peer (password_rejected p ∷ es) = messages_to peer es

pub messages_to-append :
    (peer : PeerId) (es fs : List Effect)
    → messages_to peer (es ++ fs) ≡ messages_to peer es ++ messages_to peer fs
unfolding messages_to
messages_to-append peer [] fs = refl
messages_to-append peer (send_to p msg ∷ es) fs = ground (arith, messages_to-append peer es fs)
messages_to-append peer (disconnects p why ∷ es) fs = messages_to-append peer es fs
messages_to-append peer (save_turn t len ks ∷ es) fs = messages_to-append peer es fs
messages_to-append peer (save_hash t h ∷ es) fs = messages_to-append peer es fs
messages_to-append peer (saves_slots s ∷ es) fs = messages_to-append peer es fs
messages_to-append peer (password_rejected p ∷ es) fs = messages_to-append peer es fs

-- The messages of a replay: of each turn its commands, and its seal if it is released.
unfoldable pub replay_messages : ℕ → ℕ → MatchLog → List ℕ → List WireMessage
replay_messages len last log [] = []
replay_messages len last log (t ∷ ts) =
    map player_command (commands_for t log)
    ++ ((if leb t last
          then turn_sealed (record {
            turn = t;
            turn_length = elim (turn_length t log) [ none ↦ len | some l ↦ l ];
          })
            ∷ []
          else [])
        ++ replay_messages len last log ts)

-- Everything that a joiner gets goes out through `send`.
abbrev sent : PeerId → List WireMessage → Context → Context
sent peer ms c = record c { effects = c.effects ++ map (send_to peer) ms }

map-append :
    (peer : PeerId) (ms ns : List WireMessage)
    → map (send_to peer) (ms ++ ns) ≡ map (send_to peer) ms ++ map (send_to peer) ns
map-append peer [] ns = refl
map-append peer (m ∷ ms) ns = ap (◌∷◌ (send_to peer m)) (map-append peer ms ns)

sent-append :
    (peer : PeerId) (ms ns : List WireMessage) (c : Context)
    → sent peer ns (sent peer ms c) ≡ sent peer (ms ++ ns) c
sent-append peer ms ns c =
    ap (λ es. record c { effects = es })
      (append_assoc c.effects (map (send_to peer) ms) (map (send_to peer) ns)
        ∙ ap (◌++◌ c.effects) (sym (map-append peer ms ns)))

send_commands-sent :
    (peer : PeerId) (ks : List PlayerCommand) (c : Context)
    → send_commands peer ks c ≡ sent peer (map player_command ks) c
unfolding send_commands send push
send_commands-sent peer [] c = ap (λ es. record c { effects = es }) (sym (append-nil c.effects))
send_commands-sent peer (k ∷ ks) c =
    send_commands-sent peer ks (sent peer (player_command k ∷ []) c)
    ∙ sent-append peer (player_command k ∷ []) (map player_command ks) c

replay_turns-sent :
    (peer : PeerId) (len last : ℕ) (ts : List ℕ) (c : Context)
    → replay_turns peer len last ts c ≡ sent peer (replay_messages len last c.log ts) c
unfolding replay_turns replay_messages send_seal send push
replay_turns-sent peer len last [] c =
    ap (λ es. record c { effects = es }) (sym (append-nil c.effects))
replay_turns-sent peer len last (t ∷ ts) c = elim (Bool-cases (leb t last)) [
  | inl e ↦
      rw (e, replay_turns, send_commands-sent peer (commands_for t c.log) c)
        (replay_turns-sent peer len last ts (sent peer (seal ∷ []) d)
          ∙ sent-append peer (seal ∷ []) rest d
          ∙ sent-append peer (map player_command (commands_for t c.log)) (seal ∷ rest) c)
  | inr e ↦
      rw (e, replay_turns, send_commands-sent peer (commands_for t c.log) c)
        (replay_turns-sent peer len last ts d
          ∙ sent-append peer (map player_command (commands_for t c.log)) rest c)
]
  where
    d : Context
    d = sent peer (map player_command (commands_for t c.log)) c

    seal : WireMessage
    seal =
        turn_sealed (record {
          turn = t;
          turn_length = elim (turn_length t c.log) [ none ↦ len | some l ↦ l ];
        })

    rest : List WireMessage
    rest = replay_messages len last c.log ts

unfoldable pub seals_in : List WireMessage → List ℕ
seals_in [] = []
seals_in (m ∷ ms) = elim m [ turn_sealed s ↦ s.turn ∷ seals_in ms | _ ↦ seals_in ms ]

unfoldable pub commands_in : List WireMessage → List PlayerCommand
commands_in [] = []
commands_in (m ∷ ms) = elim m [ player_command k ↦ k ∷ commands_in ms | _ ↦ commands_in ms ]

-- The recorded commands of some turns, in order.
unfoldable pub commands_of_turns : MatchLog → List ℕ → List PlayerCommand
commands_of_turns log [] = []
commands_of_turns log (t ∷ ts) = commands_for t log ++ commands_of_turns log ts

seals_in-commands :
    (ks : List PlayerCommand) (ms : List WireMessage)
    → seals_in (map player_command ks ++ ms) ≡ seals_in ms
unfolding seals_in
seals_in-commands [] ms = refl
seals_in-commands (k ∷ ks) ms = seals_in-commands ks ms

commands_in-commands :
    (ks : List PlayerCommand) (ms : List WireMessage)
    → commands_in (map player_command ks ++ ms) ≡ ks ++ commands_in ms
unfolding commands_in
commands_in-commands [] ms = refl
commands_in-commands (k ∷ ks) ms = ap (◌∷◌ k) (commands_in-commands ks ms)

seals_in-replay :
    (len last : ℕ) (log : MatchLog) (ts : List ℕ)
    → seals_in (replay_messages len last log ts) ≡ select (λ t. leb t last) ts
unfolding replay_messages seals_in
seals_in-replay len last log [] = refl
seals_in-replay len last log (t ∷ ts) = elim (Bool-cases (leb t last)) [
  | inl e ↦
      rw (e, replay_messages)
        (seals_in-commands (commands_for t log) _ ∙ ap (◌∷◌ t) (seals_in-replay len last log ts))
  | inr e ↦
      rw (e, replay_messages)
        (seals_in-commands (commands_for t log) _ ∙ seals_in-replay len last log ts)
]

commands_in-replay :
    (len last : ℕ) (log : MatchLog) (ts : List ℕ)
    → commands_in (replay_messages len last log ts) ≡ commands_of_turns log ts
unfolding replay_messages commands_in commands_of_turns
commands_in-replay len last log [] = refl
commands_in-replay len last log (t ∷ ts) = elim (Bool-cases (leb t last)) [
  | inl e ↦
      rw (e, replay_messages)
        (commands_in-commands (commands_for t log) _
          ∙ ap (◌++◌ (commands_for t log)) (commands_in-replay len last log ts))
  | inr e ↦
      rw (e, replay_messages)
        (commands_in-commands (commands_for t log) _
          ∙ ap (◌++◌ (commands_for t log)) (commands_in-replay len last log ts))
]

-- Of `n` turns from `a` on, those up to `last`.
select-turns :
    (last a n : ℕ)
    → last + 1 ≤ a + n
    → select (λ t. leb t last) (turns a n) ≡ turns a (last + 1 - a)
unfolding turns
select-turns last a zero h = let none_left : last + 1 - a ≡ 0 = omega arith in rw none_left refl
select-turns last a (suc n) h = elim (Bool-cases (leb a last)) [
  | inl e ↦
      let more : last + 1 - a ≡ suc (last + 1 - (a + 1)) = ground arith in
      rw (e, more) (ap (◌∷◌ a) (select-turns last (a + 1) n (omega arith)))
  | inr e ↦
      let none_left : last + 1 - a ≡ 0 = ground arith in
      let none_later : last + 1 - (a + 1) ≡ 0 = ground arith in
      rw (e, none_left) (rw none_later at (select-turns last (a + 1) n (omega arith)))
]

messages_to-sent :
    (peer : PeerId) (ms : List WireMessage) → messages_to peer (map (send_to peer) ms) ≡ ms
unfolding messages_to
messages_to-sent peer [] = refl
messages_to-sent peer (m ∷ ms) = ground (arith, messages_to-sent peer ms)

effects-enter_game : (peer : PeerId) (c : Context) → (enter_game peer c).effects ≡ c.effects
unfolding enter_game
effects-enter_game peer c = ground (arith, Option-cases (get ℕ_discrete peer c.sessions))

-- The messages that a joiner has been sent once it is in the game.
pub entered :
    (peer : PeerId) (len last : ℕ) (ts : List ℕ) (c : Context)
    → messages_to peer
        (enter_game peer (
          send peer
            (loaded_game (record { current_turn = last }))
            (replay_turns peer len last ts c))).effects
      ≡ messages_to peer c.effects
        ++ (replay_messages len last c.log ts
            ++ (loaded_game (record { current_turn = last }) ∷ []))
unfolding send push
entered peer len last ts c =
    let done : WireMessage = loaded_game (record { current_turn = last }) in
    let ms = replay_messages len last c.log ts in
    let told : send peer done (replay_turns peer len last ts c) ≡ sent peer (ms ++ (done ∷ [])) c =
      ap (sent peer (done ∷ [])) (replay_turns-sent peer len last ts c)
      ∙ sent-append peer ms (done ∷ []) c in
    ap (messages_to peer) (
      effects-enter_game peer (send peer done (replay_turns peer len last ts c))
      ∙ ap (λ d. d.effects) told)
    ∙ messages_to-append peer c.effects (map (send_to peer) (ms ++ (done ∷ [])))
    ∙ ap (◌++◌ (messages_to peer c.effects)) (messages_to-sent peer (ms ++ (done ∷ [])))

-- What a replay up to `last` gives a client whose snapshot is at `snapshot`.
pub record IsReplay (log : MatchLog) (snapshot last end : ℕ) (ms : List WireMessage) : Type 0 where
  pub seals : seals_in ms ≡ turns (snapshot + 1) (last - snapshot)
  pub commands : commands_in ms ≡ commands_of_turns log (range (snapshot + 1) end)

pub replay_messages-IsReplay :
    (len snapshot last end : ℕ) (log : MatchLog)
    → snapshot ≤ last
    → last ≤ end
    → last < u32_max
    → IsReplay log snapshot last end
        (replay_messages len last log (range (saturating_add_u32 snapshot 1) end))
replay_messages-IsReplay len snapshot last end log h k b =
    let first : saturating_add_u32 snapshot 1 ≡ snapshot + 1 = omega arith in
    let count : last + 1 - (snapshot + 1) ≡ last - snapshot = omega arith in
    rw first (record {
      seals =
          seals_in-replay len last log (range (snapshot + 1) end)
          ∙ select-turns last (snapshot + 1) (end + 1 - (snapshot + 1)) (omega arith)
          ∙ ap (turns (snapshot + 1)) count;
      commands = commands_in-replay len last log (range (snapshot + 1) end);
    })
