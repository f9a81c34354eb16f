-- ===== src/Server/Moves/Joins.antt =====
-- src/relay/server_fsm.rs: arrivals that are announced, and pauses, leave the match alone.
use veredus.Base.{
  ℕ, ◌≡◌, refl, ◌∙◌, Bool, true, false, ◌&&◌, ◌||◌, not, none, some, List, [], ◌∷◌, Bool-cases,
  Option-cases, inl, inr, if◌then◌else◌, ◌==◌,
}
use veredus.Base.Result.{Result-cases}
use veredus.Auth.{text}
use veredus.PauseBudget.{set_pausing, remaining_for}
use veredus.Server.{Context, Phase, AiHost}
use veredus.Server.Cast.{
  push, send, send_all, broadcast, broadcast_except, speaker, holds_slot, is_ai_host,
}
use veredus.Server.Frame.{match_of, match-server_chat}
use veredus.Server.Play.{
  in_resuming, ai_healing, server_pause, ai_host_healed, tell_pauses, handle_joined, refuse_pause,
  relay_pause, announce_pause, name_of_client, start_pause, end_pause, handle_player_pause,
}
use veredus.Session.{is_in_game}
use veredus.Text.{Guid, Text}
use veredus.Turn.{PeerId, is_delayed}
use veredus.Wire.Lobby.{PlayerPause}
use veredus.Wire.Message.{joined}

match-server_pause : (pause : Bool) (c : Context) → match_of (server_pause pause c) ≡ match_of c
unfolding server_pause broadcast send_all push
match-server_pause pause c =
    elim (Bool-cases (not pause && (c.pause_budget.auto_paused || ai_healing c))) [
      | inl e ↦ rw (e, server_pause) refl
      | inr e ↦ rw (e, server_pause) refl
    ]

-- The state once the AI host is back.
abbrev healed : AiHost → Context → Context
healed host c = record c { ai_host = some (record host { healing = false; last_pull = none }) }

match-ai_host_healed :
    (phase : Phase) (c : Context) → match_of (ai_host_healed phase c) ≡ match_of c
unfolding ai_host_healed
match-ai_host_healed phase c = elim (Option-cases c.ai_host) [
  | inl e ↦ rw (e, ai_host_healed) refl
  | inr (host, e) ↦ elim (Bool-cases host.healing) [
    | inr h ↦ rw (e, ai_host_healed, h) refl
    | inl h ↦ elim (Bool-cases (in_resuming phase)) [
      | inl q ↦
          rw (e, ai_host_healed, h, q)
            (match-server_chat none (text "AI players restored.") (healed host c))
      | inr q ↦
          rw (e, ai_host_healed, h, q)
            (match-server_chat none (text "AI players restored.")
                (server_pause false (healed host c))
              ∙ match-server_pause false (healed host c))
    ]
  ]
]

match-tell_pauses :
    (peer : PeerId) (us : List Guid) (c : Context) → match_of (tell_pauses peer us c) ≡ match_of c
unfolding tell_pauses send push
match-tell_pauses peer [] c = refl
match-tell_pauses peer (u ∷ us) c = match-tell_pauses peer us _

pub match-if :
    (test : Bool) (b c d : Context)
    → match_of b ≡ match_of d
    → match_of c ≡ match_of d
    → match_of (if test then b else c) ≡ match_of d
match-if true b c d p q = p
match-if false b c d p q = q

pub match-handle_joined :
    (phase : Phase) (peer : PeerId) (c : Context)
    → match_of (handle_joined phase peer c).0 ≡ match_of c
unfolding handle_joined broadcast send_all push send
match-handle_joined phase peer c = elim (Result-cases (speaker peer is_in_game c)) [
  | inl (f, e) ↦ rw (e, handle_joined) refl
  | inr (uuid, e) ↦
      let c1 : Context = broadcast (joined (record { guid = uuid })) is_in_game c in
      let c2 : Context = if is_ai_host peer c1 then ai_host_healed phase c1 else c1 in
      let m2 : match_of c2 ≡ match_of c =
        match-if (is_ai_host peer c1) (ai_host_healed phase c1) c1 c (match-ai_host_healed phase c1)
          refl in
      let c3 : Context = tell_pauses peer c2.pause_budget.pausing c2 in
      let m3 : match_of c3 ≡ match_of c = match-tell_pauses peer c2.pause_budget.pausing c2 ∙ m2 in
      rw (e, handle_joined) (match-if _ _ c3 c m3 m3)
]

match-refuse_pause :
    (peer : PeerId) (uuid : Guid) (line : Text) (c : Context)
    → match_of (refuse_pause peer uuid line c) ≡ match_of c
unfolding refuse_pause send push
match-refuse_pause peer uuid line c = match-server_chat (some peer) line c

match-relay_pause :
    (peer : PeerId) (uuid : Guid) (pause : Bool) (c : Context)
    → match_of (relay_pause peer uuid pause c) ≡ match_of c
unfolding relay_pause broadcast_except send_all push
match-relay_pause peer uuid pause c = refl

match-announce_pause :
    (uuid : Guid) (left : ℕ) (c : Context) → match_of (announce_pause uuid left c) ≡ match_of c
unfolding announce_pause
match-announce_pause uuid left c = elim (Option-cases (name_of_client uuid c)) [
  | inl e ↦ rw (e, announce_pause) refl
  | inr (name, e) ↦ rw (e, announce_pause) (match-server_chat none _ c)
]

-- The state with a new pause budget.
abbrev paused : Guid → Bool → Context → Context
paused uuid pause c = record c { pause_budget = (set_pausing uuid pause c.pause_budget).0 }

match-start_pause :
    (peer : PeerId) (uuid : Guid) (c : Context) → match_of (start_pause peer uuid c) ≡ match_of c
unfolding start_pause
match-start_pause peer uuid c =
    let left = remaining_for uuid c.pause_budget in
    match-if (not (holds_slot uuid c)) _ _ c (match-refuse_pause peer uuid _ c) (
      match-if (left == 0) _ _ c (match-refuse_pause peer uuid _ c) (
        match-if (set_pausing uuid true c.pause_budget).1 _ (paused uuid true c) c
          (match-announce_pause uuid left (relay_pause peer uuid true (paused uuid true c))
            ∙ match-relay_pause peer uuid true (paused uuid true c))
          refl))

match-end_pause :
    (peer : PeerId) (uuid : Guid) (c : Context) → match_of (end_pause peer uuid c) ≡ match_of c
unfolding end_pause
match-end_pause peer uuid c =
    match-if (set_pausing uuid false c.pause_budget).1 _ (paused uuid false c) c
      (match-relay_pause peer uuid false (paused uuid false c)) refl

pub match-handle_player_pause :
    (peer : PeerId) (msg : PlayerPause) (c : Context)
    → match_of (handle_player_pause peer msg c).0 ≡ match_of c
unfolding handle_player_pause
match-handle_player_pause peer msg c = elim (Result-cases (speaker peer is_in_game c)) [
  | inl (f, e) ↦ rw (e, handle_player_pause) refl
  | inr (uuid, e) ↦
      rw (e, handle_player_pause)
        (match-if (is_delayed peer c.turns) c _ c refl
          (match-if msg.pause _ _ c (match-start_pause peer uuid c) (match-end_pause peer uuid c)))
]
