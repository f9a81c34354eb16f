-- ===== src/Server/Seals.antt =====
-- `release_turns` of src/relay/server_fsm.rs: who gets the seals of the turns that are released, and
-- what is saved of them.
use native.Mathlib.Decide.{ℕ_discrete}
use mathlib.Core.List.{append-nil, append_assoc}
use veredus.Base.{
  ℕ, ◌≡◌, ◌≢◌, refl, sym, ap, ◌∙◌, Bool, true, false, ◌&&◌, not, some, List, [], ◌∷◌, ◌++◌, map,
  arith, Bool-cases, if◌then◌else◌, select, All, inl, inr, ◌==◌,
}
use veredus.Base.Maps.{get}
use veredus.MatchLog.{MatchLog, commands_for, record_turn_length}
use veredus.Server.{
  Context, Effect, send_to, save_turn, disconnects, save_hash, saves_slots, password_rejected,
}
use veredus.Server.Cast.{push, send_all, broadcast_live, live_peers, peers_where}
use veredus.Server.Feed.{seal_turn, seal_turns}
use veredus.Server.Replay.{messages_to, messages_to-append}
use veredus.Session.{Session, is_in_game}
use veredus.Turn.{PeerId, is_delayed}
use veredus.Wire.Match.{PlayerCommand}
use veredus.Wire.Message.{WireMessage, turn_sealed}

-- Each key of the map once.
abbrev pub AreDistinct {ℓ} : {V : Type ℓ} → List (PeerId × V) → Type 0
AreDistinct [] = Unit {0}
AreDistinct ((p, v) ∷ m) = All (λ e. e.0 ≢ p) m × AreDistinct m

-- Sending to a list of peers.
messages_to-others :
    (p : PeerId) (msg : WireMessage) (f : PeerId → Session → Bool) (m : List (PeerId × Session))
    → All (λ e. e.0 ≢ p) m
    → messages_to p (map (λ q. send_to q msg) (map (λ e. e.0) (select (λ e. f e.0 e.1) m))) ≡ []
unfolding messages_to
messages_to-others p msg f [] h = refl
messages_to-others p msg f ((q, s) ∷ m) h = ground (arith, messages_to-others p msg f m h.1)

messages_to-where :
    (p : PeerId) (s : Session) (msg : WireMessage) (f : PeerId → Session → Bool)
    (m : List (PeerId × Session))
    → AreDistinct m
    → get ℕ_discrete p m ≡ some s
    → f p s ≡ true
    → messages_to p (map (λ q. send_to q msg) (map (λ e. e.0) (select (λ e. f e.0 e.1) m)))
      ≡ msg ∷ []
unfolding messages_to get
messages_to-where p s msg f [] d e h = absurd cc
messages_to-where p s msg f ((q, t) ∷ m) d e h = elim (Bool-cases (q == p)) [
  | inl here ↦
      let same : q ≡ p = ground arith in
      let it : t ≡ s = ground (arith, e, same) in
      let others = messages_to-others p msg f m (rw same at d.0) in
      rw (same, it) (ground (arith, h, others))
  | inr there ↦
      let later : get ℕ_discrete p m ≡ some s = ground (arith, e, there) in
      ground (arith, there, messages_to-where p s msg f m d.1 later h)
]

abbrev pub seal_of : ℕ → ℕ → WireMessage
seal_of len t = turn_sealed (record { turn = t; turn_length = len })

-- A client that sees the match live.
pub record IsLive (p : PeerId) (c : Context) : Type 0 where
  pub distinct : AreDistinct c.sessions
  pub session : Session
  pub found : get ℕ_discrete p c.sessions ≡ some session
  pub in_game : is_in_game session ≡ true
  pub not_delayed : is_delayed p c.turns ≡ false

-- The save of one turn, if the match is saved.
abbrev saving : ℕ → ℕ → Context → List Effect
saving len t c = if c.config.saving then save_turn t len (commands_for t c.log) ∷ [] else []

live-seal_turn :
    (len t : ℕ) (p : PeerId) (c : Context)
    → IsLive p c
    → messages_to p (seal_turn len t c).effects ≡ messages_to p c.effects ++ (seal_of len t ∷ [])
unfolding messages_to seal_turn push broadcast_live send_all live_peers peers_where
    record_turn_length commands_for
live-seal_turn len t p c v =
    let seen =
      messages_to-where p v.session (seal_of len t)
        (λ q s. is_in_game s && not (is_delayed q c.turns)) c.sessions v.distinct v.found
        (ground (arith, v.in_game, v.not_delayed)) in
    messages_to-append p (c.effects ++ saving len t c) _
    ∙ ap (◌++◌ (messages_to p (c.effects ++ saving len t c))) seen
    ∙ ap (λ ms. ms ++ (seal_of len t ∷ []))
        (messages_to-append p c.effects (saving len t c)
          ∙ ap (◌++◌ (messages_to p c.effects)) (unseen c.config.saving _)
          ∙ append-nil (messages_to p c.effects))
  where
    unseen :
        (b : Bool) (ks : List PlayerCommand)
        → messages_to p (if b then save_turn t len ks ∷ [] else []) ≡ []
    unseen true ks = refl
    unseen false ks = refl

IsLive-seal_turn :
    (len t : ℕ) (p : PeerId) (c : Context) → IsLive p c → IsLive p (seal_turn len t c)
unfolding seal_turn push broadcast_live send_all
IsLive-seal_turn len t p c v = record {
  distinct = v.distinct;
  session = v.session;
  found = v.found;
  in_game = v.in_game;
  not_delayed = v.not_delayed;
}

-- Every client that sees the match live gets, of the turns that are released, one seal each, in
-- their order, and nothing else: it is in the game and not on the delayed feed.
pub seal_turns-live :
    (len : ℕ) (ts : List ℕ) (p : PeerId) (c : Context)
    → IsLive p c
    → messages_to p (seal_turns len ts c).effects ≡ messages_to p c.effects ++ map (seal_of len) ts
unfolding seal_turns
seal_turns-live len [] p c v = sym (append-nil (messages_to p c.effects))
seal_turns-live len (t ∷ ts) p c v =
    seal_turns-live len ts p (seal_turn len t c) (IsLive-seal_turn len t p c v)
    ∙ ap (λ ms. ms ++ map (seal_of len) ts) (live-seal_turn len t p c v)
    ∙ append_assoc (messages_to p c.effects) (seal_of len t ∷ []) (map (seal_of len) ts)

-- The turns that are saved, with their commands.
unfoldable pub saves_in : List Effect → List (ℕ × ℕ × List PlayerCommand)
saves_in [] = []
saves_in (save_turn t len ks ∷ es) = (t, len, ks) ∷ saves_in es
saves_in (send_to p msg ∷ es) = saves_in es
saves_in (disconnects p why ∷ es) = saves_in es
saves_in (save_hash t h ∷ es) = saves_in es
saves_in (saves_slots s ∷ es) = saves_in es
saves_in (password_rejected p ∷ es) = saves_in es

saves_in-append : (es fs : List Effect) → saves_in (es ++ fs) ≡ saves_in es ++ saves_in fs
unfolding saves_in
saves_in-append [] fs = refl
saves_in-append (save_turn t len ks ∷ es) fs = ap (◌∷◌ (t, len, ks)) (saves_in-append es fs)
saves_in-append (send_to p msg ∷ es) fs = saves_in-append es fs
saves_in-append (disconnects p why ∷ es) fs = saves_in-append es fs
saves_in-append (save_hash t h ∷ es) fs = saves_in-append es fs
saves_in-append (saves_slots s ∷ es) fs = saves_in-append es fs
saves_in-append (password_rejected p ∷ es) fs = saves_in-append es fs

saves_in-sends :
    (msg : WireMessage) (ps : List PeerId) → saves_in (map (λ q. send_to q msg) ps) ≡ []
unfolding saves_in
saves_in-sends msg [] = refl
saves_in-sends msg (p ∷ ps) = saves_in-sends msg ps

saves_in-seal_turn :
    (len t : ℕ) (c : Context)
    → c.config.saving ≡ true
    → saves_in (seal_turn len t c).effects
      ≡ saves_in c.effects ++ ((t, len, commands_for t c.log) ∷ [])
unfolding saves_in seal_turn push broadcast_live send_all live_peers peers_where record_turn_length
    commands_for
saves_in-seal_turn len t c h =
    saves_in-append (c.effects ++ saving len t c) _
    ∙ ap (◌++◌ (saves_in (c.effects ++ saving len t c)))
        (saves_in-sends (seal_of len t) (live_peers c))
    ∙ append-nil (saves_in (c.effects ++ saving len t c))
    ∙ saves_in-append c.effects (saving len t c)
    ∙ ap
        (λ b.
          saves_in c.effects
          ++ saves_in (if b then save_turn t len (commands_for t c.log) ∷ [] else []))
        h

config-seal_turn : (len t : ℕ) (c : Context) → (seal_turn len t c).config ≡ c.config
unfolding seal_turn push broadcast_live send_all
config-seal_turn len t c = refl

-- A turn as it is saved.
abbrev pub saved : ℕ → MatchLog → ℕ → ℕ × ℕ × List PlayerCommand
saved len log t = (t, len, commands_for t log)

saved-seal_turn : (len t : ℕ) (c : Context) → saved len (seal_turn len t c).log ≡ saved len c.log
unfolding seal_turn push broadcast_live send_all record_turn_length commands_for
saved-seal_turn len t c = refl

-- A match that is saved saves every turn it releases once, in order, with the commands that were
-- recorded for it and the length its seal has.
pub seal_turns-saves :
    (len : ℕ) (ts : List ℕ) (c : Context)
    → c.config.saving ≡ true
    → saves_in (seal_turns len ts c).effects ≡ saves_in c.effects ++ map (saved len c.log) ts
unfolding seal_turns
seal_turns-saves len [] c h = sym (append-nil (saves_in c.effects))
seal_turns-saves len (t ∷ ts) c h =
    seal_turns-saves len ts (seal_turn len t c) (ap (λ f. f.saving) (config-seal_turn len t c) ∙ h)
    ∙ ap (λ f. saves_in (seal_turn len t c).effects ++ map f ts) (saved-seal_turn len t c)
    ∙ ap (λ ms. ms ++ map (saved len c.log) ts) (saves_in-seal_turn len t c h)
    ∙ append_assoc (saves_in c.effects) ((t, len, commands_for t c.log) ∷ [])
        (map (saved len c.log) ts)
