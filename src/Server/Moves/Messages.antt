-- ===== src/Server/Moves/Messages.antt =====
-- src/relay/server_fsm.rs: what seals and hashes do to the match.
use veredus.Base.{
  ℕ, ◌+◌, ◌≡◌, refl, ap, ◌≤◌, max, min, Option, List, All, arith, All-mono, Bool-cases, inl, inr,
  ltb,
}
use veredus.Base.Result.{ok, Result-cases}
use veredus.Base.Runs.{idle, after}
use veredus.Base.Words.{u32_max, saturating_add_u32}
use veredus.Server.{Context, FrozenSettings, Phase, command_delay}
use veredus.Server.Advance.{release_turns-exact, Released}
use veredus.Server.Feed.{release_turns, report_all}
use veredus.Server.Save.{save_settled_hashes}
use veredus.Server.Cast.{push}
use veredus.Server.Frame.{match-report_all}
use veredus.Server.Moves.{View, view, IsPaced, Moves, Moves-refl, Moves-trans, Moves-same}
use veredus.Server.Play.{release_in, in_resuming, handle_turn_sealed, handle_state_hash}
use veredus.Turn.Hashes.{on_state_hash}
use veredus.Turn.{take_settled, Hash, HashMismatch, PeerId, TurnManager, max_sealed, on_turn_sealed}
use veredus.Turn.History.{releases, seals, hashes, takes, on_turn_sealed_ok}
use veredus.Turn.Hashes.Lanes.{max_sealed-put, on_state_hash-max_sealed}
use veredus.Turn.Release.{at_turn}
use veredus.Wire.Match.{PlayerCommand, TurnSealed, StateHash}

logged-later :
    (a b : ℕ) (es : List (ℕ × List PlayerCommand))
    → a ≤ b
    → All (λ e. e.0 ≤ a + command_delay) es
    → All (λ e. e.0 ≤ b + command_delay) es
logged-later a b es h v = All-mono (λ e p. omega arith) es v

-- A release of `k` turns.
Moves-release :
    (v : View) (lag pace : Option ℕ) (k head : ℕ)
    → IsPaced v
    → Released lag pace v.0 k
    → head ≤ max v.2 (v.0.ready_turn + k)
    → Moves v (at_turn v.0 (v.0.ready_turn + k), v.1, head)
Moves-release v lag pace k head p r h =
    let pp : IsPaced v = p in
    let a = p.ready_u32 in
    let b = p.sealed in
    let d = p.sealed_u32 in
    let e = p.behind in
    let f = r.sealed in
    record {
      reaches = after (releases _ _ lag pace _ p.sealed_u32 r.paced) idle;
      ready = omega arith;
      kept = λ t h. refl;
      paced = record {
        ready_u32 = omega arith;
        sealed = omega arith;
        sealed_u32 = omega arith;
        logged = logged-later v.0.ready_turn (v.0.ready_turn + k) v.1 (omega arith) p.logged;
        behind = omega arith;
      };
    }

pub Moves-release_turns :
    (len : ℕ) (c : Context) → IsPaced (view c) → Moves (view c) (view (release_turns len c))
Moves-release_turns len c p =
    let (k, r, turns, commands, head) = release_turns-exact len c p.sealed_u32 in
    let d = release_turns len c in
    let m = Moves-release (view c) _ _ k d.feed.head p r head in rw (turns, commands) m

pub Moves-release_in :
    (phase : Phase) (len : ℕ) (c : Context)
    → IsPaced (view c)
    → Moves (view c) (view (release_in phase len c))
unfolding release_in
Moves-release_in phase len c p = elim (Bool-cases (in_resuming phase)) [
  | inl e ↦ rw (e, release_in) (Moves-refl (view c) p)
  | inr e ↦ rw (e, release_in) (Moves-release_turns len c p)
]

Moves-seal :
    (v : View) (m : TurnManager) (peer turn : ℕ)
    → IsPaced v
    → turn ≤ min (v.0.ready_turn + command_delay) u32_max
    → on_turn_sealed peer turn v.0 ≡ ok m
    → Moves v (m, v.1, v.2)
Moves-seal v m peer turn p h e =
    let (c, q, seq, same) = on_turn_sealed_ok peer turn v.0 m e in
    let put_le = max_sealed-put peer (record c { ready_turn = turn }) v.0.clients in
    let a = p.sealed in
    let b = p.sealed_u32 in
    let ready : m.ready_turn ≡ v.0.ready_turn = ap (λ n. n.ready_turn) same in
    let clients = ap (λ n. max_sealed n.clients) same in
    record {
      reaches = after (seals _ _ peer turn e) idle;
      ready = omega arith;
      kept = λ t h. refl;
      paced = record {
        ready_u32 = rw ready p.ready_u32;
        sealed = omega arith;
        sealed_u32 = omega arith;
        logged = rw ready p.logged;
        behind = rw ready p.behind;
      };
    }

pub Moves-handle_turn_sealed :
    (phase : Phase) (settings : FrozenSettings) (peer : PeerId) (msg : TurnSealed) (c : Context)
    → IsPaced (view c)
    → Moves (view c) (view (handle_turn_sealed phase settings peer msg c).0)
unfolding handle_turn_sealed
Moves-handle_turn_sealed phase settings peer msg c p =
    elim (Bool-cases (ltb (saturating_add_u32 c.turns.ready_turn command_delay) msg.turn)) [
      | inl far ↦ rw (far, handle_turn_sealed) (Moves-refl (view c) p)
      | inr near ↦ elim (Result-cases (on_turn_sealed peer msg.turn c.turns)) [
        | inl (f, e) ↦ rw (near, handle_turn_sealed, e) (Moves-refl (view c) p)
        | inr (m, e) ↦
            let sealed = Moves-seal (view c) m peer msg.turn p (ground arith) e in
            rw (near, handle_turn_sealed, e)
              (Moves-trans sealed (
                Moves-release_in phase settings.turn_length_ms (record c { turns = m })
                  sealed.paced))
      ]
    ]

Moves-hash :
    (v : View) (m : TurnManager) (peer turn : ℕ) (hash : Hash) (found : List HashMismatch)
    → IsPaced v
    → on_state_hash peer turn hash v.0 ≡ ok (m, found)
    → Moves v (m, v.1, v.2)
Moves-hash v m peer turn hash found p e =
    let (ready, clients) = on_state_hash-max_sealed peer turn hash v.0 m found e in
    let a = p.sealed in
    let b = p.sealed_u32 in
    record {
      reaches = after (hashes _ _ peer turn hash found e) idle;
      ready = omega arith;
      kept = λ t h. refl;
      paced = record {
        ready_u32 = rw ready p.ready_u32;
        sealed = omega arith;
        sealed_u32 = omega arith;
        logged = rw ready p.logged;
        behind = rw ready p.behind;
      };
    }

pub Moves-save_settled_hashes :
    (c : Context) → IsPaced (view c) → Moves (view c) (view (save_settled_hashes c))
unfolding save_settled_hashes push take_settled
Moves-save_settled_hashes c p = record {
  reaches = after (takes c.turns) idle;
  ready = omega arith;
  kept = λ t h. refl;
  paced = record {
    ready_u32 = p.ready_u32;
    sealed = p.sealed;
    sealed_u32 = p.sealed_u32;
    logged = p.logged;
    behind = p.behind;
  };
}

pub Moves-handle_state_hash :
    (peer : PeerId) (msg : StateHash) (c : Context)
    → IsPaced (view c)
    → Moves (view c) (view (handle_state_hash peer msg c).0)
unfolding handle_state_hash
Moves-handle_state_hash peer msg c p = elim (Bool-cases (ltb c.turns.ready_turn msg.turn)) [
  | inl far ↦ rw (far, handle_state_hash) (Moves-refl (view c) p)
  | inr near ↦ elim (Result-cases (on_state_hash peer msg.turn msg.hash c.turns)) [
    | inl (f, e) ↦ rw (near, handle_state_hash, e) (Moves-refl (view c) p)
    | inr ((m, found), e) ↦
        let d : Context = record c { turns = m } in
        let hashed = Moves-hash (view c) m peer msg.turn msg.hash found p e in
        let told : Moves (view d) (view (report_all found d)) =
          Moves-same d (report_all found d) (match-report_all found d) hashed.paced in
        rw (near, handle_state_hash, e)
          (Moves-trans hashed
            (Moves-trans told (Moves-save_settled_hashes (report_all found d) told.paced)))
  ]
]
