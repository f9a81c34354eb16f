-- ===== src/RateLimit/Quota.antt =====
-- The quota of commands for each open turn.
use veredus.Base.{ℕ, ◌<◌, ◌≡◌, refl, [], ◌∷◌, arith, ◌∙◌, ap, ltb, ◌==◌, if◌then◌else◌, All, select}
use veredus.Base.Words.{saturating_add_u32, saturating_add_usize}
use veredus.RateLimit.{TurnUse, TurnQuota, used_for, set_used, charge}

used_for-set_used :
    (t u : ℕ) (used : TurnUse) (quota : TurnQuota)
    → used.turn ≡ t
    → used_for u (set_used t used quota) ≡ (if t == u then used else used_for u quota)
unfolding used_for set_used
used_for-set_used t u used [] e = ground (arith, e)
used_for-set_used t u used (v ∷ vs) e = ground (arith, e, used_for-set_used t u used vs e)

used_for-turn : (t : ℕ) (quota : TurnQuota) → (used_for t quota).turn ≡ t
unfolding used_for
used_for-turn t [] = refl
used_for-turn t (v ∷ vs) = ground (arith, used_for-turn t vs)

used_for-select :
    (ready t : ℕ) (quota : TurnQuota)
    → ready < t
    → used_for t (select (λ u. ltb ready u.turn) quota) ≡ used_for t quota
unfolding used_for
used_for-select ready t [] h = refl
used_for-select ready t (v ∷ vs) h = ground (arith, used_for-select ready t vs h)

-- A command for a turn past the ready turn counts once, with its bytes, against its own turn; the
-- use of every other turn still open stays as it was. The counters saturate.
pub used_for-charge :
    (turn bytes ready mc mb k u : ℕ) (quota : TurnQuota)
    → ready < turn
    → ready < u
    → used_for u (charge turn bytes ready mc mb k quota).0 ≡ (
        if turn == u
        then (record {
          turn = turn;
          count = saturating_add_u32 (used_for turn quota).count 1;
          bytes = saturating_add_usize (used_for turn quota).bytes bytes;
        })
        else used_for u quota)
unfolding charge
used_for-charge turn bytes ready mc mb k u quota h g =
    let still : TurnQuota = select (λ v. ltb ready v.turn) quota in
    let before = used_for-select ready turn quota h in
    let now : TurnUse → TurnUse = λ b. record {
      turn = b.turn;
      count = saturating_add_u32 b.count 1;
      bytes = saturating_add_usize b.bytes bytes;
    } in
    used_for-set_used turn u (now (used_for turn still)) still (used_for-turn turn still)
    ∙ ap (λ b. if turn == u then now b else used_for u still) before
    ∙ ap (λ x. if turn == u then now (used_for turn quota) else x) (used_for-select ready u quota g)
    ∙ ap
        (λ t.
          if turn == u
          then (record {
            turn = t;
            count = saturating_add_u32 (used_for turn quota).count 1;
            bytes = saturating_add_usize (used_for turn quota).bytes bytes;
          })
          else used_for u quota)
        (used_for-turn turn quota)

All-set_used :
    (P : TurnUse → Type 0) (t : ℕ) (used : TurnUse) (quota : TurnQuota)
    → P used
    → All P quota
    → All P (set_used t used quota)
unfolding set_used
All-set_used P t used [] p h = (p, tt)
All-set_used P t used (v ∷ vs) p h = ground (arith, All-set_used P t used vs p h.1)

select-open :
    (ready : ℕ) (quota : TurnQuota)
    → All (λ u. ready < u.turn) (select (λ u. ltb ready u.turn) quota)
select-open ready [] = tt
select-open ready (v ∷ vs) = ground (arith, select-open ready vs)

-- Only turns past the ready turn stay in the quota.
pub charge-IsOpen :
    (turn bytes ready mc mb k : ℕ) (quota : TurnQuota)
    → ready < turn
    → All (λ u. ready < u.turn) (charge turn bytes ready mc mb k quota).0
unfolding charge
charge-IsOpen turn bytes ready mc mb k quota h =
    let still : TurnQuota = select (λ v. ltb ready v.turn) quota in
    All-set_used (λ u. ready < u.turn) turn _ still (ground (arith, used_for-turn turn still, h))
      (select-open ready quota)
