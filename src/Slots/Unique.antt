-- ===== src/Slots/Unique.antt =====
-- Each client keeps one entry under its UUID.
use veredus.Base.{
  ℕ, zero, suc, ◌≡◌, refl, Bool, false, Option, some, [], ◌∷◌, ◌++◌, remove_at, update_first, ◌==◌,
  arith, Bool-cases, inl, inr, Option-cases,
}
use veredus.Text.{Text, Guid, same_text}
use veredus.Slots.{
  PlayerSlot, Slots, unassigned, arrival, add, purge_disconnected, reset_pregame, assign, vacate,
  share,
}
use veredus.Slots.Exclusive.{has_uuid, IsUnique}
use veredus.Slots.Recover.{add_cases}

has_uuid-append :
    (u v : Guid) (name : Text) (slot : ℕ) (es : Slots)
    → has_uuid u es ≡ false
    → same_text v u ≡ false
    → has_uuid u (es ++ (arrival v name slot ∷ [])) ≡ false
unfolding arrival
has_uuid-append u v name slot [] h n = ground (arith, n)
has_uuid-append u v name slot (e ∷ es) h n = ground (arith, has_uuid-append u v name slot es)

same_text_sym : (a b : Text) → same_text a b ≡ false → same_text b a ≡ false
same_text_sym a b h = ground arith

pub IsUnique-append :
    (v : Guid) (name : Text) (slot : ℕ) (es : Slots)
    → has_uuid v es ≡ false
    → IsUnique es
    → IsUnique (es ++ (arrival v name slot ∷ []))
unfolding arrival
IsUnique-append v name slot [] h u = (refl, tt)
IsUnique-append v name slot (e ∷ es) h u = (
  has_uuid-append e.uuid v name slot es u.0 (same_text_sym e.uuid v (ground (arith, h))),
  IsUnique-append v name slot es (ground (arith, h)) u.1,
)

has_uuid-remove_at :
    (v : Guid) (i : ℕ) (es : Slots) (e : PlayerSlot) (rest : Slots)
    → remove_at i es ≡ some (e, rest)
    → has_uuid v es ≡ false
    → has_uuid v rest ≡ false
has_uuid-remove_at v i [] e rest r h = cc
has_uuid-remove_at v zero (x ∷ es) e rest r h = ground arith
has_uuid-remove_at v (suc i) (x ∷ es) e rest r h = elim (Option-cases (remove_at i es)) [
  | inl q ↦ absurd (ground (arith, r, q))
  | inr ((y, ys), q) ↦ ground (arith, r, q, has_uuid-remove_at v i es y ys q)
]

pub IsUnique-remove_at :
    (i : ℕ) (es : Slots) (e : PlayerSlot) (rest : Slots)
    → remove_at i es ≡ some (e, rest)
    → IsUnique es
    → IsUnique rest
IsUnique-remove_at i [] e rest r u = cc
IsUnique-remove_at zero (x ∷ es) e rest r u = rw (← tail) u.1
  where
    tail : es ≡ rest
    tail = ground arith
IsUnique-remove_at (suc i) (x ∷ es) e rest r u = elim (Option-cases (remove_at i es)) [
  | inl q ↦ absurd (ground (arith, r, q))
  | inr ((y, ys), q) ↦
      let shape : rest ≡ x ∷ ys = ground (arith, r, q) in
      rw shape (has_uuid-remove_at x.uuid i es y ys q u.0, IsUnique-remove_at i es y ys q u.1)
]

pub arrives-IsUnique :
    (es es' : Slots) (uuid : Guid) (name : Text) (recover : Bool) (displaced : Option Guid)
    → has_uuid uuid es ≡ false
    → add uuid name recover false es ≡ some (es', displaced)
    → IsUnique es
    → IsUnique es'
arrives-IsUnique es es' uuid name recover displaced n r u =
    elim (add_cases uuid name recover false es) [
      | inl (why, q) ↦
          let same : es' ≡ es ++ (arrival uuid name unassigned ∷ []) = ground (arith, r, q) in
          rw same (IsUnique-append uuid name unassigned es n u)
      | inr (e, rest, i, removed, left, free, who, q) ↦
          let same : es' ≡ rest ++ (arrival uuid name e.slot ∷ []) = ground (arith, r, q) in
          rw same (
            IsUnique-append uuid name e.slot rest (has_uuid-remove_at uuid i es e rest removed n)
              (IsUnique-remove_at i es e rest removed u))
    ]

module _ (p : PlayerSlot → Bool) (f : PlayerSlot → PlayerSlot)
    (keeps : (e : PlayerSlot) → (f e).uuid ≡ e.uuid) where
  has_uuid-update_first : (v : Guid) (es : Slots) → has_uuid v (update_first p f es) ≡ has_uuid v es
  has_uuid-update_first v [] = refl
  has_uuid-update_first v (e ∷ es) = ground (arith, keeps e, has_uuid-update_first v es)

  pub IsUnique-update_first : (es : Slots) → IsUnique es → IsUnique (update_first p f es)
  IsUnique-update_first [] u = tt
  IsUnique-update_first (e ∷ es) u = elim (Bool-cases (p e)) [
    | inl here ↦ rw here (rw (keeps e) u.0, u.1)
    | inr later ↦ rw later (rw has_uuid-update_first u.0, IsUnique-update_first es u.1)
  ]

has_uuid-vacate : (s : ℕ) (w v : Guid) (es : Slots) → has_uuid v (vacate s w es) ≡ has_uuid v es
unfolding vacate
has_uuid-vacate s w v [] = refl
has_uuid-vacate s w v (e ∷ es) = ground (arith, has_uuid-vacate s w v es)

pub IsUnique-vacate : (s : ℕ) (w : Guid) (es : Slots) → IsUnique es → IsUnique (vacate s w es)
unfolding vacate
IsUnique-vacate s w [] u = tt
IsUnique-vacate s w (e ∷ es) u =
    (ground (arith, has_uuid-vacate s w e.uuid es, u.0), IsUnique-vacate s w es u.1)

pub IsUnique-assign : (s : ℕ) (w : Guid) (es : Slots) → IsUnique es → IsUnique (assign s w es)
unfolding assign share
IsUnique-assign s w es u = elim (Bool-cases (s == unassigned)) [
  | inl e ↦ rw e (IsUnique-update_first _ _ (λ x. refl) es u)
  | inr e ↦ rw e (IsUnique-update_first _ _ (λ x. refl) (vacate s w es) (IsUnique-vacate s w es u))
]

has_uuid-reset : (v : Guid) (es : Slots) → has_uuid v (reset_pregame es) ≡ has_uuid v es
unfolding reset_pregame
has_uuid-reset v [] = refl
has_uuid-reset v (e ∷ es) = ground (arith, has_uuid-reset v es)

pub IsUnique-reset : (es : Slots) → IsUnique es → IsUnique (reset_pregame es)
unfolding reset_pregame
IsUnique-reset [] u = tt
IsUnique-reset (e ∷ es) u = (ground (arith, has_uuid-reset e.uuid es, u.0), IsUnique-reset es u.1)

has_uuid-purge :
    (v : Guid) (es : Slots) → has_uuid v es ≡ false → has_uuid v (purge_disconnected es) ≡ false
unfolding purge_disconnected
has_uuid-purge v [] h = refl
has_uuid-purge v (e ∷ es) h = ground (arith, has_uuid-purge v es)

pub IsUnique-purge : (es : Slots) → IsUnique es → IsUnique (purge_disconnected es)
unfolding purge_disconnected
IsUnique-purge [] u = tt
IsUnique-purge (e ∷ es) u = elim (Bool-cases e.connected) [
  | inl c ↦ rw c (has_uuid-purge e.uuid es u.0, IsUnique-purge es u.1)
  | inr c ↦ rw c (IsUnique-purge es u.1)
]
