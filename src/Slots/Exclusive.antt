-- ===== src/Slots/Exclusive.antt =====
-- No two connected clients hold one slot, unless slots may be shared.
use veredus.Base.{
  ℕ, ◌≡◌, refl, Bool, true, false, ◌&&◌, ◌||◌, not, [], ◌∷◌, ◌++◌, any, ◌==◌, arith, Bool-cases,
  inl, inr, ==_iff,
}
use mathlib.Core.Path.{subst}
use veredus.Text.{Text, Guid, same_text, same_text→eq}
use veredus.Slots.{Slots, unassigned, arrival, vacate, share, assign, held, repeats, has_shared}

-- Some connected entry holds the slot.
abbrev pub is_held : ℕ → Slots → Bool
is_held s = any (λ e. e.connected && e.slot == s)

-- A recursive description of `has_shared`.
abbrev pub shares : Slots → Bool
shares [] = false
shares (e ∷ es) = (e.connected && not (e.slot == unassigned) && is_held e.slot es) || shares es

any-held :
    (s : ℕ) (es : Slots) → (s == unassigned) ≡ false → any (λ t. t == s) (held es) ≡ is_held s es
unfolding held
any-held s [] h = refl
any-held s (e ∷ es) h = ground (arith, any-held s es h)

pub has_shared-shares : (es : Slots) → has_shared es ≡ shares es
unfolding has_shared held repeats
has_shared-shares [] = refl
has_shared-shares (e ∷ es) = ground (arith, any-held e.slot es, has_shared-shares es)

-- No two entries have one UUID.
abbrev pub has_uuid : Guid → Slots → Bool
has_uuid uuid = any (λ e. same_text e.uuid uuid)

abbrev pub IsUnique : Slots → Type 0
IsUnique [] = Unit {0}
IsUnique (e ∷ es) = (has_uuid e.uuid es ≡ false) × IsUnique es

is_held-share :
    (s t : ℕ) (uuid : Guid) (es : Slots)
    → (t == s) ≡ false
    → is_held t es ≡ false
    → is_held t (share s uuid es) ≡ false
unfolding share
is_held-share s t uuid [] n h = refl
is_held-share s t uuid (e ∷ es) n h = ground (arith, is_held-share s t uuid es)

is_held-vacate :
    (s t : ℕ) (uuid : Guid) (es : Slots)
    → (t == unassigned) ≡ false
    → is_held t es ≡ false
    → is_held t (vacate s uuid es) ≡ false
unfolding vacate
is_held-vacate s t uuid [] n h = refl
is_held-vacate s t uuid (e ∷ es) n h = ground (arith, is_held-vacate s t uuid es)

shares-vacate :
    (s : ℕ) (uuid : Guid) (es : Slots) → shares es ≡ false → shares (vacate s uuid es) ≡ false
unfolding vacate
shares-vacate s uuid [] h = refl
shares-vacate s uuid (e ∷ es) h =
    ground (arith, shares-vacate s uuid es, is_held-vacate s e.slot uuid es)

-- Where the client itself is not in the table, its slot is free after the others let go.
is_held-vacate_self :
    (s : ℕ) (uuid : Guid) (es : Slots)
    → (s == unassigned) ≡ false
    → has_uuid uuid es ≡ false
    → is_held s (vacate s uuid es) ≡ false
unfolding vacate
is_held-vacate_self s uuid [] n h = refl
is_held-vacate_self s uuid (e ∷ es) n h = ground (arith, is_held-vacate_self s uuid es)

shares-assign_to :
    (s : ℕ) (uuid : Guid) (es : Slots)
    → (s == unassigned) ≡ false
    → IsUnique es
    → shares es ≡ false
    → shares (share s uuid (vacate s uuid es)) ≡ false
unfolding share vacate
shares-assign_to s uuid [] n u h = refl
shares-assign_to s uuid (e ∷ es) n u h = elim (Bool-cases (same_text e.uuid uuid)) [
  | inl own ↦
      let only : has_uuid uuid es ≡ false =
        subst (λ v. has_uuid v es ≡ false) (same_text→eq e.uuid uuid own) u.0 in
      ground (arith, own, is_held-vacate_self s uuid es n only, shares-vacate s uuid es)
  | inr other ↦ ground (
    arith,
    other,
    shares-assign_to s uuid es n u.1,
    is_held-vacate s e.slot uuid es,
    is_held-share s e.slot uuid (vacate s uuid es),
  )
]

shares-unassign :
    (uuid : Guid) (es : Slots) → shares es ≡ false → shares (share unassigned uuid es) ≡ false
unfolding share
shares-unassign uuid [] h = refl
shares-unassign uuid (e ∷ es) h =
    ground (arith, shares-unassign uuid es, is_held-share unassigned e.slot uuid es)

-- Handing a slot to a client with `assign`, or taking it away, leaves no slot held twice, if none
-- was and each client has one entry.
pub has_shared-assign :
    (slot : ℕ) (uuid : Guid) (es : Slots)
    → IsUnique es
    → has_shared es ≡ false
    → has_shared (assign slot uuid es) ≡ false
unfolding assign
has_shared-assign slot uuid es u h = elim (Bool-cases (slot == unassigned)) [
  | inl e ↦
      let gone : slot ≡ unassigned = (==_iff slot unassigned).0 e in
      rw (e, has_shared-shares, gone) (shares-unassign uuid es (rw has_shared-shares at h))
  | inr e ↦
      rw (e, has_shared-shares) (shares-assign_to slot uuid es e u (rw has_shared-shares at h))
]

is_held-append :
    (s t : ℕ) (uuid : Guid) (name : Text) (es : Slots)
    → is_held s (es ++ (arrival uuid name t ∷ [])) ≡ (is_held s es || t == s)
unfolding arrival
is_held-append s t uuid name [] = ground arith
is_held-append s t uuid name (e ∷ es) = ground (arith, is_held-append s t uuid name es)

pub shares-append :
    (t : ℕ) (uuid : Guid) (name : Text) (es : Slots)
    → ((t == unassigned) || not (is_held t es)) ≡ true
    → shares es ≡ false
    → shares (es ++ (arrival uuid name t ∷ [])) ≡ false
unfolding arrival
shares-append t uuid name [] f h = ground arith
shares-append t uuid name (e ∷ es) f h =
    ground (arith, shares-append t uuid name es, is_held-append e.slot t uuid name es)
