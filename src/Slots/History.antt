-- ===== src/Slots/History.antt =====
-- Every history of the slot table of a match without shared slots.
use veredus.Base.Runs.{Run, Run-IsKept}
use veredus.Base.{ℕ, ◌≡◌, refl, Bool, false, Option, some, [], ◌∷◌, update_first, arith}
use veredus.Text.{Text, Guid}
use veredus.Slots.{
  PlayerSlot, Slots, add, has_shared, mark_disconnected, purge_disconnected, reset_pregame,
  set_status, assign,
}
use veredus.Slots.Exclusive.{
  shares, is_held, has_uuid, IsUnique, has_shared-shares, has_shared-assign,
}
use veredus.Slots.Unique.{
  arrives-IsUnique, IsUnique-update_first, IsUnique-assign, IsUnique-reset, IsUnique-purge,
}
use veredus.Slots.Recover.{has_shared-add}

-- One call on the table. An arriving client comes under a UUID that no entry has.
pub data Step : Slots → Slots → Type 0 where
  arrives :
      (es es' : Slots) (uuid : Guid) (name : Text) (recover : Bool) (displaced : Option Guid)
      → has_uuid uuid es ≡ false
      → add uuid name recover false es ≡ some (es', displaced)
      → Step es es'
  leaves : (es : Slots) (uuid : Guid) → Step es (mark_disconnected uuid es)
  purges : (es : Slots) → Step es (purge_disconnected es)
  assigns : (es : Slots) (slot : ℕ) (uuid : Guid) → Step es (assign slot uuid es)
  resets : (es : Slots) → Step es (reset_pregame es)
  readies : (es : Slots) (uuid : Guid) (status : ℕ) → Step es (set_status uuid status es)

abbrev pub Reach : Slots → Slots → Type 0
Reach start now = Run Step start now

pub record IsExclusive (es : Slots) : Type 0 where
  pub unique : IsUnique es
  pub alone : has_shared es ≡ false

-- A change that keeps the slot and does not connect anybody shares no slot.
module _ (p : PlayerSlot → Bool) (f : PlayerSlot → PlayerSlot)
    (same_slot : (e : PlayerSlot) → (f e).slot ≡ e.slot)
    (same_end : (e : PlayerSlot) → e.connected ≡ false → (f e).connected ≡ false) where
  is_held-update_first :
      (s : ℕ) (es : Slots) → is_held s es ≡ false → is_held s (update_first p f es) ≡ false
  is_held-update_first s [] h = refl
  is_held-update_first s (e ∷ es) h =
      ground (arith, same_slot e, same_end e, is_held-update_first s es)

  shares-update_first : (es : Slots) → shares es ≡ false → shares (update_first p f es) ≡ false
  shares-update_first [] h = refl
  shares-update_first (e ∷ es) h =
      ground
        (arith, same_slot e, same_end e, is_held-update_first e.slot es, shares-update_first es)

is_held-purge : (s : ℕ) (es : Slots) → is_held s (purge_disconnected es) ≡ is_held s es
unfolding purge_disconnected
is_held-purge s [] = refl
is_held-purge s (e ∷ es) = ground (arith, is_held-purge s es)

shares-purge : (es : Slots) → shares (purge_disconnected es) ≡ shares es
unfolding purge_disconnected
shares-purge [] = refl
shares-purge (e ∷ es) = ground (arith, is_held-purge e.slot es, shares-purge es)

is_held-reset : (s : ℕ) (es : Slots) → is_held s (reset_pregame es) ≡ is_held s es
unfolding reset_pregame
is_held-reset s [] = refl
is_held-reset s (e ∷ es) = ground (arith, is_held-reset s es)

shares-reset : (es : Slots) → shares (reset_pregame es) ≡ shares es
unfolding reset_pregame
shares-reset [] = refl
shares-reset (e ∷ es) = ground (arith, is_held-reset e.slot es, shares-reset es)

Step-IsExclusive : (es es' : Slots) → Step es es' → IsExclusive es → IsExclusive es'
unfolding mark_disconnected set_status
Step-IsExclusive _ _ (arrives es es' uuid name recover d n r) v = record {
  unique = arrives-IsUnique es es' uuid name recover d n r v.unique;
  alone = has_shared-add uuid name recover es es' d v.alone r;
}
Step-IsExclusive _ _ (leaves es uuid) v = record {
  unique = IsUnique-update_first _ _ (λ e. refl) es v.unique;
  alone =
      rw has_shared-shares
        (shares-update_first _ _ (λ e. refl) (λ e h. refl) es (rw has_shared-shares at v.alone));
}
Step-IsExclusive _ _ (purges es) v = record {
  unique = IsUnique-purge es v.unique;
  alone = rw (has_shared-shares, shares-purge) (rw has_shared-shares at v.alone);
}
Step-IsExclusive _ _ (assigns es slot uuid) v = record {
  unique = IsUnique-assign slot uuid es v.unique;
  alone = has_shared-assign slot uuid es v.unique v.alone;
}
Step-IsExclusive _ _ (resets es) v = record {
  unique = IsUnique-reset es v.unique;
  alone = rw (has_shared-shares, shares-reset) (rw has_shared-shares at v.alone);
}
Step-IsExclusive _ _ (readies es uuid status) v = record {
  unique = IsUnique-update_first _ _ (λ e. refl) es v.unique;
  alone =
      rw has_shared-shares
        (shares-update_first _ _ (λ e. refl) (λ e h. h) es (rw has_shared-shares at v.alone));
}

-- Whatever the calls of a match without shared slots, and in whatever order, each client has one
-- entry and no slot is held by two connected clients. Arriving clients come under new UUIDs.
pub Reach-IsExclusive : (s es : Slots) → IsExclusive s → Reach s es → IsExclusive es
Reach-IsExclusive s es h r = Run-IsKept IsExclusive Step-IsExclusive r h
