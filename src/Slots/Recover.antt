-- ===== src/Slots/Recover.antt =====
-- `add` of src/relay/slots.rs: what a returning client takes over.
use veredus.Base.{
  ℕ, zero, suc, ◌≡◌, refl, Bool, true, false, ◌||◌, not, Option, none, some, [], ◌∷◌, ◌++◌,
  position, remove_at, ◌==◌, arith, Bool-cases, Option-cases, inl, inr, ◌⊎◌,
}
use veredus.Text.{Text, Guid, same_text}
use veredus.Slots.{
  PlayerSlot, Slots, unassigned, is_free, left_uuid, left_name, recoverable, arrival, add,
  has_shared,
}
use veredus.Slots.Exclusive.{shares, is_held, has_shared-shares, shares-append}

-- A position that was found is that of an entry that passes the test, which `remove_at` takes out.
position-remove_at :
    (p : PlayerSlot → Bool) (i : ℕ) (es : Slots)
    → position p es ≡ some i
    → (e : PlayerSlot) × (rest : Slots) × (remove_at i es ≡ some (e, rest)) × (p e ≡ true)
position-remove_at p i [] h = cc
position-remove_at p zero (x ∷ es) h = elim (Bool-cases (p x)) [
  | inl e ↦ (x, es, refl, e)
  | inr e ↦ absurd (ground (arith, h, e))
]
position-remove_at p (suc i) (x ∷ es) h = elim (Option-cases (position p es)) [
  | inl q ↦ absurd (ground (arith, h, q))
  | inr (j, q) ↦ elim (Bool-cases (p x)) [
    | inl e ↦ absurd (ground (arith, h, e))
    | inr e ↦
        let (y, rest, removed, passed) = position-remove_at p i es (ground (arith, h, q, e)) in
        (y, x ∷ rest, rw removed refl, passed)
  ]
]

is_held-remove_at :
    (s i : ℕ) (es : Slots) (e : PlayerSlot) (rest : Slots)
    → remove_at i es ≡ some (e, rest)
    → is_held s es ≡ false
    → is_held s rest ≡ false
is_held-remove_at s i [] e rest r h = cc
is_held-remove_at s zero (x ∷ es) e rest r h = ground arith
is_held-remove_at s (suc i) (x ∷ es) e rest r h = elim (Option-cases (remove_at i es)) [
  | inl q ↦ absurd (ground (arith, r, q))
  | inr ((y, ys), q) ↦ ground (arith, r, q, is_held-remove_at s i es y ys q)
]

shares-remove_at :
    (i : ℕ) (es : Slots) (e : PlayerSlot) (rest : Slots)
    → remove_at i es ≡ some (e, rest)
    → shares es ≡ false
    → shares rest ≡ false
shares-remove_at i [] e rest r h = cc
shares-remove_at zero (x ∷ es) e rest r h = ground arith
shares-remove_at (suc i) (x ∷ es) e rest r h = elim (Option-cases (remove_at i es)) [
  | inl q ↦ absurd (ground (arith, r, q))
  | inr ((y, ys), q) ↦
      ground (arith, r, q, shares-remove_at i es y ys q, is_held-remove_at x.slot i es y ys q)
]

-- What `recoverable` finds: an entry of a client that left, with the UUID or else the name of the
-- arriving one, whose slot is free.
recoverable-remove_at :
    (uuid : Guid) (name : Text) (shared : Bool) (es : Slots) (i : ℕ)
    → recoverable uuid name shared es ≡ some i
    → (e : PlayerSlot) × (rest : Slots) × (remove_at i es ≡ some (e, rest))
      × (e.connected ≡ false)
      × (is_free es shared e.slot ≡ true)
      × ((same_text e.uuid uuid || same_text e.name name) ≡ true)
unfolding recoverable
recoverable-remove_at uuid name shared es i h =
    elim (Option-cases (position (left_uuid es uuid shared) es)) [
      | inr (j, q) ↦
          let (e, rest, removed, passed) =
            position-remove_at (left_uuid es uuid shared) i es (ground (arith, h, q)) in
          let parts = left_uuid_parts e passed in
          (e, rest, removed, parts.0, parts.1, ground (arith, parts.2))
      | inl q ↦
          let (e, rest, removed, passed) =
            position-remove_at (left_name es name shared) i es (ground (arith, h, q)) in
          let parts = left_name_parts e passed in
          (e, rest, removed, parts.0, parts.1, ground (arith, parts.2))
    ]
  where
    left_uuid_parts :
        (e : PlayerSlot)
        → left_uuid es uuid shared e ≡ true
        → (e.connected ≡ false) × (is_free es shared e.slot ≡ true) × (same_text e.uuid uuid ≡ true)
    left_uuid_parts e p = unfold left_uuid in ground (arith, p)

    left_name_parts :
        (e : PlayerSlot)
        → left_name es name shared e ≡ true
        → (e.connected ≡ false) × (is_free es shared e.slot ≡ true) × (same_text e.name name ≡ true)
    left_name_parts e p = unfold left_name in ground (arith, p)

-- An entry of the table that the arriving client takes over, and the table without it.
abbrev pub Takes : Guid → Text → Bool → Slots → Option (Slots × Option Guid) → Type 0
Takes uuid name shared es result =
    (e : PlayerSlot) × (rest : Slots) × (i : ℕ) × (remove_at i es ≡ some (e, rest))
    × (e.connected ≡ false)
    × (is_free es shared e.slot ≡ true)
    × ((same_text e.uuid uuid || same_text e.name name) ≡ true)
    × (result ≡ some (rest ++ (arrival uuid name e.slot ∷ []), some e.uuid))

-- `add` never panics. Before the match, or if nothing can be taken over, the client gets a new
-- entry without a slot and nobody is displaced. Otherwise the entry of one client that left, with
-- the same UUID or name and a free slot, is replaced by the arriving client's, which has its slot;
-- the UUID displaced is that entry's.
pub add_cases :
    (uuid : Guid) (name : Text) (recover shared : Bool) (es : Slots)
    → ((recover ≡ false) ⊎ (recoverable uuid name shared es ≡ none))
        × (add uuid name recover shared es ≡ some (es ++ (arrival uuid name unassigned ∷ []), none))
      ⊎ Takes uuid name shared es (add uuid name recover shared es)
unfolding add
add_cases uuid name false shared es = inl (inl refl, refl)
add_cases uuid name true shared es = elim (Option-cases (recoverable uuid name shared es)) [
  | inl q ↦ inl (inr q, rw (q, add) refl)
  | inr (i, q) ↦
      let (e, rest, removed, left, free, same) = recoverable-remove_at uuid name shared es i q in
      inr (e, rest, i, removed, left, free, same, rw (q, removed, add) refl)
]

-- Without shared slots, an arrival leaves no slot held twice, if none was.
pub has_shared-add :
    (uuid : Guid) (name : Text) (recover : Bool) (es es' : Slots) (displaced : Option Guid)
    → has_shared es ≡ false
    → add uuid name recover false es ≡ some (es', displaced)
    → has_shared es' ≡ false
has_shared-add uuid name recover es es' displaced h r =
    elim (add_cases uuid name recover false es) [
      | inl (why, q) ↦
          let same : es' ≡ es ++ (arrival uuid name unassigned ∷ []) = ground (arith, r, q) in
          rw (same, has_shared-shares) (shares-append unassigned uuid name es refl alone)
      | inr (e, rest, i, removed, left, free, who, q) ↦
          let same : es' ≡ rest ++ (arrival uuid name e.slot ∷ []) = ground (arith, r, q) in
          rw (same, has_shared-shares)
            (shares-append e.slot uuid name rest (still_free e rest i removed free)
              (shares-remove_at i es e rest removed alone))
    ]
  where
    alone : shares es ≡ false
    alone = rw has_shared-shares at h

    still_free :
        (e : PlayerSlot) (rest : Slots) (i : ℕ)
        → remove_at i es ≡ some (e, rest)
        → is_free es false e.slot ≡ true
        → ((e.slot == unassigned) || not (is_held e.slot rest)) ≡ true
    still_free e rest i removed free =
        unfold is_free in ground (arith, free, is_held-remove_at e.slot i es e rest removed)
