-- ===== src/Slots/Message.antt =====
-- src/relay/slots.rs, `to_message`: the message that tells the clients who is there.
use veredus.Base.{
  ℕ, ◌≡◌, refl, ◌∙◌, Bool, true, false, ◌&&◌, ◌||◌, List, [], ◌∷◌, map, length, ltb, ◌==◌,
  if◌then◌else◌, select, arith,
}
use veredus.Text.{Text}
use veredus.Slots.{PlayerSlot, Slots}
use veredus.Wire.Lobby.{Host, PlayerSlots}

-- `a.cmp(&b)` is less: the bytes of UTF-8 and the characters have one order.
unfoldable pub text_lt : Text → Text → Bool
text_lt a [] = false
text_lt [] (c ∷ cs) = true
text_lt (b ∷ bs) (c ∷ cs) = ltb b c || (b == c && text_lt bs cs)

-- A stable sort: an entry goes before those that are not less.
unfoldable pub insert_by_uuid : PlayerSlot → Slots → Slots
insert_by_uuid e [] = e ∷ []
insert_by_uuid e (x ∷ xs) = if text_lt x.uuid e.uuid then x ∷ insert_by_uuid e xs else e ∷ x ∷ xs

unfoldable pub sort_by_uuid : Slots → Slots
unfolding insert_by_uuid
sort_by_uuid [] = []
sort_by_uuid (e ∷ es) = insert_by_uuid e (sort_by_uuid es)

unfoldable pub host_of : PlayerSlot → Host
host_of e = record { guid = e.uuid; name = e.name; player_id = e.slot; status = e.status }

unfoldable pub to_message : Slots → PlayerSlots
unfolding sort_by_uuid host_of
to_message entries = record {
  hosts = map host_of (sort_by_uuid (select (λ e. e.connected) entries));
}

-- The entries that pass a test.
abbrev pub count {ℓ} : {A : Type ℓ} → (A → Bool) → List A → ℕ
count p xs = length (select p xs)

count-insert_by_uuid :
    (p : PlayerSlot → Bool) (e : PlayerSlot) (es : Slots)
    → count p (insert_by_uuid e es) ≡ count p (e ∷ es)
unfolding insert_by_uuid
count-insert_by_uuid p e [] = refl
count-insert_by_uuid p e (x ∷ xs) = ground (arith, count-insert_by_uuid p e xs)

count-sort_by_uuid : (p : PlayerSlot → Bool) (es : Slots) → count p (sort_by_uuid es) ≡ count p es
unfolding sort_by_uuid
count-sort_by_uuid p [] = refl
count-sort_by_uuid p (e ∷ es) =
    count-insert_by_uuid p e (sort_by_uuid es) ∙ ground (arith, count-sort_by_uuid p es)

count-map :
    {A B : Type 0} (f : A → B) (p : B → Bool) (xs : List A)
    → count p (map f xs) ≡ count (λ x. p (f x)) xs
count-map f p [] = refl
count-map f p (x ∷ xs) = ground (arith, count-map f p xs)

text_lt_asymmetric : (a b : Text) → text_lt a b ≡ true → text_lt b a ≡ false
unfolding text_lt
text_lt_asymmetric a [] h = ground (arith, h)
text_lt_asymmetric [] (c ∷ cs) h = refl
text_lt_asymmetric (b ∷ bs) (c ∷ cs) h = ground (arith, h, text_lt_asymmetric bs cs)

-- No UUID is less than the one before it.
abbrev pub IsAscending : List Host → Type 0
IsAscending [] = Unit {0}
IsAscending (x ∷ []) = Unit {0}
IsAscending (x ∷ y ∷ ys) = (text_lt y.guid x.guid ≡ false) × IsAscending (y ∷ ys)

insert-IsAscending :
    (e : PlayerSlot) (es : Slots)
    → IsAscending (map host_of es)
    → IsAscending (map host_of (insert_by_uuid e es))
unfolding insert_by_uuid host_of
insert-IsAscending e [] v = tt
insert-IsAscending e (x ∷ []) v = ground (arith, text_lt_asymmetric x.uuid e.uuid)
insert-IsAscending e (x ∷ y ∷ ys) v =
    ground (arith, text_lt_asymmetric x.uuid e.uuid, insert-IsAscending e (y ∷ ys) v.1)

sort-IsAscending : (es : Slots) → IsAscending (map host_of (sort_by_uuid es))
unfolding sort_by_uuid
sort-IsAscending [] = tt
sort-IsAscending (e ∷ es) = insert-IsAscending e (sort_by_uuid es) (sort-IsAscending es)

-- The message lists the connected clients and nobody else, each as often as the table has it, in
-- the order of their UUIDs.
pub to_message_exact :
    (p : Host → Bool) (entries : Slots)
    → (count p (to_message entries).hosts
        ≡ count (λ e. p (host_of e)) (select (λ e. e.connected) entries))
      × IsAscending (to_message entries).hosts
unfolding to_message
to_message_exact p entries =
    let here = select (λ e. e.connected) entries in
    (
      count-map host_of p (sort_by_uuid here) ∙ count-sort_by_uuid (λ e. p (host_of e)) here,
      sort-IsAscending here,
    )
