-- ===== src/Slots/Examples.antt =====
-- The theorems on the slot table at a concrete match: one player is there and one has left.
use veredus.Base.Runs.{idle, after}
use veredus.Base.{
  select, ◌==◌, ◌≡◌, refl, true, false, none, some, [], ◌∷◌, ◌++◌, list_discrete, ◌⊎◌,
}
use veredus.Text.{Guid}
use veredus.Slots.{
  PlayerSlot, Slots, unassigned, arrival, add, assign, has_shared, recoverable, held, repeats,
  left_uuid, left_name, is_free, mark_disconnected,
}
use veredus.Slots.Exclusive.{IsUnique}
use veredus.Slots.Message.{count, host_of, to_message, to_message_exact, IsAscending}
use veredus.Slots.Recover.{add_cases, Takes}
use veredus.Slots.History.{IsExclusive, leaves, assigns, Reach-IsExclusive}

abbrev anna : Guid
anna = 97 ∷ 110 ∷ []

abbrev bert : Guid
bert = 98 ∷ []

abbrev there : PlayerSlot
there = record { uuid = anna; name = 65 ∷ []; slot = 1; status = 0; connected = true }

abbrev gone : PlayerSlot
gone = record { uuid = bert; name = 66 ∷ []; slot = 2; status = 0; connected = false }

abbrev table : Slots
table = there ∷ gone ∷ []

table_shares : has_shared table ≡ false
unfolding has_shared held repeats
table_shares = refl

table-IsUnique : IsUnique table
unfolding list_discrete
table-IsUnique = (refl, (refl, tt))

table-IsExclusive : IsExclusive table
table-IsExclusive = record { unique = table-IsUnique; alone = table_shares }

add_cases_example :
    ((true ≡ false) ⊎ (recoverable (99 ∷ []) (66 ∷ []) false table ≡ none))
      × (add (99 ∷ []) (66 ∷ []) true false table
          ≡ some (table ++ (arrival (99 ∷ []) (66 ∷ []) unassigned ∷ []), none))
    ⊎ Takes (99 ∷ []) (66 ∷ []) false table (add (99 ∷ []) (66 ∷ []) true false table)
add_cases_example = add_cases (99 ∷ []) (66 ∷ []) true false table

-- A client with the name of the player that left comes back under a new UUID, to its slot.
comes_back :
    add (99 ∷ []) (66 ∷ []) true false table
    ≡ some (there ∷ arrival (99 ∷ []) (66 ∷ []) 2 ∷ [], some bert)
unfolding add recoverable left_uuid left_name is_free arrival list_discrete
comes_back = refl

Reach-IsExclusive_example : IsExclusive (assign 2 anna (mark_disconnected anna table))
Reach-IsExclusive_example =
    Reach-IsExclusive table (assign 2 anna (mark_disconnected anna table)) table-IsExclusive
      (after (assigns (mark_disconnected anna table) 2 anna) (after (leaves table anna) idle))

to_message_exact_example :
    (count (λ h. h.player_id == 1) (to_message table).hosts
      ≡ count (λ e. e.slot == 1) (select (λ e. e.connected) table))
    × IsAscending (to_message table).hosts
unfolding host_of
to_message_exact_example = to_message_exact (λ h. h.player_id == 1) table
