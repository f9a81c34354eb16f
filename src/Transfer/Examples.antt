-- ===== src/Transfer/Examples.antt =====
-- The theorems on transfers at concrete ones: three bytes to a peer, and two from one in two chunks.
use veredus.Base.Runs.{idle, after}
use veredus.Base.{ℕ, ◌≡◌, refl, none, some, [], ◌∷◌, ◌++◌, arith, true}
use veredus.Base.Maps.{get}
use veredus.Base.Result.{ok}
use veredus.Text.{Bytes}
use veredus.Wire.Match.{GamestateChunk}
use veredus.Transfer.{Transfers, Incoming, Outgoing, savegame, key_discrete, fits, expect, on_ack}
use veredus.Transfer.Send.{Progress, sending, bytes_of, on_ack-progress}
use veredus.Transfer.Receive.{IsBounded, expects, Run-IsBounded, receive, receive_complete}
use native.Mathlib.Decide.{ℕ_discrete}

abbrev idle_transfers : Transfers
idle_transfers = record { next_request_id = 0; outgoing = []; incoming = []; granted = [] }

abbrev three : Bytes
three = 1 ∷ 2 ∷ 3 ∷ []

three_fits : fits 3 ≡ true
unfolding fits
three_fits = refl

abbrev last_chunk : Outgoing
last_chunk = record { payload = three; offset = 3; in_flight = 1 }

abbrev sending_three : Transfers
sending_three = record idle_transfers { outgoing = ((7, 1), last_chunk) ∷ [] }

one_chunk_left : Progress 7 1 three three sending_three
unfolding get key_discrete ℕ_discrete
one_chunk_left =
    sending last_chunk refl (record { prefix = refl; inside = omega arith; bounded = omega arith })
      refl refl

on_ack-progress_example :
    Progress 7 1 three
      (three ++ bytes_of (on_ack 7 1 1 sending_three).1)
      (on_ack 7 1 1 sending_three).0
on_ack-progress_example = on_ack-progress 7 1 1 three three sending_three one_chunk_left

Run-IsBounded_example : IsBounded (expect 7 1 savegame idle_transfers)
Run-IsBounded_example =
    Run-IsBounded idle_transfers (expect 7 1 savegame idle_transfers) tt
      (after (expects idle_transfers 7 1 savegame) idle)

abbrev awaited : Incoming
awaited = record { purpose = savegame; declared = 2; buf = []; last_progress = none }

abbrev awaiting : Transfers
awaiting = record idle_transfers { incoming = ((7, 1), awaited) ∷ [] }

abbrev chunk_of : ℕ → GamestateChunk
chunk_of b = record { request_id = 1; payload = b ∷ [] }

awaited_here : get key_discrete (7, 1) awaiting.incoming ≡ some awaited
unfolding get key_discrete ℕ_discrete
awaited_here = refl

receive_complete_example :
    (receive 7 1 (chunk_of 4 ∷ chunk_of 5 ∷ []) awaiting).1 ≡ ok (some (savegame, 4 ∷ 5 ∷ []))
receive_complete_example =
    receive_complete 7 1 (chunk_of 4) (chunk_of 5 ∷ []) awaiting awaited awaited_here (refl, tt)
      refl
