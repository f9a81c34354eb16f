-- ===== src/Transfer/Send.antt =====
-- What the chunks of an outgoing transfer amount to, over every acknowledgement.
use veredus.Base.{
  ℕ, zero, suc, ◌+◌, ◌-◌, ◌≤◌, ◌≡◌, refl, min, true, false, ◌&&◌, ◌||◌, none, some, List, [], ◌∷◌,
  ◌++◌, length, take, drop, ltb, ◌==◌, if◌then◌else◌, arith, ◌⊎◌, inl, inr, Bool-cases, ap, ◌∙◌,
  is_same,
}
use veredus.Base.Maps.{get, put, erase, get-put, get-erase}
use veredus.Text.{Bytes}
use veredus.Wire.Match.{GamestateChunk}
use veredus.Wire.RoundTrip.{append_assoc}
use veredus.Transfer.{
  Key, Outgoing, Transfers, key_discrete, window, chunk_size, fits, fill, is_done, pump, begin_send,
  acked, on_ack,
}

-- The bytes that chunks carry.
abbrev pub bytes_of : List GamestateChunk → Bytes
bytes_of [] = []
bytes_of (c ∷ cs) = c.payload ++ bytes_of cs

-- What was sent of a transfer is its payload up to the offset, with the window respected.
pub record IsSent (tx : Outgoing) (sent : Bytes) : Type 0 where
  pub prefix : sent ≡ take tx.offset tx.payload
  pub inside : tx.offset ≤ length tx.payload
  pub bounded : tx.in_flight ≤ window

take-nil : (n : ℕ) → take {A = ℕ} n [] ≡ []
take-nil zero = refl
take-nil (suc n) = refl

take-more : (o e : ℕ) (xs : Bytes) → o ≤ e → take o xs ++ take (e - o) (drop o xs) ≡ take e xs
take-more zero e xs h = ap (λ n. take n xs) (omega arith)
take-more (suc o) zero xs h = ground arith
take-more (suc o) (suc e) [] h = take-nil _
take-more (suc o) (suc e) (x ∷ xs) h =
    let same : suc e - suc o ≡ e - o = omega arith in
    rw same (ap (λ t. x ∷ t) (take-more o e xs (omega arith)))

pub append_nil : (xs : Bytes) → xs ++ [] ≡ xs
append_nil [] = refl
append_nil (x ∷ xs) = ap (λ t. x ∷ t) (append_nil xs)

-- One round of the loop.
abbrev chunk_end : Outgoing → ℕ
chunk_end tx = min (tx.offset + chunk_size) (length tx.payload)

abbrev after_chunk : Outgoing → Outgoing
after_chunk tx = record tx { offset = chunk_end tx; in_flight = tx.in_flight + 1 }

abbrev chunk_of : Outgoing → Bytes
chunk_of tx = take (chunk_end tx - tx.offset) (drop tx.offset tx.payload)

after_chunk-IsSent :
    (tx : Outgoing) (sent : Bytes)
    → ltb tx.in_flight window ≡ true
    → IsSent tx sent
    → IsSent (after_chunk tx) (sent ++ chunk_of tx)
after_chunk-IsSent tx sent room v =
    let inside = v.inside in
    record {
      prefix = rw v.prefix (take-more tx.offset (chunk_end tx) tx.payload (omega arith));
      inside = omega arith;
      bounded = ground (arith, room);
    }

pub fill-IsSent :
    (fuel request_id : ℕ) (tx : Outgoing) (sent : Bytes)
    → IsSent tx sent
    → let r = fill fuel request_id tx in
      IsSent r.0 (sent ++ bytes_of r.1) × (r.0.payload ≡ tx.payload)
unfolding fill
fill-IsSent zero id tx sent v = (rw (append_nil sent) v, refl)
fill-IsSent (suc fuel) id tx sent v =
    elim (Bool-cases (ltb tx.in_flight window && ltb tx.offset (length tx.payload))) [
      | inl go ↦
          let room : ltb tx.in_flight window ≡ true = ground (arith, go) in
          let (more, same) =
            fill-IsSent fuel id (after_chunk tx) (sent ++ chunk_of tx)
              (after_chunk-IsSent tx sent room v) in
          rw (go, fill) (rw append_assoc at more, same)
      | inr stop ↦ rw (stop, fill, append_nil) (v, refl)
    ]

-- With fuel for the whole window, the loop stops with a full window or with nothing left to send.
fill-stops :
    (fuel request_id : ℕ) (tx : Outgoing)
    → window ≤ fuel + tx.in_flight
    → let r = fill fuel request_id tx in
      (window ≤ r.0.in_flight) ⊎ (length r.0.payload ≤ r.0.offset)
unfolding fill
fill-stops zero id tx h = inl (omega arith)
fill-stops (suc fuel) id tx h = ground (arith, fill-stops fuel id (after_chunk tx) (omega arith))

-- What a peer has been sent of `payload`, whether its transfer goes on or is over: in the first
-- case an acknowledgement is awaited, in the second everything was sent.
pub data Progress (peer id : ℕ) (payload sent : Bytes) (ts : Transfers) : Type 0 where
  sending :
      (tx : Outgoing)
      → get key_discrete (peer, id) ts.outgoing ≡ some tx
      → IsSent tx sent
      → tx.payload ≡ payload
      → (tx.in_flight == 0) ≡ false
      → Progress peer id payload sent ts
  over :
      get key_discrete (peer, id) ts.outgoing ≡ none
      → sent ≡ payload
      → Progress peer id payload sent ts

take-all : (n : ℕ) (xs : Bytes) → length xs ≤ n → take n xs ≡ xs
take-all zero [] h = refl
take-all (suc n) [] h = refl
take-all zero (x ∷ xs) h = ground arith
take-all (suc n) (x ∷ xs) h = ap (λ t. x ∷ t) (take-all n xs (omega arith))

-- A transfer that is done has sent its whole payload.
is_done-all :
    (tx : Outgoing) (sent : Bytes) → is_done tx ≡ true → IsSent tx sent → sent ≡ tx.payload
unfolding is_done
is_done-all tx sent d v = v.prefix ∙ take-all tx.offset tx.payload (ground (arith, d))

key-same : (k : Key) → is_same key_discrete k k ≡ true
key-same k = ground arith

pub get-put_key :
    {V : Type 0} (k : Key) (v : V) (m : List (Key × V))
    → get key_discrete k (put key_discrete k v m) ≡ some v
get-put_key k v m = rw (get-put key_discrete k k v m, key-same k) refl

get-erase_key :
    (k : Key) (m : List (Key × Outgoing)) → get key_discrete k (erase key_discrete k m) ≡ none
get-erase_key k m = rw (get-erase key_discrete k k m, key-same k) refl

-- A transfer that goes on after the window was filled has a chunk in flight.
in_flight-left :
    (id : ℕ) (tx : Outgoing)
    → is_done (fill window id tx).0 ≡ false
    → ((fill window id tx).0.in_flight == 0) ≡ false
unfolding is_done
in_flight-left id tx n = ground (arith, n, fill-stops window id tx (omega arith))

pump-progress :
    (peer id : ℕ) (payload : Bytes) (ts : Transfers) (tx : Outgoing) (sent : Bytes)
    → get key_discrete (peer, id) ts.outgoing ≡ some tx
    → IsSent tx sent
    → tx.payload ≡ payload
    → let r = pump peer id ts in Progress peer id payload (sent ++ bytes_of r.1) r.0
unfolding pump
pump-progress peer id payload ts tx sent here v own =
    let (more, same) = fill-IsSent window id tx sent v in
    rw (here, pump)
      (elim (Bool-cases (is_done (fill window id tx).0)) [
        | inl d ↦
            rw d (over (get-erase_key (peer, id) ts.outgoing) (is_done-all _ _ d more ∙ same ∙ own))
        | inr n ↦ rw n (
            sending (fill window id tx).0 (get-put_key (peer, id) _ ts.outgoing) more (same ∙ own)
              (in_flight-left id tx n))
      ])

-- A transfer that begins hands out the chunks of the first window: of a payload that fits, and with
-- its length.
pub begin_send-progress :
    (peer id : ℕ) (payload : Bytes) (ts : Transfers)
    → fits (length payload) ≡ true
    → (chunks : List GamestateChunk) × ((begin_send peer id payload ts).1
        ≡ some (length payload, chunks))
      × Progress peer id payload (bytes_of chunks) (begin_send peer id payload ts).0
unfolding begin_send
begin_send-progress peer id payload ts h =
    let tx : Outgoing = record { payload = payload; offset = 0; in_flight = 0 } in
    let ts' : Transfers = record ts { outgoing = put key_discrete (peer, id) tx ts.outgoing } in
    rw (h, begin_send)
      (
        (pump peer id ts').1,
        refl,
        pump-progress peer id payload ts' tx [] (get-put_key (peer, id) tx ts.outgoing)
            (record { prefix = refl; inside = omega arith; bounded = omega arith }) refl,
      )

acked-IsSent :
    (count : ℕ) (tx : Outgoing) (sent : Bytes)
    → IsSent tx sent
    → IsSent (acked count tx) sent × ((acked count tx).payload ≡ tx.payload)
unfolding acked
acked-IsSent count tx sent v =
    let bound = v.bounded in
    (record { prefix = v.prefix; inside = v.inside; bounded = omega arith }, refl)

-- What `on_ack` does with an acknowledgement in range.
refills :
    (peer id count : ℕ) (payload sent : Bytes) (ts : Transfers) (tx : Outgoing)
    → IsSent tx sent
    → tx.payload ≡ payload
    → let r =
        if is_done (acked count tx)
        then (record ts { outgoing = erase key_discrete (peer, id) ts.outgoing }, [])
        else pump peer id
            (record ts { outgoing = put key_discrete (peer, id) (acked count tx) ts.outgoing }) in
      Progress peer id payload (sent ++ bytes_of r.1) r.0
refills peer id count payload sent ts tx v same =
    let (w, kept) = acked-IsSent count tx sent v in
    elim (Bool-cases (is_done (acked count tx))) [
      | inl d ↦
          rw (d, append_nil sent)
            (over (get-erase_key (peer, id) ts.outgoing) (is_done-all _ sent d w ∙ kept ∙ same))
      | inr n ↦ rw n (
          pump-progress peer id payload _ (acked count tx) sent
            (get-put_key (peer, id) _ ts.outgoing) w (kept ∙ same))
    ]

-- Whatever a peer acknowledges, and however often: what it was sent is the start of the payload,
-- at most a window of chunks is in flight, and a transfer that is not over has a chunk in flight to
-- be acknowledged. A transfer that is over has sent its whole payload.
pub on_ack-progress :
    (peer id count : ℕ) (payload sent : Bytes) (ts : Transfers)
    → Progress peer id payload sent ts
    → let r = on_ack peer id count ts in Progress peer id payload (sent ++ bytes_of r.1) r.0
unfolding on_ack
on_ack-progress peer id count payload sent ts (over gone all) =
    rw (gone, on_ack, append_nil sent) (over gone all)
on_ack-progress peer id count payload sent ts (sending tx here v same busy) =
    rw (here, on_ack)
      (elim (Bool-cases (count == 0 || ltb tx.in_flight count)) [
        | inl bad ↦ rw (bad, append_nil sent) (sending tx here v same busy)
        | inr good ↦ rw good (refills peer id count payload sent ts tx v same)
      ])
