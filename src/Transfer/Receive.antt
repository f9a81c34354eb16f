-- ===== src/Transfer/Receive.antt =====
-- What an incoming transfer collects: never more than was declared, and in the end exactly that.
use veredus.Base.{
  ℕ, ◌≤◌, ◌<◌, ◌≡◌, refl, true, false, ◌||◌, Option, none, some, List, [], ◌∷◌, ◌++◌, length, ltb,
  ◌==◌, arith, inl, inr, Bool-cases, Option-cases, All, All-select, length-append,
}
use veredus.Base.Maps.{get, All-put, All-erase, All-get}
use veredus.Base.Result.{Result, ok, err}
use veredus.Base.Runs.{Run, Run-IsKept}
use veredus.Wire.Match.{GamestateChunk}
use veredus.Transfer.Send.{bytes_of, append_nil, get-put_key}
use veredus.Fault.{PeerFault}
use veredus.Text.{Bytes}
use veredus.Wire.RoundTrip.{append_assoc}
use veredus.Transfer.{
  Key, Incoming, Transfers, Purpose, key_discrete, max_transfer, expect, abandon, allocate, grant,
  take_grant, begin_send, on_ack, pump, on_response, on_chunk, stalled, stalled_in, wait_on, forget,
  keeps,
}

-- A transfer holds no more than its source declared, which is at most the limit.
abbrev pub IsWithin : Key × Incoming → Type 0
IsWithin e = (length e.1.buf ≤ e.1.declared) × (e.1.declared ≤ max_transfer)

abbrev pub IsBounded : Transfers → Type 0
IsBounded ts = All IsWithin ts.incoming

expect-IsBounded :
    (peer id : ℕ) (purpose : Purpose) (ts : Transfers)
    → IsBounded ts
    → IsBounded (expect peer id purpose ts)
unfolding expect
expect-IsBounded peer id purpose ts v =
    All-put key_discrete _ (peer, id) _ ts.incoming (omega arith, omega arith) v

abandon-IsBounded : (peer id : ℕ) (ts : Transfers) → IsBounded ts → IsBounded (abandon peer id ts)
unfolding abandon
abandon-IsBounded peer id ts v = All-erase key_discrete _ (peer, id) ts.incoming v

ok-same : (a b : Transfers) → ◌≡◌ {A = Result PeerFault Transfers} (ok a) (ok b) → a ≡ b
ok-same a b e = cc e

on_response-IsBounded :
    (peer id len : ℕ) (ts ts' : Transfers)
    → on_response peer id len ts ≡ ok ts'
    → IsBounded ts
    → IsBounded ts'
unfolding on_response
on_response-IsBounded peer id len ts ts' e v =
    elim (Option-cases (get key_discrete (peer, id) ts.incoming)) [
      | inl gone ↦ absurd (cc (rw (gone, on_response) at e))
      | inr (rx, here) ↦
          let f = rw (here, on_response) at e in
          elim (Bool-cases (len == 0 || ltb max_transfer len)) [
            | inl bad ↦ absurd (cc (rw bad at f))
            | inr good ↦ rw (← ok-same _ ts' (rw good at f)) (
                All-put key_discrete IsWithin (peer, id) _ ts.incoming
                  (omega arith, ground (arith, good)) v)
          ]
    ]

on_chunk-IsBounded :
    (peer id : ℕ) (payload : Bytes) (ts : Transfers)
    → IsBounded ts
    → IsBounded (on_chunk peer id payload ts).0
unfolding on_chunk
on_chunk-IsBounded peer id payload ts v =
    elim (Option-cases (get key_discrete (peer, id) ts.incoming)) [
      | inl gone ↦ rw (gone, on_chunk) v
      | inr (rx, here) ↦
          let known = All-get key_discrete IsWithin (peer, id) rx ts.incoming here v in
          rw (here, on_chunk)
            (elim (Bool-cases (ltb rx.declared (length (rx.buf ++ payload)))) [
              | inl many ↦ rw many (All-erase key_discrete _ (peer, id) ts.incoming v)
              | inr few ↦ rw few (elim (Bool-cases (ltb (length (rx.buf ++ payload)) rx.declared)) [
                | inl more ↦ rw more (
                    All-put key_discrete _ (peer, id) _ ts.incoming (ground (arith, few), known.1)
                      v)
                | inr done ↦ rw done (All-erase key_discrete _ (peer, id) ts.incoming v)
              ])
            ])
    ]

stalled_in-IsBounded :
    (now limit : ℕ) (es : List (Key × Incoming))
    → All IsWithin es
    → All IsWithin (stalled_in now limit es).0
unfolding stalled_in wait_on
stalled_in-IsBounded now limit [] v = tt
stalled_in-IsBounded now limit ((k, rx) ∷ es) v =
    ground (arith, stalled_in-IsBounded now limit es v.1)

stalled-IsBounded :
    (now limit : ℕ) (ts : Transfers) → IsBounded ts → IsBounded (stalled now limit ts).0
unfolding stalled
stalled-IsBounded now limit ts v = stalled_in-IsBounded now limit ts.incoming v

forget-IsBounded : (peer : ℕ) (ts : Transfers) → IsBounded ts → IsBounded (forget peer ts).0
unfolding forget
forget-IsBounded peer ts v = All-select _ (keeps peer) ts.incoming v

-- One call of a method that changes the transfers. A fault of `on_response` changes nothing.
pub data Step : Transfers → Transfers → Type 0 where
  allocates : (ts : Transfers) → Step ts (allocate ts).0
  expects : (ts : Transfers) (peer id : ℕ) (purpose : Purpose) → Step ts (expect peer id purpose ts)
  waits : (ts : Transfers) (now limit : ℕ) → Step ts (stalled now limit ts).0
  grants : (ts : Transfers) (peer : ℕ) (payload : Bytes) → Step ts (grant peer payload ts)
  takes : (ts : Transfers) (peer : ℕ) → Step ts (take_grant peer ts).0
  abandons : (ts : Transfers) (peer id : ℕ) → Step ts (abandon peer id ts)
  begins :
      (ts : Transfers) (peer id : ℕ) (payload : Bytes) → Step ts (begin_send peer id payload ts).0
  acknowledges : (ts : Transfers) (peer id count : ℕ) → Step ts (on_ack peer id count ts).0
  responds :
      (ts ts' : Transfers) (peer id len : ℕ) → on_response peer id len ts ≡ ok ts' → Step ts ts'
  collects :
      (ts : Transfers) (peer id : ℕ) (payload : Bytes) → Step ts (on_chunk peer id payload ts).0
  forgets : (ts : Transfers) (peer : ℕ) → Step ts (forget peer ts).0

-- Sending leaves what comes in as it was.
incoming-pump : (peer id : ℕ) (ts : Transfers) → (pump peer id ts).0.incoming ≡ ts.incoming
unfolding pump
incoming-pump peer id ts = ground arith

incoming-begin_send :
    (peer id : ℕ) (payload : Bytes) (ts : Transfers)
    → (begin_send peer id payload ts).0.incoming ≡ ts.incoming
unfolding begin_send
incoming-begin_send peer id payload ts = grind (arith, incoming-pump peer id)

incoming-on_ack :
    (peer id count : ℕ) (ts : Transfers) → (on_ack peer id count ts).0.incoming ≡ ts.incoming
unfolding on_ack
incoming-on_ack peer id count ts = grind (arith, incoming-pump peer id)

Step-IsBounded : (ts ts' : Transfers) → Step ts ts' → IsBounded ts → IsBounded ts'
unfolding allocate grant take_grant
Step-IsBounded _ _ (allocates ts) v = v
Step-IsBounded _ _ (expects ts p i purpose) v = expect-IsBounded p i purpose ts v
Step-IsBounded _ _ (waits ts now limit) v = stalled-IsBounded now limit ts v
Step-IsBounded _ _ (grants ts p d) v = v
Step-IsBounded _ _ (takes ts p) v = v
Step-IsBounded _ _ (abandons ts p i) v = abandon-IsBounded p i ts v
Step-IsBounded _ _ (begins ts p i d) v = rw (incoming-begin_send p i d ts) v
Step-IsBounded _ _ (acknowledges ts p i n) v = rw (incoming-on_ack p i n ts) v
Step-IsBounded _ _ (responds ts ts' p i n e) v = on_response-IsBounded p i n ts ts' e v
Step-IsBounded _ _ (collects ts p i d) v = on_chunk-IsBounded p i d ts v
Step-IsBounded _ _ (forgets ts p) v = forget-IsBounded p ts v

-- In every state that the calls can reach, whatever the peers send, a transfer that comes in holds
-- at most what its source declared, and that is at most 8 MiB.
pub Run-IsBounded : (ts ts' : Transfers) → IsBounded ts → Run Step ts ts' → IsBounded ts'
Run-IsBounded ts ts' v r = Run-IsKept IsBounded Step-IsBounded r v

-- The chunks of one transfer, in the order they come, up to the first that ends it.
unfoldable pub receive :
    ℕ
    → ℕ
    → List GamestateChunk
    → Transfers
    → Transfers × Result PeerFault (Option (Purpose × Bytes))
receive peer id [] ts = (ts, ok none)
receive peer id (c ∷ cs) ts =
    let rest = receive peer id cs (on_chunk peer id c.payload ts).0 in
    elim (on_chunk peer id c.payload ts).1 [
      | err fault ↦ on_chunk peer id c.payload ts
      | ok result ↦ elim result [ none ↦ rest | some r ↦ on_chunk peer id c.payload ts ]
    ]

on_chunk_more :
    (peer id : ℕ) (payload : Bytes) (ts : Transfers) (rx : Incoming)
    → get key_discrete (peer, id) ts.incoming ≡ some rx
    → length (rx.buf ++ payload) < rx.declared
    → (on_chunk peer id payload ts).1 ≡ ok none
      × (get key_discrete (peer, id) (on_chunk peer id payload ts).0.incoming
          ≡ some (record rx { buf = rx.buf ++ payload; last_progress = none }))
unfolding on_chunk
on_chunk_more peer id payload ts rx here less =
    let few : ltb rx.declared (length (rx.buf ++ payload)) ≡ false = ground (arith, less) in
    let more : ltb (length (rx.buf ++ payload)) rx.declared ≡ true = ground (arith, less) in
    rw (here, on_chunk) (rw (few, more) (refl, get-put_key (peer, id) _ ts.incoming))

on_chunk_last :
    (peer id : ℕ) (payload : Bytes) (ts : Transfers) (rx : Incoming)
    → get key_discrete (peer, id) ts.incoming ≡ some rx
    → length (rx.buf ++ payload) ≡ rx.declared
    → (on_chunk peer id payload ts).1 ≡ ok (some (rx.purpose, rx.buf ++ payload))
unfolding on_chunk
on_chunk_last peer id payload ts rx here all =
    let few : ltb rx.declared (length (rx.buf ++ payload)) ≡ false = ground (arith, all) in
    let done : ltb (length (rx.buf ++ payload)) rx.declared ≡ false = ground (arith, all) in
    rw (here, on_chunk) (rw (few, done) refl)

-- Chunks that together carry as many bytes as the transfer still lacks, none of them empty, end it
-- with what it held and what they carry, in order; no chunk before the last ends it.
pub receive_complete :
    (peer id : ℕ) (c : GamestateChunk) (cs : List GamestateChunk) (ts : Transfers) (rx : Incoming)
    → get key_discrete (peer, id) ts.incoming ≡ some rx
    → All (λ c. (length c.payload == 0) ≡ false) cs
    → length (rx.buf ++ bytes_of (c ∷ cs)) ≡ rx.declared
    → (receive peer id (c ∷ cs) ts).1 ≡ ok (some (rx.purpose, rx.buf ++ bytes_of (c ∷ cs)))
unfolding receive
receive_complete peer id c [] ts rx here full all =
    let last = on_chunk_last peer id c.payload ts rx here (rw append_nil at all) in
    rw (last, receive, append_nil) last
receive_complete peer id c (d ∷ ds) ts rx here full all =
    let len = length-append (rx.buf ++ c.payload) (bytes_of (d ∷ ds)) in
    let len' = length-append d.payload (bytes_of ds) in
    let split = append_assoc rx.buf c.payload (bytes_of (d ∷ ds)) in
    let all' : length ((rx.buf ++ c.payload) ++ bytes_of (d ∷ ds)) ≡ rx.declared = rw split all in
    let (quiet, kept) =
      on_chunk_more peer id c.payload ts rx here (ground (arith, len, len', all', full.0)) in
    rw (quiet, receive) (rw (← split) (receive_complete peer id d ds _ _ kept full.1 all'))
