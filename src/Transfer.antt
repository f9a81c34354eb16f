-- ===== src/Transfer.antt =====
-- src/relay/gamestate_transfer.rs: the states of matches that go to clients and come from them, in
-- chunks. A time is a number of nanoseconds; a transfer is known by a peer and a request id.
pub mod Send
pub mod Receive
mod Examples
use native.Mathlib.Decide.{ℕ_discrete}
use veredus.Base.{
  ℕ, zero, suc, ◌+◌, ◌-◌, ◌*◌, ◌≡◌, min, Bool, true, false, ◌&&◌, ◌||◌, not, Option, none, some,
  List, [], ◌∷◌, ◌++◌, length, take, drop, ltb, leb, ◌==◌, if◌then◌else◌, is_some, is_empty, select,
}
use veredus.Base.Words.{add_u32}
use veredus.Base.Result.{Result, ok, err}
use veredus.Base.Maps.{get, put, erase}
use veredus.Fault.{PeerFault, wrong_phase, transfer_overrun}
use veredus.Text.{Bytes}
use veredus.Turn.{PeerId}
use veredus.Wire.Match.{GamestateChunk}

abbrev pub chunk_size : ℕ
chunk_size = 1024

abbrev pub window : ℕ
window = 32

abbrev pub max_transfer : ℕ
max_transfer = 8388608

unfoldable pub fits : ℕ → Bool
fits len = not (len == 0) && leb len max_transfer

pub data Purpose : Type 0 where
  join_snapshot : (joiner floor : ℕ) → Purpose
  save_snapshot ai_snapshot : (floor : ℕ) → Purpose
  savegame : Purpose

pub record Outgoing : Type 0 where
  pub payload : Bytes
  pub offset : ℕ
  pub in_flight : ℕ

pub record Incoming : Type 0 where
  pub purpose : Purpose
  pub declared : ℕ
  pub buf : Bytes
  pub last_progress : Option ℕ

abbrev pub Key : Type 0
Key = PeerId × ℕ

unfoldable pub key_discrete : Discrete Key
unfolding ℕ_discrete
key_discrete (p, i) (q, j) = elim (ℕ_discrete p q) [
  | yes e ↦ elim (ℕ_discrete i j) [ yes f ↦ yes cc | no n ↦ no (λ h. n (cc h)) ]
  | no n ↦ no (λ h. n (cc h))
]

pub record Transfers : Type 0 where
  pub next_request_id : ℕ
  pub outgoing : List (Key × Outgoing)
  pub incoming : List (Key × Incoming)
  pub granted : List (PeerId × Bytes)

unfoldable pub allocate : Transfers → Transfers × ℕ
allocate ts = let id = add_u32 ts.next_request_id 1 in (record ts { next_request_id = id }, id)

unfoldable pub expect : PeerId → ℕ → Purpose → Transfers → Transfers
expect peer request_id purpose ts = record ts {
  incoming =
      put key_discrete (peer, request_id)
        (record { purpose = purpose; declared = 0; buf = []; last_progress = none }) ts.incoming;
}

-- One entry of `stalled`: the entry with its clock set, or `none` if it is dropped.
unfoldable pub wait_on : ℕ → ℕ → Incoming → Option Incoming
wait_on now limit rx = elim rx.purpose [
  | savegame ↦ some rx
  | join_snapshot joiner floor ↦ waits
  | save_snapshot floor ↦ waits
  | ai_snapshot floor ↦ waits
]
  where
    since : ℕ
    since = elim rx.last_progress [ none ↦ now | some t ↦ t ]

    waits : Option Incoming
    waits =
        if ltb now since
        then some (record rx { last_progress = some now })
        else if ltb (now - since) limit
        then some (record rx { last_progress = some since })
        else none

unfoldable pub joiner_of : PeerId → Purpose → List (PeerId × PeerId)
joiner_of source (join_snapshot joiner floor) = (source, joiner) ∷ []
joiner_of source (save_snapshot floor) = []
joiner_of source (ai_snapshot floor) = []
joiner_of source savegame = []

unfoldable pub stalled_in :
    ℕ → ℕ → List (Key × Incoming) → List (Key × Incoming) × List (PeerId × PeerId)
unfolding wait_on joiner_of
stalled_in now limit [] = ([], [])
stalled_in now limit ((k, rx) ∷ es) =
    let rest = stalled_in now limit es in
    elim (wait_on now limit rx) [
      | some rx' ↦ ((k, rx') ∷ rest.0, rest.1)
      | none ↦ (rest.0, joiner_of k.0 rx.purpose ++ rest.1)
    ]

unfoldable pub stalled : ℕ → ℕ → Transfers → Transfers × List (PeerId × PeerId)
unfolding stalled_in
stalled now limit ts =
    let r = stalled_in now limit ts.incoming in (record ts { incoming = r.0 }, r.1)

unfoldable pub grant : PeerId → Bytes → Transfers → Transfers
grant peer payload ts = record ts { granted = put ℕ_discrete peer payload ts.granted }

unfoldable pub take_grant : PeerId → Transfers → Transfers × Option Bytes
take_grant peer ts =
    (record ts { granted = erase ℕ_discrete peer ts.granted }, get ℕ_discrete peer ts.granted)

unfoldable pub abandon : PeerId → ℕ → Transfers → Transfers
abandon peer request_id ts = record ts {
  incoming = erase key_discrete (peer, request_id) ts.incoming;
}

-- The loop of `pump`. A round puts one chunk in flight, so `window` rounds are enough.
unfoldable pub fill : ℕ → ℕ → Outgoing → Outgoing × List GamestateChunk
fill zero request_id tx = (tx, [])
fill (suc fuel) request_id tx =
    let end = min (tx.offset + chunk_size) (length tx.payload) in
    let chunk : GamestateChunk = record {
      request_id = request_id;
      payload = take (end - tx.offset) (drop tx.offset tx.payload);
    } in
    let rest = fill fuel request_id (record tx { offset = end; in_flight = tx.in_flight + 1 }) in
    if ltb tx.in_flight window && ltb tx.offset (length tx.payload)
    then (rest.0, chunk ∷ rest.1)
    else (tx, [])

unfoldable pub is_done : Outgoing → Bool
is_done tx = leb (length tx.payload) tx.offset && tx.in_flight == 0

unfoldable pub pump : PeerId → ℕ → Transfers → Transfers × List GamestateChunk
pump peer request_id ts = elim (get key_discrete (peer, request_id) ts.outgoing) [
  | none ↦ (ts, [])
  | some tx ↦
      let r = fill window request_id tx in
      (
        record ts {
          outgoing =
              if is_done r.0
              then erase key_discrete (peer, request_id) ts.outgoing
              else put key_discrete (peer, request_id) r.0 ts.outgoing;
        },
        r.1,
      )
]

unfoldable pub begin_send :
    PeerId → ℕ → Bytes → Transfers → Transfers × Option (ℕ × List GamestateChunk)
begin_send peer request_id payload ts =
    if not (fits (length payload))
    then (ts, none)
    else (let tx : Outgoing = record { payload = payload; offset = 0; in_flight = 0 } in
        let r =
          pump peer request_id
            (record ts { outgoing = put key_discrete (peer, request_id) tx ts.outgoing }) in
        (r.0, some (length payload, r.1)))

-- What an acknowledgement in range leaves of a transfer, before the window is filled again.
unfoldable pub acked : ℕ → Outgoing → Outgoing
acked count tx = record tx { in_flight = tx.in_flight - count }

unfoldable pub on_ack : PeerId → ℕ → ℕ → Transfers → Transfers × List GamestateChunk
on_ack peer request_id count ts = elim (get key_discrete (peer, request_id) ts.outgoing) [
  | none ↦ (ts, [])
  | some tx ↦
      if count == 0 || ltb tx.in_flight count
      then (ts, [])
      else if is_done (acked count tx)
      then (record ts { outgoing = erase key_discrete (peer, request_id) ts.outgoing }, [])
      else pump peer request_id (record ts {
        outgoing = put key_discrete (peer, request_id) (acked count tx) ts.outgoing;
      })
]

unfoldable pub on_response : PeerId → ℕ → ℕ → Transfers → Result PeerFault Transfers
on_response peer request_id len ts = elim (get key_discrete (peer, request_id) ts.incoming) [
  | none ↦ err wrong_phase
  | some rx ↦
      if len == 0 || ltb max_transfer len
      then err transfer_overrun
      else ok (record ts {
        incoming =
            put key_discrete (peer, request_id)
              (record rx { declared = len; buf = []; last_progress = none }) ts.incoming;
      })
]

-- The state is given beside the result, since a chunk too many drops the transfer.
unfoldable pub on_chunk :
    PeerId → ℕ → Bytes → Transfers → Transfers × Result PeerFault (Option (Purpose × Bytes))
on_chunk peer request_id payload ts = elim (get key_discrete (peer, request_id) ts.incoming) [
  | none ↦ (ts, err wrong_phase)
  | some rx ↦
      let buf = rx.buf ++ payload in
      let dropped : Transfers = record ts {
        incoming = erase key_discrete (peer, request_id) ts.incoming;
      } in
      if ltb rx.declared (length buf)
      then (dropped, err transfer_overrun)
      else if ltb (length buf) rx.declared
      then (
        record ts {
          incoming =
              put key_discrete (peer, request_id) (record rx { buf = buf; last_progress = none })
                ts.incoming;
        },
        ok none,
      )
      else (dropped, ok (some (rx.purpose, buf)))
]

-- Whether `forget` keeps an entry, and the joiner it leaves without a source.
unfoldable pub keeps : PeerId → Key × Incoming → Bool
keeps peer (k, rx) = elim rx.purpose [
  | join_snapshot joiner floor ↦ not (joiner == peer) && not (k.0 == peer)
  | save_snapshot floor ↦ not (k.0 == peer)
  | ai_snapshot floor ↦ not (k.0 == peer)
  | savegame ↦ not (k.0 == peer)
]

unfoldable pub orphans : PeerId → List (Key × Incoming) → List PeerId
orphans peer [] = []
orphans peer ((k, rx) ∷ es) =
    let rest = orphans peer es in
    elim rx.purpose [
      | join_snapshot joiner floor ↦
          if not (joiner == peer) && k.0 == peer then joiner ∷ rest else rest
      | save_snapshot floor ↦ rest
      | ai_snapshot floor ↦ rest
      | savegame ↦ rest
    ]

unfoldable pub forget : PeerId → Transfers → Transfers × List PeerId
unfolding keeps orphans
forget peer ts = (
  record ts {
    outgoing = select (λ e. not (e.0.0 == peer)) ts.outgoing;
    incoming = select (keeps peer) ts.incoming;
    granted = erase ℕ_discrete peer ts.granted;
  },
  orphans peer ts.incoming,
)
