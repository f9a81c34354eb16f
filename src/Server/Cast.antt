-- ===== src/Server/Cast.antt =====
-- src/relay/server_fsm.rs, `Context`: sending to one client and to many, and who may speak.
use native.Mathlib.Decide.{ℕ_discrete}
use veredus.Base.{
  ℕ, Bool, true, false, ◌&&◌, ◌||◌, not, Option, none, some, List, [], ◌∷◌, ◌++◌, map, select, ◌==◌,
  ltb, if◌then◌else◌, any,
}
use veredus.Base.Maps.{get, put}
use veredus.Base.Result.{Result, ok, err, ok_or, ◌>>=◌}
use veredus.Fault.{PeerFault, no_session, not_controller, wrong_phase, flooding}
use veredus.RateLimit.{Limits, Verdict, pass, drop, kick}
use veredus.Server.{Context, Effect, send_to}
use veredus.Session.{Session, is_in_game, is_syncing}
use veredus.Slots.{slot_of, unassigned}
use veredus.Text.{Guid, Text, same_text}
use veredus.Turn.{PeerId, is_delayed, delayed_peers}
use veredus.Wire.Message.{WireMessage, chat}

unfoldable pub push : List Effect → Context → Context
push es c = record c { effects = c.effects ++ es }

unfoldable pub send : PeerId → WireMessage → Context → Context
unfolding push
send peer msg c = push (send_to peer msg ∷ []) c

-- The peers whose session is accepted, in the order of the map.
unfoldable pub peers_where : (PeerId → Session → Bool) → Context → List PeerId
peers_where accept c = map (λ e. e.0) (select (λ e. accept e.0 e.1) c.sessions)

unfoldable pub send_all : List PeerId → WireMessage → Context → Context
unfolding push
send_all peers msg c = push (map (λ p. send_to p msg) peers) c

unfoldable pub broadcast : WireMessage → (Session → Bool) → Context → Context
unfolding send_all peers_where
broadcast msg accept c = send_all (peers_where (λ p s. accept s) c) msg c

unfoldable pub broadcast_except : PeerId → WireMessage → (Session → Bool) → Context → Context
unfolding send_all peers_where
broadcast_except except msg accept c =
    send_all (peers_where (λ p s. not (p == except) && accept s) c) msg c

-- Who sees the match live.
unfoldable pub live_peers : Context → List PeerId
unfolding peers_where
live_peers c = peers_where (λ p s. is_in_game s && not (is_delayed p c.turns)) c

unfoldable pub broadcast_live : WireMessage → Context → Context
unfolding send_all live_peers
broadcast_live msg c = send_all (live_peers c) msg c

unfoldable pub broadcast_delayed : WireMessage → Context → Context
unfolding send_all
broadcast_delayed msg c = send_all (delayed_peers c.turns) msg c

unfoldable pub server_chat : Option PeerId → Text → Context → Context
unfolding send broadcast
server_chat to text c =
    let msg = chat (record { sender_guid = c.server_uuid; message = text; receivers = [] }) in
    elim to [
      | some peer ↦ send peer msg c
      | none ↦ broadcast msg (λ s. elim s.admitted [ some a ↦ true | none ↦ false ]) c
    ]

unfoldable pub uuid_of : PeerId → Context → Option Guid
uuid_of peer c = elim (get ℕ_discrete peer c.sessions) [ none ↦ none | some s ↦ s.uuid ]

unfoldable pub is_ai_host : PeerId → Context → Bool
is_ai_host peer c = elim c.ai_host [
  | none ↦ false
  | some h ↦ elim h.peer [ none ↦ false | some p ↦ p == peer ]
]

unfoldable pub is_ai_host_uuid : Guid → Context → Bool
unfolding uuid_of
is_ai_host_uuid uuid c = elim c.ai_host [
  | none ↦ false
  | some h ↦ elim h.peer [
    | none ↦ false
    | some p ↦ elim (uuid_of p c) [ none ↦ false | some u ↦ same_text u uuid ]
  ]
]

unfoldable pub speaker : PeerId → (Session → Bool) → Context → Result PeerFault Guid
speaker peer allowed c = do
  session ← ok_or (get ℕ_discrete peer c.sessions) no_session
  if allowed session then ok_or session.uuid no_session else err wrong_phase

unfoldable pub is_controller : Guid → Context → Bool
is_controller uuid c = elim c.controller [ none ↦ false | some u ↦ same_text u uuid ]

unfoldable pub require_controller : PeerId → Context → Result PeerFault Guid
unfolding uuid_of is_controller
require_controller peer c = do
  uuid ← ok_or (uuid_of peer c) no_session
  if is_controller uuid c then ok uuid else err not_controller

-- The state is kept when the charge costs the connection.
unfoldable pub within_limit :
    PeerId → (Limits → Option ℕ → ℕ → Limits × Verdict) → Context → Context × Result PeerFault Bool
within_limit peer charge c = elim (get ℕ_discrete peer c.sessions) [
  | none ↦ (c, err no_session)
  | some session ↦
      let after = charge session.limits c.now c.config.flood_kick_multiple in
      (
        record c {
          sessions = put ℕ_discrete peer (record session { limits = after.0 }) c.sessions;
        },
        elim after.1 [ pass ↦ ok true | drop ↦ ok false | kick ↦ err flooding ],
      )
]

-- The names of the other methods are kept; here the test that a slot is one of a player.
unfoldable pub holds_slot : Guid → Context → Bool
holds_slot uuid c = elim (slot_of uuid c.slots) [ none ↦ false | some s ↦ not (s == unassigned) ]

unfoldable pub is_observer : Guid → Context → Bool
unfolding is_controller is_ai_host_uuid
is_observer uuid c =
    elim (slot_of uuid c.slots) [ none ↦ false | some s ↦ s == unassigned ]
    && not (is_controller uuid c)
    && not (is_ai_host_uuid uuid c)

unfoldable pub is_delayed_observer : Guid → Context → Bool
unfolding is_observer
is_delayed_observer uuid c = ltb 0 c.config.observer_delay_turns && is_observer uuid c

unfoldable pub players_remain : Context → Bool
unfolding holds_slot
players_remain c =
    any
      (λ e.
        (is_in_game e.1 || is_syncing e.1)
        && elim e.1.uuid [ none ↦ false | some u ↦ holds_slot u c ])
      c.sessions
