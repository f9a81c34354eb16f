-- ===== src/Server/Drop.antt =====
-- src/relay/server_fsm.rs: the slot list that everyone gets, and how a peer is dropped.
use native.Mathlib.Decide.{ℕ_discrete}
use veredus.Auth.{server_display_name}
use veredus.Base.{Bool, false, ◌||◌, none, some, [], ◌∷◌, ◌++◌, if◌then◌else◌, is_some}
use veredus.Base.Maps.{get}
use veredus.Fault.{PeerFault, DisconnectReason, reason}
use veredus.Server.{Context, disconnects}
use veredus.Server.Cast.{push, broadcast, uuid_of}
use veredus.Server.Save.{save_slots}
use veredus.Session.{is_setup, is_syncing, is_in_game}
use veredus.Slots.{mark_disconnected, unassigned, status_not_ready}
use veredus.Slots.Message.{to_message}
use veredus.Turn.{PeerId}
use veredus.Wire.Lobby.{Host, PlayerSlots}
use veredus.Wire.Message.{player_slots}

-- The row of the relay itself.
unfoldable pub server_host : Context → Host
server_host c = record {
  guid = c.server_uuid;
  name = server_display_name c.config.server_name;
  player_id = unassigned;
  status = status_not_ready;
}

unfoldable pub broadcast_player_slots : Context → Context
broadcast_player_slots c =
    let slots : PlayerSlots = record {
      hosts = (to_message c.slots).hosts ++ (server_host c ∷ []);
    } in
    save_slots (broadcast (player_slots slots) (λ s. is_setup s || is_syncing s || is_in_game s) c)

unfoldable pub is_admitted : PeerId → Context → Bool
is_admitted peer c = elim (get ℕ_discrete peer c.sessions) [
  | none ↦ false
  | some s ↦ is_some s.admitted
]

-- What `disconnect` does for a peer that was admitted.
unfoldable pub leave_slot : PeerId → Context → Context
leave_slot peer c = broadcast_player_slots (elim (uuid_of peer c) [
  | none ↦ c
  | some uuid ↦ record c { slots = mark_disconnected uuid c.slots }
])

unfoldable pub disconnect : PeerId → DisconnectReason → Context → Context
unfolding push
disconnect peer why c =
    push (disconnects peer why ∷ []) (if is_admitted peer c then leave_slot peer c else c)

-- The method `fault`.
unfoldable pub on_fault : PeerId → PeerFault → Context → Context
on_fault peer what c = elim (reason what) [ none ↦ c | some why ↦ disconnect peer why c ]
