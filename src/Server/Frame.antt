-- ===== src/Server/Frame.antt =====
-- What of src/relay/server_fsm.rs leaves the match itself alone: the turn manager, the log of
-- commands and the delayed feed.
use veredus.Base.{
  ◌≡◌, refl, ◌∙◌, Option, none, some, List, [], ◌∷◌, inl, inr, Bool-cases, Option-cases,
}
use veredus.Fault.{PeerFault, DisconnectReason, reason}
use veredus.MatchLog.{MatchLog}
use veredus.ObserverFeed.{ObserverFeed}
use veredus.Server.{Context}
use veredus.Server.Cast.{push, send, server_chat, broadcast, send_all, uuid_of}
use veredus.Server.Drop.{broadcast_player_slots, leave_slot, disconnect, on_fault, is_admitted}
use veredus.Server.Feed.{report_mismatch, report_all}
use veredus.Server.Save.{save_slots, slots_snapshot, same_snapshot}
use veredus.Text.{Text}
use veredus.Turn.{PeerId, TurnManager, HashMismatch}

abbrev pub Match : Type 0
Match = TurnManager × MatchLog × ObserverFeed

abbrev pub match_of : Context → Match
match_of c = (c.turns, c.log, c.feed)

pub match-save_slots : (c : Context) → match_of (save_slots c) ≡ match_of c
unfolding save_slots push
match-save_slots c = elim (Option-cases c.saved_slots) [
  | inl e ↦ rw (e, save_slots) refl
  | inr (p, e) ↦ elim (Bool-cases (same_snapshot (slots_snapshot p c) p)) [
    | inl q ↦ rw (e, save_slots, q) refl
    | inr q ↦ rw (e, save_slots, q) refl
  ]
]

pub match-server_chat :
    (to : Option PeerId) (line : Text) (c : Context) → match_of (server_chat to line c) ≡ match_of c
unfolding server_chat send broadcast send_all push
match-server_chat none line c = refl
match-server_chat (some p) line c = refl

match-broadcast_player_slots : (c : Context) → match_of (broadcast_player_slots c) ≡ match_of c
unfolding broadcast_player_slots broadcast send_all push
match-broadcast_player_slots c = match-save_slots _

match-leave_slot : (peer : PeerId) (c : Context) → match_of (leave_slot peer c) ≡ match_of c
unfolding leave_slot
match-leave_slot peer c = elim (Option-cases (uuid_of peer c)) [
  | inl e ↦ rw (e, leave_slot) (match-broadcast_player_slots c)
  | inr (u, e) ↦ rw (e, leave_slot) (match-broadcast_player_slots _)
]

pub match-disconnect :
    (peer : PeerId) (why : DisconnectReason) (c : Context)
    → match_of (disconnect peer why c) ≡ match_of c
unfolding disconnect push
match-disconnect peer why c = elim (Bool-cases (is_admitted peer c)) [
  | inl e ↦ rw (e, disconnect) (match-leave_slot peer c)
  | inr e ↦ rw (e, disconnect) refl
]

pub match-on_fault :
    (peer : PeerId) (what : PeerFault) (c : Context) → match_of (on_fault peer what c) ≡ match_of c
unfolding on_fault
match-on_fault peer what c = elim (Option-cases (reason what)) [
  | inl e ↦ rw (e, on_fault) refl
  | inr (why, e) ↦ rw (e, on_fault) (match-disconnect peer why c)
]

match-report_mismatch :
    (m : HashMismatch) (c : Context) → match_of (report_mismatch m c) ≡ match_of c
unfolding report_mismatch send broadcast send_all push
match-report_mismatch m c = elim (Option-cases m.recipient) [
  | inl e ↦ rw (e, report_mismatch) refl
  | inr (p, e) ↦ rw (e, report_mismatch) refl
]

pub match-report_all :
    (ms : List HashMismatch) (c : Context) → match_of (report_all ms c) ≡ match_of c
unfolding report_all
match-report_all [] c = refl
match-report_all (m ∷ ms) c = match-report_all ms (report_mismatch m c) ∙ match-report_mismatch m c
