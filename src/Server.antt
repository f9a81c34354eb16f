-- ===== src/Server.antt =====
-- src/relay/server_fsm.rs, `Context`: the state of a game and what every handler of it calls. A
-- time is a number of nanoseconds, a `HashSet` a list, a port or an address its number. An `i32`
-- is its bit pattern, and so is the `i8` of a slot.
pub mod Save
pub mod Cast
pub mod Drop
pub mod Feed
pub mod Play
pub mod Rejoin
pub mod Depart
pub mod Frame
pub mod Advance
pub mod Moves
pub mod History
pub mod Command
pub mod Replay
pub mod Joiner
pub mod Seals
pub mod Outside
mod Examples
use veredus.Base.{
  ℕ, ◌+◌, Bool, true, false, Option, none, some, List, [], ltb, if◌then◌else◌, ◌==◌, any,
}
use veredus.Fault.{DisconnectReason}
use veredus.MatchLog.{MatchLog}
use veredus.ObserverFeed.{ObserverFeed}
use veredus.PauseBudget.{PauseBudget}
use veredus.Session.{Session}
use veredus.Slots.{Slots}
use veredus.Text.{Text, Guid, Bytes}
use veredus.Transfer.{Transfers}
use veredus.Turn.{PeerId, Hash, TurnManager}
use veredus.Wire.Match.{PlayerCommand}
use veredus.Wire.Message.{WireMessage}

abbrev pub command_delay : ℕ
command_delay = 4

abbrev pub pace_backlog_turns : ℕ
pace_backlog_turns = 2

-- The settings that the modelled handlers read.
pub record Config : Type 0 where
  pub server_name : Text
  pub turn_length_ms : ℕ
  pub observer_lag_limit : Option ℕ
  pub observer_delay_turns : ℕ
  pub commands_per_turn : ℕ
  pub command_bytes_per_turn : ℕ
  pub flood_kick_multiple : ℕ
  pub scripted : Bool
  pub pace_interval : ℕ
  pub saving : Bool

pub record FrozenSettings : Type 0 where
  pub cheats_enabled : Bool
  pub turn_length_ms : ℕ

pub data Phase : Type 0 where
  setup loading in_game post_game resuming : Phase

-- `SavedPlayer`, `SavedIdentity` and `SlotsSnapshot` of src/savegame/mod.rs.
pub record SavedPlayer : Type 0 where
  pub player_id : ℕ
  pub uuid : Text
  pub name : Text
  pub lobby_name : Text

pub record SavedIdentity : Type 0 where
  pub name : Text
  pub lobby_name : Text

pub record SlotsSnapshot : Type 0 where
  pub players : List SavedPlayer
  pub observers : List Text
  pub controller : Option SavedIdentity
  pub banned_names : List Text
  pub resigned : List ℕ
  pub forfeited : List Text

-- The effects that the modelled handlers push.
pub data Effect : Type 0 where
  send_to : PeerId → WireMessage → Effect
  disconnects : PeerId → DisconnectReason → Effect
  save_turn : (turn turn_length : ℕ) → List PlayerCommand → Effect
  save_hash : (turn : ℕ) → Hash → Effect
  saves_slots : SlotsSnapshot → Effect
  password_rejected : PeerId → Effect

-- `AiHost`: who it is, for whom it plays, and whether it is being brought back.
pub record AiHost : Type 0 where
  pub peer : Option PeerId
  pub players : List ℕ
  pub last_pull : Option ℕ
  pub healing : Bool

-- The fields of `Context` that the modelled handlers read or write. Of the checkpoint chain that
-- is the turn of its probe, of the counters those of hash mismatches.
pub record Context : Type 0 where
  pub config : Config
  pub sessions : List (PeerId × Session)
  pub slots : Slots
  pub controller : Option Guid
  pub server_uuid : Guid
  pub banned_names : List Text
  pub forfeited : List Guid
  pub resigned : List ℕ
  pub transfers : Transfers
  pub pause_budget : PauseBudget
  pub turns : TurnManager
  pub log : MatchLog
  pub feed : ObserverFeed
  pub probe : Option ℕ
  pub now : Option ℕ
  pub pace_anchor : Option ℕ
  pub ai_host : Option AiHost
  pub saved_slots : Option SlotsSnapshot
  pub hash_mismatches : ℕ
  pub observer_hash_mismatches : ℕ
  pub effects : List Effect

-- `i32::from` of a slot.
unfoldable pub player_of_slot : ℕ → ℕ
player_of_slot slot = if ltb slot 128 then slot else slot + 4294967040

-- `HashSet::insert` and `contains` of numbers.
unfoldable pub holds_ℕ : ℕ → List ℕ → Bool
holds_ℕ n ns = any (λ m. m == n) ns
