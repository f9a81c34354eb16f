-- ===== src/Lib.antt =====
-- Verification library for veredus, a dedicated server (a relay of turns) for 0 A.D.
--
-- The server keeps one state for each match. A client's packet is parsed into a message
-- (`WireMessage`), limits on what the client sends are charged, and the message changes the
-- match: the turn manager decides which turns may be released to the clients and whether their
-- hashes of a turn agree, the slot table says who holds which player slot, transfers move the
-- state of a match from a player to one that joins, the log of the match replays it what came
-- after, and the observer feed holds all of that back for observers on a delay. The server's
-- handlers join these parts: each takes the context of the match and one message, and gives the
-- new context, the effects that were pushed, and the fault of the peer if there is one. Before a
-- handler sees an attempt to join, the ingress gate decides whether it may.
--
-- Files and what they model:
--   Turn          src/relay/turn.rs, `TurnManager`: registration, seals and the release of turns;
--                 Turn/Hashes has the state hashes, their comparison and the desync latch, and
--                 Turn/History every order of calls as a step relation.
--   Slots         src/relay/slots.rs: the table of players, and Slots/History its orders of calls.
--   RateLimit     src/relay/rate_limit.rs: the token bucket and the quota of commands by turn.
--   Wire          src/relay/messages and src/utils.rs: readers and writers, with the messages by
--                 group in Wire/Handshake, Wire/Lobby and Wire/Match, and the envelope of
--                 src/relay/messages/mod.rs in Wire/Message.
--   Transfer      src/relay/gamestate_transfer.rs: states in chunks, sent in Transfer/Send and
--                 collected in Transfer/Receive.
--   ObserverFeed  src/relay/observer_feed.rs: the delayed feed, with what comes due when in
--                 ObserverFeed/Schedule.
--   PauseBudget   src/relay/pause_budget.rs: how long each player may hold the match.
--   MatchLog      src/relay/turn.rs, `MatchLog`: what a joiner is replayed.
--   Server        src/relay/server_fsm.rs, the running match: what each message of a client
--                 does to the match (Server/Play, Server/Rejoin), what is sent to whom
--                 (Server/Cast) and saved (Server/Save), pauses, lost clients (Server/Drop,
--                 Server/Depart) and the delayed stream (Server/Feed). Server/History and the
--                 files beside it have the theorems.
--   Session       src/relay/session.rs: what the server keeps of a connection.
--   Auth          src/relay/auth.rs: the names of clients, and whether a client fits the server.
--   Script        src/relay/messages/player_command.rs: the serialised value of a command, of
--                 which the server reads the type.
--   Ingress       src/relay/ingress.rs: the ledgers of joins and of wrong passwords in
--                 Ingress/Ledger, and the gate that charges them in Ingress/Gate.
--   Journal       src/savegame/journal.rs: the journal of a saved match, and what a crash
--                 leaves of it.
--   Text          texts, UTF-8 and UTF-16 as Rust's standard library has them.
--   Fault         src/relay/fault.rs: the errors of parsing and of peers.
--   Base          tests into Bool, lists, maps, results and machine integers.
--
-- How the code becomes definitions. A `&mut self` method is a function from the state to the new
-- state, with its result beside it; `Result` is `Base.Result`. A `HashMap` is an association list
-- with one entry for each key, a `HashSet` a list without repeats. Integers are natural numbers
-- with wrap-around and saturation written out; an `i8` or `i32` on the wire is its bit pattern.
-- A cursor into a buffer is the list of the bytes left. The fields `data` are named `payload`, and
-- the field `length` of a `GamestateResponse` is `size`.
--
-- Loops. `release_paced` runs on fuel, one round more than the highest seal is past the ready
-- turn, which is enough since a released turn is below a seal; `none` says the fuel ran out.
-- The loops that read a list of items run on as many rounds as bytes are left, which is enough
-- since an item takes a byte at least. Parsing UTF-8 does the same. `pump` has one round for
-- each chunk of a window. The nesting of a serialised value is bounded by the source's own
-- depth, and the journal is read in as many rounds as bytes are left, which is enough since a
-- record takes more than one byte. The release of turns in the server is total where the
-- clients' seals are `u32`. `deduplicate` runs on fuel too, and one round more than there are
-- names in use is enough.
--
-- Not modelled: admission, the phases around a running match, the fetch of snapshots and what
-- the departure of a client does outside the match (src/relay/server_fsm.rs), the rest of the
-- saved matches, the lobby, the sidecar process, and the ENet transport, which is a copy of
-- another library. The lowercase of a text, the category of a character and the checksum of the
-- journal are calls of libraries, and so parameters. Time is a number that the caller gives,
-- and logging is left out.
pub mod Base
pub mod Text
pub mod Fault
pub mod Turn
pub mod Slots
pub mod RateLimit
pub mod Wire
pub mod Auth
pub mod Ingress
pub mod Journal
pub mod MatchLog
pub mod ObserverFeed
pub mod PauseBudget
pub mod Script
pub mod Server
pub mod Session
pub mod Transfer
