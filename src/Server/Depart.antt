-- ===== src/Server/Depart.antt =====
-- src/relay/server_fsm.rs: what `deliver_snapshot` does for a joiner on a delay, and what
-- `on_disconnected` does to the match.
use veredus.Base.{ℕ}
use veredus.ObserverFeed as Feed
use veredus.ObserverFeed.{hold_join}
use veredus.Server.{Context, Phase}
use veredus.Server.Feed.{advance_feed, report_all}
use veredus.Server.Play.{release_in}
use veredus.Server.Save.{save_settled_hashes}
use veredus.Text.{Bytes}
use veredus.Turn as Turns
use veredus.Turn.{PeerId}
use veredus.Turn.Hashes.{recheck_pending}
use veredus.Wire.Match.{Join}

-- The state of a match for a delayed joiner waits on the feed, which may give it out at once.
unfoldable pub hold_snapshot : PeerId → ℕ → Join → Bytes → Context → Context
hold_snapshot joiner bound join snapshot c =
    advance_feed (record c { feed = hold_join joiner bound join snapshot c.feed })

-- The parts of the match that forget a peer.
unfoldable pub leave_match : PeerId → Context → Context
leave_match peer c = record c { turns = Turns.forget peer c.turns; feed = Feed.forget peer c.feed }

-- The end of `on_disconnected`: nobody waits for the peer any longer.
unfoldable pub settle_departure : Phase → Context → Context
settle_departure phase c =
    let c = release_in phase c.config.turn_length_ms c in
    let (turns, found) = recheck_pending c.turns in
    save_settled_hashes (report_all found (record c { turns = turns }))
