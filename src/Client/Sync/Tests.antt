-- ===== src/Client/Sync/Tests.antt =====
-- A client that reads a stream of three events.
use xlchat_project.Common.{suc, ◌≡◌, refl, true, false, none, some, [], map, length, select, arith}
use xlchat_project.Database.{Event}
use xlchat_project.Database.Events.{is_due, pruned_below_seq}
use xlchat_project.Database.Events.Pruning.{IsOrdered}
use xlchat_project.Database.Events.Paging.{last_seq}
use xlchat_project.Handler.Examples.{db}
use xlchat_project.Client.Examples.{plain_crypto, parse, empty_store, hello, twelve}
use xlchat_project.Client.Sync.{ClientEvent, message, Client, sync_events_request, ingest_events}
use xlchat_project.Client.Sync.Exchange.{exchanges}
use xlchat_project.Client.Sync.CatchUp.{exchanges_catch_up}

ordered : IsOrdered db
ordered = record {
  ascending = (omega arith, (omega arith, (omega arith, omega arith)));
  watermark = omega arith;
}

abbrev client : Client
client = record {
  authenticated = true;
  user = 1;
  device = [];
  kept = record { store = empty_store; outbox = [] };
  cursor = 5;
  next_id = 1;
  pending_sync = 0;
  wire = none;
  asked = 0;
}

-- Each event brings the message of its number.
abbrev read_event : Event → ClientEvent
read_event e = message (record hello { id = e.seq }) false (some twelve) (some twelve)

exchanges_catch_up_example :
    let due = select (is_due 1 5) db.events in
    let x =
      exchanges plain_crypto parse read_event
        (suc (length due))
        db
        (sync_events_request client 5) in
    (x.wire ≡ none)
    × (x.kept ≡ ingest_events plain_crypto parse 1 [] client.kept (map read_event due))
    × (x.cursor ≡ last_seq 5 due)
unfolding pruned_below_seq
exchanges_catch_up_example =
    exchanges_catch_up plain_crypto parse read_event db client ordered refl refl refl (omega arith)
