-- ===== src/Watch/Tests.antt =====
-- Witnesses of the watch loop: a transaction of two events between two plain events.
use percona_link_mongodb.Bson.{Timestamp, zero_timestamp}
use percona_link_mongodb.Prelude.{
  ℕ, Bool, ◌≡◌, refl, Option, none, some, List, [], ◌∷◌, ◌++◌, leb, not,
}
use percona_link_mongodb.Errors.{new}
use percona_link_mongodb.Events.{ChangeEvent, insert, no_event, is_transaction, is_same_transaction}
use percona_link_mongodb.Events.Parse.{parsed, failed}
use percona_link_mongodb.Watch.{
  open_cursor, Item, next, idle, advanced, Watch, watch_run, tick_event,
}
use percona_link_mongodb.Watch.Order.{real, pending, taken, watch_run_order}
use percona_link_mongodb.Watch.Ticks.{lone_event, tick_after_transaction}

abbrev at : ℕ → Timestamp
at n = record { t = n; i = 0 }

abbrev later : Timestamp → Timestamp → Bool
later a b = not (leb a.t b.t)

abbrev event_at : ℕ → Option ℕ → ChangeEvent
event_at n txn = record {
  header = record {
    operation_type = insert;
    namespace = record { database = "db"; collection = "c" };
    collection_uuid = none;
    txn_number = txn;
    lsid = [];
    id = [];
    cluster_time = at n;
  };
  event = no_event;
}

abbrev start : Watch
start = record {
  txn = none;
  source_ts = at 5;
  last_event_ts = zero_timestamp;
  sent = [];
  stopped = none;
}

abbrev feed : List Item
feed =
    next (parsed (event_at 1 none)) open_cursor
    ∷ next (parsed (event_at 2 (some 7))) open_cursor
    ∷ next (parsed (event_at 2 (some 7))) open_cursor
    ∷ next (parsed (event_at 3 none)) open_cursor
    ∷ idle open_cursor (advanced (at 9))
    ∷ next (failed (new "bad")) open_cursor
    ∷ next (parsed (event_at 4 none)) open_cursor
    ∷ []

feed_sent :
    (watch_run later start feed).sent
    ≡ event_at 1 none
      ∷ event_at 2 (some 7)
      ∷ event_at 2 (some 7)
      ∷ event_at 3 none
      ∷ tick_event (at 5)
      ∷ []
unfolding watch_run is_transaction is_same_transaction
feed_sent = refl

watch_run_order_example :
    let w' = watch_run later start feed in
    real (w'.sent ++ pending w')
    ≡ real (start.sent ++ pending start) ++ real (taken later start feed)
watch_run_order_example = watch_run_order later start feed

tick_after_transaction_example :
    (watch_run later start (lone_event (event_at 8 (some 7)) (at 9) (at 10))).sent
    ≡ event_at 8 (some 7) ∷ tick_event (at 5) ∷ []
unfolding is_transaction
tick_after_transaction_example =
    tick_after_transaction later start (event_at 8 (some 7)) (at 9) (at 10) refl refl refl refl
