-- ===== src/Watch/Ticks.antt =====
-- When the watch loop progresses the time of the replication, and what that time can be.
use percona_link_mongodb.Bson.{Timestamp}
use percona_link_mongodb.Prelude.{Bool, true, ◌≡◌, none, List, [], ◌∷◌, ◌++◌}
use mathlib.Core.List.{append_assoc}
use percona_link_mongodb.Events.{ChangeEvent, is_transaction}
use percona_link_mongodb.Events.Parse.{parsed}
use percona_link_mongodb.Watch.{
  open_cursor, advanced, Item, next, idle, Watch, watch_run, tick_event,
}

-- The feed: one event, and then nothing twice, the cursor staying open.
abbrev pub lone_event : ChangeEvent → Timestamp → Timestamp → List Item
lone_event e t1 t2 =
    next (parsed e) open_cursor
    ∷ idle open_cursor (advanced t1)
    ∷ idle open_cursor (advanced t2)
    ∷ []

module _ (after : Timestamp → Timestamp → Bool) (w : Watch) (e : ChangeEvent)
    (t1 t2 : Timestamp) where
  -- A running loop with no transaction kept back reads one event, then finds nothing twice. If the
  -- event is part of a transaction and the source time read before it is later than the last event
  -- time, then the loop sends the event and behind it a tick with that source time, whatever the
  -- time of the event is: a tick may carry an older time than the event before it.
  pub tick_after_transaction :
      w.stopped ≡ none
      → w.txn ≡ none
      → is_transaction e.header ≡ true
      → after w.source_ts w.last_event_ts ≡ true
      → (watch_run after w (lone_event e t1 t2)).sent ≡ w.sent ++ (e ∷ tick_event w.source_ts ∷ [])
  unfolding watch_run
  tick_after_transaction s t h a = simp (s, t, h, a, append_assoc)
