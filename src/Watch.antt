-- ===== src/Watch.antt =====
-- watchChangeEvents of pcsm/repl.go: the loop that reads the change stream of the source, keeps the
-- events of a transaction back until the transaction is complete, and sends events to the channel.
-- The cursor is its feed: what each call of TryNext finds.
pub mod Order
pub mod Ticks
mod Tests
use percona_link_mongodb.Bson.{Timestamp, zero_timestamp}
use percona_link_mongodb.Prelude.{
  Bool, true, false, Option, none, some, List, [], ◌∷◌, ◌++◌, if◌then◌else◌,
}
use percona_link_mongodb.Errors.{Error, wrap}
use percona_link_mongodb.Events.{
  tick, ChangeEvent, EventHeader, Namespace, no_event, is_transaction, is_same_transaction,
}
use percona_link_mongodb.Events.Parse.{ParseResult, parsed, failed}

-- cur.Err() and cur.ID(): the cursor is open, or is closed with an error or with none.
pub data CursorStatus : Type 0 where
  open_cursor : CursorStatus
  closed : Option Error → CursorStatus

-- topo.AdvanceClusterTime
pub data Clock : Type 0 where
  advanced : Timestamp → Clock
  clock_failed clock_canceled : Clock

-- One call of TryNext. With an event: what the parser makes of it, and the cursor's status after it.
-- Without one: the status, and the clock that the outer loop reads next, if it comes to that.
pub data Item : Type 0 where
  next : ParseResult → CursorStatus → Item
  idle : CursorStatus → Clock → Item

pub record Watch : Type 0 where
  pub txn : Option (ChangeEvent × List ChangeEvent)  -- txn0 and txnOps
  pub source_ts : Timestamp
  pub last_event_ts : Timestamp
  pub sent : List ChangeEvent  -- what went to the channel, the oldest first
  pub stopped : Option (Option Error)  -- the loop has returned

unfoldable pub send : List ChangeEvent → Watch → Watch
send es w = record w { sent = w.sent ++ es }

unfoldable pub stop : Option Error → Watch → Watch
stop err w = record w { stopped = some err }

-- `if err := cur.Err(); err != nil || cur.ID() == 0 { return errors.Wrap(err, "cursor") }`
unfoldable pub check_cursor : CursorStatus → Watch → Watch
unfolding stop
check_cursor open_cursor w = w
check_cursor (closed err) w = stop (wrap err "cursor") w

-- The head of the outer loop: a failed clock is logged, and leaves the zero time.
unfoldable pub read_clock : Clock → Watch → Watch
unfolding stop
read_clock (advanced ts) w = record w { source_ts = ts; last_event_ts = zero_timestamp }
read_clock clock_failed w = record w { source_ts = zero_timestamp; last_event_ts = zero_timestamp }
read_clock clock_canceled w = stop none w

unfoldable pub tick_event : Timestamp → ChangeEvent
tick_event ts = record {
  header = record {
    operation_type = tick;
    namespace = record { database = ""; collection = "" };
    collection_uuid = none;
    txn_number = none;
    lsid = [];
    id = [];
    cluster_time = ts;
  };
  event = no_event;
}

-- An event outside of a transaction.
unfoldable pub on_event : ChangeEvent → Watch → Watch
unfolding send
on_event e w =
    if is_transaction e.header
    then record w { txn = some (e, []) }
    else record (send (e ∷ []) w) { last_event_ts = e.cluster_time }

-- An event while the transaction of txn0 is kept back: it belongs to it, or it ends it.
unfoldable pub on_txn_event :
    ChangeEvent → List ChangeEvent → ChangeEvent → CursorStatus → Watch → Watch
unfolding send check_cursor
on_txn_event txn0 ops e status w =
    if is_same_transaction txn0.header e.header
    then record w { txn = some (txn0, ops ++ (e ∷ [])) }
    else if is_transaction e.header
    then record (send (txn0 ∷ ops) w) { txn = some (e, []) }
    else check_cursor status (record (send (e ∷ []) (send (txn0 ∷ ops) w)) { txn = none })

module _ (after : Timestamp → Timestamp → Bool) where
  -- No event, and no transaction: progress the time of the replication.
  unfoldable pub on_idle : CursorStatus → Clock → Watch → Watch
  unfolding send stop read_clock tick_event
  on_idle (closed err) clock w = stop (wrap err "cursor") w
  on_idle open_cursor clock w =
      read_clock clock
        (if after w.source_ts w.last_event_ts then send (tick_event w.source_ts ∷ []) w else w)

  dispatch : Option (ChangeEvent × List ChangeEvent) → Item → Watch → Watch
  unfolding on_event on_txn_event on_idle send stop
  dispatch none (next (failed err) status) w = stop (some err) w
  dispatch none (next (parsed e) status) w = on_event e w
  dispatch none (idle status clock) w = on_idle status clock w
  dispatch (some (txn0, ops)) (next (failed err) status) w = stop (some err) w
  dispatch (some (txn0, ops)) (next (parsed e) status) w = on_txn_event txn0 ops e status w
  dispatch (some (txn0, ops)) (idle (closed err) clock) w = stop (wrap err "cursor") w
  dispatch (some (txn0, ops)) (idle open_cursor clock) w = record (send (txn0 ∷ ops) w) {
    txn = none;
  }

  running : Option (Option Error) → Item → Watch → Watch
  unfolding dispatch
  running none item w = dispatch w.txn item w
  running (some err) item w = w

  unfoldable pub watch_step : Watch → Item → Watch
  unfolding running
  watch_step w item = running w.stopped item w

  unfoldable pub watch_run : Watch → List Item → Watch
  unfolding watch_step
  watch_run w [] = w
  watch_run w (item ∷ feed) = watch_run (watch_step w item) feed
