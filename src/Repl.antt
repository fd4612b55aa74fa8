-- ===== src/Repl.antt =====
-- pcsm/repl.go: `Repl`, its status, checkpoint and life cycle. A time.Time is a number, and zero is
-- the zero time; `now` is time.Now(). The mutex is left out: each operation is one step.
-- The part of the state that the running loop owns is in Repl/Loop.
pub mod Ddl
pub mod Loop
pub mod Recovery
mod Tests
use percona_link_mongodb.Bson.{Timestamp, zero_timestamp}
use percona_link_mongodb.Prelude.{
  ℕ, String, Bool, true, false, not, ◌&&◌, ◌⊎◌, inl, inr, Option, none, some, nat_eqb, is_some,
  if◌then◌else◌, ◌==◌, string_eq,
}
use percona_link_mongodb.Errors.{Error, new, wrap, message}
use percona_link_mongodb.Catalog.{Catalog}
use percona_link_mongodb.Bulk.{
  Bulk, client, collection, new_client_bulk_write, new_collection_bulk_write,
}

-- config.BulkOpsSize
abbrev pub bulk_ops_size : ℕ
bulk_ops_size = 1000

-- `bulk_write` is none for the nil interface, before Start or Recover.
pub record Repl : Type 0 where
  pub ns_filter : String → String → Bool
  pub catalog : Catalog
  pub last_replicated_op_time : Timestamp
  pub err : Option Error
  pub events_processed : ℕ
  pub start_time : ℕ
  pub pause_time : ℕ
  pub pausing : Bool
  pub bulk_write : Option Bulk

unfoldable pub new_repl : Catalog → (String → String → Bool) → Repl
new_repl catalog ns_filter = record {
  ns_filter = ns_filter;
  catalog = catalog;
  last_replicated_op_time = zero_timestamp;
  err = none;
  events_processed = 0;
  start_time = 0;
  pause_time = 0;
  pausing = false;
  bulk_write = none;
}

unfoldable pub is_zero : Timestamp → Bool
is_zero ts = nat_eqb ts.t 0 && nat_eqb ts.i 0

pub record ReplStatus : Type 0 where
  pub start_time : ℕ
  pub pause_time : ℕ
  pub last_replicated_op_time : Timestamp
  pub events_processed : ℕ
  pub err : Option Error

unfoldable pub is_started : ReplStatus → Bool
is_started rs = not (nat_eqb rs.start_time 0)

unfoldable pub is_paused : ReplStatus → Bool
is_paused rs = not (nat_eqb rs.pause_time 0)

unfoldable pub is_running : ReplStatus → Bool
unfolding is_started is_paused
is_running rs = is_started rs && not (is_paused rs)

unfoldable pub status : Repl → ReplStatus
status r = record {
  start_time = r.start_time;
  pause_time = r.pause_time;
  last_replicated_op_time = r.last_replicated_op_time;
  events_processed = r.events_processed;
  err = r.err;
}

-- `error` is the text of the error, "" for none.
pub record ReplCheckpoint : Type 0 where
  pub start_time : ℕ
  pub pause_time : ℕ
  pub events_processed : ℕ
  pub last_replicated_op_time : Timestamp
  pub error : String
  pub use_client_bulk_write : Bool

-- `_, ok := r.bulkWrite.(*clientBulkWrite)`
unfoldable pub is_client : Option Bulk → Bool
is_client none = false
is_client (some (client o)) = true
is_client (some (collection o)) = false

unfoldable pub error_text : (Error → String) → Option Error → String
error_text text none = ""
error_text text (some e) = message text e

unfoldable pub saved : (Error → String) → Repl → ReplCheckpoint
unfolding is_client error_text
saved text r = record {
  start_time = r.start_time;
  pause_time = r.pause_time;
  events_processed = r.events_processed;
  last_replicated_op_time = r.last_replicated_op_time;
  error = error_text text r.err;
  use_client_bulk_write = is_client r.bulk_write;
}

unfoldable pub checkpoint : (Error → String) → Repl → Option ReplCheckpoint
unfolding saved
checkpoint text r =
    if nat_eqb r.start_time 0 && not (is_some r.err) then none else some (saved text r)

unfoldable pub error_of : String → Option Error
error_of text = if text == "" then none else some (new text)

unfoldable pub queue_for : Bool → Bulk
queue_for use_client =
    if use_client
    then new_client_bulk_write bulk_ops_size
    else new_collection_bulk_write bulk_ops_size

unfoldable pub restored : ℕ → ReplCheckpoint → Repl → Repl
unfolding error_of queue_for
restored now cp r = record r {
  start_time = cp.start_time;
  pause_time = if nat_eqb cp.pause_time 0 then now else cp.pause_time;
  events_processed = cp.events_processed;
  last_replicated_op_time = cp.last_replicated_op_time;
  bulk_write = some (queue_for cp.use_client_bulk_write);
  err = error_of cp.error;
}

unfoldable pub recover : ℕ → ReplCheckpoint → Repl → Option Error × Repl
recover now cp r = elim r.err [
  | some e ↦ (wrap (some e) "cannot recover due an existing error", r)
  | none ↦
      if nat_eqb r.start_time 0
      then (none, restored now cp r)
      else (some (new "cannot recovery: already used"), r)
]

unfoldable pub reset_error : Repl → Repl
reset_error r = record r { err = none }

-- `version` is the answer of topo.Version on the target, reduced to whether the server supports
-- client bulk writes; `use_collection` is config.UseCollectionBulkWrite().
unfoldable pub start : ℕ → Error ⊎ Bool → Bool → Repl → Option Error × Repl
unfolding queue_for
start now version use_collection r = elim r.err [
  | some e ↦ (wrap (some e) "cannot start due an existing error", r)
  | none ↦
      if nat_eqb r.start_time 0
      then elim version [
        | inl e ↦ (wrap (some e) "major version", r)
        | inr supported ↦ (
          none,
          record r {
            bulk_write = some (queue_for (supported && not use_collection));
            start_time = now;
          },
        )
      ]
      else (some (new "already started"), r)
]

-- doPause up to its goroutine, and what the goroutine does once the loop has ended.
unfoldable pub do_pause : Repl → Repl
do_pause r = record r { pausing = true }

unfoldable pub pause_done : ℕ → Repl → Repl
pause_done now r = record r { pause_time = now; pausing = false }

unfoldable pub pause : Repl → Option Error × Repl
unfolding do_pause
pause r =
    if nat_eqb r.start_time 0
    then (some (new "not running"), r)
    else if r.pausing
    then (some (new "already pausing"), r)
    else if not (nat_eqb r.pause_time 0)
    then (some (new "already paused"), r)
    else (none, do_pause r)

-- `err` may be nil: the caller's error is stored as it is.
unfoldable pub set_failed : Option Error → Repl → Repl
unfolding do_pause
set_failed err r = do_pause (record r { err = err })

unfoldable pub resume : Repl → Option Error × Repl
unfolding is_zero
resume r =
    if nat_eqb r.start_time 0
    then (some (new "not started"), r)
    else if r.pausing
    then (some (new "pausing"), r)
    else if nat_eqb r.pause_time 0
    then (some (new "not paused"), r)
    else if is_zero r.last_replicated_op_time
    then (some (new "missing optime"), r)
    else (none, record r { pause_time = 0 })
