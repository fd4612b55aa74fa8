-- ===== src/Repl/Loop.antt =====
-- run, doBulkOps and findNamespaceByUUID of pcsm/repl.go: the loop that applies the change events
-- that watchChangeEvents sends. A step says whether the loop goes on, and gives the loop's state and
-- the target. Times are in nanoseconds; `now` reads the clock at a state of the target.
pub mod Flush
pub mod Runs
pub mod Counts
pub mod Lost
use percona_link_mongodb.Prelude.Maps.{lookup}
use percona_link_mongodb.Bson.{Bytes, Timestamp, zero_timestamp}
use percona_link_mongodb.Prelude.{
  ℕ, ◌+◌, ◌-◌, String, Bool, true, false, not, ◌&&◌, Option, none, some, List, [], ◌∷◌, nat_eqb,
  leb, ◌==◌, string_eq, nat_eq, list_eq, if◌then◌else◌,
}
use percona_link_mongodb.Errors.{Error}
use percona_link_mongodb.Events.{
  OperationType, create, rename, drop, drop_database, tick, ChangeEvent, EventHeader, Event,
  Namespace, insert_event, update_event, replace_event, delete_event,
}
use percona_link_mongodb.Target.{Target}
use percona_link_mongodb.Catalog.{Catalog, UuidMap, uuid_map}
use percona_link_mongodb.Bulk.{
  Bulk, WriteModel, BulkTarget, insert_model, update_model, replace_model, delete_model, full,
  empty, add, do_bulk,
}
use percona_link_mongodb.Repl.{Repl, set_failed}
use percona_link_mongodb.Repl.Ddl.{apply_event}

-- The Repl, with the fields that only its loop uses, and the loop's variable `uuidMap`. While the
-- loop runs, `bulk` is r.bulkWrite, which Start or Recover has set.
pub record Loop : Type 0 where
  pub repl : Repl
  pub bulk : Bulk
  pub bulk_token : Bytes
  pub bulk_ts : Timestamp
  pub last_bulk_done_at : ℕ
  pub uuids : UuidMap

pub record Env (W : Type 0) : Type 0 where
  pub target : Target W
  pub bulk_target : BulkTarget W
  pub now : W → ℕ
  pub grow : ℕ → ℕ  -- the growth of a slice

-- config.PCSMDatabase, config.BulkOpsInterval
abbrev pub pcsm_database : String
pcsm_database = "percona_clustersync_mongodb"

abbrev pub bulk_ops_interval : ℕ
bulk_ops_interval = 1000000000

abbrev or_given : Option Namespace → Namespace → Namespace
or_given none ns = ns
or_given (some found) ns = found

unfoldable pub find_namespace_by_uuid : UuidMap → EventHeader → Namespace
find_namespace_by_uuid uuids change = elim change.collection_uuid [
  | none ↦ change.namespace
  | some uuid ↦ or_given (lookup uuid uuids) change.namespace
]

unfoldable pub is_tick : OperationType → Bool
is_tick op = elim op [ tick ↦ true | _ ↦ false ]

-- The events after which uuidMap is read again.
unfoldable pub moves_uuids : OperationType → Bool
moves_uuids op = elim op [
  | create ↦ true
  | rename ↦ true
  | drop ↦ true
  | drop_database ↦ true
  | _ ↦ false
]

-- The write that an Insert, Update, Delete or Replace event asks for.
unfoldable pub write_of : Event → Option WriteModel
write_of event = elim event [
  | insert_event key document ↦ some (insert_model key document)
  | update_event key d ↦ some (update_model key d)
  | delete_event key ↦ some (delete_model key)
  | replace_event key document ↦ some (replace_model key document)
  | _ ↦ none
]

-- lastReplicatedOpTime, and eventsProcessed by `n` more.
abbrev pub advanced : Timestamp → ℕ → Loop → Loop
advanced ts n l = record l {
  repl = record l.repl {
    last_replicated_op_time = ts;
    events_processed = l.repl.events_processed + n;
  };
}

abbrev with_catalog : Catalog → Loop → Loop
with_catalog c l = record l { repl = record l.repl { catalog = c } }

unfoldable pub enqueued : (ℕ → ℕ) → ChangeEvent → WriteModel → Loop → Loop
enqueued grow change m l = record l {
  bulk = add grow (find_namespace_by_uuid l.uuids change.header) m l.bulk;
  bulk_token = change.header.id;
  bulk_ts = change.header.cluster_time;
}

-- An event that is left out.
unfoldable pub skipped : ChangeEvent → Loop → Loop
skipped change l = if empty l.bulk then advanced change.header.cluster_time 1 l else l

module _ {W : Type 0} (env : Env W) where
  abbrev pub Step : Type 0
  Step = Bool × Loop × W

  unfoldable pub and_then : Step → (Loop → W → Step) → Step
  and_then (false, l, w) f = (false, l, w)
  and_then (true, l, w) f = f l w

  unfoldable pub bulk_ops_done : Option Error → ℕ → Bulk → Loop → W → Step
  bulk_ops_done (some e) size bulk l w =
      (false, record l { bulk = bulk; repl = set_failed (some e) l.repl }, w)
  bulk_ops_done none size bulk l w =
      if nat_eqb size 0 then (true, record l { bulk = bulk }, w) else (
        true,
        record (advanced l.bulk_ts size l) { bulk = bulk; last_bulk_done_at = env.now w },
        w,
      )

  unfoldable pub do_bulk_ops : Loop → W → Step
  unfolding bulk_ops_done
  do_bulk_ops l w =
      let (err, size, bulk, w') = do_bulk env.bulk_target l.bulk w in
      bulk_ops_done err size bulk l w'

  unfoldable pub flush_due : Loop → W → Step
  flush_due l w =
      if leb bulk_ops_interval (env.now w - l.last_bulk_done_at) && not (empty l.bulk)
      then do_bulk_ops l w
      else (true, l, w)

  unfoldable pub flush_any : Loop → W → Step
  flush_any l w = if empty l.bulk then (true, l, w) else do_bulk_ops l w

  unfoldable pub flush_full : Loop → W → Step
  flush_full l w = if full l.bulk then do_bulk_ops l w else (true, l, w)

  unfoldable pub ddl_done : ChangeEvent → Loop → Option Error × Catalog × W → Step
  ddl_done change l (some e, c, w) =
      (false, record l { repl = set_failed (some e) (record l.repl { catalog = c }) }, w)
  ddl_done change l (none, c, w) =
      let l' = advanced change.header.cluster_time 1 (with_catalog c l) in
      (
        true,
        record l' {
          uuids = if moves_uuids change.header.operation_type then uuid_map c else l.uuids;
        },
        w,
      )

  unfoldable pub apply_ddl : ChangeEvent → Loop → W → Step
  unfolding ddl_done
  apply_ddl change l w =
      ddl_done change l (apply_event env.target change change.event l.repl.catalog w)

  -- The switch on the operation type: a write is queued, any other event waits for the queue.
  unfoldable pub apply_as : ChangeEvent → Option WriteModel → Loop → W → Step
  apply_as change (some m) l w = (true, enqueued env.grow change m l, w)
  apply_as change none l w = and_then (flush_any l w) (apply_ddl change)

  unfoldable pub apply_change : ChangeEvent → Loop → W → Step
  unfolding apply_as
  apply_change change l w = apply_as change (write_of change.event) l w

  -- The body of the loop after the first check of the queue.
  unfoldable pub handle_change : ChangeEvent → Loop → W → Step
  handle_change change l w =
      let ns = change.header.namespace in
      if is_tick change.header.operation_type
      then (true, advanced change.header.cluster_time 0 l, w)
      else if ns.database == pcsm_database
      then (true, skipped change l, w)
      else if not (l.repl.ns_filter ns.database ns.collection)
      then (true, skipped change l, w)
      else and_then (apply_change change l w) flush_full

  unfoldable pub loop_step : ChangeEvent → Loop → W → Step
  loop_step change l w = and_then (flush_due l w) (handle_change change)

  -- The loop over the channel until it is closed, and the last flush.
  unfoldable pub run_loop : List ChangeEvent → Loop → W → Step
  run_loop [] l w = flush_any l w
  run_loop (change ∷ changes) l w = and_then (loop_step change l w) (run_loop changes)

-- A Repl that has not run yet, with the queue that Start or Recover has made.
unfoldable pub fresh_loop : Repl → Bulk → Loop
fresh_loop r bulk = record {
  repl = r;
  bulk = bulk;
  bulk_token = [];
  bulk_ts = zero_timestamp;
  last_bulk_done_at = 0;
  uuids = [];
}

-- The start of a run: what an earlier run left in the queue is still there.
unfoldable pub begin_loop : ℕ → Loop → Loop
begin_loop now l = record l { last_bulk_done_at = now; uuids = uuid_map l.repl.catalog }
