-- ===== src/Repl/Tests.antt =====
-- Witnesses of the replication.
use percona_link_mongodb.Bson.{Timestamp, int, pos, str}
use percona_link_mongodb.Prelude.{
  ℕ, ◌+◌, ◌≡◌, refl, String, true, false, none, some, List, [], ◌∷◌, arith,
}
use percona_link_mongodb.Errors.{Error}
use percona_link_mongodb.Events.{
  OperationType, ChangeEvent, Event, tick, drop, delete, delete_event, drop_event, no_event,
}
use percona_link_mongodb.Target.{Target}
use percona_link_mongodb.Bulk.{Bulk, BulkTarget, full, empty, new_client_bulk_write, add}
use percona_link_mongodb.Bulk.Queue.{size}
use percona_link_mongodb.Repl.{Repl, new_repl, checkpoint, saved, recover}
use percona_link_mongodb.Repl.Loop.{
  Loop, Env, is_tick, and_then, flush_due, handle_change, apply_change, write_of, flush_full,
  enqueued, loop_step, run_loop, fresh_loop,
}
use percona_link_mongodb.Repl.Loop.Flush.{IsReady}
use percona_link_mongodb.Repl.Loop.Runs.{SteppedAs, RanAs, loop_step-SteppedAs, run_loop-RanAs}
use percona_link_mongodb.Repl.Loop.Lost.{tick_loses_queue}
use percona_link_mongodb.Repl.Recovery.{IsRestored, recover-checkpoint}

-- A target on which every call succeeds, and is counted.
abbrev agreeing : Target ℕ
agreeing = record {
  run_command = λ db cmd n. (none, n + 1);
  drop = λ db coll n. (none, n + 1);
  drop_index = λ db coll index n. (none, n + 1);
  list_collection_names = λ db n. (none, [], n + 1);
  encode_index = λ s. str s.name;
  simple_collation = [];
}

-- A bulk target that counts its calls, beside the target that does so too.
abbrev counting : BulkTarget ℕ
counting = record {
  client_bulk_write = λ writes n. (none, n + 1);
  coll_bulk_write = λ ns ops n. (none, n + 1);
}

abbrev env : Env ℕ
env = record { target = agreeing; bulk_target = counting; now = λ n. n; grow = λ n. n + n }

abbrev at : ℕ → Timestamp
at n = record { t = n; i = 1 }

abbrev change_of : OperationType → Event → ℕ → ChangeEvent
change_of op event n = record {
  header = record {
    operation_type = op;
    namespace = record { database = "db"; collection = "c" };
    collection_uuid = none;
    txn_number = none;
    lsid = [];
    id = [];
    cluster_time = at n;
  };
  event = event;
}

abbrev deletes : ℕ → ChangeEvent
deletes n = change_of delete (delete_event (("_id", int (pos n)) ∷ [])) n

abbrev started_repl : Repl
started_repl = record (new_repl [] (λ db coll. true)) {
  start_time = 4;
  last_replicated_op_time = at 1;
  bulk_write = some (new_client_bulk_write 2);
}

abbrev begun : Loop
begun = fresh_loop started_repl (new_client_bulk_write 2)

begun-IsReady : IsReady begun
unfolding fresh_loop new_client_bulk_write full size
begun-IsReady = record { valid = record { counted = tt; bounded = omega arith }; has_room = refl }

loop_step-SteppedAs_example : SteppedAs env (deletes 2) begun (loop_step env (deletes 2) begun 0)
loop_step-SteppedAs_example = loop_step-SteppedAs env (deletes 2) begun 0 begun-IsReady

abbrev changes : List ChangeEvent
changes =
    deletes 2 ∷ deletes 3 ∷ deletes 4 ∷ change_of drop drop_event 5 ∷ change_of tick no_event 6 ∷ []

run_loop-RanAs_example : RanAs env changes begun (run_loop env changes begun 0)
run_loop-RanAs_example = run_loop-RanAs env changes begun 0 begun-IsReady

-- A tick at 7, with the write of the event at 2 still in the queue.
abbrev one_queued : Loop
one_queued = (loop_step env (deletes 2) begun 0).1

abbrev text : Error → String
text e = "driver"

tick_loses_queue_example :
    let (go, l', w') = loop_step env (change_of tick no_event 7) one_queued 0 in
    let (err, r') = recover 9 (saved text l'.repl) (new_repl [] (λ db coll. true)) in
    (go ≡ true)
    × (l'.bulk ≡ one_queued.bulk)
    × (w' ≡ 0)
    × (l'.repl.events_processed ≡ one_queued.repl.events_processed)
    × (err ≡ none)
    × ((bulk : Bulk) × (r'.bulk_write ≡ some bulk) × (empty bulk ≡ true))
    × (r'.last_replicated_op_time ≡ at 7)
    × (r'.events_processed ≡ one_queued.repl.events_processed)
unfolding is_tick loop_step and_then flush_due fresh_loop handle_change new_repl apply_change
    write_of flush_full full enqueued add new_client_bulk_write checkpoint
tick_loses_queue_example =
    tick_loses_queue env (change_of tick no_event 7) one_queued 0 text 9 [] (λ db coll. true)
      (saved text (loop_step env (change_of tick no_event 7) one_queued 0).1.repl) refl refl refl

-- The queue that is lost holds the write.
queue_is_full : empty one_queued.bulk ≡ false
unfolding empty loop_step and_then flush_due fresh_loop handle_change new_repl apply_change is_tick
    write_of flush_full full enqueued add new_client_bulk_write
queue_is_full = refl

recover-checkpoint_example :
    let (err, r') = recover 9 (saved text started_repl) (new_repl [] (λ db coll. true)) in
    (err ≡ none) × IsRestored text 9 started_repl r'
unfolding checkpoint
recover-checkpoint_example =
    recover-checkpoint text 9 [] (λ db coll. true) started_repl (saved text started_repl) refl
