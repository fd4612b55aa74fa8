-- ===== src/Repl/Loop/Lost.antt =====
-- What a checkpoint that is taken after a tick forgets: the loop of pcsm/repl.go, and Checkpoint and
-- Recover of the same file.
use percona_link_mongodb.Prelude.{
  ℕ, ◌-◌, ◌≡◌, refl, arith, ap, ◌∙◌, String, Bool, true, false, none, some, leb,
}
use percona_link_mongodb.Bulk.{new_collection_bulk_write, new_client_bulk_write, Bulk, empty}
use percona_link_mongodb.Errors.{Error}
use percona_link_mongodb.Events.{ChangeEvent}
use percona_link_mongodb.Catalog.{Catalog}
use percona_link_mongodb.Repl.{ReplCheckpoint, new_repl, checkpoint, recover, restored, queue_for}
use percona_link_mongodb.Repl.Recovery.{recover-checkpoint}
use percona_link_mongodb.Repl.Loop.{
  Loop, Env, Step, is_tick, advanced, bulk_ops_interval, and_then, flush_due, handle_change,
  loop_step,
}

empty-queue_for : (b : Bool) → empty (queue_for b) ≡ true
unfolding queue_for empty new_client_bulk_write new_collection_bulk_write
empty-queue_for true = refl
empty-queue_for false = refl

module _ {W : Type 0} (env : Env W) where
  loop_step-tick :
      (change : ChangeEvent) (l : Loop) (w : W)
      → is_tick change.header.operation_type ≡ true
      → leb bulk_ops_interval (env.now w - l.last_bulk_done_at) ≡ false
      → loop_step env change l w ≡ (true, advanced change.header.cluster_time 0 l, w)
  unfolding loop_step flush_due and_then handle_change
  loop_step-tick change l w h young = rw (young, h) refl

  -- After a tick that finds the queue younger than the interval, the loop goes on with every queued
  -- write where it is, not written, and the counter as it was; and what is recovered into a new
  -- Repl from a checkpoint that is taken then has an empty queue, the position of the tick, and the
  -- counter without those writes.
  pub tick_loses_queue :
      (change : ChangeEvent) (l : Loop) (w : W) (text : Error → String) (now : ℕ)
      (catalog : Catalog) (f : String → String → Bool) (cp : ReplCheckpoint)
      → is_tick change.header.operation_type ≡ true
      → leb bulk_ops_interval (env.now w - l.last_bulk_done_at) ≡ false
      → checkpoint text (loop_step env change l w).1.repl ≡ some cp
      → let (go, l', w') = loop_step env change l w in
        let (err, r') = recover now cp (new_repl catalog f) in
        (go ≡ true)
        × (l'.bulk ≡ l.bulk)
        × (w' ≡ w)
        × (l'.repl.events_processed ≡ l.repl.events_processed)
        × (err ≡ none)
        × ((bulk : Bulk) × (r'.bulk_write ≡ some bulk) × (empty bulk ≡ true))
        × (r'.last_replicated_op_time ≡ change.header.cluster_time)
        × (r'.events_processed ≡ l.repl.events_processed)
  unfolding recover new_repl restored
  tick_loses_queue change l w text now catalog f cp h young saved =
      let step = loop_step-tick change l w h young in
      let (fine, back) =
        recover-checkpoint text now catalog f (loop_step env change l w).1.repl cp saved in
      let counted : (loop_step env change l w).1.repl.events_processed ≡ l.repl.events_processed =
        ap (λ (s : Step env). s.1.repl.events_processed) step ∙ omega arith in
      (
        ap (λ (s : Step env). s.0) step,
        ap (λ (s : Step env). s.1.bulk) step,
        ap (λ (s : Step env). s.2) step,
        counted,
        fine,
        (queue_for cp.use_client_bulk_write, refl, empty-queue_for cp.use_client_bulk_write),
        back.op_time ∙ ap (λ (s : Step env). s.1.repl.last_replicated_op_time) step,
        back.events ∙ counted,
      )
