-- ===== src/Repl/Recovery.antt =====
-- Checkpoint and Recover of pcsm/repl.go, put together.
use percona_link_mongodb.Prelude.{
  sym, ℕ, ◌≡◌, refl, String, Bool, true, false, none, some, nat_eqb, arith, if-cases, ◌==◌,
  string_eq, ==_iff, if◌then◌else◌,
}
use percona_link_mongodb.Errors.{Error, message}
use percona_link_mongodb.Catalog.{Catalog}
use percona_link_mongodb.Bulk.{new_client_bulk_write, new_collection_bulk_write}
use percona_link_mongodb.Repl.{
  saved, Repl, ReplCheckpoint, new_repl, is_client, error_text, error_of, queue_for, checkpoint,
  restored, recover,
}

pub error_text-error_of :
    (text : Error → String) (msg : String) → error_text text (error_of msg) ≡ msg
unfolding error_of error_text message
error_text-error_of text msg =
    if-cases (λ e. error_text text e ≡ msg) (msg == "") (λ h. sym ((==_iff msg "").0 h)) (λ h. refl)

is_client-queue_for : (b : Bool) → is_client (some (queue_for b)) ≡ b
unfolding queue_for is_client new_client_bulk_write new_collection_bulk_write
is_client-queue_for true = refl
is_client-queue_for false = refl

-- `r'` is `r` as far as a checkpoint tells.
pub record IsRestored (text : Error → String) (now : ℕ) (r r' : Repl) : Type 0 where
  pub start_time : r'.start_time ≡ r.start_time
  pub pause_time : r'.pause_time ≡ (if nat_eqb r.pause_time 0 then now else r.pause_time)
  pub events : r'.events_processed ≡ r.events_processed
  pub op_time : r'.last_replicated_op_time ≡ r.last_replicated_op_time
  pub error : error_text text r'.err ≡ error_text text r.err
  pub client : is_client r'.bulk_write ≡ is_client r.bulk_write

is_saved :
    (text : Error → String) (r : Repl) (cp : ReplCheckpoint)
    → checkpoint text r ≡ some cp
    → cp ≡ saved text r
unfolding checkpoint
is_saved text r cp = ground arith

pub restored-saved :
    (text : Error → String) (now : ℕ) (r r0 : Repl)
    → IsRestored text now r (restored now (saved text r) r0)
unfolding restored saved
restored-saved text now r r0 = record {
  start_time = refl;
  pause_time = refl;
  events = refl;
  op_time = refl;
  error = error_text-error_of text (error_text text r.err);
  client = is_client-queue_for (is_client r.bulk_write);
}

-- Whatever is recovered from a checkpoint of a Repl, into a new Repl, has no error of its own and
-- has the start time, the counter, the position, the error text and the kind of queue of the
-- checkpointed one, and its pause time, or the time of recovery if it was not paused.
pub recover-checkpoint :
    (text : Error → String) (now : ℕ) (catalog : Catalog) (f : String → String → Bool) (r : Repl)
    (cp : ReplCheckpoint)
    → checkpoint text r ≡ some cp
    → let (err, r') = recover now cp (new_repl catalog f) in (err ≡ none) × IsRestored text now r r'
unfolding recover new_repl
recover-checkpoint text now catalog f r cp h =
    (refl, rw (is_saved text r cp h) (restored-saved text now r (new_repl catalog f)))
