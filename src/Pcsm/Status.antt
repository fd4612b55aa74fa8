-- ===== src/Pcsm/Status.antt =====
-- Status of pcsm/pcsm.go. The time of the source cluster, or the error of asking for it, is an
-- argument.
use percona_link_mongodb.Bson.{ℤ, pos, Timestamp, zero_timestamp, difference}
use percona_link_mongodb.Prelude.{Bool, false, not, Option, none, if◌then◌else◌}
use percona_link_mongodb.Errors.{Error}
use percona_link_mongodb.Exec.{Result, ok, fail}
use percona_link_mongodb.Repl.{ReplStatus, is_zero}
use percona_link_mongodb.Clone.{CloneStatus}
use percona_link_mongodb.Pcsm.{State, idle, Pcsm, is_failed, is_idle}
use percona_link_mongodb.Pcsm.Finish.{status_error, initial_sync_completed}

pub record Status : Type 0 where
  pub state : State
  pub error : Option Error
  pub total_lag_time : ℤ
  pub initial_sync_lag_time : ℤ
  pub initial_sync_completed : Bool
  pub repl : ReplStatus
  pub clone : CloneStatus

-- &Status{State: StateIdle}
unfoldable pub idle_status : Status
idle_status = record {
  state = idle;
  error = none;
  total_lag_time = pos 0;
  initial_sync_lag_time = pos 0;
  initial_sync_completed = false;
  repl = record {
    start_time = 0;
    pause_time = 0;
    last_replicated_op_time = zero_timestamp;
    events_processed = 0;
    err = none;
  };
  clone = record {
    estimated_total_size = 0;
    copied_size = 0;
    start_ts = zero_timestamp;
    finish_ts = zero_timestamp;
    start_time = 0;
    finish_time = 0;
    err = none;
  };
}

-- The lag behind the time of the source.
unfoldable pub lag_of : ReplStatus → CloneStatus → Result Timestamp → ℤ
unfolding difference
lag_of repl clone (fail e) = pos 0
lag_of repl clone (ok source_time) =
    if not (is_zero repl.last_replicated_op_time)
    then difference source_time.t repl.last_replicated_op_time.t
    else if not (is_zero clone.start_ts)
    then difference source_time.t clone.start_ts.t
    else pos 0

module _ (after : Timestamp → Timestamp → Bool) where
  -- The lag of a program that has not failed.
  unfoldable pub total_lag : Result Timestamp → Pcsm → ℤ
  unfolding lag_of is_failed
  total_lag source_time ml =
      if is_failed ml.state
      then pos 0
      else lag_of (percona_link_mongodb.Repl.status ml.repl)
          (percona_link_mongodb.Clone.status ml.clone) source_time

  unfoldable pub status : Result Timestamp → Pcsm → Status
  unfolding is_idle idle_status total_lag
  status source_time ml = if is_idle ml.state then idle_status else record {
    state = ml.state;
    error = status_error ml;
    total_lag_time = total_lag source_time ml;
    initial_sync_lag_time =
        if initial_sync_completed after ml then pos 0 else total_lag source_time ml;
    initial_sync_completed = initial_sync_completed after ml;
    repl = percona_link_mongodb.Repl.status ml.repl;
    clone = percona_link_mongodb.Clone.status ml.clone;
  }
