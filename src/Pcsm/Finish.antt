-- ===== src/Pcsm/Finish.antt =====
-- Status and Finalize of pcsm/pcsm.go.
use percona_link_mongodb.Bson.{Timestamp}
use percona_link_mongodb.Prelude.{Bool, false, not, ◌&&◌, ◌||◌, Option, none, some, if◌then◌else◌}
use percona_link_mongodb.Errors.{Error, new, wrap}
use percona_link_mongodb.Repl.{
  Repl, new_repl, ReplStatus, ReplCheckpoint, is_zero, error_text, error_of,
}
use percona_link_mongodb.Clone.{Clone, new_clone, CloneStatus, CloneCheckpoint}
use percona_link_mongodb.Pcsm.{finalizing, finalized, Pcsm, is_failed, is_idle, set_failed}

-- The error that Status shows.
unfoldable pub status_error : Pcsm → Option Error
status_error ml = elim ml.err [
  | some e ↦ some e
  | none ↦ elim ml.repl.err [
    | some e ↦ wrap (some e) "Change Replication"
    | none ↦ elim ml.clone.err [ some e ↦ wrap (some e) "Clone" | none ↦ none ]
  ]
]

module _ (after : Timestamp → Timestamp → Bool) where
  unfoldable pub initial_sync_completed : Pcsm → Bool
  initial_sync_completed ml =
      if percona_link_mongodb.Repl.is_started (percona_link_mongodb.Repl.status ml.repl)
      then after ml.repl.last_replicated_op_time ml.clone.finish_ts
      else false

  -- The guards of Finalize, with the status that it reads: what it returns, or none to go on.
  -- `history_lost` says that the error of the replication is ErrOplogHistoryLost.
  unfoldable pub finalize_refusal : Bool → Bool → Pcsm → Option (Option Error)
  unfolding initial_sync_completed status_error is_failed is_idle
  finalize_refusal ignore_history_lost history_lost ml =
      if is_idle ml.state
      then some (some (new "clone is not completed"))
      else if is_failed ml.state && (not ignore_history_lost || not history_lost)
      then some (wrap (status_error ml) "failed state")
      else if not
          (percona_link_mongodb.Clone.is_finished (percona_link_mongodb.Clone.status ml.clone))
      then some (some (new "clone is not completed"))
      else if not (percona_link_mongodb.Repl.is_started (percona_link_mongodb.Repl.status ml.repl))
      then some (some (new "change replication is not started"))
      else if not (initial_sync_completed ml)
      then some (some (new "initial sync is not completed"))
      else none

  -- After the replication is done, with its error.
  unfoldable pub finalize_waited : Option Error → Pcsm → Option Error × Pcsm
  finalize_waited (some e) ml = (wrap (some e) "post-pause change replication", ml)
  finalize_waited none ml = (none, record ml { state = finalizing })

  -- After the pause: `ended` is what the replication's loop makes of the Repl until it is done.
  unfoldable pub finalize_paused : (Repl → Repl) → Pcsm → Option Error × Repl → Option Error × Pcsm
  unfolding finalize_waited
  finalize_paused ended ml (some e, repl) = (wrap (some e) "pause change replication", ml)
  finalize_paused ended ml (none, repl) =
      finalize_waited (ended repl).err (record ml { repl = ended repl })

  unfoldable pub finalize_on : (Repl → Repl) → Pcsm → Option (Option Error) → Option Error × Pcsm
  unfolding finalize_paused
  finalize_on ended ml (some err) = (err, ml)
  finalize_on ended ml none =
      if percona_link_mongodb.Repl.is_running (percona_link_mongodb.Repl.status ml.repl)
      then finalize_paused ended ml (percona_link_mongodb.Repl.pause ml.repl)
      else (none, record ml { state = finalizing })

  -- Finalize, up to its goroutine.
  unfoldable pub finalize : Bool → Bool → (Repl → Repl) → Pcsm → Option Error × Pcsm
  unfolding finalize_on
  finalize ignore_history_lost history_lost ended ml =
      finalize_on ended ml (finalize_refusal ignore_history_lost history_lost ml)

-- The goroutine of Finalize, on the error of the catalog's Finalize.
unfoldable pub finalize_done : Option Error → Pcsm → Pcsm
unfolding set_failed
finalize_done (some e) ml = set_failed (wrap (some e) "finalization") ml
finalize_done none ml = record ml { state = finalized }
