-- ===== src/Pcsm.antt =====
-- pcsm/pcsm.go: the state machine of the program. The catalog is in the Repl (the program has one
-- object, that PCSM, Clone and Repl point to). In state idle the program has no Clone and no Repl;
-- here they are new ones, which no operation reads in that state. `run` is a goroutine: it is cut
-- where it waits, and each part is one step. The callback and the monitors' logging are left out.
pub mod Checkpoints
pub mod Finish
pub mod Moves
pub mod Status
pub mod Runs
pub mod Recovery
mod Tests
use percona_link_mongodb.Bson.{Timestamp}
use percona_link_mongodb.Prelude.{
  ℕ, String, Bool, true, false, not, ◌&&◌, ◌||◌, ◌⊎◌, inl, inr, Option, none, some, List, [],
  if◌then◌else◌,
}
use percona_link_mongodb.Errors.{Error, new, wrap}
use percona_link_mongodb.Sel.{make_filter}
use percona_link_mongodb.Catalog.{Catalog}
use percona_link_mongodb.Repl.{
  Repl, new_repl, ReplStatus, ReplCheckpoint, is_zero, error_text, error_of,
}
use percona_link_mongodb.Clone.{Clone, new_clone, CloneStatus, CloneCheckpoint}

pub data State : Type 0 where
  failed idle running paused finalizing finalized : State

pub record Pcsm : Type 0 where
  pub ns_include : List String
  pub ns_exclude : List String
  pub pause_on_initial_sync : Bool
  pub state : State
  pub clone : Clone
  pub repl : Repl
  pub err : Option Error

unfoldable pub is_failed : State → Bool
is_failed s = elim s [ failed ↦ true | _ ↦ false ]

unfoldable pub is_idle : State → Bool
is_idle s = elim s [ idle ↦ true | _ ↦ false ]

unfoldable pub new_pcsm : Pcsm
new_pcsm = record {
  ns_include = [];
  ns_exclude = [];
  pause_on_initial_sync = false;
  state = idle;
  clone = new_clone;
  repl = new_repl [] (make_filter [] []);
  err = none;
}

pub record StartOptions : Type 0 where
  pub pause_on_initial_sync : Bool
  pub include_namespaces : List String
  pub exclude_namespaces : List String

unfoldable pub started : StartOptions → Pcsm → Pcsm
started options ml = record ml {
  ns_include = options.include_namespaces;
  ns_exclude = options.exclude_namespaces;
  pause_on_initial_sync = options.pause_on_initial_sync;
  clone = new_clone;
  repl = new_repl [] (make_filter options.include_namespaces options.exclude_namespaces);
  state = running;
}

unfoldable pub start_in : State → StartOptions → Pcsm → Option Error × Pcsm
unfolding started
start_in running options ml = (some (new "already running"), ml)
start_in finalizing options ml = (some (new "already running"), ml)
start_in failed options ml = (some (new "already running"), ml)
start_in paused options ml = (some (new "paused"), ml)
start_in idle options ml = (none, started options ml)
start_in finalized options ml = (none, started options ml)

-- Start; a nil `options` is the record of the zero values.
unfoldable pub start : StartOptions → Pcsm → Option Error × Pcsm
unfolding start_in
start options ml = start_in ml.state options ml

unfoldable pub set_failed : Option Error → Pcsm → Pcsm
set_failed err ml = record ml { state = failed; err = err }

unfoldable pub paused_repl : Pcsm → Option Error × Repl → Option Error × Pcsm
paused_repl ml (some e, repl) = (some e, ml)
paused_repl ml (none, repl) = (none, record ml { repl = repl; state = paused })

unfoldable pub is_running : State → Bool
is_running s = elim s [ running ↦ true | _ ↦ false ]

-- doPause, which is Pause without its logging
unfoldable pub pause : Pcsm → Option Error × Pcsm
unfolding paused_repl is_running
pause ml =
    if not (is_running ml.state)
    then (some (new "cannot pause: not running"), ml)
    else if not (percona_link_mongodb.Repl.is_running (percona_link_mongodb.Repl.status ml.repl))
    then (some (new "cannot pause: Change Replication is not runnning"), ml)
    else paused_repl ml (percona_link_mongodb.Repl.pause ml.repl)

unfoldable pub reset_error : Pcsm → Pcsm
reset_error ml = record ml {
  err = none;
  clone = percona_link_mongodb.Clone.reset_error ml.clone;
  repl = percona_link_mongodb.Repl.reset_error ml.repl;
}

unfoldable pub do_resume : Bool → Pcsm → Option Error × Pcsm
unfolding reset_error
do_resume from_failure ml =
    let status = percona_link_mongodb.Repl.status ml.repl in
    if not (percona_link_mongodb.Repl.is_started status) && not from_failure
    then (some (new "cannot resume: replication is not started or not resuming from failure"), ml)
    else if not (percona_link_mongodb.Repl.is_paused status) && from_failure
    then (some (new "cannot resume: replication is not paused or not resuming from failure"), ml)
    else (none, reset_error (record ml { state = running }))

unfoldable pub is_paused : State → Bool
is_paused s = elim s [ paused ↦ true | _ ↦ false ]

unfoldable pub resume : Bool → Pcsm → Option Error × Pcsm
unfolding do_resume is_paused is_failed
resume from_failure ml =
    if not (is_paused ml.state) && not (is_failed ml.state && from_failure)
    then (some (new "cannot resume: not paused or not resuming from failure"), ml)
    else do_resume from_failure ml

-- Where `run` waits: for the clone, for the replication, or it has returned.
pub data Waiting : Type 0 where
  on_clone on_repl returned : Waiting

unfoldable pub clone_begun : Option Error → Option Error × Clone → Pcsm → Waiting × Pcsm
unfolding set_failed
clone_begun shown (some e, clone) ml = (returned, set_failed shown ml)
clone_begun shown (none, clone) ml = (on_clone, record ml { clone = clone })

unfoldable pub repl_begun : String → Option Error × Repl → Pcsm → Waiting × Pcsm
unfolding set_failed
repl_begun text (some e, repl) ml = (returned, set_failed (wrap (some e) text) ml)
repl_begun text (none, repl) ml = (on_repl, record ml { repl = repl })

-- run, from the clone being finished to the replication being started or resumed. `version` and
-- `use_collection` are what Repl.Start asks for.
module _ (now : ℕ) (version : Error ⊎ Bool) (use_collection : Bool) where
  unfoldable pub run_repl : Pcsm → Waiting × Pcsm
  unfolding repl_begun
  run_repl ml =
      if not (percona_link_mongodb.Repl.is_started (percona_link_mongodb.Repl.status ml.repl))
      then repl_begun "start change replication"
          (percona_link_mongodb.Repl.start now version use_collection ml.repl) ml
      else repl_begun "resume change replication" (percona_link_mongodb.Repl.resume ml.repl) ml

  -- run, up to where it waits first. When the clone does not start, the error that is stored is
  -- that of the clone's status before, as in the source.
  unfoldable pub run_begin : Pcsm → Waiting × Pcsm
  unfolding clone_begun set_failed
  run_begin ml =
      let status = percona_link_mongodb.Clone.status ml.clone in
      if percona_link_mongodb.Clone.is_finished status
      then run_repl ml
      else clone_begun (wrap status.err "start clone")
          (percona_link_mongodb.Clone.start now ml.clone) ml

  -- run, once the clone is done.
  unfoldable pub run_cloned : Pcsm → Waiting × Pcsm
  unfolding set_failed
  run_cloned ml = elim ml.clone.err [
    | some e ↦ (returned, set_failed (wrap (some e) "clone") ml)
    | none ↦ run_repl ml
  ]

-- run, once the replication is done.
unfoldable pub run_replicated : Pcsm → Waiting × Pcsm
unfolding set_failed
run_replicated ml = elim ml.repl.err [
  | some e ↦ (returned, set_failed (wrap (some e) "change replication") ml)
  | none ↦ (returned, ml)
]
