-- ===== src/Pcsm/Tests.antt =====
-- Witnesses of the state machine.
use percona_link_mongodb.Bson.{Timestamp}
use percona_link_mongodb.Prelude.{◌≡◌, ◌∷◌, refl, Bool, true, false, not, leb, none}
use percona_link_mongodb.Clone.{new_clone}
use percona_link_mongodb.Pcsm.{
  String, Error, some, [], Pcsm, StartOptions, started, is_idle, paused, new_pcsm,
}
use percona_link_mongodb.Repl.{new_repl}
use percona_link_mongodb.Pcsm.Checkpoints.{Checkpoint, checkpoint, saved, recover}
use mathlib.Core.Option
use percona_link_mongodb.Pcsm.Recovery.Samples.{codec, codec-IsCodec}
use percona_link_mongodb.Pcsm.Recovery.Stored.{
  IsKept, clone_in_ms, repl_in_ms, recover-pcsm_checkpoint,
}
use percona_link_mongodb.Pcsm.Moves.{pause_command, run_command, MovedAs, run_command-MovedAs}
use percona_link_mongodb.Errors.{canceled}
use percona_link_mongodb.Pcsm.Finish.{finalize_done}
use percona_link_mongodb.Pcsm.Runs.Recovered.{recover-reach}
use percona_link_mongodb.Pcsm.Runs.{commanded, finalizes, Reach, here, then_step}

abbrev later : Timestamp → Timestamp → Bool
later a b = not (leb a.t b.t)

run_command-MovedAs_example :
    MovedAs later pause_command new_pcsm (run_command later pause_command new_pcsm)
run_command-MovedAs_example = run_command-MovedAs later pause_command new_pcsm

abbrev text : Error → String
text e = "driver"

-- Its times are 3.5, 4, 5 and 6 ms.
abbrev at_rest : Pcsm
at_rest = record new_pcsm {
  state = paused;
  clone = record new_clone { start_time = 3500000; finish_time = 4000000 };
  repl = record (new_repl [] (λ db coll. true)) { start_time = 5000000; pause_time = 6000000 };
}

-- What codec.marshal gives for a program.
abbrev written : Pcsm → Checkpoint
written ml =
    let cp : Checkpoint = saved text ml in
    record cp { clone = Option.map clone_in_ms cp.clone; repl = Option.map repl_in_ms cp.repl }

recover-pcsm_checkpoint_example :
    ((recover codec 9 (written at_rest) new_pcsm).0 ≡ none)
    × IsKept text 9 at_rest (recover codec 9 (written at_rest) new_pcsm).1
unfolding checkpoint
recover-pcsm_checkpoint_example =
    recover-pcsm_checkpoint codec text 9 at_rest (written at_rest) codec-IsCodec refl refl refl refl

abbrev options : StartOptions
options = record {
  pause_on_initial_sync = false;
  include_namespaces = "db.a" ∷ [];
  exclude_namespaces = [];
}

-- A program that is started, paused while its clone runs (which is refused), and fails.
abbrev told_to_pause : Pcsm
told_to_pause = (run_command later pause_command (started options new_pcsm)).1

abbrev failed_run : Pcsm
failed_run = finalize_done (some canceled) told_to_pause

abbrev started_run : Reach later (started options new_pcsm) failed_run
started_run =
    then_step _ told_to_pause _
      (then_step _ (started options new_pcsm) _ (here (started options new_pcsm))
        (commanded pause_command (started options new_pcsm) tt))
      (finalizes (some canceled) told_to_pause)

recover-reach_example :
    (is_idle failed_run.state ≡ false)
    × ((recover codec 9 (written failed_run) new_pcsm).1.repl.ns_filter ≡ failed_run.repl.ns_filter)
unfolding started is_idle checkpoint new_repl finalize_done
recover-reach_example =
    recover-reach codec later text 9 (started options new_pcsm) failed_run (written failed_run)
      codec-IsCodec refl refl started_run refl
