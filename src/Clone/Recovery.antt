-- ===== src/Clone/Recovery.antt =====
-- Checkpoint and Recover of pcsm/clone.go.
use percona_link_mongodb.Bson.{zero_timestamp}
use percona_link_mongodb.Prelude.{◌≡◌, refl, String, Option, none, some, arith, string_eq}
use percona_link_mongodb.Errors.{Error}
use percona_link_mongodb.Repl.{error_text, error_of, is_zero}
use percona_link_mongodb.Repl.Recovery.{error_text-error_of}
use percona_link_mongodb.Clone.{
  Clone, CloneCheckpoint, new_clone, saved, checkpoint, recovered_error, restored, recover,
}

-- `c'` is `c` as far as a checkpoint tells.
pub record IsRestored (text : Error → String) (c c' : Clone) : Type 0 where
  pub total_size : c'.total_size ≡ c.total_size
  pub copied_size : c'.copied_size ≡ c.copied_size
  pub start_ts : c'.start_ts ≡ c.start_ts
  pub finish_ts : c'.finish_ts ≡ zero_timestamp
  pub start_time : c'.start_time ≡ c.start_time
  pub finish_time : c'.finish_time ≡ c.finish_time
  pub error : error_text text c'.err ≡ error_text text c.err

pub recovered_error-none : (e : Option Error) → recovered_error e none ≡ e
unfolding recovered_error
recovered_error-none none = refl
recovered_error-none (some e) = refl

is_saved :
    (text : Error → String) (c : Clone) (cp : CloneCheckpoint)
    → checkpoint text c ≡ some cp
    → cp ≡ saved text c
unfolding checkpoint
is_saved text c cp = ground arith

pub clone_restored-saved :
    (text : Error → String) (c : Clone) → IsRestored text c (restored (saved text c) new_clone)
unfolding restored saved new_clone
clone_restored-saved text c = record {
  total_size = refl;
  copied_size = refl;
  start_ts = refl;
  finish_ts = refl;
  start_time = refl;
  finish_time = refl;
  error =
      rw (recovered_error-none (error_of (error_text text c.err)))
        (error_text-error_of text (error_text text c.err));
}

-- Whatever is recovered from a checkpoint of a Clone, into a new Clone, has no error of its own and
-- has the sizes, the start timestamp, the times and the error text of the checkpointed one; its
-- finish timestamp is zero, whatever that of the checkpointed one was.
pub recover-clone_checkpoint :
    (text : Error → String) (c : Clone) (cp : CloneCheckpoint)
    → checkpoint text c ≡ some cp
    → let (err, c') = recover cp new_clone in (err ≡ none) × IsRestored text c c'
unfolding recover new_clone is_zero
recover-clone_checkpoint text c cp h =
    (refl, rw (is_saved text c cp h) (clone_restored-saved text c))
