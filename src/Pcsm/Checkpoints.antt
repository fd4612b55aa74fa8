-- ===== src/Pcsm/Checkpoints.antt =====
-- Checkpoint and Recover of pcsm/pcsm.go. The BSON of a checkpoint is the driver's: `Codec` has what
-- bson.Marshal and bson.Unmarshal make of the record and of the data, which may be an error.
use percona_link_mongodb.Prelude.{
  ℕ, String, false, not, Option, none, some, List, [], if◌then◌else◌,
}
use percona_link_mongodb.Errors.{Error, new, wrap}
use percona_link_mongodb.Exec.{Result, ok, fail, wrapping}
use percona_link_mongodb.Sel.{make_filter}
use percona_link_mongodb.Catalog.{Catalog}
use percona_link_mongodb.Repl.{
  Repl, new_repl, ReplStatus, ReplCheckpoint, is_zero, error_text, error_of,
}
use percona_link_mongodb.Clone.{Clone, new_clone, CloneStatus, CloneCheckpoint}
use percona_link_mongodb.Pcsm.{State, running, Pcsm, is_idle, do_resume}

pub record Checkpoint : Type 0 where
  pub ns_include : List String
  pub ns_exclude : List String
  pub catalog : Option Catalog
  pub clone : Option CloneCheckpoint
  pub repl : Option ReplCheckpoint
  pub state : State
  pub error : String

unfoldable pub saved : (Error → String) → Pcsm → Checkpoint
unfolding error_text
saved text ml = record {
  ns_include = ml.ns_include;
  ns_exclude = ml.ns_exclude;
  catalog = percona_link_mongodb.Catalog.checkpoint ml.repl.catalog;
  clone = percona_link_mongodb.Clone.checkpoint text ml.clone;
  repl = percona_link_mongodb.Repl.checkpoint text ml.repl;
  state = ml.state;
  error = error_text text ml.err;
}

-- bson.Marshal and bson.Unmarshal
pub record Codec (D : Type 0) : Type 0 where
  pub marshal : Checkpoint → Result D
  pub unmarshal : D → Result Checkpoint

unfoldable pub marshalled : {D : Type 0} → Result D → Result (Option D)
marshalled (ok d) = ok (some d)
marshalled (fail e) = fail e

-- Checkpoint: no data in state idle.
unfoldable pub checkpoint : {D : Type 0} → Codec D → (Error → String) → Pcsm → Result (Option D)
unfolding saved is_idle marshalled
checkpoint codec text ml =
    if is_idle ml.state then ok none else marshalled (codec.marshal (saved text ml))

-- `if cp.X != nil { err = x.Recover(cp.X) }`, with the error wrapped.
unfoldable pub recovered_part :
    {A C : Type 0} → String → (C → A → Option Error × A) → Option C → A → Option Error × A
recovered_part text recover none a = (none, a)
recovered_part text recover (some c) a = let (err, a') = recover c a in (wrap err text, a')

unfoldable pub recovered_error : Option Error → Option Error → Option Error
recovered_error none old = old
recovered_error (some e) old = some e

unfoldable pub recovered : Checkpoint → Clone → Repl → Pcsm → Pcsm
unfolding recovered_error error_of
recovered cp clone repl ml = record ml {
  ns_include = cp.ns_include;
  ns_exclude = cp.ns_exclude;
  clone = clone;
  repl = repl;
  state = cp.state;
  err = recovered_error (error_of cp.error) ml.err;
}

unfoldable pub resume_recovered : State → Pcsm → Option Error × Pcsm
unfolding do_resume
resume_recovered s ml = elim s [ running ↦ do_resume false ml | _ ↦ (none, ml) ]

-- The parts that were recovered, or the first error of them.
unfoldable pub recover_joined :
    Checkpoint → Option Error × Clone → Option Error × Repl → Pcsm → Option Error × Pcsm
unfolding recovered resume_recovered
recover_joined cp (some e, clone) r ml = (some e, ml)
recover_joined cp (none, clone) (some e, repl) ml = (some e, ml)
recover_joined cp (none, clone) (none, repl) ml =
    resume_recovered cp.state (recovered cp clone repl ml)

unfoldable pub recover_parts : Checkpoint → Option Error × Catalog → Pcsm → ℕ → Option Error × Pcsm
unfolding recovered_part recover_joined
recover_parts cp (some e, catalog) ml now = (some e, ml)
recover_parts cp (none, catalog) ml now =
    recover_joined cp
      (recovered_part "recover clone" percona_link_mongodb.Clone.recover cp.clone new_clone)
      (recovered_part "recover repl" (percona_link_mongodb.Repl.recover now) cp.repl
        (new_repl catalog (make_filter cp.ns_include cp.ns_exclude)))
      ml

-- Recover, once Unmarshal has returned.
unfoldable pub recover_data : ℕ → Result Checkpoint → Pcsm → Option Error × Pcsm
unfolding recover_parts is_idle
recover_data now (fail e) ml = (some (wrapping "unmarshal" e), ml)
recover_data now (ok cp) ml =
    if is_idle cp.state
    then (none, ml)
    else recover_parts cp
        (recovered_part "recover catalog" (λ saved c. percona_link_mongodb.Catalog.recover c saved)
          cp.catalog [])
        ml now

unfoldable pub recover : {D : Type 0} → Codec D → ℕ → D → Pcsm → Option Error × Pcsm
unfolding recover_data is_idle
recover codec now d ml =
    if not (is_idle ml.state)
    then (some (new "cannot recover: invalid PCSM state"), ml)
    else recover_data now (codec.unmarshal d) ml
