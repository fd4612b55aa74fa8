-- ===== src/Pcsm/Runs.antt =====
-- The runs of pcsm/pcsm.go: its commands, the parts of its goroutine `run`, the goroutine of
-- Finalize, and what Clone and Repl do to themselves, in any order.
pub mod Filters
pub mod Recovered
use percona_link_mongodb.Bson.{Timestamp}
use percona_link_mongodb.Prelude.{
  ℕ, ◌≡◌, refl, ◌∙◌, ap, Bool, false, not, String, ◌⊎◌, inl, inr, Option, none, some, if-cases,
  Option-cases,
}
use percona_link_mongodb.Errors.{Error, wrap}
use percona_link_mongodb.Repl.{Repl}
use percona_link_mongodb.Clone.{Clone}
use percona_link_mongodb.Pcsm.{
  Pcsm, is_idle, set_failed, Waiting, clone_begun, repl_begun, run_repl, run_begin, run_cloned,
  run_replicated,
}
use percona_link_mongodb.Pcsm.Moves.{
  Command, start_command, pause_command, resume_command, finalize_command, moves_to, run_command,
  MovedAs, run_command-MovedAs,
}
use percona_link_mongodb.Pcsm.Finish.{finalize_done}
use percona_link_mongodb.Pcsm.Checkpoints.{saved, checkpoint}

-- What the replication's loop does while Finalize waits for it leaves the filter.
abbrev pub KeepsFilter : Command → Type 0
KeepsFilter (finalize_command ignore history_lost ended) =
    (r : Repl) → (ended r).ns_filter ≡ r.ns_filter
KeepsFilter _ = Unit {0}

module _ (after : Timestamp → Timestamp → Bool) where
  pub data Step : Pcsm → Pcsm → Type 0 where
    commanded : (cmd : Command) (ml : Pcsm) → KeepsFilter cmd → Step ml (run_command after cmd ml).1
    begun :
        (now : ℕ) (version : Error ⊎ Bool) (use_collection : Bool) (ml : Pcsm)
        → Step ml (run_begin now version use_collection ml).1
    cloned :
        (now : ℕ) (version : Error ⊎ Bool) (use_collection : Bool) (ml : Pcsm)
        → Step ml (run_cloned now version use_collection ml).1
    replicated : (ml : Pcsm) → Step ml (run_replicated ml).1
    finalizes : (err : Option Error) (ml : Pcsm) → Step ml (finalize_done err ml)
    works :
        (clone : Clone) (repl : Repl) (ml : Pcsm)
        → repl.ns_filter ≡ ml.repl.ns_filter
        → Step ml (record ml { clone = clone; repl = repl })

  pub data Reach : Pcsm → Pcsm → Type 0 where
    here : (ml : Pcsm) → Reach ml ml
    then_step : (ml ml' ml'' : Pcsm) → Reach ml ml' → Step ml' ml'' → Reach ml ml''

-- The program has been started.
abbrev pub IsActive : Pcsm → Type 0
IsActive ml = is_idle ml.state ≡ false

moves_to-IsActive : (cmd : Command) → is_idle (moves_to cmd) ≡ false
unfolding moves_to is_idle
moves_to-IsActive (start_command options) = refl
moves_to-IsActive pause_command = refl
moves_to-IsActive (resume_command from_failure) = refl
moves_to-IsActive (finalize_command ignore history_lost ended) = refl

set_failed-IsActive : (err : Option Error) (ml : Pcsm) → IsActive (set_failed err ml)
unfolding set_failed is_idle
set_failed-IsActive err ml = refl

module _ (after : Timestamp → Timestamp → Bool) where
  moved-IsActive :
      (cmd : Command) (ml : Pcsm) (r : Option Error × Pcsm)
      → MovedAs after cmd ml r
      → IsActive ml
      → IsActive r.1
  moved-IsActive cmd ml (some e, ml') m h = ap is_idle m.0 ∙ h
  moved-IsActive cmd ml (none, ml') (inl m) h = ap is_idle m.1 ∙ moves_to-IsActive cmd
  moved-IsActive cmd ml (none, ml') (inr m) h = ap (λ x. is_idle x.state) m.1 ∙ h

clone_begun-IsActive :
    (shown : Option Error) (r : Option Error × Clone) (ml : Pcsm)
    → IsActive ml
    → IsActive (clone_begun shown r ml).1
unfolding clone_begun
clone_begun-IsActive shown (some e, clone) ml h = set_failed-IsActive shown ml
clone_begun-IsActive shown (none, clone) ml h = h

repl_begun-IsActive :
    (text : String) (r : Option Error × Repl) (ml : Pcsm)
    → IsActive ml
    → IsActive (repl_begun text r ml).1
unfolding repl_begun
repl_begun-IsActive text (some e, repl) ml h = set_failed-IsActive (wrap (some e) text) ml
repl_begun-IsActive text (none, repl) ml h = h

module _ (now : ℕ) (version : Error ⊎ Bool) (use_collection : Bool) where
  run_repl-IsActive :
      (ml : Pcsm) → IsActive ml → IsActive (run_repl now version use_collection ml).1
  unfolding run_repl
  run_repl-IsActive ml h =
      if-cases (λ (x : Waiting × Pcsm). IsActive x.1)
        (not (percona_link_mongodb.Repl.is_started (percona_link_mongodb.Repl.status ml.repl)))
        (λ _. repl_begun-IsActive "start change replication" _ ml h)
        λ _. repl_begun-IsActive "resume change replication" _ ml h

  run_begin-IsActive :
      (ml : Pcsm) → IsActive ml → IsActive (run_begin now version use_collection ml).1
  unfolding run_begin
  run_begin-IsActive ml h =
      if-cases (λ (x : Waiting × Pcsm). IsActive x.1)
        (percona_link_mongodb.Clone.is_finished (percona_link_mongodb.Clone.status ml.clone))
        (λ _. run_repl-IsActive ml h) λ _. clone_begun-IsActive _ _ ml h

  run_cloned-IsActive :
      (ml : Pcsm) → IsActive ml → IsActive (run_cloned now version use_collection ml).1
  unfolding run_cloned
  run_cloned-IsActive ml h = elim (Option-cases ml.clone.err) [
    | inl e ↦ rw (e, run_cloned) (run_repl-IsActive ml h)
    | inr (x, e) ↦ rw (e, run_cloned) (set_failed-IsActive (wrap (some x) "clone") ml)
  ]

run_replicated-IsActive : (ml : Pcsm) → IsActive ml → IsActive (run_replicated ml).1
unfolding run_replicated
run_replicated-IsActive ml h = elim (Option-cases ml.repl.err) [
  | inl e ↦ rw (e, run_replicated) h
  | inr (x, e) ↦
      rw (e, run_replicated) (set_failed-IsActive (wrap (some x) "change replication") ml)
]

finalize_done-IsActive : (err : Option Error) (ml : Pcsm) → IsActive (finalize_done err ml)
unfolding finalize_done is_idle
finalize_done-IsActive none ml = refl
finalize_done-IsActive (some e) ml = set_failed-IsActive (wrap (some e) "finalization") ml

module _ (after : Timestamp → Timestamp → Bool) where
  step-IsActive : (ml ml' : Pcsm) → Step after ml ml' → IsActive ml → IsActive ml'
  step-IsActive ml _ (commanded cmd _ _) h =
      moved-IsActive after cmd ml (run_command after cmd ml) (run_command-MovedAs after cmd ml) h
  step-IsActive ml _ (begun now version use_collection _) h =
      run_begin-IsActive now version use_collection ml h
  step-IsActive ml _ (cloned now version use_collection _) h =
      run_cloned-IsActive now version use_collection ml h
  step-IsActive ml _ (replicated _) h = run_replicated-IsActive ml h
  step-IsActive ml _ (finalizes err _) h = finalize_done-IsActive err ml
  step-IsActive ml _ (works clone repl _ _) h = h

  pub reach-IsActive : (ml ml' : Pcsm) → Reach after ml ml' → IsActive ml → IsActive ml'
  reach-IsActive ml _ (here _) h = h
  reach-IsActive ml ml'' (then_step _ ml' _ before s) h =
      step-IsActive ml' ml'' s (reach-IsActive ml ml' before h)
