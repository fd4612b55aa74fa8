-- ===== src/Pcsm/Runs/Filters.antt =====
-- The namespace filter over the runs of pcsm/pcsm.go: the one that the replication uses is the one of
-- the lists that a checkpoint saves.
use mathlib.Core.Path.{subst}
use percona_link_mongodb.Bson.{Timestamp}
use percona_link_mongodb.Prelude.{
  ℕ, ◌≡◌, refl, ◌∙◌, sym, Bool, true, false, not, String, ◌⊎◌, inl, inr, Option, none, some,
  if-cases, Option-cases, arith, ◌&&◌, if◌then◌else◌,
}
use percona_link_mongodb.Errors.{Error, wrap}
use percona_link_mongodb.Sel.{make_filter}
use percona_link_mongodb.Repl.{Repl, new_repl, do_pause}
use percona_link_mongodb.Clone.{Clone}
use percona_link_mongodb.Pcsm.{
  Pcsm, StartOptions, State, failed, idle, running, paused, finalizing, finalized, started,
  start_in, start, set_failed, paused_repl, pause, do_resume, resume, reset_error, is_running,
  Waiting, clone_begun, repl_begun, run_repl, run_begin, run_cloned, run_replicated,
}
use percona_link_mongodb.Pcsm.Moves.{
  Command, start_command, pause_command, resume_command, finalize_command, run_command,
}
use percona_link_mongodb.Pcsm.Finish.{
  finalize_done, finalize, finalize_on, finalize_paused, finalize_waited, finalize_refusal,
}
use percona_link_mongodb.Pcsm.Runs.{
  KeepsFilter, Step, commanded, begun, cloned, replicated, finalizes, works, Reach, here, then_step,
}

-- The replication has the filter that the lists of the program make.
abbrev pub Fits : Pcsm → Type 0
Fits ml = ml.repl.ns_filter ≡ make_filter ml.ns_include ml.ns_exclude

-- What an operation does to the lists and to the filter: nothing.
pub record Same (ml ml' : Pcsm) : Type 0 where
  pub ns_include : ml'.ns_include ≡ ml.ns_include
  pub ns_exclude : ml'.ns_exclude ≡ ml.ns_exclude
  pub ns_filter : ml'.repl.ns_filter ≡ ml.repl.ns_filter

Same-Fits : (ml ml' : Pcsm) → Same ml ml' → Fits ml → Fits ml'
Same-Fits ml ml' s h =
    s.ns_filter ∙ h ∙ (λ i. make_filter (sym s.ns_include i) (sym s.ns_exclude i))

same : (ml : Pcsm) → Same ml ml
same ml = record { ns_include = refl; ns_exclude = refl; ns_filter = refl }

repl-pause : (r : Repl) → (percona_link_mongodb.Repl.pause r).1.ns_filter ≡ r.ns_filter
unfolding percona_link_mongodb.Repl.pause do_pause
repl-pause r = ground arith

repl-resume : (r : Repl) → (percona_link_mongodb.Repl.resume r).1.ns_filter ≡ r.ns_filter
unfolding percona_link_mongodb.Repl.resume
repl-resume r = ground arith

repl-start :
    (now : ℕ) (version : Error ⊎ Bool) (use_collection : Bool) (r : Repl)
    → (percona_link_mongodb.Repl.start now version use_collection r).1.ns_filter ≡ r.ns_filter
unfolding percona_link_mongodb.Repl.start
repl-start now version use_collection r = ground arith

start-Fits :
    (options : StartOptions) (s : State) (ml : Pcsm) → Fits ml → Fits (start_in s options ml).1
unfolding start_in started new_repl
start-Fits options running ml h = h
start-Fits options finalizing ml h = h
start-Fits options failed ml h = h
start-Fits options paused ml h = h
start-Fits options idle ml h = refl
start-Fits options finalized ml h = refl

paused_repl-Same :
    (ml : Pcsm) (r : Option Error × Repl)
    → r.1.ns_filter ≡ ml.repl.ns_filter
    → Same ml (paused_repl ml r).1
unfolding paused_repl
paused_repl-Same ml (some e, repl) h = same ml
paused_repl-Same ml (none, repl) h = record { ns_include = refl; ns_exclude = refl; ns_filter = h }

Same-if :
    {A : Type 0} (b : Bool) (ml : Pcsm) (x y : A × Pcsm)
    → Same ml x.1
    → Same ml y.1
    → Same ml (if b then x else y).1
Same-if true ml x y h k = h
Same-if false ml x y h k = k

pause-Same : (ml : Pcsm) → Same ml (pause ml).1
unfolding pause
pause-Same ml = Same-if (not (is_running ml.state)) ml _ _ (same ml) (
    Same-if (not (percona_link_mongodb.Repl.is_running (percona_link_mongodb.Repl.status ml.repl)))
      ml _ _ (same ml)
      (paused_repl-Same ml (percona_link_mongodb.Repl.pause ml.repl) (repl-pause ml.repl)))

pub do_resume-Same : (from_failure : Bool) (ml : Pcsm) → Same ml (do_resume from_failure ml).1
unfolding do_resume reset_error percona_link_mongodb.Repl.reset_error
do_resume-Same from_failure ml =
    Same-if
      (not (percona_link_mongodb.Repl.is_started (percona_link_mongodb.Repl.status ml.repl))
        && not from_failure)
      ml _ _ (same ml)
      (Same-if
        (not (percona_link_mongodb.Repl.is_paused (percona_link_mongodb.Repl.status ml.repl))
          && from_failure)
        ml _ _ (same ml) (record { ns_include = refl; ns_exclude = refl; ns_filter = refl }))

resume-Same : (from_failure : Bool) (ml : Pcsm) → Same ml (resume from_failure ml).1
unfolding resume
resume-Same from_failure ml = Same-if _ ml _ _ (same ml) (do_resume-Same from_failure ml)

module _ (after : Timestamp → Timestamp → Bool) where
  waited-Same :
      (ml : Pcsm) (err : Option Error) (repl : Repl)
      → repl.ns_filter ≡ ml.repl.ns_filter
      → Same ml (finalize_waited after err (record ml { repl = repl })).1
  unfolding finalize_waited
  waited-Same ml none repl h = record { ns_include = refl; ns_exclude = refl; ns_filter = h }
  waited-Same ml (some e) repl h = record { ns_include = refl; ns_exclude = refl; ns_filter = h }

  finalize_paused-Same :
      (ended : Repl → Repl) (ml : Pcsm) (r : Option Error × Repl)
      → ((r : Repl) → (ended r).ns_filter ≡ r.ns_filter)
      → r.1.ns_filter ≡ ml.repl.ns_filter
      → Same ml (finalize_paused after ended ml r).1
  unfolding finalize_paused
  finalize_paused-Same ended ml (some e, repl) keeps h = same ml
  finalize_paused-Same ended ml (none, repl) keeps h =
      waited-Same ml (ended repl).err (ended repl) (keeps repl ∙ h)

  finalize_on-Same :
      (ended : Repl → Repl) (ml : Pcsm) (o : Option (Option Error))
      → ((r : Repl) → (ended r).ns_filter ≡ r.ns_filter)
      → Same ml (finalize_on after ended ml o).1
  unfolding finalize_on
  finalize_on-Same ended ml (some err) keeps = same ml
  finalize_on-Same ended ml none keeps =
      Same-if _ ml _ _
        (finalize_paused-Same ended ml (percona_link_mongodb.Repl.pause ml.repl) keeps
          (repl-pause ml.repl))
        (record { ns_include = refl; ns_exclude = refl; ns_filter = refl })

set_failed-Same : (err : Option Error) (ml : Pcsm) → Same ml (set_failed err ml)
unfolding set_failed
set_failed-Same err ml = record { ns_include = refl; ns_exclude = refl; ns_filter = refl }

repl_begun-Same :
    (text : String) (r : Option Error × Repl) (ml : Pcsm)
    → r.1.ns_filter ≡ ml.repl.ns_filter
    → Same ml (repl_begun text r ml).1
unfolding repl_begun
repl_begun-Same text (some e, repl) ml h = set_failed-Same (wrap (some e) text) ml
repl_begun-Same text (none, repl) ml h = record {
  ns_include = refl;
  ns_exclude = refl;
  ns_filter = h;
}

clone_begun-Same :
    (shown : Option Error) (r : Option Error × Clone) (ml : Pcsm)
    → Same ml (clone_begun shown r ml).1
unfolding clone_begun
clone_begun-Same shown (some e, clone) ml = set_failed-Same shown ml
clone_begun-Same shown (none, clone) ml = record {
  ns_include = refl;
  ns_exclude = refl;
  ns_filter = refl;
}

module _ (now : ℕ) (version : Error ⊎ Bool) (use_collection : Bool) where
  run_repl-Same : (ml : Pcsm) → Same ml (run_repl now version use_collection ml).1
  unfolding run_repl
  run_repl-Same ml =
      Same-if _ ml _ _
        (repl_begun-Same "start change replication" _ ml
          (repl-start now version use_collection ml.repl))
        (repl_begun-Same "resume change replication" _ ml (repl-resume ml.repl))

  run_begin-Same : (ml : Pcsm) → Same ml (run_begin now version use_collection ml).1
  unfolding run_begin
  run_begin-Same ml =
      if-cases (λ (x : Waiting × Pcsm). Same ml x.1)
        (percona_link_mongodb.Clone.is_finished (percona_link_mongodb.Clone.status ml.clone))
        (λ _. run_repl-Same ml) λ _. clone_begun-Same _ _ ml

  run_cloned-none :
      (ml : Pcsm)
      → ml.clone.err ≡ none
      → run_cloned now version use_collection ml ≡ run_repl now version use_collection ml
  unfolding run_cloned
  run_cloned-none ml e = rw e refl

  run_cloned-some :
      (ml : Pcsm) (x : Error)
      → ml.clone.err ≡ some x
      → (run_cloned now version use_collection ml).1 ≡ set_failed (wrap (some x) "clone") ml
  unfolding run_cloned
  run_cloned-some ml x e = rw e refl

  run_cloned-Same : (ml : Pcsm) → Same ml (run_cloned now version use_collection ml).1
  run_cloned-Same ml = elim (Option-cases ml.clone.err) [
    | inl e ↦
        subst (λ (x : Waiting × Pcsm). Same ml x.1) (sym (run_cloned-none ml e)) (run_repl-Same ml)
    | inr (x, e) ↦
        subst (λ y. Same ml y) (sym (run_cloned-some ml x e))
          (set_failed-Same (wrap (some x) "clone") ml)
  ]

run_replicated-none : (ml : Pcsm) → ml.repl.err ≡ none → (run_replicated ml).1 ≡ ml
unfolding run_replicated
run_replicated-none ml e = rw e refl

run_replicated-some :
    (ml : Pcsm) (x : Error)
    → ml.repl.err ≡ some x
    → (run_replicated ml).1 ≡ set_failed (wrap (some x) "change replication") ml
unfolding run_replicated
run_replicated-some ml x e = rw e refl

run_replicated-Same : (ml : Pcsm) → Same ml (run_replicated ml).1
run_replicated-Same ml = elim (Option-cases ml.repl.err) [
  | inl e ↦ subst (λ y. Same ml y) (sym (run_replicated-none ml e)) (same ml)
  | inr (x, e) ↦
      subst (λ y. Same ml y) (sym (run_replicated-some ml x e))
        (set_failed-Same (wrap (some x) "change replication") ml)
]

finalize_done-Same : (err : Option Error) (ml : Pcsm) → Same ml (finalize_done err ml)
unfolding finalize_done
finalize_done-Same none ml = record { ns_include = refl; ns_exclude = refl; ns_filter = refl }
finalize_done-Same (some e) ml = set_failed-Same (wrap (some e) "finalization") ml

module _ (after : Timestamp → Timestamp → Bool) where
  command-Fits :
      (cmd : Command) (ml : Pcsm) → KeepsFilter cmd → Fits ml → Fits (run_command after cmd ml).1
  unfolding run_command start finalize
  command-Fits (start_command options) ml k h = start-Fits options ml.state ml h
  command-Fits pause_command ml k h = Same-Fits ml _ (pause-Same ml) h
  command-Fits (resume_command from_failure) ml k h = Same-Fits ml _ (resume-Same from_failure ml) h
  command-Fits (finalize_command ignore lost ended) ml k h =
      Same-Fits ml _ (finalize_on-Same after ended ml (finalize_refusal after ignore lost ml) k) h

  step-Fits : (ml ml' : Pcsm) → Step after ml ml' → Fits ml → Fits ml'
  step-Fits ml _ (commanded cmd _ keeps) h = command-Fits cmd ml keeps h
  step-Fits ml _ (begun now version use_collection _) h =
      Same-Fits ml _ (run_begin-Same now version use_collection ml) h
  step-Fits ml _ (cloned now version use_collection _) h =
      Same-Fits ml _ (run_cloned-Same now version use_collection ml) h
  step-Fits ml _ (replicated _) h = Same-Fits ml _ (run_replicated-Same ml) h
  step-Fits ml _ (finalizes err _) h = Same-Fits ml _ (finalize_done-Same err ml) h
  step-Fits ml _ (works clone repl _ keeps) h = keeps ∙ h

  pub reach-Fits : (ml ml' : Pcsm) → Reach after ml ml' → Fits ml → Fits ml'
  reach-Fits ml _ (here _) h = h
  reach-Fits ml ml'' (then_step _ ml' _ before s) h =
      step-Fits ml' ml'' s (reach-Fits ml ml' before h)
