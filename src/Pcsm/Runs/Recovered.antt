-- ===== src/Pcsm/Runs/Recovered.antt =====
-- The namespace filter of a program that is recovered from a checkpoint of a run (pcsm/pcsm.go).
use percona_link_mongodb.Bson.{Timestamp}
use percona_link_mongodb.Prelude.{
  arith, ℕ, ◌≡◌, refl, ◌∙◌, ap, sym, Bool, true, false, String, Option, none, some,
}
use percona_link_mongodb.Errors.{Error, wrap}
use percona_link_mongodb.Exec.{ok}
use percona_link_mongodb.Sel.{make_filter}
use percona_link_mongodb.Catalog.{Catalog}
use percona_link_mongodb.Repl.{Repl, ReplCheckpoint, new_repl}
use percona_link_mongodb.Clone.{Clone, CloneCheckpoint, new_clone}
use percona_link_mongodb.Pcsm.{
  Pcsm, State, failed, idle, running, paused, finalizing, finalized, is_idle, new_pcsm,
}
use percona_link_mongodb.Pcsm.Checkpoints.{
  Checkpoint, Codec, saved, checkpoint, recovered_part, recovered, resume_recovered, recover_joined,
  recover_parts, recover_data, recover,
}
use percona_link_mongodb.Pcsm.Recovery.{catalog_of, catalog_back}
use percona_link_mongodb.Pcsm.Recovery.Stored.{IsCodec, IsStored, checkpoint-marshal}
use percona_link_mongodb.Pcsm.Runs.{Reach, reach-IsActive}
use percona_link_mongodb.Pcsm.Runs.Filters.{reach-Fits, do_resume-Same}

clone_part :
    (o : Option CloneCheckpoint)
    → (recovered_part "recover clone" percona_link_mongodb.Clone.recover o new_clone).0 ≡ none
unfolding recovered_part percona_link_mongodb.Clone.recover new_clone wrap
    percona_link_mongodb.Repl.is_zero
clone_part none = refl
clone_part (some cp) = refl

module _ (now : ℕ) (catalog : Catalog) (f : String → String → Bool) where
  abbrev repl_part : Option ReplCheckpoint → Option Error × Repl
  repl_part o =
      recovered_part "recover repl" (percona_link_mongodb.Repl.recover now) o (new_repl catalog f)

  repl_part-fine :
      (o : Option ReplCheckpoint) → ((repl_part o).0 ≡ none) × ((repl_part o).1.ns_filter ≡ f)
  unfolding recovered_part percona_link_mongodb.Repl.recover percona_link_mongodb.Repl.restored
      new_repl wrap
  repl_part-fine none = (refl, refl)
  repl_part-fine (some cp) = (refl, refl)

resumed-filter :
    (s : State) (ml : Pcsm) → (resume_recovered s ml).1.repl.ns_filter ≡ ml.repl.ns_filter
unfolding resume_recovered
resumed-filter running ml = (do_resume-Same false ml).ns_filter
resumed-filter failed ml = refl
resumed-filter idle ml = refl
resumed-filter paused ml = refl
resumed-filter finalizing ml = refl
resumed-filter finalized ml = refl

joined-filter :
    (cp : Checkpoint) (a : Option Error × Clone) (b : Option Error × Repl) (ml : Pcsm)
    → a.0 ≡ none
    → b.0 ≡ none
    → (recover_joined cp a b ml).1.repl.ns_filter ≡ b.1.ns_filter
unfolding recover_joined recovered
joined-filter cp (some e, clone) b ml h k = absurd (ground arith)
joined-filter cp (none, clone) (some e, repl) ml h k = absurd (ground arith)
joined-filter cp (none, clone) (none, repl) ml h k = resumed-filter cp.state _

recover_data-filter :
    (now : ℕ) (cp : Checkpoint)
    → is_idle cp.state ≡ false
    → (recover_data now (ok cp) new_pcsm).1.repl.ns_filter ≡ make_filter cp.ns_include cp.ns_exclude
unfolding recover_data recover_parts
recover_data-filter now cp active =
    let f = make_filter cp.ns_include cp.ns_exclude in
    let (fine, kept) = repl_part-fine now (catalog_of cp.catalog) f cp.repl in
    rw (active, catalog_back cp.catalog)
      (joined-filter cp _ _ new_pcsm (clone_part cp.clone) fine ∙ kept)

new_is_idle : is_idle new_pcsm.state ≡ true
unfolding is_idle new_pcsm
new_is_idle = refl

stored-filter :
    (text : Error → String) (now : ℕ) (ml : Pcsm) (cp : Checkpoint)
    → is_idle ml.state ≡ false
    → IsStored (saved text ml) cp
    → (recover_data now (ok cp) new_pcsm).1.repl.ns_filter ≡ make_filter ml.ns_include ml.ns_exclude
unfolding saved
stored-filter text now ml cp active h =
    recover_data-filter now cp (ap (λ (x : Checkpoint). is_idle x.state) h.fields ∙ active)
    ∙ ap (λ (x : Checkpoint). make_filter x.ns_include x.ns_exclude) h.fields

-- For a program that is not idle and whose replication has the filter that its namespace lists make
-- (as Start leaves it), and a codec that reads what it has written: after any sequence of commands,
-- steps of its goroutines and work of its clone and replication that leaves the filter alone, the
-- program is still not idle, and what Recover makes of the data of its checkpoint, in a new program,
-- has the filter that is then in use.
pub recover-reach :
    {D : Type 0} (codec : Codec D) (after : Timestamp → Timestamp → Bool) (text : Error → String)
    (now : ℕ) (ml ml' : Pcsm) (d : D)
    → IsCodec codec
    → is_idle ml.state ≡ false
    → ml.repl.ns_filter ≡ make_filter ml.ns_include ml.ns_exclude
    → Reach after ml ml'
    → checkpoint codec text ml' ≡ ok (some d)
    → (is_idle ml'.state ≡ false)
      × ((recover codec now d new_pcsm).1.repl.ns_filter ≡ ml'.repl.ns_filter)
unfolding recover
recover-reach codec after text now ml ml' d faithful active fits run made =
    let still = reach-IsActive after ml ml' run active in
    let (cp, read, is_stored) =
      faithful (saved text ml') d (checkpoint-marshal codec text ml' d made).1 in
    (
      still,
      rw (new_is_idle, read)
          (stored-filter text now ml' cp still is_stored ∙ sym (reach-Fits after ml ml' run fits)),
    )
