-- ===== src/Recovery/Saved.antt =====
-- DoCheckpoint and Restore of recovery.go, put together, and with the program of pcsm/pcsm.go.
use mathlib.Core.Path.{subst}
use percona_link_mongodb.Prelude.{
  ◌⊎◌, inl, inr, ℕ, ◌≡◌, refl, sym, ap, ◌∙◌, Option, none, some, String, false, nat_eqb, arith,
}
use percona_link_mongodb.Errors.{Error, wrap, is_no_documents}
use percona_link_mongodb.Exec.{Result, ok, fail, wrapping}
use percona_link_mongodb.Pcsm.{Pcsm, paused, new_pcsm}
use percona_link_mongodb.Pcsm.Checkpoints.{Codec, checkpoint, recover}
use percona_link_mongodb.Pcsm.Recovery.Stored.{IsCodec, IsKept, in_ms, recover-pcsm_checkpoint}
use percona_link_mongodb.Recovery.{Recoverable, Documents, restored, restore, save, do_checkpoint}

module _ {W D : Type 0} (docs : Documents W D) (view : W → Option D) where
  -- What the program relies on in the database: `view` is the data of the document.
  pub record IsStore : Type 0 where
    pub find_same : (w : W) (d d' : D) → view w ≡ some d → (docs.find w).0 ≡ ok d' → d' ≡ d
    pub find_there :
        (w : W) (d : D) (e : Error)
        → view w ≡ some d
        → (docs.find w).0 ≡ fail e
        → is_no_documents e ≡ false
    pub replace_some :
        (d : D) (w : W) → (docs.replace d w).0 ≡ none → view (docs.replace d w).1 ≡ some d

  module _ {P : Type 0} (rec : Recoverable P D) (store : IsStore) where
    wrap-none : (e : Option Error) → wrap e "save" ≡ none → e ≡ none
    unfolding wrap
    wrap-none none h = refl
    wrap-none (some e) h = ground arith

    save-view :
        (r : Result (Option D)) (w : W)
        → (save docs rec r w).0 ≡ none
        → (d : D) × (r ≡ ok (some d)) × (view (save docs rec r w).1 ≡ some d)
    unfolding save
    save-view (fail e) w h = ground arith
    save-view (ok none) w h = ground arith
    save-view (ok (some d)) w h =
        (d, refl, store.replace_some d w (wrap-none (docs.replace d w).0 h))

    -- What Restore does where the document has the data `d`: the read fails, and it says so and leaves
    -- the program, or `d` is handed over to Recover.
    abbrev RestoredFrom : D → P → W → Type 0
    RestoredFrom d q w =
        ((e : Error) × ((docs.find w).0 ≡ fail e)
          × ((restore docs rec q w).0 ≡ some (wrapping "find" e))
          × ((restore docs rec q w).1 ≡ q))
        ⊎ (((restore docs rec q w).0 ≡ wrap (rec.recover d q).0 "recover")
            × ((restore docs rec q w).1 ≡ (rec.recover d q).1))

    restore-view :
        (d : D) (q : P) (w : W) (r : Result D)
        → (docs.find w).0 ≡ r
        → view w ≡ some d
        → RestoredFrom d q w
    unfolding restore restored
    restore-view d q w (ok d') found v =
        inr (rw (found, store.find_same w d d' v found) (refl, refl))
    restore-view d q w (fail e) found v = inl (
      e,
      found,
      rw (found, store.find_there w d e v found) refl,
      rw (found, store.find_there w d e v found) refl,
    )

    pub restore-do_checkpoint :
        (p q : P) (w w2 : W)
        → (do_checkpoint docs rec p w).0 ≡ none
        → view w2 ≡ view (do_checkpoint docs rec p w).1
        → (d : D) × (rec.checkpoint p ≡ ok (some d)) × RestoredFrom d q w2
    unfolding do_checkpoint
    restore-do_checkpoint p q w w2 h same =
        let (d, e, v) = save-view (rec.checkpoint p) w h in
        (d, e, restore-view d q w2 (docs.find w2).0 refl (same ∙ v))

-- Checkpoint and Recover of pcsm/pcsm.go, as the two functions that recovery.go asks for.
unfoldable pub pcsm_recoverable : {D : Type 0} → Codec D → (Error → String) → ℕ → Recoverable Pcsm D
pcsm_recoverable codec text now = record {
  checkpoint = λ ml. checkpoint codec text ml;
  recover = λ d ml. recover codec now d ml;
}

module _ {W D : Type 0} (docs : Documents W D) (view : W → Option D) (store : IsStore docs view)
    (codec : Codec D) (text : Error → String) (now : ℕ) where
  -- For a program in state paused whose clone and replication were started, at times that are not
  -- zero in milliseconds, a database that keeps the document, and a codec that reads what it has
  -- written: once DoCheckpoint has returned no error, and as long as the document is not changed,
  -- Restore into a new program returns no error and gives a program that is what the first was, as
  -- far as a checkpoint and its BSON tell; unless the document cannot be read, of which Restore
  -- returns the error, and leaves the program new.
  pub restore-saved_pcsm :
      (ml : Pcsm) (w w2 : W)
      → IsCodec codec
      → ml.state ≡ paused
      → nat_eqb (in_ms ml.clone.start_time) 0 ≡ false
      → nat_eqb (in_ms ml.repl.start_time) 0 ≡ false
      → (do_checkpoint docs (pcsm_recoverable codec text now) ml w).0 ≡ none
      → view w2 ≡ view (do_checkpoint docs (pcsm_recoverable codec text now) ml w).1
      → let (err, ml', _) = restore docs (pcsm_recoverable codec text now) new_pcsm w2 in
        ((err ≡ none) × IsKept text now ml ml')
        ⊎ ((e : Error) × ((docs.find w2).0 ≡ fail e)
            × (err ≡ some (wrapping "find" e))
            × (ml' ≡ new_pcsm))
  unfolding pcsm_recoverable wrap
  restore-saved_pcsm ml w w2 faithful p c r h same =
      let rec : Recoverable Pcsm D = pcsm_recoverable codec text now in
      let (d, kept, found) = restore-do_checkpoint docs view rec store ml new_pcsm w w2 h same in
      let (fine, back) = recover-pcsm_checkpoint codec text now ml d faithful p c r kept in
      elim found [
        | inl lost ↦ inr lost
        | inr (err, program) ↦ inl (
          err ∙ ap (λ x. wrap x "recover") fine,
          subst (λ x. IsKept text now ml x) (sym program) back,
        )
      ]
