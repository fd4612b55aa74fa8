-- ===== src/Recovery/Tests.antt =====
-- Witnesses of the checkpoint document.
use percona_link_mongodb.Prelude.{
  Option, none, some, ◌≡◌, ◌⊎◌, refl, String, true, false, [], arith,
}
use percona_link_mongodb.Errors.{Error, no_documents, is_no_documents}
use percona_link_mongodb.Exec.{Result, ok, fail, wrapping}
use percona_link_mongodb.Clone.{new_clone}
use percona_link_mongodb.Repl.{new_repl}
use percona_link_mongodb.Pcsm.{Pcsm, paused, new_pcsm}
use percona_link_mongodb.Pcsm.Checkpoints.{Checkpoint, Codec}
use percona_link_mongodb.Pcsm.Recovery.Samples.{codec, codec-IsCodec}
use percona_link_mongodb.Pcsm.Recovery.Stored.{IsKept}
use percona_link_mongodb.Recovery.{Documents, restore, save, do_checkpoint}
use percona_link_mongodb.Recovery.Saved.{IsStore, pcsm_recoverable, restore-saved_pcsm}

-- The document, and nothing else.
abbrev World : Type 0
World = Option Checkpoint

found : World → Result Checkpoint
found none = fail no_documents
found (some cp) = ok cp

abbrev docs : Documents World Checkpoint
docs = record {
  find = λ w. (found w, w);
  replace = λ cp w. (none, some cp);
  delete = λ w. (none, none);
}

abbrev contents : World → Option Checkpoint
contents w = w

found-same : (w : World) (d d' : Checkpoint) → w ≡ some d → found w ≡ ok d' → d' ≡ d
unfolding found
found-same none d d' v h = absurd (ground arith)
found-same (some x) d d' v h = ground arith

found-there :
    (w : World) (d : Checkpoint) (e : Error)
    → w ≡ some d
    → found w ≡ fail e
    → is_no_documents e ≡ false
unfolding found
found-there none d e v h = absurd (ground arith)
found-there (some x) d e v h = absurd (ground arith)

docs-IsStore : IsStore docs contents
docs-IsStore = record {
  find_same = found-same;
  find_there = found-there;
  replace_some = λ d w h. refl;
}

abbrev text : Error → String
text e = "driver"

-- Its times are 3.5, 4, 5 and 6 ms.
abbrev at_rest : Pcsm
at_rest = record new_pcsm {
  state = paused;
  clone = record new_clone { start_time = 3500000; finish_time = 4000000 };
  repl = record (new_repl [] (λ db coll. true)) { start_time = 5000000; pause_time = 6000000 };
}

abbrev written : World
written = (do_checkpoint docs (pcsm_recoverable codec text 9) at_rest none).1

restore-saved_pcsm_example :
    let (err, ml', _) = restore docs (pcsm_recoverable codec text 9) new_pcsm written in
    ((err ≡ none) × IsKept text 9 at_rest ml')
    ⊎ ((e : Error) × ((docs.find written).0 ≡ fail e)
        × (err ≡ some (wrapping "find" e))
        × (ml' ≡ new_pcsm))
unfolding do_checkpoint save pcsm_recoverable percona_link_mongodb.Pcsm.Checkpoints.checkpoint
    percona_link_mongodb.Errors.wrap
restore-saved_pcsm_example =
    restore-saved_pcsm docs contents docs-IsStore codec text 9 at_rest none written codec-IsCodec
      refl refl refl refl refl
