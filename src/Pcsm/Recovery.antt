-- ===== src/Pcsm/Recovery.antt =====
-- Checkpoint and Recover of pcsm/pcsm.go, put together.
pub mod Stored
pub mod Samples
use mathlib.Core.Path.{subst}
use mathlib.Core.Option
use percona_link_mongodb.Prelude.{
  if◌then◌else◌, ℕ, ◌/◌, ◌*◌, map, arith, ◌≡◌, refl, sym, ap, ◌∙◌, String, Bool, true, false,
  Option, none, some, [], ◌∷◌, nat_eqb,
}
use percona_link_mongodb.Errors.{Error, wrap}
use percona_link_mongodb.Exec.{Result, ok, fail}
use percona_link_mongodb.Catalog.{Catalog, CollectionCatalog, IndexCatalogEntry, get_collection}
use percona_link_mongodb.Sel.{make_filter}
use percona_link_mongodb.Repl.{Repl, ReplCheckpoint, new_repl, error_text, error_of, is_zero}
use percona_link_mongodb.Repl.Recovery.{error_text-error_of, restored-saved}
use percona_link_mongodb.Clone.{Clone, CloneCheckpoint, new_clone}
use percona_link_mongodb.Clone.Recovery.{clone_restored-saved, recovered_error-none}
use percona_link_mongodb.Pcsm.{State, paused, Pcsm, is_idle, new_pcsm}
use percona_link_mongodb.Pcsm.Checkpoints.{
  Checkpoint, saved, checkpoint, recovered_part, recovered_error, recovered, resume_recovered,
  recover_joined, recover_parts, recover_data, recover, Codec, marshalled,
}

-- `ml'` is `ml` as far as a checkpoint tells.
pub record IsRestored (text : Error → String) (now : ℕ) (ml ml' : Pcsm) : Type 0 where
  pub state : ml'.state ≡ ml.state
  pub ns_include : ml'.ns_include ≡ ml.ns_include
  pub ns_exclude : ml'.ns_exclude ≡ ml.ns_exclude
  pub ns_filter : ml'.repl.ns_filter ≡ make_filter ml.ns_include ml.ns_exclude
  pub catalog : ml'.repl.catalog ≡ ml.repl.catalog
  pub error : error_text text ml'.err ≡ error_text text ml.err
  pub repl : percona_link_mongodb.Repl.Recovery.IsRestored text now ml.repl ml'.repl
  pub clone : percona_link_mongodb.Clone.Recovery.IsRestored text ml.clone ml'.clone

-- The catalog that Recover makes of a saved one.
abbrev pub catalog_of : Option Catalog → Catalog
catalog_of none = []
catalog_of (some c) = c

pub catalog_back :
    (o : Option Catalog)
    → recovered_part "recover catalog"
        (λ saved c. percona_link_mongodb.Catalog.recover c saved)
        o
        []
      ≡ (none, catalog_of o)
unfolding recovered_part percona_link_mongodb.Catalog.recover wrap
catalog_back none = refl
catalog_back (some c) = refl

clone_back :
    (text : Error → String) (c : Clone)
    → nat_eqb c.start_time 0 ≡ false
    → recovered_part "recover clone" percona_link_mongodb.Clone.recover
        (percona_link_mongodb.Clone.checkpoint text c)
        new_clone
      ≡ (
        none,
        percona_link_mongodb.Clone.restored (percona_link_mongodb.Clone.saved text c) new_clone,
      )
unfolding recovered_part percona_link_mongodb.Clone.recover percona_link_mongodb.Clone.checkpoint
    new_clone is_zero wrap
clone_back text c h = rw h refl

repl_back :
    (text : Error → String) (now : ℕ) (f : String → String → Bool) (c : Catalog) (r : Repl)
    → nat_eqb r.start_time 0 ≡ false
    → recovered_part "recover repl"
        (percona_link_mongodb.Repl.recover now)
        (percona_link_mongodb.Repl.checkpoint text r)
        (new_repl c f)
      ≡ (
        none,
        percona_link_mongodb.Repl.restored now
            (percona_link_mongodb.Repl.saved text r)
            (new_repl c f),
      )
unfolding recovered_part percona_link_mongodb.Repl.recover percona_link_mongodb.Repl.checkpoint
    new_repl wrap
repl_back text now f c r h = rw h refl

unfoldable pub recovered_from : (Error → String) → ℕ → Pcsm → Pcsm
unfolding recovered
recovered_from text now ml =
    recovered (saved text ml)
      (percona_link_mongodb.Clone.restored (percona_link_mongodb.Clone.saved text ml.clone)
        new_clone)
      (percona_link_mongodb.Repl.restored now (percona_link_mongodb.Repl.saved text ml.repl)
        (new_repl ml.repl.catalog (make_filter ml.ns_include ml.ns_exclude)))
      new_pcsm

settled : (s : State) (x : Pcsm) → s ≡ paused → resume_recovered s x ≡ (none, x)
unfolding resume_recovered
settled s x p = rw p refl

-- What is marshalled of a program, but for the catalog, in whose place `o` stands.
abbrev pub saved_with : (Error → String) → Option Catalog → Pcsm → Checkpoint
saved_with text o ml = record (saved text ml) { catalog = o }

recover_parts-saved :
    (text : Error → String) (now : ℕ) (o : Option Catalog) (ml : Pcsm)
    → ml.state ≡ paused
    → nat_eqb ml.clone.start_time 0 ≡ false
    → nat_eqb ml.repl.start_time 0 ≡ false
    → recover_parts (saved_with text o ml) (none, ml.repl.catalog) new_pcsm now
      ≡ (none, recovered_from text now ml)
unfolding recover_parts recover_joined saved recovered_from recovered
recover_parts-saved text now o ml p c r =
    rw
      (
        clone_back text ml.clone c,
        repl_back text now (make_filter ml.ns_include ml.ns_exclude) ml.repl.catalog ml.repl r,
      )
      (settled ml.state (recovered_from text now ml) p)

not_idle : (s : State) → s ≡ paused → is_idle s ≡ false
unfolding is_idle
not_idle s p = rw p refl

pub recover-saved :
    (text : Error → String) (now : ℕ) (o : Option Catalog) (ml : Pcsm)
    → ml.state ≡ paused
    → nat_eqb ml.clone.start_time 0 ≡ false
    → nat_eqb ml.repl.start_time 0 ≡ false
    → catalog_of o ≡ ml.repl.catalog
    → recover_data now (ok (saved_with text o ml)) new_pcsm ≡ (none, recovered_from text now ml)
unfolding recover_data saved
recover-saved text now o ml p c r kept =
    rw (not_idle ml.state p, catalog_back o, kept) (recover_parts-saved text now o ml p c r)

recovered_error-same :
    (text : Error → String) (e : Option Error)
    → error_text text (recovered_error e none) ≡ error_text text e
unfolding recovered_error
recovered_error-same text none = refl
recovered_error-same text (some e) = refl

pub recovered_from-IsRestored :
    (text : Error → String) (now : ℕ) (ml : Pcsm)
    → IsRestored text now ml (recovered_from text now ml)
unfolding recovered_from recovered saved new_pcsm
recovered_from-IsRestored text now ml = record {
  state = refl;
  ns_include = refl;
  ns_exclude = refl;
  ns_filter = unfold percona_link_mongodb.Repl.restored new_repl in refl;
  catalog = unfold percona_link_mongodb.Repl.restored new_repl in refl;
  error =
      recovered_error-same text (error_of (error_text text ml.err))
      ∙ error_text-error_of text (error_text text ml.err);
  repl =
      restored-saved text now ml.repl
        (new_repl ml.repl.catalog (make_filter ml.ns_include ml.ns_exclude));
  clone = clone_restored-saved text ml.clone;
}
