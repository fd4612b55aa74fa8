-- ===== src/Pcsm/Recovery/Stored.antt =====
-- Checkpoint and Recover of pcsm/pcsm.go, put together, with the BSON between them.
use mathlib.Core.Path.{subst}
use mathlib.Core.Option
use percona_link_mongodb.Prelude.{
  if◌then◌else◌, ℕ, ◌/◌, ◌*◌, map, arith, ◌≡◌, refl, sym, ap, ◌∙◌, String, Bool, true, false,
  Option, none, some, [], ◌∷◌, nat_eqb,
}
use percona_link_mongodb.Errors.{Error}
use percona_link_mongodb.Exec.{Result, ok, fail}
use percona_link_mongodb.Catalog.{Catalog, CollectionCatalog, IndexCatalogEntry, get_collection}
use percona_link_mongodb.Repl.{Repl, ReplCheckpoint, new_repl, error_text, error_of, is_zero}
use percona_link_mongodb.Clone.{Clone, CloneCheckpoint, new_clone}
use percona_link_mongodb.Pcsm.{paused, Pcsm, is_idle, new_pcsm}
use percona_link_mongodb.Pcsm.Checkpoints.{
  Checkpoint, saved, checkpoint, recover_data, recover, Codec, marshalled,
}
use percona_link_mongodb.Pcsm.Recovery.{
  IsRestored, catalog_of, saved_with, recovered_from, recover-saved, recovered_from-IsRestored,
}

-- A time.Time, in nanoseconds, as BSON keeps it: in milliseconds.
abbrev pub in_ms : ℕ → ℕ
in_ms t = t / 1000000 * 1000000

abbrev pub clone_in_ms : CloneCheckpoint → CloneCheckpoint
clone_in_ms cp = record cp { start_time = in_ms cp.start_time; finish_time = in_ms cp.finish_time }

abbrev pub repl_in_ms : ReplCheckpoint → ReplCheckpoint
repl_in_ms cp = record cp { start_time = in_ms cp.start_time; pause_time = in_ms cp.pause_time }

-- An entry of the catalog without the pointers of its indexes.
abbrev pub content : CollectionCatalog → CollectionCatalog
content entry = record entry {
  indexes =
      map (λ (e : IndexCatalogEntry). record e { index = record e.index { ref = 0 } })
        entry.indexes;
}

-- Two catalogs with the same entries, whatever their order and their pointers.
abbrev pub SameCatalog : Catalog → Catalog → Type 0
SameCatalog c c' =
    (db coll : String)
    → Option.map content (get_collection c' db coll) ≡ Option.map content (get_collection c db coll)

-- What is read back of a checkpoint: times in milliseconds, another catalog with the same entries,
-- and all else as it was.
pub record IsStored (cp cp' : Checkpoint) : Type 0 where
  pub fields : cp' ≡ record cp {
    catalog = cp'.catalog;
    clone = Option.map clone_in_ms cp.clone;
    repl = Option.map repl_in_ms cp.repl;
  }
  pub catalog : SameCatalog (catalog_of cp.catalog) (catalog_of cp'.catalog)

-- Unmarshal reads what Marshal has written.
abbrev pub IsCodec : {D : Type 0} → Codec D → Type 0
IsCodec {D} codec =
    (cp : Checkpoint) (d : D)
    → codec.marshal cp ≡ ok d
    → (cp' : Checkpoint) × (codec.unmarshal d ≡ ok cp') × IsStored cp cp'

-- The program whose times are those that BSON keeps, with this catalog.
abbrev pub stored : Catalog → Pcsm → Pcsm
stored c ml = record ml {
  clone = record ml.clone {
    start_time = in_ms ml.clone.start_time;
    finish_time = in_ms ml.clone.finish_time;
  };
  repl = record ml.repl {
    start_time = in_ms ml.repl.start_time;
    pause_time = in_ms ml.repl.pause_time;
    catalog = c;
  };
}

-- `ml'` is `ml`, as far as a checkpoint and its BSON tell.
pub record IsKept (text : Error → String) (now : ℕ) (ml ml' : Pcsm) : Type 0 where
  pub catalog : SameCatalog ml.repl.catalog ml'.repl.catalog
  pub rest : IsRestored text now (stored ml'.repl.catalog ml) ml'

late_enough : (t : ℕ) → nat_eqb (in_ms t) 0 ≡ false → nat_eqb t 0 ≡ false
late_enough t h = ground arith

clone_stored :
    (text : Error → String) (c : Catalog) (ml : Pcsm)
    → nat_eqb (in_ms ml.clone.start_time) 0 ≡ false
    → Option.map clone_in_ms (percona_link_mongodb.Clone.checkpoint text ml.clone)
      ≡ percona_link_mongodb.Clone.checkpoint text (stored c ml).clone
unfolding percona_link_mongodb.Clone.checkpoint percona_link_mongodb.Clone.saved
clone_stored text c ml h = rw (h, late_enough ml.clone.start_time h) refl

repl_stored :
    (text : Error → String) (c : Catalog) (ml : Pcsm)
    → nat_eqb (in_ms ml.repl.start_time) 0 ≡ false
    → Option.map repl_in_ms (percona_link_mongodb.Repl.checkpoint text ml.repl)
      ≡ percona_link_mongodb.Repl.checkpoint text (stored c ml).repl
unfolding percona_link_mongodb.Repl.checkpoint percona_link_mongodb.Repl.saved
repl_stored text c ml h = rw (h, late_enough ml.repl.start_time h) refl

stored_fields :
    (text : Error → String) (ml : Pcsm) (cp' : Checkpoint)
    → nat_eqb (in_ms ml.clone.start_time) 0 ≡ false
    → nat_eqb (in_ms ml.repl.start_time) 0 ≡ false
    → IsStored (saved text ml) cp'
    → cp' ≡ saved_with text cp'.catalog (stored (catalog_of cp'.catalog) ml)
unfolding saved
stored_fields text ml cp' c r h =
    let cat = catalog_of cp'.catalog in
    h.fields ∙ (λ i. record (saved text ml) {
      catalog = cp'.catalog;
      clone = clone_stored text cat ml c i;
      repl = repl_stored text cat ml r i;
    })

catalog_kept : (c : Catalog) → catalog_of (percona_link_mongodb.Catalog.checkpoint c) ≡ c
unfolding percona_link_mongodb.Catalog.checkpoint
catalog_kept [] = refl
catalog_kept (d ∷ c) = refl

recovered_from-IsKept :
    (text : Error → String) (now : ℕ) (ml : Pcsm) (cat : Catalog)
    → SameCatalog ml.repl.catalog cat
    → IsKept text now ml (recovered_from text now (stored cat ml))
recovered_from-IsKept text now ml cat same =
    let back = recovered_from-IsRestored text now (stored cat ml) in
    record {
      catalog = subst (λ x. SameCatalog ml.repl.catalog x) (sym back.catalog) same;
      rest =
          subst (λ x. IsRestored text now (stored x ml) (recovered_from text now (stored cat ml)))
            (sym back.catalog) back;
    }

-- What Recover makes of a checkpoint that was stored.
stored-IsKept :
    (text : Error → String) (now : ℕ) (ml : Pcsm) (cp' : Checkpoint)
    → ml.state ≡ paused
    → nat_eqb (in_ms ml.clone.start_time) 0 ≡ false
    → nat_eqb (in_ms ml.repl.start_time) 0 ≡ false
    → IsStored (saved text ml) cp'
    → ((recover_data now (ok cp') new_pcsm).0 ≡ none)
      × IsKept text now ml (recover_data now (ok cp') new_pcsm).1
stored-IsKept text now ml cp' p c r h =
    let cat = catalog_of cp'.catalog in
    let back =
      ap (λ x. recover_data now (ok x) new_pcsm) (stored_fields text ml cp' c r h)
      ∙ recover-saved text now cp'.catalog (stored cat ml) p c r refl in
    (
      ap (λ x. x.0) back,
      subst (λ (x : Option Error × Pcsm). IsKept text now ml x.1) (sym back)
          (recovered_from-IsKept text now ml cat
            (subst (λ x. SameCatalog x cat) (catalog_kept ml.repl.catalog) (same h))),
    )
  where
    same :
        IsStored (saved text ml) cp'
        → SameCatalog
            (catalog_of (percona_link_mongodb.Catalog.checkpoint ml.repl.catalog))
            (catalog_of cp'.catalog)
    same h = unfold saved in h.catalog

marshalled-some : {D : Type 0} (d : D) (r : Result D) → marshalled r ≡ ok (some d) → r ≡ ok d
unfolding marshalled
marshalled-some d (ok x) h = ground arith
marshalled-some d (fail e) h = absurd (ground arith)

data_given :
    {D : Type 0} (idle : Bool) (d : D) (r : Result D)
    → (if idle then ok none else marshalled r) ≡ ok (some d)
    → (idle ≡ false) × (r ≡ ok d)
data_given true d r h = absurd (ground arith)
data_given false d r h = (refl, marshalled-some d r h)

-- The data that Checkpoint gives is that of Marshal.
pub checkpoint-marshal :
    {D : Type 0} (codec : Codec D) (text : Error → String) (ml : Pcsm) (d : D)
    → checkpoint codec text ml ≡ ok (some d)
    → (is_idle ml.state ≡ false) × (codec.marshal (saved text ml) ≡ ok d)
unfolding checkpoint
checkpoint-marshal codec text ml d h =
    data_given (is_idle ml.state) d (codec.marshal (saved text ml)) h

new_is_idle : is_idle new_pcsm.state ≡ true
unfolding is_idle new_pcsm
new_is_idle = refl

-- For a program in state paused whose clone and replication were started, at times that are not
-- zero in milliseconds, and a codec that reads what it has written: if Checkpoint gives data,
-- Recover from the data into a new program gives no error, and a program in state paused with the
-- same namespace lists and the filter that they make, the same entries in its catalog, the same
-- error text, and with a replication and a clone that are what they were as far as their own
-- checkpoints tell, but for their times, which are those that BSON keeps, in milliseconds.
pub recover-pcsm_checkpoint :
    {D : Type 0} (codec : Codec D) (text : Error → String) (now : ℕ) (ml : Pcsm) (d : D)
    → IsCodec codec
    → ml.state ≡ paused
    → nat_eqb (in_ms ml.clone.start_time) 0 ≡ false
    → nat_eqb (in_ms ml.repl.start_time) 0 ≡ false
    → checkpoint codec text ml ≡ ok (some d)
    → ((recover codec now d new_pcsm).0 ≡ none)
      × IsKept text now ml (recover codec now d new_pcsm).1
unfolding recover
recover-pcsm_checkpoint codec text now ml d faithful p c r made =
    let (cp', read, is_stored) =
      faithful (saved text ml) d (checkpoint-marshal codec text ml d made).1 in
    rw (new_is_idle, read) (stored-IsKept text now ml cp' p c r is_stored)
