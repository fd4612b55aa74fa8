-- ===== src/Catalog/Commands/Effects.antt =====
-- What the operations on collections leave in the catalog, with and without an error.
use percona_link_mongodb.Prelude.{
  ◌==◌, string_eq, ==_iff, Bool-cases, inl, inr, ◌∙◌, String, ◌≡◌, refl, Option, none, some, [],
  arith, if◌then◌else◌,
}
use text.Mathlib.Text.{starts_with}
use text.Mathlib.TextEquality.{eq_iff}
use percona_link_mongodb.Catalog.Places.{
  same_place, get_collection-put_collection, get_collection-delete, get_collection-add_missing,
}
use percona_link_mongodb.Errors.{Error}
use percona_link_mongodb.Events.{CreateCollectionOptions, ModifyIndexOption}
use percona_link_mongodb.Target.{Target}
use percona_link_mongodb.Catalog.{
  Catalog, get_collection, delete_collection_from_catalog, add_collection_to_catalog, with_indexes,
}
use percona_link_mongodb.Catalog.Commands.{
  timeseries_prefix, create_collection, created, drop_collection, rename, drop_index, modify_index,
  on_success,
}

-- An operation that reports an error has left the catalog as it was.
abbrev pub KeptOnError : Catalog → Option Error → Catalog → Type 0
KeptOnError c none c' = Unit
KeptOnError c (some e) c' = c' ≡ c

module _ {W : Type 0} (target : Target W) (c : Catalog) (db coll : String) (w : W) where
  KeptOnError-created :
      (err : Option Error) (w' : W)
      → let (err', c', _) = created target err c db coll w' in KeptOnError c err' c'
  unfolding created
  KeptOnError-created none w' = tt
  KeptOnError-created (some e) w' = ground arith

  KeptOnError-on_success :
      (o : Option Error × W) (c' : Catalog)
      → KeptOnError c (on_success target o c c').0 (on_success target o c c').1
  KeptOnError-on_success (none, w') c' = tt
  KeptOnError-on_success (some e, w') c' = refl

  KeptOnError-create :
      (opts : CreateCollectionOptions)
      → let (err, c', _) = create_collection target c db coll opts w in KeptOnError c err c'
  unfolding create_collection
  KeptOnError-create opts = elim (Bool-cases (opts.view_on == "")) [
    | inl coll_test ↦ rw coll_test (KeptOnError-created _ _)
    | inr view_test ↦ elim (Bool-cases (starts_with opts.view_on timeseries_prefix)) [
      | inl buckets ↦ rw (view_test, buckets) refl
      | inr other ↦ rw (view_test, other) (KeptOnError-on_success _ c)
    ]
  ]

  KeptOnError-rename :
      (target_db target_coll : String)
      → let (err, c', _) = rename target c db coll target_db target_coll w in KeptOnError c err c'
  unfolding rename
  KeptOnError-rename target_db target_coll = ground arith

  KeptOnError-drop_index :
      (index : String)
      → let (err, c', _) = drop_index target c db coll index w in KeptOnError c err c'
  unfolding drop_index
  KeptOnError-drop_index index = ground arith

  KeptOnError-modify_index :
      (mods : ModifyIndexOption)
      → let (err, c', _) = modify_index target c db coll mods w in KeptOnError c err c'
  unfolding modify_index
  KeptOnError-modify_index mods = ground arith

module _ {W : Type 0} (target : Target W) (c : Catalog) (db coll : String) (w : W) where
  -- For every catalog, namespace and answers of the target: creating a collection or a view,
  -- dropping a collection, renaming it, dropping an index and modifying an index each leave the
  -- catalog as it was if they return an error.
  pub errors_keep_catalog :
      (opts : CreateCollectionOptions) (target_db target_coll index : String)
      (mods : ModifyIndexOption)
      → let (e1, c1, _) = create_collection target c db coll opts w in
        let (e2, c2, _) = drop_collection target c db coll w in
        let (e3, c3, _) = rename target c db coll target_db target_coll w in
        let (e4, c4, _) = drop_index target c db coll index w in
        let (e5, c5, _) = modify_index target c db coll mods w in
        KeptOnError c e1 c1
        × KeptOnError c e2 c2
        × KeptOnError c e3 c3
        × KeptOnError c e4 c4
        × KeptOnError c e5 c5
  unfolding drop_collection
  errors_keep_catalog opts target_db target_coll index mods = (
    KeptOnError-create target c db coll w opts,
    KeptOnError-on_success target c db coll w _ _,
    KeptOnError-rename target c db coll w target_db target_coll,
    KeptOnError-drop_index target c db coll w index,
    KeptOnError-modify_index target c db coll w mods,
  )

fresh :
    (c : Catalog) (db coll db' coll' : String)
    → get_collection
        (add_collection_to_catalog (delete_collection_from_catalog c db coll) db coll)
        db'
        coll'
      ≡ (if same_place db coll db' coll'
          then some (with_indexes [])
          else get_collection c db' coll')
fresh c db coll db' coll' =
    rw (get_collection-add_missing _ db coll db' coll' gone)
      (simp (get_collection-put_collection, get_collection-delete) (ground arith))
  where
    gone : get_collection (delete_collection_from_catalog c db coll) db coll ≡ none
    gone = get_collection-delete c db coll db coll ∙ ground (arith, ==_iff db db, ==_iff coll coll)

-- The catalog after a successful drop and a successful creation of a collection, as the handler of a
-- create event makes them.
module _ {W : Type 0} (target : Target W) (opts : CreateCollectionOptions) where
  pub drop_none :
      (c : Catalog) (db coll : String) (w : W)
      → (drop_collection target c db coll w).0 ≡ none
      → (drop_collection target c db coll w).1 ≡ delete_collection_from_catalog c db coll
  unfolding drop_collection
  drop_none c db coll w h = ground arith

  pub create_none :
      (c : Catalog) (db coll : String) (w : W)
      → opts.view_on ≡ ""
      → (create_collection target c db coll opts w).0 ≡ none
      → (create_collection target c db coll opts w).1 ≡ add_collection_to_catalog c db coll
  unfolding create_collection created
  create_none c db coll w v h = ground (arith, eq_iff opts.view_on "")

  -- Dropping a collection and then creating it anew, not as a view, both without an error: the
  -- catalog has a fresh entry with no UUID and no indexes for it, whatever it had before, and every
  -- other collection as before.
  get_collection-recreate :
      (c : Catalog) (db coll db' coll' : String) (w : W)
      → opts.view_on ≡ ""
      → (drop_collection target c db coll w).0 ≡ none
      → let (_, c1, w1) = drop_collection target c db coll w in
        (create_collection target c1 db coll opts w1).0 ≡ none
        → get_collection (create_collection target c1 db coll opts w1).1 db' coll' ≡ (
            if same_place db coll db' coll'
            then some (with_indexes [])
            else get_collection c db' coll')
  get_collection-recreate c db coll db' coll' w v h1 h2 =
      rw (create_none _ db coll _ v h2) (rw (drop_none c db coll w h1) (fresh c db coll db' coll'))
