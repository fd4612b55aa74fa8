-- ===== src/Catalog/Places.antt =====
-- Where the collections of the catalog stand after a write, a deletion and a renaming.
use percona_link_mongodb.Prelude.Maps.{lookup, remove, lookup-insert, lookup-remove}
use percona_link_mongodb.Prelude.{
  String, ◌≡◌, refl, Bool, true, ◌&&◌, Option, none, some, [], ◌∷◌, is_empty, arith, ◌==◌, ==_iff,
  string_eq, if◌then◌else◌, Bool-cases, Option-cases, inl, inr,
}
use percona_link_mongodb.Catalog.{
  write_back, Catalog, DatabaseCatalog, CollectionCatalog, collection_in, collections_of,
  get_collection, put_collection, with_indexes, add_collection_to_catalog,
  delete_collection_from_catalog, rename_collection_in_catalog,
}

lookup-is_empty : (d : DatabaseCatalog) (coll : String) → is_empty d ≡ true → lookup coll d ≡ none
unfolding lookup
lookup-is_empty [] coll h = refl
lookup-is_empty (e ∷ d) coll h = cc

lookup-collections_of :
    (o : Option DatabaseCatalog) (coll : String)
    → lookup coll (collections_of o) ≡ collection_in o coll
unfolding lookup collection_in
lookup-collections_of none coll = refl
lookup-collections_of (some d) coll = refl

abbrev pub same_place : String → String → String → String → Bool
same_place db coll db' coll' = (db == db') && (coll == coll')

module _ (c : Catalog) (db coll db' coll' : String) where
  pub get_collection-put_collection :
      (e : CollectionCatalog)
      → get_collection (put_collection c db coll e) db' coll'
        ≡ (if same_place db coll db' coll' then some e else get_collection c db' coll')
  unfolding get_collection put_collection
  get_collection-put_collection e = simp (lookup-insert) (
      ground (
        arith,
        ==_iff db db',
        ==_iff coll coll',
        lookup-insert coll coll' e (collections_of (lookup db c)),
        lookup-collections_of (lookup db c) coll',
      ))

module _ (c : Catalog) (db db' coll' : String) (d : DatabaseCatalog) where
  collection_in-write_back :
      collection_in (lookup db' (write_back db d c)) coll'
      ≡ (if db == db' then lookup coll' d else collection_in (lookup db' c) coll')
  unfolding write_back
  collection_in-write_back = elim (Bool-cases (is_empty d)) [
    | inl e ↦
        rw (e, lookup-remove) (unfold collection_in in ground (arith, lookup-is_empty d coll' e))
    | inr e ↦ rw (e, lookup-insert) (unfold collection_in in ground arith)
  ]

module _ (c : Catalog) (db coll db' coll' : String) where
  -- After the deletion of a collection, it is gone, and every other collection is as before.
  pub get_collection-delete :
      get_collection (delete_collection_from_catalog c db coll) db' coll'
      ≡ (if same_place db coll db' coll' then none else get_collection c db' coll')
  unfolding get_collection delete_collection_from_catalog
  get_collection-delete = elim (Option-cases (lookup db c)) [
    | inl e ↦
        rw (e, delete_collection_from_catalog)
          (unfold collection_in in ground (arith, e, ==_iff db db'))
    | inr (d, e) ↦
        rw (e, delete_collection_from_catalog)
          (unfold collection_in in
            ground (
              arith,
              e,
              ==_iff db db',
              ==_iff coll coll',
              lookup-remove coll coll' d,
              collection_in-write_back c db db' coll' (remove coll d),
            ))
  ]

  get_collection-add_present :
      (e : CollectionCatalog)
      → get_collection c db coll ≡ some e
      → add_collection_to_catalog c db coll ≡ c
  unfolding add_collection_to_catalog
  get_collection-add_present e h = rw (h, add_collection_to_catalog)

  pub get_collection-add_missing :
      get_collection c db coll ≡ none
      → add_collection_to_catalog c db coll ≡ put_collection c db coll (with_indexes [])
  unfolding add_collection_to_catalog
  get_collection-add_missing h = rw (h, add_collection_to_catalog)

  -- add_collection_to_catalog keeps the entry that is there, and adds an empty one where none is.
  put-add :
      (e : CollectionCatalog)
      → get_collection (put_collection (add_collection_to_catalog c db coll) db coll e) db' coll'
        ≡ (if same_place db coll db' coll' then some e else get_collection c db' coll')
  put-add e = elim (Option-cases (get_collection c db coll)) [
    | inl h ↦
        rw get_collection-put_collection
          (rw (get_collection-add_missing h) (rw get_collection-put_collection (ground arith)))
    | inr (old, h) ↦
        rw (get_collection-add_present old h) (get_collection-put_collection c db coll db' coll' e)
  ]

module _ (c : Catalog) (db coll target_db target_coll db' coll' : String)
    (e : CollectionCatalog) where
  -- Renaming a collection that the catalog has: in the new catalog the old place is empty, the
  -- target place holds the entry of the old place, whatever it held before, and every other place
  -- is as before. (Renaming a collection to its own name deletes its entry.)
  get_collection-rename :
      get_collection c db coll ≡ some e
      → get_collection (rename_collection_in_catalog c db coll target_db target_coll) db' coll' ≡ (
          if same_place db coll db' coll'
          then none
          else if same_place target_db target_coll db' coll'
          then some e
          else get_collection c db' coll')
  unfolding rename_collection_in_catalog
  get_collection-rename h =
      rw (h, rename_collection_in_catalog) (rw get_collection-delete (rw put-add refl))
