-- ===== src/Catalog/Indexes/Kept.antt =====
-- The operations of pcsm/catalog.go on indexes keep the entry and the UUID of their collection.
use percona_link_mongodb.Bson.{Bytes}
use percona_link_mongodb.Prelude.{
  String, ◌≡◌, refl, ◌∙◌, Option, none, some, List, [], ◌∷◌, arith, ==_iff, string_eq,
}
use percona_link_mongodb.Events.{IndexSpecification}
use percona_link_mongodb.Target.{Target}
use percona_link_mongodb.Catalog.{
  Catalog, CollectionCatalog, IndexPointer, IndexCatalogEntry, get_collection, put_collection,
  add_to_entry, add_indexes_to_catalog,
}
use percona_link_mongodb.Catalog.Places.{get_collection-put_collection}
use percona_link_mongodb.Catalog.Indexes.{
  add_incomplete_indexes, add_failed_indexes, record_indexes, create_prepared, create_indexes,
}

-- The UUID of an entry, if there is an entry.
abbrev pub uuid_at : Option CollectionCatalog → Option (Option Bytes)
uuid_at none = none
uuid_at (some entry) = some entry.uuid

pub get_collection-put :
    (c : Catalog) (db coll : String) (entry : CollectionCatalog)
    → get_collection (put_collection c db coll entry) db coll ≡ some entry
get_collection-put c db coll entry =
    get_collection-put_collection c db coll db coll entry
    ∙ ground (arith, ==_iff db db, ==_iff coll coll)

module _ (db coll : String) where
  -- An entry without a UUID.
  abbrev pub HasNoUuid : Catalog → Type 0
  HasNoUuid c = uuid_at (get_collection c db coll) ≡ some none

  add_to_entry-uuid :
      (o : Option CollectionCatalog) (indexes : List IndexCatalogEntry)
      → uuid_at o ≡ some none
      → (add_to_entry o indexes).uuid ≡ none
  unfolding add_to_entry
  add_to_entry-uuid none indexes h = refl
  add_to_entry-uuid (some entry) indexes h = ground arith

  add_indexes-HasNoUuid :
      (c : Catalog) (indexes : List IndexCatalogEntry)
      → HasNoUuid c
      → HasNoUuid (add_indexes_to_catalog c db coll indexes)
  unfolding add_indexes_to_catalog
  add_indexes-HasNoUuid c indexes h =
      rw (get_collection-put c db coll (add_to_entry (get_collection c db coll) indexes))
        (rw (add_to_entry-uuid (get_collection c db coll) indexes h) refl)

  pub add_incomplete_indexes-HasNoUuid :
      (c : Catalog) (ps : List IndexPointer)
      → HasNoUuid c
      → HasNoUuid (add_incomplete_indexes c db coll ps)
  unfolding add_incomplete_indexes
  add_incomplete_indexes-HasNoUuid c [] h = h
  add_incomplete_indexes-HasNoUuid c (p ∷ ps) h = add_indexes-HasNoUuid c _ h

  add_failed_indexes-HasNoUuid :
      (c : Catalog) (ps : List IndexPointer)
      → HasNoUuid c
      → HasNoUuid (add_failed_indexes c db coll ps)
  unfolding add_failed_indexes
  add_failed_indexes-HasNoUuid c [] h = h
  add_failed_indexes-HasNoUuid c (p ∷ ps) h = add_indexes-HasNoUuid c _ h

  module _ {W : Type 0} (target : Target W) where
    create_prepared-HasNoUuid :
        (c : Catalog) (ps : List IndexPointer) (specs : List IndexSpecification) (w : W)
        → HasNoUuid c
        → HasNoUuid (create_prepared target c db coll ps specs w).0
    unfolding create_prepared record_indexes
    create_prepared-HasNoUuid c ps [] w h = h
    create_prepared-HasNoUuid c ps (s ∷ ss) w h =
        add_failed_indexes-HasNoUuid _ _ (add_indexes-HasNoUuid c _ h)

    pub create_indexes-HasNoUuid :
        (c : Catalog) (ps : List IndexPointer) (w : W)
        → HasNoUuid c
        → HasNoUuid (create_indexes target c db coll ps w).0
    unfolding create_indexes
    create_indexes-HasNoUuid c [] w h = h
    create_indexes-HasNoUuid c (p ∷ ps) w h = create_prepared-HasNoUuid c (p ∷ ps) _ w h
