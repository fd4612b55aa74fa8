-- ===== src/Catalog/Removal.antt =====
-- What removeIndexFromCatalog of pcsm/catalog.go leaves in the catalog.
use percona_link_mongodb.Prelude.{
  suc, ◌≡◌, refl, ap, String, some, List, [], ◌∷◌, length, arith, ==_iff, string_eq,
}
use percona_link_mongodb.Catalog.{
  Catalog, CollectionCatalog, IndexCatalogEntry, get_collection, shift_left, remove_by_copy,
  removed_indexes, remove_index_from_catalog,
}
use percona_link_mongodb.Catalog.Places.{get_collection-put_collection}

length-shift_left :
    (last : IndexCatalogEntry) (es : List IndexCatalogEntry)
    → length (shift_left last es) ≡ suc (length es)
unfolding shift_left
length-shift_left last [] = refl
length-shift_left last (e ∷ es) = ap suc (length-shift_left e es)

length-remove_by_copy :
    (name : String) (es : List IndexCatalogEntry) → length (remove_by_copy name es) ≡ length es
unfolding remove_by_copy
length-remove_by_copy name [] = refl
length-remove_by_copy name (e ∷ es) =
    ground (arith, length-remove_by_copy name es, length-shift_left e es)

length-removed_indexes :
    (name : String) (es : List IndexCatalogEntry) → length (removed_indexes name es) ≡ length es
unfolding removed_indexes
length-removed_indexes name [] = refl
length-removed_indexes name (e ∷ []) = refl
length-removed_indexes name (e ∷ f ∷ es) = length-remove_by_copy name (e ∷ f ∷ es)

module _ (c : Catalog) (db coll name : String) (entry : CollectionCatalog) where
  -- For a collection that the catalog has and any index name, present or not: after
  -- removeIndexFromCatalog the catalog still has the collection, with as many index entries as
  -- before. The removal of an index never makes the list of indexes shorter.
  pub remove_index-keeps_length :
      get_collection c db coll ≡ some entry
      → (after : CollectionCatalog) × (get_collection
            (remove_index_from_catalog c db coll name)
            db
            coll
          ≡ some after)
        × (length after.indexes ≡ length entry.indexes)
  unfolding remove_index_from_catalog
  remove_index-keeps_length h = (
    record entry { indexes = removed_indexes name entry.indexes },
    rw (h, remove_index_from_catalog)
        (rw get_collection-put_collection (ground (arith, ==_iff db db, ==_iff coll coll))),
    length-removed_indexes name entry.indexes,
  )
