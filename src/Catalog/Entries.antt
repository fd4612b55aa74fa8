-- ===== src/Catalog/Entries.antt =====
-- The index entries of a collection after addIndexesToCatalog.
use percona_link_mongodb.Prelude.{
  String, ◌≡◌, refl, ◌∙◌, Option, none, some, List, [], ◌∷◌, arith, ◌==◌, ==_iff, string_eq,
  if◌then◌else◌, Bool-cases, inl, inr,
}
use percona_link_mongodb.Catalog.{
  Catalog, CollectionCatalog, IndexCatalogEntry, IndexPointer, name_of, find_index, put_index,
  put_indexes, get_index, get_collection, add_to_entry, add_indexes_to_catalog,
}
use percona_link_mongodb.Catalog.Places.{same_place, get_collection-put_collection}

-- No two entries have one name.
abbrev pub DistinctNames : List IndexCatalogEntry → Type 0
DistinctNames [] = Unit
DistinctNames (e ∷ es) = (find_index (name_of e) es ≡ none) × DistinctNames es

abbrev pub or_else {ℓ} : {A : Type ℓ} → Option A → Option A → Option A
or_else none b = b
or_else (some a) b = some a

find_index-put_index :
    (name : String) (e : IndexCatalogEntry) (es : List IndexCatalogEntry)
    → find_index name (put_index e es)
      ≡ (if name_of e == name then some e.index else find_index name es)
unfolding find_index put_index
find_index-put_index name e [] = refl
find_index-put_index name e (old ∷ es) = ground (
  arith,
  find_index-put_index name e es,
  ==_iff (name_of e) name,
  ==_iff (name_of old) name,
  ==_iff (name_of old) (name_of e),
)

find_index-put_indexes :
    (name : String) (new es : List IndexCatalogEntry)
    → DistinctNames new
    → find_index name (put_indexes new es) ≡ or_else (find_index name new) (find_index name es)
unfolding put_indexes
find_index-put_indexes name [] es h = (unfold find_index in refl)
find_index-put_indexes name (e ∷ new) es h =
    find_index-put_indexes name new (put_index e es) h.1
    ∙ rw find_index-put_index (unfold find_index in ground (arith, h.0, ==_iff (name_of e) name))

-- Adding an entry keeps the names distinct.
DistinctNames-put_index :
    (e : IndexCatalogEntry) (es : List IndexCatalogEntry)
    → DistinctNames es
    → DistinctNames (put_index e es)
unfolding put_index
DistinctNames-put_index e [] h = ((unfold find_index in refl), tt)
DistinctNames-put_index e (old ∷ es) h = elim (Bool-cases (name_of old == name_of e)) [
  | inl same ↦ rw same (rw ((==_iff (name_of old) (name_of e)).0 same) at h)
  | inr other ↦ rw other (
    rw find_index-put_index
        (ground (arith, ==_iff (name_of old) (name_of e), ==_iff (name_of e) (name_of old), h.0)),
    DistinctNames-put_index e es h.1,
  )
]

-- The loop of addIndexesToCatalog keeps the names of a collection's indexes distinct, whatever
-- entries are added.
DistinctNames-put_indexes :
    (new es : List IndexCatalogEntry) → DistinctNames es → DistinctNames (put_indexes new es)
unfolding put_indexes
DistinctNames-put_indexes [] es h = h
DistinctNames-put_indexes (e ∷ new) es h =
    DistinctNames-put_indexes new (put_index e es) (DistinctNames-put_index e es h)

-- getIndexFromCatalog of one collection.
find_in : Option CollectionCatalog → String → Option IndexPointer
find_in none name = none
find_in (some entry) name = find_index name entry.indexes

get_index-find_in :
    (c : Catalog) (db coll name : String)
    → get_index c db coll name ≡ find_in (get_collection c db coll) name
unfolding get_index find_in
get_index-find_in c db coll name = ground arith

find_in-add :
    (o : Option CollectionCatalog) (new : List IndexCatalogEntry) (name : String)
    → DistinctNames new
    → find_in (some (add_to_entry o new)) name ≡ or_else (find_index name new) (find_in o name)
unfolding find_in add_to_entry
find_in-add none new name h = ground arith
find_in-add (some entry) new name h = find_index-put_indexes name new entry.indexes h

-- For entries of distinct names added to a collection, which the catalog may have or not: looked up
-- by name in that collection, getIndexFromCatalog finds the added entry of the name, or what it
-- found before if no entry of the name was added; in every other collection it finds what it found
-- before.
pub get_index-add_indexes :
    (c : Catalog) (db coll db' coll' name : String) (new : List IndexCatalogEntry)
    → DistinctNames new
    → get_index (add_indexes_to_catalog c db coll new) db' coll' name ≡ (
        if same_place db coll db' coll'
        then or_else (find_index name new) (get_index c db' coll' name)
        else get_index c db' coll' name)
unfolding add_indexes_to_catalog
get_index-add_indexes c db coll db' coll' name new h =
    simp (get_index-find_in, get_collection-put_collection)
      (ground (
        arith,
        find_in-add (get_collection c db coll) new name h,
        ==_iff db db',
        ==_iff coll coll',
      ))
