-- ===== src/Catalog.antt =====
-- pcsm/catalog.go: what the program knows of the collections and indexes on the target. This file
-- has the data and the operations on the catalog itself; the operations that also send commands to
-- the target are in the children Indexes, Collections and Finalize.
pub mod Entries
pub mod Indexes
pub mod Commands
pub mod Finalize
pub mod Places
pub mod Removal
pub mod Uuids
mod Tests
use percona_link_mongodb.Prelude.Maps.{Assoc, lookup, insert, remove}
use percona_link_mongodb.Bson.{Bytes, Timestamp, zero_timestamp}
use percona_link_mongodb.Prelude.{
  ℕ, ◌||◌, String, Bool, true, false, Option, none, some, List, [], ◌∷◌, ◌++◌, map, length,
  is_empty, nat_eqb, ◌==◌, nat_eq, string_eq, list_eq, if◌then◌else◌,
}
use percona_link_mongodb.Errors.{Error, new}
use percona_link_mongodb.Events.{Namespace, IndexSpecification, ModifyIndexOption}

-- A *topo.IndexSpecification: `ref` is the pointer, `spec` what it points to. Entries with one
-- `ref` share the specification.
pub record IndexPointer : Type 0 where
  pub ref : ℕ
  pub spec : IndexSpecification

pub record IndexCatalogEntry : Type 0 where
  pub index : IndexPointer
  pub incomplete : Bool
  pub failed : Bool

abbrev pub name_of : IndexCatalogEntry → String
name_of e = e.index.spec.name

unfoldable pub is_unsuccessful : IndexCatalogEntry → Bool
is_unsuccessful i = i.failed || i.incomplete

pub record CollectionCatalog : Type 0 where
  pub added_at : Timestamp
  pub uuid : Option Bytes
  pub indexes : List IndexCatalogEntry

abbrev pub DatabaseCatalog : Type 0
DatabaseCatalog = Assoc String CollectionCatalog

-- The field `Databases`.
abbrev pub Catalog : Type 0
Catalog = Assoc String DatabaseCatalog

-- collectionCatalog{Indexes: indexes}
abbrev pub with_indexes : List IndexCatalogEntry → CollectionCatalog
with_indexes indexes = record { added_at = zero_timestamp; uuid = none; indexes = indexes }

unfoldable pub collection_in : Option DatabaseCatalog → String → Option CollectionCatalog
collection_in none coll = none
collection_in (some d) coll = lookup coll d

-- c.Databases[db].Collections[coll]
unfoldable pub get_collection : Catalog → String → String → Option CollectionCatalog
unfolding collection_in
get_collection c db coll = collection_in (lookup db c) coll

abbrev pub collections_of : Option DatabaseCatalog → DatabaseCatalog
collections_of none = []
collections_of (some d) = d

-- Writes c.Databases[db].Collections[coll], making the database if it is missing.
unfoldable pub put_collection : Catalog → String → String → CollectionCatalog → Catalog
put_collection c db coll entry = insert db (insert coll entry (collections_of (lookup db c))) c

-- The result is `none` where the program returns a nil checkpoint.
unfoldable pub checkpoint : Catalog → Option Catalog
checkpoint c = if is_empty c then none else some c

unfoldable pub recover : Catalog → Catalog → Option Error × Catalog
recover c saved = if is_empty c then (none, saved) else (some (new "cannot restore"), c)

unfoldable pub find_index : String → List IndexCatalogEntry → Option IndexPointer
find_index name [] = none
find_index name (e ∷ es) = if name_of e == name then some e.index else find_index name es

-- getIndexFromCatalog
unfoldable pub get_index : Catalog → String → String → String → Option IndexPointer
unfolding find_index
get_index c db coll name = elim (get_collection c db coll) [
  | none ↦ none
  | some entry ↦ find_index name entry.indexes
]

-- The inner loop of addIndexesToCatalog: the entry replaces the first one of its name.
unfoldable pub put_index : IndexCatalogEntry → List IndexCatalogEntry → List IndexCatalogEntry
put_index e [] = e ∷ []
put_index e (old ∷ rest) =
    let more = put_index e rest in if name_of old == name_of e then e ∷ rest else old ∷ more

unfoldable pub put_indexes :
    List IndexCatalogEntry → List IndexCatalogEntry → List IndexCatalogEntry
unfolding put_index
put_indexes [] entries = entries
put_indexes (e ∷ es) entries = put_indexes es (put_index e entries)

unfoldable pub add_to_entry : Option CollectionCatalog → List IndexCatalogEntry → CollectionCatalog
unfolding put_indexes
add_to_entry none indexes = with_indexes indexes
add_to_entry (some entry) indexes = record entry { indexes = put_indexes indexes entry.indexes }

-- addIndexesToCatalog
unfoldable pub add_indexes_to_catalog : Catalog → String → String → List IndexCatalogEntry → Catalog
unfolding add_to_entry
add_indexes_to_catalog c db coll indexes =
    put_collection c db coll (add_to_entry (get_collection c db coll) indexes)

-- `copy(indexes[i:], indexes[i+1:])` for the first i with the name, in the array that the catalog's
-- own slice keeps: what follows moves one place to the left, and the last entry stays where it was.
unfoldable pub shift_left : IndexCatalogEntry → List IndexCatalogEntry → List IndexCatalogEntry
shift_left last [] = last ∷ []
shift_left last (e ∷ es) = e ∷ shift_left e es

unfoldable pub remove_by_copy : String → List IndexCatalogEntry → List IndexCatalogEntry
unfolding shift_left
remove_by_copy name [] = []
remove_by_copy name (e ∷ es) =
    let rest = remove_by_copy name es in if name_of e == name then shift_left e es else e ∷ rest

-- removeIndexFromCatalog assigns the shortened slice to a local copy of the entry, which is not
-- written back: of the catalog only the array changes, and not even that for a single index.
unfoldable pub removed_indexes : String → List IndexCatalogEntry → List IndexCatalogEntry
unfolding remove_by_copy
removed_indexes name [] = []
removed_indexes name (e ∷ []) = e ∷ []
removed_indexes name (e ∷ f ∷ es) = remove_by_copy name (e ∷ f ∷ es)

unfoldable pub remove_index_from_catalog : Catalog → String → String → String → Catalog
unfolding removed_indexes
remove_index_from_catalog c db coll name = elim (get_collection c db coll) [
  | none ↦ c
  | some entry ↦
      put_collection c db coll (record entry { indexes = removed_indexes name entry.indexes })
]

-- addCollectionToCatalog
unfoldable pub add_collection_to_catalog : Catalog → String → String → Catalog
add_collection_to_catalog c db coll = elim (get_collection c db coll) [
  | none ↦ put_collection c db coll (with_indexes [])
  | some entry ↦ c
]

-- A database that has lost its last collection is deleted.
unfoldable pub write_back : String → DatabaseCatalog → Catalog → Catalog
write_back db left c = if is_empty left then remove db c else insert db left c

-- deleteCollectionFromCatalog
unfoldable pub delete_collection_from_catalog : Catalog → String → String → Catalog
delete_collection_from_catalog c db coll = elim (lookup db c) [
  | none ↦ c
  | some d ↦ write_back db (remove coll d) c
]

unfoldable pub delete_database_from_catalog : Catalog → String → Catalog
delete_database_from_catalog c db = remove db c

-- renameCollectionInCatalog
unfoldable pub rename_collection_in_catalog : Catalog → String → String → String → String → Catalog
rename_collection_in_catalog c db coll target_db target_coll = elim (get_collection c db coll) [
  | none ↦ c
  | some entry ↦
      delete_collection_from_catalog
        (put_collection (add_collection_to_catalog c target_db target_coll) target_db target_coll
          entry)
        db coll
]

unfoldable pub set_collection_timestamp : Catalog → String → String → Timestamp → Catalog
set_collection_timestamp c db coll ts = elim (get_collection c db coll) [
  | none ↦ c
  | some entry ↦ put_collection c db coll (record entry { added_at = ts })
]

unfoldable pub set_collection_uuid : Catalog → String → String → Option Bytes → Catalog
set_collection_uuid c db coll uuid = elim (get_collection c db coll) [
  | none ↦ c
  | some entry ↦ put_collection c db coll (record entry { uuid = uuid })
]

abbrev pub UuidMap : Type 0
UuidMap = Assoc Bytes Namespace

unfoldable pub put_uuid : Option Bytes → Namespace → UuidMap → UuidMap
put_uuid none ns m = m
put_uuid (some u) ns m = insert u ns m

uuids_of_database : String → DatabaseCatalog → UuidMap → UuidMap
unfolding put_uuid
uuids_of_database db [] m = m
uuids_of_database db ((coll, entry) ∷ rest) m =
    uuids_of_database db rest (put_uuid entry.uuid (record { database = db; collection = coll }) m)

uuids_of : Catalog → UuidMap → UuidMap
unfolding uuids_of_database
uuids_of [] m = m
uuids_of ((db, d) ∷ rest) m = uuids_of rest (uuids_of_database db d m)

-- UUIDMap; the keys are the bytes, which the program writes in hexadecimal.
unfoldable pub uuid_map : Catalog → UuidMap
unfolding uuids_of
uuid_map c = uuids_of c []

-- The assignments of ModifyIndex through the pointer that getIndexFromCatalog returns.
abbrev pub override {ℓ} : {A : Type ℓ} → Option A → Option A → Option A
override none old = old
override (some v) old = some v

unfoldable pub modified_spec : ModifyIndexOption → IndexSpecification → IndexSpecification
modified_spec mods s =
    let p = record s { prepare_unique = override mods.prepare_unique s.prepare_unique } in
    let u : IndexSpecification = elim mods.unique [
      | none ↦ p
      | some b ↦ record p { prepare_unique = none; unique = some b }
    ] in
    record u {
      hidden = override mods.hidden u.hidden;
      expire_after_seconds = override mods.expire_after_seconds u.expire_after_seconds;
    }

unfoldable pub modify_at : ℕ → ModifyIndexOption → List IndexCatalogEntry → List IndexCatalogEntry
unfolding modified_spec
modify_at ref mods [] = []
modify_at ref mods (e ∷ es) =
    let rest = modify_at ref mods es in
    if nat_eqb e.index.ref ref
    then record e { index = record e.index { spec = modified_spec mods e.index.spec } } ∷ rest
    else e ∷ rest

-- The in-place update of ModifyIndex: every entry of the collection that shares the pointer sees it.
unfoldable pub modify_index_in_catalog : Catalog → String → String → ModifyIndexOption → Catalog
unfolding modify_at
modify_index_in_catalog c db coll mods = elim (get_index c db coll mods.name) [
  | none ↦ c
  | some p ↦ elim (get_collection c db coll) [
    | none ↦ c
    | some entry ↦
        put_collection c db coll (record entry { indexes = modify_at p.ref mods entry.indexes })
  ]
]
