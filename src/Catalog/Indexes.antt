-- ===== src/Catalog/Indexes.antt =====
-- CreateIndexes, AddIncompleteIndexes and AddFailedIndexes of pcsm/catalog.go.
pub mod Recorded
pub mod Kept
use percona_link_mongodb.Prelude.Maps.{Assoc, lookup, insert}
use percona_link_mongodb.Bson.{ℤ, pos, Bytes, Doc, str, arr, items_of}
use percona_link_mongodb.Prelude.{
  ◌-◌, ◌^◌, String, Bool, true, false, Option, none, some, List, [], ◌∷◌, map, is_some, ◌==◌,
  string_eq, if◌then◌else◌,
}
use percona_link_mongodb.Errors.{Error}
use percona_link_mongodb.Events.{IndexSpecification}
use percona_link_mongodb.Target.{Target, retried}
use percona_link_mongodb.Catalog.{Catalog, IndexPointer, IndexCatalogEntry, add_indexes_to_catalog}

-- IDIndex
abbrev pub id_index : String
id_index = "_id_"

-- math.MaxInt32
abbrev pub max_duration : ℤ
max_duration = pos (2 ^ 31 - 1)

abbrev pub is_set : Option Bool → Bool
is_set none = false
is_set (some b) = b

-- unique and prepareUnique are mutually exclusive.
unfoldable pub without_unique : IndexSpecification → IndexSpecification
without_unique s =
    if is_set s.unique
    then record s { unique = none }
    else if is_set s.prepare_unique
    then record s { prepare_unique = none }
    else s

unfoldable pub with_long_ttl : IndexSpecification → IndexSpecification
with_long_ttl s =
    if is_some s.expire_after_seconds
    then record s { expire_after_seconds = some max_duration }
    else s

unfoldable pub without_hidden : IndexSpecification → IndexSpecification
without_hidden s = if is_set s.hidden then record s { hidden = none } else s

unfoldable pub with_collation : Bytes → IndexSpecification → IndexSpecification
with_collation simple s = if is_some s.collation then s else record s { collation = some simple }

-- What is created for an index while the data is still being copied.
unfoldable pub prepared : Bytes → IndexSpecification → IndexSpecification
unfolding without_unique with_long_ttl without_hidden with_collation
prepared simple s = with_collation simple (without_hidden (with_long_ttl (without_unique s)))

unfoldable pub prepared_all : Bytes → List IndexPointer → List IndexSpecification
unfolding prepared
prepared_all simple [] = []
prepared_all simple (p ∷ ps) =
    let rest = prepared_all simple ps in
    if p.spec.name == id_index then rest else prepared simple p.spec ∷ rest

-- The errors by index name; nil for an index that was created.
abbrev pub Processed : Type 0
Processed = Assoc String (Option Error)

unfoldable pub error_of : Option (Option Error) → Option Error
error_of none = none
error_of (some err) = err

unfoldable pub has_failed : Processed → IndexPointer → Bool
unfolding error_of
has_failed processed p = is_some (error_of (lookup p.spec.name processed))

abbrev pub entry_of : Bool → Bool → IndexPointer → IndexCatalogEntry
entry_of incomplete failed p = record { index = p; incomplete = incomplete; failed = failed }

-- The indexes without an error, and those with one, in their order.
unfoldable pub successful : Processed → List IndexPointer → List IndexPointer
unfolding has_failed
successful processed [] = []
successful processed (p ∷ ps) =
    let rest = successful processed ps in if has_failed processed p then rest else p ∷ rest

unfoldable pub unsuccessful : Processed → List IndexPointer → List IndexPointer
unfolding has_failed
unsuccessful processed [] = []
unsuccessful processed (p ∷ ps) =
    let rest = unsuccessful processed ps in if has_failed processed p then p ∷ rest else rest

unfoldable pub add_incomplete_indexes : Catalog → String → String → List IndexPointer → Catalog
add_incomplete_indexes c db coll [] = c
add_incomplete_indexes c db coll (p ∷ ps) =
    add_indexes_to_catalog c db coll (map (entry_of true false) (p ∷ ps))

unfoldable pub add_failed_indexes : Catalog → String → String → List IndexPointer → Catalog
add_failed_indexes c db coll [] = c
add_failed_indexes c db coll (p ∷ ps) =
    add_indexes_to_catalog c db coll (map (entry_of false true) (p ∷ ps))

-- What the catalog records of the created and of the failed indexes.
unfoldable pub record_indexes : Catalog → String → String → Processed → List IndexPointer → Catalog
record_indexes c db coll processed indexes =
    add_failed_indexes
      (add_indexes_to_catalog c db coll (map (entry_of false false) (successful processed indexes)))
      db coll (unsuccessful processed indexes)

module _ {W : Type 0} (target : Target W) where
  unfoldable pub create_index_command : String → IndexSpecification → Doc
  unfolding items_of
  create_index_command coll s =
      ("createIndexes", str coll) ∷ ("indexes", arr (items_of (target.encode_index s ∷ []))) ∷ []

  -- One createIndexes command for each index; an error does not stop the others.
  unfoldable pub create_each :
      String → String → List IndexSpecification → Processed → W → Processed × W
  create_each db coll [] processed w = (processed, w)
  create_each db coll (s ∷ ss) processed w =
      let (err, w') =
        retried "create index %s.%s.%s" (target.run_command db (create_index_command coll s)) w in
      create_each db coll ss (insert s.name err processed) w'

  create_prepared :
      Catalog → String → String → List IndexPointer → List IndexSpecification → W → Catalog × W
  create_prepared c db coll indexes [] w = (c, w)
  create_prepared c db coll indexes (s ∷ ss) w =
      let (processed, w') = create_each db coll (s ∷ ss) [] w in
      (record_indexes c db coll processed indexes, w')

  -- CreateIndexes; it never returns an error.
  unfoldable pub create_indexes : Catalog → String → String → List IndexPointer → W → Catalog × W
  unfolding create_prepared
  create_indexes c db coll [] w = (c, w)
  create_indexes c db coll (p ∷ ps) w =
      create_prepared c db coll (p ∷ ps) (prepared_all target.simple_collation (p ∷ ps)) w
