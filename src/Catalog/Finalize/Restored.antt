-- ===== src/Catalog/Finalize/Restored.antt =====
-- CreateIndexes takes properties away from an index, and Finalize gives them back.
use percona_link_mongodb.Bson.{Bytes, int, boolean}
use percona_link_mongodb.Prelude.{
  ◌≡◌, refl, Bool, true, false, ◌||◌, none, some, List, [], ◌∷◌, arith, ◌==◌, string_eq,
  if◌then◌else◌,
}
use percona_link_mongodb.Events.{IndexSpecification, is_clustered}
use percona_link_mongodb.Catalog.{IndexCatalogEntry, is_unsuccessful}
use percona_link_mongodb.Catalog.Indexes.{is_set, prepared, with_collation}
use percona_link_mongodb.Catalog.Finalize.{Change, index_changes, changes_of}

-- A change read as an assignment to the option that it names; `unique` ends `prepareUnique`.
abbrev pub assign : Change → IndexSpecification → IndexSpecification
assign (prop, boolean b) s =
    if prop == "unique"
    then record s { unique = some b; prepare_unique = none }
    else if prop == "prepareUnique"
    then record s { prepare_unique = some b }
    else if prop == "hidden"
    then record s { hidden = some b }
    else s
assign (prop, int n) s =
    if prop == "expireAfterSeconds" then record s { expire_after_seconds = some n } else s
assign (prop, v) s = s

abbrev pub assign_all : List Change → IndexSpecification → IndexSpecification
assign_all [] s = s
assign_all (x ∷ xs) s = assign_all xs (assign x s)

-- The changes of a specification undo what was taken away from it.
assign_all-index_changes :
    (simple : Bytes) (s : IndexSpecification)
    → (is_set s.unique ≡ true → s.prepare_unique ≡ none)
    → assign_all (index_changes s) (prepared simple s) ≡ with_collation simple s
unfolding index_changes prepared with_collation
assign_all-index_changes simple s h = ground arith

-- For every entry of the catalog whose specification has no prepareUnique option if it is unique:
-- the changes that Finalize has for the entry, assigned in their order to what CreateIndexes has
-- created for the specification, give the specification back, with the simple collation if it had
-- none, if the entry is successful and not clustered, and change nothing otherwise.
pub assign_all-changes_of :
    (simple : Bytes) (e : IndexCatalogEntry)
    → (is_set e.index.spec.unique ≡ true → e.index.spec.prepare_unique ≡ none)
    → assign_all (changes_of e) (prepared simple e.index.spec) ≡ (
        if is_unsuccessful e || is_clustered e.index.spec
        then prepared simple e.index.spec
        else with_collation simple e.index.spec)
unfolding changes_of
assign_all-changes_of simple e h = split (is_unsuccessful e) (is_clustered e.index.spec)
  where
    split :
        (b c : Bool)
        → assign_all
            (if b then [] else if c then [] else index_changes e.index.spec)
            (prepared simple e.index.spec)
          ≡ (if b || c then prepared simple e.index.spec else with_collation simple e.index.spec)
    split true c = refl
    split false true = refl
    split false false = assign_all-index_changes simple e.index.spec h
