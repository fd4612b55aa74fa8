-- ===== src/Catalog/Finalize.antt =====
-- Finalize and finalizeUnsuccessfulIndexes of pcsm/catalog.go: the properties that were held back
-- while the data was copied are given to the indexes of the target.
pub mod Restored
use percona_link_mongodb.Bson.{ℤ, Value, int, boolean}
use percona_link_mongodb.Prelude.{
  ℕ, String, Bool, true, false, Option, none, some, List, [], ◌∷◌, ◌++◌, any, is_some,
  if◌then◌else◌, ◌||◌,
}
use percona_link_mongodb.Errors.{Error}
use percona_link_mongodb.Events.{IndexSpecification, is_clustered}
use percona_link_mongodb.Target.{Target, retried}
use percona_link_mongodb.Catalog.{
  Catalog, DatabaseCatalog, CollectionCatalog, IndexCatalogEntry, is_unsuccessful, name_of,
  add_indexes_to_catalog,
}
use percona_link_mongodb.Catalog.Indexes.{is_set, entry_of, create_index_command}
use percona_link_mongodb.Catalog.Commands.{do_modify_index_option}

-- A property to set on an index, and its value.
abbrev pub Change : Type 0
Change = String × Value

unfoldable pub unique_changes : IndexSpecification → List Change
unique_changes s =
    if is_set s.unique
    then ("prepareUnique", boolean true) ∷ ("unique", boolean true) ∷ []
    else if is_set s.prepare_unique
    then ("prepareUnique", boolean true) ∷ []
    else []

unfoldable pub ttl_changes : IndexSpecification → List Change
ttl_changes s = elim s.expire_after_seconds [
  | none ↦ []
  | some n ↦ ("expireAfterSeconds", int n) ∷ []
]

unfoldable pub hidden_changes : IndexSpecification → List Change
hidden_changes s = elim s.hidden [ none ↦ [] | some b ↦ ("hidden", boolean b) ∷ [] ]

-- The changes of one index, in the order in which they are sent.
unfoldable pub index_changes : IndexSpecification → List Change
unfolding unique_changes ttl_changes hidden_changes
index_changes s = unique_changes s ++ (ttl_changes s ++ hidden_changes s)

-- The changes of an entry: an unsuccessful and a clustered index are passed over.
unfoldable pub changes_of : IndexCatalogEntry → List Change
unfolding index_changes is_clustered
changes_of e =
    if is_unsuccessful e
    then []
    else if is_clustered e.index.spec
    then []
    else index_changes e.index.spec

module _ {W : Type 0} (target : Target W) where
  -- The first error ends the changes of the index (`continue` goes to the next one).
  unfoldable pub send_changes : String → String → String → List Change → W → Option Error × W
  send_changes db coll name [] w = (none, w)
  send_changes db coll name ((prop, value) ∷ rest) w =
      let (err, w') = do_modify_index_option target db coll name prop value w in
      elim err [ none ↦ send_changes db coll name rest w' | some e ↦ (some e, w') ]

  unfoldable pub finalize_index :
      String → String → IndexCatalogEntry → List Error → W → List Error × W
  unfolding changes_of
  finalize_index db coll e errs w =
      let (err, w') = send_changes db coll (name_of e) (changes_of e) w in
      elim err [ none ↦ (errs, w') | some x ↦ (errs ++ (x ∷ []), w') ]

  finalize_entries : String → String → List IndexCatalogEntry → List Error → W → List Error × W
  finalize_entries db coll [] errs w = (errs, w)
  finalize_entries db coll (e ∷ es) errs w =
      let (errs', w') = finalize_index db coll e errs w in finalize_entries db coll es errs' w'

  finalize_collections : String → DatabaseCatalog → List Error → W → List Error × W
  finalize_collections db [] errs w = (errs, w)
  finalize_collections db ((coll, entry) ∷ rest) errs w =
      let (errs', w') = finalize_entries db coll entry.indexes errs w in
      finalize_collections db rest errs' w'

  unfoldable pub finalize_databases : Catalog → List Error → W → List Error × W
  unfolding finalize_collections finalize_entries
  finalize_databases [] errs w = (errs, w)
  finalize_databases ((db, d) ∷ rest) errs w =
      let (errs', w') = finalize_collections db d errs w in finalize_databases rest errs' w'

  -- The second pass runs over the catalog as it was when the pass began.
  finalize_unsuccessful_index : String → String → IndexCatalogEntry → Catalog → W → Catalog × W
  finalize_unsuccessful_index db coll e c w =
      if is_unsuccessful e
      then (let (err, w') =
            retried "recreate index %s.%s.%s"
              (target.run_command db (create_index_command target coll e.index.spec)) w in
          elim err [
            | none ↦ (add_indexes_to_catalog c db coll (entry_of false false e.index ∷ []), w')
            | some x ↦ (c, w')
          ])
      else (c, w)

  unsuccessful_entries : String → String → List IndexCatalogEntry → Catalog → W → Catalog × W
  unfolding finalize_unsuccessful_index
  unsuccessful_entries db coll [] c w = (c, w)
  unsuccessful_entries db coll (e ∷ es) c w =
      let (c', w') = finalize_unsuccessful_index db coll e c w in
      unsuccessful_entries db coll es c' w'

  unsuccessful_collections : String → DatabaseCatalog → Catalog → W → Catalog × W
  unfolding unsuccessful_entries
  unsuccessful_collections db [] c w = (c, w)
  unsuccessful_collections db ((coll, entry) ∷ rest) c w =
      let (c', w') = unsuccessful_entries db coll entry.indexes c w in
      unsuccessful_collections db rest c' w'

  unfoldable pub finalize_unsuccessful_indexes : Catalog → Catalog → W → Catalog × W
  unfolding unsuccessful_collections
  finalize_unsuccessful_indexes [] c w = (c, w)
  finalize_unsuccessful_indexes ((db, d) ∷ rest) c w =
      let (c', w') = unsuccessful_collections db d c w in finalize_unsuccessful_indexes rest c' w'

  unfoldable pub has_unsuccessful : Catalog → Bool
  has_unsuccessful [] = false
  has_unsuccessful ((db, d) ∷ rest) =
      any (λ (p : String × CollectionCatalog). any is_unsuccessful p.1.indexes) d
      || has_unsuccessful rest

  -- Finalize: it always returns nil; the errors of the indexes are logged.
  unfoldable pub finalize : Catalog → W → Catalog × W
  unfolding finalize_databases finalize_unsuccessful_indexes has_unsuccessful
  finalize c w =
      let (errs, w') = finalize_databases c [] w in
      if has_unsuccessful c then finalize_unsuccessful_indexes c c w' else (c, w')
