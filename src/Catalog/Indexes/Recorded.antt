-- ===== src/Catalog/Indexes/Recorded.antt =====
-- CreateIndexes records every index that it is given, created or not.
use percona_link_mongodb.Prelude.{
  String, ◌≡◌, refl, ◌∙◌, ap, Bool, true, false, Option, none, some, List, [], ◌∷◌, map, is_empty,
  arith, ◌==◌, ==_iff, string_eq, if◌then◌else◌, Bool-cases, inl, inr,
}
use percona_link_mongodb.Target.{Target}
use percona_link_mongodb.Catalog.{
  IndexSpecification, Catalog, IndexPointer, find_index, get_index, add_indexes_to_catalog,
}
use percona_link_mongodb.Catalog.Entries.{DistinctNames, or_else, get_index-add_indexes}
use percona_link_mongodb.Catalog.Indexes.{
  Processed, has_failed, entry_of, successful, unsuccessful, add_failed_indexes, record_indexes,
  prepared_all, create_prepared, create_indexes,
}

-- The pointer of a name in a list of indexes.
abbrev pub find_pointer : String → List IndexPointer → Option IndexPointer
find_pointer name [] = none
find_pointer name (p ∷ ps) = if p.spec.name == name then some p else find_pointer name ps

abbrev pub DistinctPointers : List IndexPointer → Type 0
DistinctPointers [] = Unit
DistinctPointers (p ∷ ps) = (find_pointer p.spec.name ps ≡ none) × DistinctPointers ps

find_index-map :
    (i f : Bool) (name : String) (ps : List IndexPointer)
    → find_index name (map (entry_of i f) ps) ≡ find_pointer name ps
unfolding find_index
find_index-map i f name [] = refl
find_index-map i f name (p ∷ ps) = ground (arith, find_index-map i f name ps)

DistinctNames-map :
    (i f : Bool) (ps : List IndexPointer)
    → DistinctPointers ps
    → DistinctNames (map (entry_of i f) ps)
DistinctNames-map i f [] h = tt
DistinctNames-map i f (p ∷ ps) h =
    (find_index-map i f p.spec.name ps ∙ h.0, DistinctNames-map i f ps h.1)

module _ (processed : Processed) where
  -- Every index is on one of the two sides.
  partition :
      (name : String) (ps : List IndexPointer)
      → DistinctPointers ps
      → or_else
          (find_pointer name (unsuccessful processed ps))
          (find_pointer name (successful processed ps))
        ≡ find_pointer name ps
  unfolding successful unsuccessful
  partition name [] h = refl
  partition name (p ∷ ps) h = ground (arith, partition name ps h.1, h.0, ==_iff p.spec.name name)

  find-successful-none :
      (name : String) (ps : List IndexPointer)
      → find_pointer name ps ≡ none
      → find_pointer name (successful processed ps) ≡ none
  unfolding successful
  find-successful-none name [] h = refl
  find-successful-none name (p ∷ ps) h = ground (arith, find-successful-none name ps)

  find-unsuccessful-none :
      (name : String) (ps : List IndexPointer)
      → find_pointer name ps ≡ none
      → find_pointer name (unsuccessful processed ps) ≡ none
  unfolding unsuccessful
  find-unsuccessful-none name [] h = refl
  find-unsuccessful-none name (p ∷ ps) h = ground (arith, find-unsuccessful-none name ps)

  DistinctPointers-successful :
      (ps : List IndexPointer) → DistinctPointers ps → DistinctPointers (successful processed ps)
  unfolding successful
  DistinctPointers-successful [] h = tt
  DistinctPointers-successful (p ∷ ps) h = elim (Bool-cases (has_failed processed p)) [
    | inl bad ↦ rw bad (DistinctPointers-successful ps h.1)
    | inr good ↦
        rw good (find-successful-none p.spec.name ps h.0, DistinctPointers-successful ps h.1)
  ]

  DistinctPointers-unsuccessful :
      (ps : List IndexPointer) → DistinctPointers ps → DistinctPointers (unsuccessful processed ps)
  unfolding unsuccessful
  DistinctPointers-unsuccessful [] h = tt
  DistinctPointers-unsuccessful (p ∷ ps) h = elim (Bool-cases (has_failed processed p)) [
    | inl bad ↦
        rw bad (find-unsuccessful-none p.spec.name ps h.0, DistinctPointers-unsuccessful ps h.1)
    | inr good ↦ rw good (DistinctPointers-unsuccessful ps h.1)
  ]

module _ (c : Catalog) (db coll name : String) where
  get_index-add :
      (i f : Bool) (ps : List IndexPointer)
      → DistinctPointers ps
      → get_index (add_indexes_to_catalog c db coll (map (entry_of i f) ps)) db coll name
        ≡ or_else (find_pointer name ps) (get_index c db coll name)
  get_index-add i f ps h =
      get_index-add_indexes c db coll db coll name _ (DistinctNames-map i f ps h)
      ∙ rw find_index-map (ground (arith, ==_iff db db, ==_iff coll coll))

  get_index-add_failed :
      (ps : List IndexPointer)
      → DistinctPointers ps
      → get_index (add_failed_indexes c db coll ps) db coll name
        ≡ or_else (find_pointer name ps) (get_index c db coll name)
  unfolding add_failed_indexes
  get_index-add_failed [] h = refl
  get_index-add_failed (p ∷ ps) h = get_index-add false true (p ∷ ps) h

or_else_assoc : (a b d : Option IndexPointer) → or_else a (or_else b d) ≡ or_else (or_else a b) d
or_else_assoc none b d = refl
or_else_assoc (some x) b d = refl

get_index-record_indexes :
    (c : Catalog) (db coll name : String) (processed : Processed) (ps : List IndexPointer)
    → DistinctPointers ps
    → get_index (record_indexes c db coll processed ps) db coll name
      ≡ or_else (find_pointer name ps) (get_index c db coll name)
unfolding record_indexes
get_index-record_indexes c db coll name processed ps h =
    get_index-add_failed _ db coll name (unsuccessful processed ps)
      (DistinctPointers-unsuccessful processed ps h)
    ∙ ap (or_else (find_pointer name (unsuccessful processed ps))) (
        get_index-add c db coll name false false (successful processed ps)
          (DistinctPointers-successful processed ps h))
    ∙ or_else_assoc _ _ (get_index c db coll name)
    ∙ ap (λ (o : Option IndexPointer). or_else o (get_index c db coll name))
        (partition processed name ps h)

module _ {W : Type 0} (target : Target W) where
  -- CreateIndexes on a collection, given indexes of distinct names that are not all the _id index,
  -- whatever the target answers: looked up by name, the catalog then has every index of the list
  -- (created or failed), and has what it had before under every other name.
  pub get_index-create_indexes :
      (c : Catalog) (db coll name : String) (indexes : List IndexPointer) (w : W)
      → DistinctPointers indexes
      → is_empty (prepared_all target.simple_collation indexes) ≡ false
      → get_index (create_indexes target c db coll indexes w).0 db coll name
        ≡ or_else (find_pointer name indexes) (get_index c db coll name)
  unfolding create_indexes prepared_all
  get_index-create_indexes c db coll name [] w h some_left = cc
  get_index-create_indexes c db coll name (p ∷ ps) w h some_left =
      created (prepared_all target.simple_collation (p ∷ ps)) some_left
    where
      created :
          (specs : List IndexSpecification)
          → is_empty specs ≡ false
          → get_index (create_prepared target c db coll (p ∷ ps) specs w).0 db coll name
            ≡ or_else (find_pointer name (p ∷ ps)) (get_index c db coll name)
      created [] e = cc
      created (s ∷ ss) e = get_index-record_indexes c db coll name _ (p ∷ ps) h
