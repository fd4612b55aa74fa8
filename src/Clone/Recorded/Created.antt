-- ===== src/Clone/Recorded/Created.antt =====
-- createCollection and createIndexes of pcsm/clone.go leave an entry without a UUID.
use percona_link_mongodb.Prelude.{
  ◌≡◌, refl, String, none, List, is_empty, if-cases, ◌==◌, string_eq,
}
use percona_link_mongodb.Errors.{err_timeseries_unsupported}
use percona_link_mongodb.Exec.{Result, ok, fail, no_value, raise, skip, wrapping, context}
use percona_link_mongodb.Exec.Rules.{
  Outcome, Outcome-ok, Outcome-fail, Outcome-if, Outcome-bind, Outcome-on_fail,
}
use percona_link_mongodb.Events.{Namespace, CreateCollectionOptions}
use percona_link_mongodb.Catalog.{Catalog, IndexPointer, get_collection}
use percona_link_mongodb.Catalog.Commands.{create_collection, drop_collection}
use percona_link_mongodb.Catalog.Commands.Effects.{drop_none, create_none}
use percona_link_mongodb.Catalog.Indexes.Kept.{
  HasNoUuid, add_incomplete_indexes-HasNoUuid, create_indexes-HasNoUuid,
}
use percona_link_mongodb.Topo.{
  CollectionSpecification, type_collection, type_timeseries, list_indexes,
  list_in_progress_index_builds,
}
use percona_link_mongodb.Clone.{split_indexes, create_if_any, clone_indexes}
use percona_link_mongodb.Clone.Copying.{
  Cloning, Parts, on_world, on_catalog, drop_on_target, create_on_target, create_indexes_on_target,
  create_indexes_if_any,
}
use percona_link_mongodb.Clone.Recorded.{
  Anything, on_world-keeps, on_catalog-gives, dropped-none, added-HasNoUuid,
}

module _ (ns : Namespace) where
  abbrev pub Fresh : Catalog → Type 0
  Fresh c = HasNoUuid ns.database ns.collection c

  abbrev pub IsGone : Catalog → Type 0
  IsGone c = get_collection c ns.database ns.collection ≡ none

module _ {W : Type 0} (parts : Parts W) (ns : Namespace) (spec : CollectionSpecification)
    (no_view : (opts : CreateCollectionOptions)
      → parts.unmarshal spec.options ≡ ok opts
      → opts.view_on ≡ "") where
  drop-IsGone :
      (opts : CreateCollectionOptions) (s : Cloning W)
      → Outcome (λ v s'. IsGone ns s'.catalog) Anything (drop_on_target parts ns s)
  drop-IsGone opts s =
      on_catalog-gives (IsGone ns)
        (λ c w. drop_collection parts.target c ns.database ns.collection w) s
        λ h.
          rw (drop_none parts.target opts s.catalog ns.database ns.collection s.world h)
            (dropped-none ns.database ns.collection s.catalog)

  create-Fresh :
      (opts : CreateCollectionOptions) (s : Cloning W)
      → opts.view_on ≡ ""
      → IsGone ns s.catalog
      → Outcome
          (λ v s'. Fresh ns s'.catalog)
          Anything
          (on_catalog (λ c w. create_collection parts.target c ns.database ns.collection opts w) s)
  create-Fresh opts s view gone =
      on_catalog-gives (Fresh ns)
        (λ c w. create_collection parts.target c ns.database ns.collection opts w) s
        λ h.
          rw (create_none parts.target opts s.catalog ns.database ns.collection s.world view h)
            (added-HasNoUuid ns.database ns.collection s.catalog gone)

  unmarshal-no_view :
      (r : Result CreateCollectionOptions) (s : Cloning W)
      → parts.unmarshal spec.options ≡ r
      → Outcome (λ opts s'. opts.view_on ≡ "") Anything (r, s)
  unmarshal-no_view (ok opts) s e = Outcome-ok opts s (no_view opts e)
  unmarshal-no_view (fail x) s e = Outcome-fail x s refl

  pub create_on_target-Fresh :
      (s : Cloning W)
      → Outcome (λ v s'. Fresh ns s'.catalog) Anything (create_on_target parts ns spec s)
  unfolding create_on_target raise
  create_on_target-Fresh s =
      Outcome-if (spec.kind == type_timeseries) (raise err_timeseries_unsupported) _ s
        (λ _. Outcome-fail err_timeseries_unsupported s refl)
        λ _.
          Outcome-bind {Q = λ opts s'. opts.view_on ≡ ""}
            (context "unmarshal options" (λ s. (parts.unmarshal spec.options, s))) _ s
            (Outcome-on_fail _ (λ s. (parts.unmarshal spec.options, s)) s
              (unmarshal-no_view _ s refl))
            λ opts s1 view.
              Outcome-bind {Q = λ v s'. IsGone ns s'.catalog}
                (context "ensure no collection before create" (drop_on_target parts ns)) _ s1
                (Outcome-on_fail _ (drop_on_target parts ns) s1 (drop-IsGone opts s1))
                λ v s2 gone.
                  Outcome-on_fail (wrapping "create collection")
                    (on_catalog
                      (λ c w. create_collection parts.target c ns.database ns.collection opts w))
                    s2 (create-Fresh opts s2 view gone)

module _ {W : Type 0} (parts : Parts W) (ns : Namespace) where
  create_if_any-Fresh :
      (c : Catalog) (ps : List IndexPointer) (w : W)
      → Fresh ns c
      → Fresh ns (create_if_any parts.target c ns ps w).0
  unfolding create_if_any
  create_if_any-Fresh c ps w h =
      if-cases (λ (x : Catalog × W). Fresh ns x.0) (is_empty ps) (λ _. h)
        λ _. create_indexes-HasNoUuid ns.database ns.collection parts.target c ps w h

  clone_indexes-Fresh :
      (c : Catalog) (unfinished : List String) (ps : List IndexPointer) (w : W)
      → Fresh ns c
      → Fresh ns (clone_indexes parts.target c ns unfinished ps w).0
  unfolding clone_indexes
  clone_indexes-Fresh c unfinished ps w h =
      if-cases (λ (x : Catalog × W). Fresh ns x.0) (is_empty unfinished)
        (λ _. create_indexes-HasNoUuid ns.database ns.collection parts.target c ps w h)
        λ _.
          add_incomplete_indexes-HasNoUuid ns.database ns.collection _ _
            (create_if_any-Fresh c (split_indexes unfinished ps).1 w h)

  create_indexes_on_target-Fresh :
      (s : Cloning W)
      → Fresh ns s.catalog
      → Outcome (λ v s'. Fresh ns s'.catalog) Anything (create_indexes_on_target parts ns s)
  unfolding create_indexes_on_target
  create_indexes_on_target-Fresh s h =
      Outcome-bind {Q = λ v s'. Fresh ns s'.catalog}
        (context "list indexes" (on_world (list_indexes parts.source ns.database ns.collection))) _
        s
        (Outcome-on_fail _ (on_world (list_indexes parts.source ns.database ns.collection)) s
          (on_world-keeps (Fresh ns) (list_indexes parts.source ns.database ns.collection) s h))
        λ indexes s1 h1.
          let builds = list_in_progress_index_builds parts.source ns.database ns.collection in
          Outcome-bind {Q = λ v s'. Fresh ns s'.catalog}
            (context "list in-progress index builds" (on_world builds)) _ s1
            (Outcome-on_fail _ (on_world builds) s1 (on_world-keeps (Fresh ns) builds s1 h1))
            λ unfinished s2 h2.
              on_catalog-gives (Fresh ns)
                (λ c w.
                  let (c', w') = clone_indexes parts.target c ns unfinished indexes w in
                  (none, c', w'))
                s2 (λ _. clone_indexes-Fresh s2.catalog unfinished indexes s2.world h2)

  pub create_indexes_if_any-Fresh :
      (spec : CollectionSpecification) (s : Cloning W)
      → Fresh ns s.catalog
      → Outcome (λ v s'. Fresh ns s'.catalog) Anything (create_indexes_if_any parts ns spec s)
  unfolding create_indexes_if_any skip
  create_indexes_if_any-Fresh spec s h =
      Outcome-if (spec.kind == type_collection)
        (context "create indexes" (create_indexes_on_target parts ns)) skip s
        (λ _.
          Outcome-on_fail (wrapping "create indexes") (create_indexes_on_target parts ns) s
            (create_indexes_on_target-Fresh s h))
        λ _. Outcome-ok no_value s h
