-- ===== src/Clone/Recorded/Prepared.antt =====
-- The time and the UUID that the catalog has for a collection when its copy begins (pcsm/clone.go).
use percona_link_mongodb.Bson.{Bytes, Timestamp, Doc}
use percona_link_mongodb.Prelude.{
  ◌≡◌, refl, ap, sym, ◌∙◌, Bool, Option, none, some, ◌==◌, string_eq,
}
use percona_link_mongodb.Errors.{err_timeseries_unsupported}
use percona_link_mongodb.Exec.{
  Result, ok, fail, no_value, pure, raise, skip, on_fail, context, ◌>>=◌,
}
use percona_link_mongodb.Exec.Rules.{
  Outcome, Outcome-ok, Outcome-fail, Outcome-if, Outcome-bind, Outcome-on_fail, Outcome-weaken,
}
use percona_link_mongodb.Events.{Namespace, CreateCollectionOptions}
use percona_link_mongodb.Catalog.{set_collection_timestamp}
use percona_link_mongodb.Topo.{
  CollectionSpecification, ShardingInfo, type_timeseries, cluster_time, get_collection_spec,
}
use percona_link_mongodb.Clone.Copying.{
  Cloning, Parts, on_world, in_catalog, create_on_target, missing_as, sharding_info, shard_by,
  shard_if_sharded, set_uuid_if_any, record_collection, create_indexes_if_any, make_collection,
  prepare,
}
use percona_link_mongodb.Clone.Recorded.{
  Exec, Anything, Outcome-catalog, IsRecorded, set_timestamp-IsRecorded, set_uuid-IsRecorded,
}
use percona_link_mongodb.Clone.Recorded.Created.{
  Fresh, create_on_target-Fresh, create_indexes_if_any-Fresh,
}

module _ {W : Type 0} (parts : Parts W) (ns : Namespace) where
  sharding_info-Fresh :
      (s : Cloning W)
      → Fresh ns s.catalog
      → Outcome (λ v s'. Fresh ns s'.catalog) Anything (sharding_info parts ns s)
  unfolding sharding_info on_world
  sharding_info-Fresh s h = Outcome-catalog (Fresh ns) (sharding_info parts ns s).0 _ h

  shard_by-Fresh :
      (key : Option Doc) (unique : Bool) (s : Cloning W)
      → Fresh ns s.catalog
      → Outcome (λ v s'. Fresh ns s'.catalog) Anything (shard_by parts ns key unique s)
  unfolding shard_by skip on_world
  shard_by-Fresh none unique s h = Outcome-ok no_value s h
  shard_by-Fresh (some key) unique s h =
      Outcome-catalog (Fresh ns) (shard_by parts ns (some key) unique s).0 _ h

  shard_if_sharded-Fresh :
      (info : Option ShardingInfo) (s : Cloning W)
      → Fresh ns s.catalog
      → Outcome (λ v s'. Fresh ns s'.catalog) Anything (shard_if_sharded parts ns info s)
  unfolding shard_if_sharded skip
  shard_if_sharded-Fresh none s h = Outcome-ok no_value s h
  shard_if_sharded-Fresh (some info) s h = shard_by-Fresh info.shard_key info.unique s h

  abbrev pub Recorded : Timestamp → CollectionSpecification → Cloning W → Type 0
  Recorded ts spec s = IsRecorded ns.database ns.collection ts spec.uuid s.catalog

  set_uuid_if_any-IsRecorded :
      (ts : Timestamp) (uuid : Option Bytes) (s : Cloning W)
      → IsRecorded ns.database ns.collection ts none s.catalog
      → Outcome
          (λ v s'. IsRecorded ns.database ns.collection ts uuid s'.catalog)
          Anything
          (set_uuid_if_any parts ns uuid s)
  unfolding set_uuid_if_any skip in_catalog
  set_uuid_if_any-IsRecorded ts none s h = Outcome-ok no_value s h
  set_uuid_if_any-IsRecorded ts (some uuid) s h =
      Outcome-ok no_value _ (set_uuid-IsRecorded ns.database ns.collection s.catalog ts uuid h)

  record_collection-Recorded :
      (ts : Timestamp) (spec : CollectionSpecification) (s : Cloning W)
      → Fresh ns s.catalog
      → Outcome (Recorded ts) Anything (record_collection parts ns ts spec s)
  unfolding record_collection in_catalog pure ◌>>=◌
  record_collection-Recorded ts spec s h =
      let s' : Cloning W = record s {
        catalog = set_collection_timestamp s.catalog ns.database ns.collection ts;
      } in
      Outcome-bind {Q = λ v s'. Recorded ts spec s'} (set_uuid_if_any parts ns spec.uuid)
        (λ v. pure spec) s'
        (set_uuid_if_any-IsRecorded ts spec.uuid s'
          (set_timestamp-IsRecorded ns.database ns.collection s.catalog ts h))
        λ v s'' recorded. Outcome-ok spec s'' recorded

  -- What a call of the clusters answers, and the state of the clusters after it.
  on_world-answers :
      {A : Type 0} (m : Exec W A) (s : Cloning W)
      → Outcome
          (λ a s'. ((m s.world).0 ≡ ok a) × (s'.world ≡ (m s.world).1))
          Anything
          (on_world m s)
  unfolding on_world
  on_world-answers {A} m s = either (m s.world).0 _ refl refl
    where
      either :
          (r : Result A) (s' : Cloning W)
          → (m s.world).0 ≡ r
          → s'.world ≡ (m s.world).1
          → Outcome (λ a s'. ((m s.world).0 ≡ ok a) × (s'.world ≡ (m s.world).1)) Anything (r, s')
      either (ok a) s' e f = Outcome-ok a s' (e, f)
      either (fail x) s' _ _ = Outcome-fail x s' refl

  -- The time that the source gave for a first state, if it gave one.
  abbrev pub GivesTime : Cloning W → Timestamp → Type 0
  GivesTime s ts = (cluster_time parts.source s.world).0 ≡ ok ts

  -- The specification that the source gives for the collection, right after that time.
  abbrev pub GivesSpec : Cloning W → CollectionSpecification → Type 0
  GivesSpec s spec =
      (get_collection_spec parts.source ns.database ns.collection
        (cluster_time parts.source s.world).1).0
      ≡ ok spec

  make_collection-Recorded :
      (ts : Timestamp) (spec : CollectionSpecification)
      → ((opts : CreateCollectionOptions)
          → parts.unmarshal spec.options ≡ ok opts
          → opts.view_on ≡ "")
      → (s : Cloning W) → Outcome (Recorded ts) Anything (make_collection parts ns ts spec s)
  unfolding make_collection
  make_collection-Recorded ts spec no_view s =
      Outcome-bind {Q = λ v s'. Fresh ns s'.catalog}
        (context "createCollection" (create_on_target parts ns spec)) _ s
        (Outcome-on_fail _ (create_on_target parts ns spec) s
          (create_on_target-Fresh parts ns spec no_view s))
        λ v s1 h1.
          Outcome-bind {Q = λ v s'. Fresh ns s'.catalog} (create_indexes_if_any parts ns spec) _ s1
            (create_indexes_if_any-Fresh parts ns spec s1 h1)
            λ v s2 h2.
              Outcome-bind {Q = λ v s'. Fresh ns s'.catalog}
                (context "get sharding info" (sharding_info parts ns)) _ s2
                (Outcome-on_fail _ (sharding_info parts ns) s2 (sharding_info-Fresh s2 h2))
                λ info s3 h3.
                  Outcome-bind {Q = λ v s'. Fresh ns s'.catalog}
                    (context "shard collection" (shard_if_sharded parts ns info)) _ s3
                    (Outcome-on_fail _ (shard_if_sharded parts ns info) s3
                      (shard_if_sharded-Fresh info s3 h3))
                    λ v s4 h4. record_collection-Recorded ts spec s4 h4

  -- If the options of the specification that the source gives are not those of a view, and whatever
  -- else the clusters answer: if the part of doCollectionClone before the copy ends with a
  -- specification and no error, the catalog has an entry for the collection with the UUID of that
  -- specification and with the time of the source that was asked for before anything was created.
  pub prepare-Recorded :
      (s : Cloning W)
      → ((spec : CollectionSpecification) (opts : CreateCollectionOptions)
          → GivesSpec s spec
          → parts.unmarshal spec.options ≡ ok opts
          → opts.view_on ≡ "")
      → Outcome
          (λ spec s'. (ts : Timestamp) × GivesTime s ts × Recorded ts spec s')
          Anything
          (prepare parts ns s)
  unfolding prepare raise
  prepare-Recorded s no_view =
      Outcome-bind
        {Q = λ ts s'. GivesTime s ts × (s'.world ≡ (cluster_time parts.source s.world).1)}
        (context "get source cluster time" (on_world (cluster_time parts.source))) _ s
        (Outcome-on_fail _ (on_world (cluster_time parts.source)) s
          (on_world-answers (cluster_time parts.source) s))
        λ ts s1 given.
          let spec_of = get_collection_spec parts.source ns.database ns.collection in
          Outcome-bind
            {Q = λ spec s'. ((spec_of s1.world).0 ≡ ok spec) × (s'.world ≡ (spec_of s1.world).1)}
            (on_fail (missing_as parts ns) (on_world spec_of)) _ s1
            (Outcome-on_fail _ (on_world spec_of) s1 (on_world-answers spec_of s1))
            λ spec s2 asked.
              Outcome-if (spec.kind == type_timeseries) (raise err_timeseries_unsupported)
                (make_collection parts ns ts spec) s2
                (λ _. Outcome-fail err_timeseries_unsupported s2 refl)
                λ _.
                  Outcome-weaken _ _ (λ spec h. (ts, given.0, h)) (λ h. h)
                    (make_collection-Recorded ts spec
                      (λ opts. no_view spec opts (ap (λ w. (spec_of w).0) (sym given.1) ∙ asked.0))
                      s2)
