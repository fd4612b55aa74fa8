-- ===== src/Clone/Copying.antt =====
-- The copying of one collection in pcsm/clone.go: createCollection, createIndexes and
-- doCollectionClone. `copy` stands for the copy manager: the updates that its channel gives.
use percona_link_mongodb.Bson.{Timestamp, Doc, Bytes}
use percona_link_mongodb.Prelude.{
  ℕ, Option, none, some, List, [], ◌∷◌, ◌==◌, string_eq, if◌then◌else◌,
}
use percona_link_mongodb.Errors.{
  Error, namespace_not_found, is_sentinel, is_collection_dropped, is_collection_renamed,
  err_timeseries_unsupported,
}
use percona_link_mongodb.Exec.{
  ok_if, no_value, Exec, Result, ok, fail, NoValue, wrapping, result_of, pure, raise, skip,
  ignoring, on_fail, context, ◌>>=◌, ◌>>◌,
}
use percona_link_mongodb.Events.{Namespace, namespace_eq, CreateCollectionOptions}
use percona_link_mongodb.Catalog.{Catalog, set_collection_timestamp, set_collection_uuid}
use percona_link_mongodb.Catalog.Commands.{create_collection, drop_collection, shard_collection}
use percona_link_mongodb.Target.{Target}
use percona_link_mongodb.Topo.{
  Driver, CollectionSpecification, ShardingInfo, type_collection, type_timeseries, cluster_time,
  get_collection_spec, list_indexes, list_in_progress_index_builds, get_collection_sharding_info,
}
use percona_link_mongodb.Clone.{Bool, Clone, plus64, dropped, copied, adjusted, clone_indexes}

-- What a clone changes: its own fields, the catalog, and the clusters.
pub record Cloning (W : Type 0) : Type 0 where
  pub clone : Clone
  pub catalog : Catalog
  pub world : W

pub record CopyUpdate : Type 0 where
  pub err : Option Error
  pub size_bytes : ℕ
  pub count : ℕ

module _ {W : Type 0} where
  -- A call that changes the clusters alone.
  unfoldable pub on_world : {A : Type 0} → Exec W A → Exec (Cloning W) A
  on_world m s = let (r, w) = m s.world in (r, record s { world = w })

  -- An operation of the catalog.
  unfoldable pub on_catalog : (Catalog → W → Option Error × Catalog × W) → Exec (Cloning W) NoValue
  on_catalog m s =
      let (err, c, w) = m s.catalog s.world in (result_of err, record s { catalog = c; world = w })

  -- A change of the clone's own fields, under its lock.
  unfoldable pub on_clone : (Clone → Clone) → Exec (Cloning W) NoValue
  on_clone f s = (ok no_value, record s { clone = f s.clone })

  unfoldable pub in_catalog : (Catalog → Catalog) → Exec (Cloning W) NoValue
  in_catalog f s = (ok no_value, record s { catalog = f s.catalog })

-- The types of the parts of the program that a clone calls.
pub record Parts (W : Type 0) : Type 0 where
  pub source : Driver W
  pub target : Target W
  pub unmarshal : Bytes → Result CreateCollectionOptions  -- bson.Unmarshal of the options
  pub copy : Namespace → CollectionSpecification → W → List CopyUpdate × W

module _ {W : Type 0} (parts : Parts W) where
  abbrev pub drop_on_target : Namespace → Exec (Cloning W) NoValue
  drop_on_target ns = on_catalog (λ c w. drop_collection parts.target c ns.database ns.collection w)

  unfoldable pub create_on_target : Namespace → CollectionSpecification → Exec (Cloning W) NoValue
  unfolding ◌>>=◌ on_fail raise on_catalog
  create_on_target ns spec =
      if spec.kind == type_timeseries then raise err_timeseries_unsupported else do
        opts ← context "unmarshal options" (λ s. (parts.unmarshal spec.options, s))
        context "ensure no collection before create" (drop_on_target ns)
        context "create collection"
            (on_catalog (λ c w. create_collection parts.target c ns.database ns.collection opts w))

  -- createIndexes; Catalog.CreateIndexes logs its errors, and returns none.
  unfoldable pub create_indexes_on_target : Namespace → Exec (Cloning W) NoValue
  unfolding ◌>>=◌ on_fail on_world on_catalog
  create_indexes_on_target ns = do
    indexes ←
        context "list indexes" (on_world (list_indexes parts.source ns.database ns.collection))
    unfinished ←
        context "list in-progress index builds"
          (on_world (list_in_progress_index_builds parts.source ns.database ns.collection))
    on_catalog
        λ c w. let (c', w') = clone_indexes parts.target c ns unfinished indexes w in (none, c', w')

  abbrev pub missing_as : Namespace → Error → Error
  missing_as ns e =
      if is_sentinel "not found" e
      then namespace_not_found ns.database ns.collection
      else wrapping "$collStats" e

  -- The sharding information, `none` where there is none.
  unfoldable pub none_if_not_found : Result ShardingInfo → Result (Option ShardingInfo)
  none_if_not_found (ok info) = ok (some info)
  none_if_not_found (fail e) = ok_if (is_sentinel "not found" e) none e

  unfoldable pub sharding_info : Namespace → Exec (Cloning W) (Option ShardingInfo)
  unfolding on_world none_if_not_found
  sharding_info ns s =
      let (r, s') =
        on_world (get_collection_sharding_info parts.source ns.database ns.collection) s in
      (none_if_not_found r, s')

  unfoldable pub shard_by : Namespace → Option Doc → Bool → Exec (Cloning W) NoValue
  unfolding on_world skip
  shard_by ns none unique = skip
  shard_by ns (some key) unique = on_world λ w.
      let (err, w') = shard_collection parts.target ns.database ns.collection key unique w in
      (result_of err, w')

  unfoldable pub shard_if_sharded : Namespace → Option ShardingInfo → Exec (Cloning W) NoValue
  unfolding skip shard_by
  shard_if_sharded ns none = skip
  shard_if_sharded ns (some info) = shard_by ns info.shard_key info.unique

  unfoldable pub set_uuid_if_any : Namespace → Option Bytes → Exec (Cloning W) NoValue
  unfolding in_catalog skip
  set_uuid_if_any ns none = skip
  set_uuid_if_any ns (some uuid) =
      in_catalog λ c. set_collection_uuid c ns.database ns.collection (some uuid)

  -- What the catalog records of a collection that was made.
  unfoldable pub record_collection :
      Namespace → Timestamp → CollectionSpecification → Exec (Cloning W) CollectionSpecification
  unfolding ◌>>=◌ in_catalog pure set_uuid_if_any
  record_collection ns captured_at spec = do
    in_catalog (λ c. set_collection_timestamp c ns.database ns.collection captured_at)
    set_uuid_if_any ns spec.uuid
    pure spec

  unfoldable pub create_indexes_if_any :
      Namespace → CollectionSpecification → Exec (Cloning W) NoValue
  unfolding on_fail skip create_indexes_on_target
  create_indexes_if_any ns spec =
      if spec.kind == type_collection
      then context "create indexes" (create_indexes_on_target ns)
      else skip

  unfoldable pub make_collection :
      Namespace → Timestamp → CollectionSpecification → Exec (Cloning W) CollectionSpecification
  unfolding ◌>>=◌ on_fail create_on_target create_indexes_if_any sharding_info shard_if_sharded
      record_collection
  make_collection ns captured_at spec = do
    context "createCollection" (create_on_target ns spec)
    create_indexes_if_any ns spec
    info ← context "get sharding info" (sharding_info ns)
    context "shard collection" (shard_if_sharded ns info)
    record_collection ns captured_at spec

  -- doCollectionClone up to the call of copyManager.Do.
  unfoldable pub prepare : Namespace → Exec (Cloning W) CollectionSpecification
  unfolding ◌>>=◌ on_fail on_world raise make_collection
  prepare ns = do
    captured_at ← context "get source cluster time" (on_world (cluster_time parts.source))
    spec ←
        on_fail (missing_as ns)
          (on_world (get_collection_spec parts.source ns.database ns.collection))
    if spec.kind == type_timeseries
        then raise err_timeseries_unsupported
        else make_collection ns captured_at spec

  -- The error of an update.
  unfoldable pub on_update_error : Namespace → Option Error → Exec (Cloning W) NoValue
  unfolding ◌>>=◌ on_catalog on_clone skip raise ignoring
  on_update_error ns none = skip
  on_update_error ns (some e) =
      if is_collection_dropped e
      then ignoring (drop_on_target ns) >> on_clone (dropped ns)
      else if is_collection_renamed e
      then skip
      else if is_sentinel "timeseries is not supported" e
      then skip
      else raise (wrapping ns.collection e)

  -- The loop over the updates; the result is what was copied, beside `total`.
  unfoldable pub read_updates : Namespace → ℕ → List CopyUpdate → Exec (Cloning W) ℕ
  unfolding ◌>>=◌ on_clone pure on_update_error
  read_updates ns total [] = pure total
  read_updates ns total (u ∷ updates) = do
    on_update_error ns u.err
    on_clone (copied u.size_bytes)
    read_updates ns (plus64 total u.size_bytes) updates

  -- doCollectionClone from the call of copyManager.Do on.
  unfoldable pub copy_documents : Namespace → CollectionSpecification → Exec (Cloning W) NoValue
  unfolding ◌>>=◌ on_clone read_updates
  copy_documents ns spec s =
      let (updates, w) = parts.copy ns spec s.world in
      (read_updates ns 0 updates >>= λ total. on_clone (adjusted ns total)) (record s { world = w })

  unfoldable pub do_collection_clone : Namespace → Exec (Cloning W) NoValue
  unfolding ◌>>=◌ prepare copy_documents
  do_collection_clone ns = prepare ns >>= copy_documents ns
