-- ===== src/Topo.antt =====
-- topo/schema.go and the queries of topo/topo.go: what the program asks a cluster. The calls of the
-- driver are the fields of `Driver`, over a state W of the cluster; a cursor is its number.
pub mod Samples
pub mod Version
use Prim.Native.String.{◌++◌ as str_append}
use percona_link_mongodb.Bson.{
  ℤ, pos, negsuc, Bytes, Value, str, int, boolean, raw, arr, doc, Doc, Timestamp, fields_of,
  items_of,
}
use percona_link_mongodb.Prelude.{
  ℕ, ◌+◌, ◌-◌, ◌%◌, ◌^◌, String, Bool, true, Option, none, some, List, [], ◌∷◌, is_some,
  if◌then◌else◌,
}
use percona_link_mongodb.Errors.{
  Error, sentinel, err_not_found, is_namespace_not_found, is_no_documents,
}
use percona_link_mongodb.Exec.{
  Exec, NoValue, wrapping, pure, raise, gets, skip, on_fail, context, ◌>>=◌, ◌>>◌,
}
use percona_link_mongodb.Catalog.{IndexPointer}

-- mongo.CollectionSpecification
pub record CollectionSpecification : Type 0 where
  pub name : String
  pub kind : String  -- the field Type
  pub options : Bytes
  pub uuid : Option Bytes

pub record CollStats : Type 0 where
  pub count : ℤ
  pub size : ℤ
  pub avg_obj_size : ℤ

pub record ShardingInfo : Type 0 where
  pub shard_key : Option Doc
  pub unique : Bool

pub record Driver (W : Type 0) : Type 0 where
  pub run_command : String → Doc → Exec W Bytes
  pub cluster_time_of : Bytes → Option Timestamp  -- Lookup("$clusterTime", "clusterTime").TimestampOK()
  pub list_database_names : Doc → Exec W (List String)
  pub list_collection_names : String → Doc → Exec W (List String)
  pub list_collection_specifications : String → Doc → Exec W (List CollectionSpecification)
  pub list_indexes : String → String → Exec W ℕ
  pub all_indexes : ℕ → Exec W (List IndexPointer)
  pub aggregate : String → String → List Value → Exec W ℕ  -- the empty collection is the database
  pub all_names : ℕ → Exec W (List String)
  pub next : ℕ → Exec W Bool  -- Next; where that is false and Err is not nil, the error
  pub decode_stats : ℕ → Exec W CollStats
  pub find_sharding : Doc → Exec W ShardingInfo  -- FindOne of config.collections
  pub find_chunks : Doc → Exec W ℕ  -- Find of config.chunks
  pub cursor_err : ℕ → W → Option Error
  pub all_chunks : ℕ → Exec W (List Bytes)

abbrev pub type_collection : String
type_collection = "collection"

abbrev pub type_timeseries : String
type_timeseries = "timeseries"

abbrev pub type_view : String
type_view = "view"

-- bson.D{{key, bson.D{{operator, value}}}}
abbrev pub nested : String → String → Value → Doc
nested key operator value = (key, doc (fields_of ((operator, value) ∷ []))) ∷ []

abbrev pub value_of : Doc → Value
value_of d = doc (fields_of d)

abbrev pub not_system : Doc
not_system = nested "name" "$not" (value_of (("$regex", str "^system\\.") ∷ []))

unfoldable pub is_sharded : ShardingInfo → Bool
is_sharded s = is_some s.shard_key

-- The conversion of an int64 to uint64.
unfoldable pub uint64 : ℤ → ℕ
uint64 (pos n) = n % 2 ^ 64
uint64 (negsuc n) = (2 ^ 64 - (n % 2 ^ 64 + 1)) % 2 ^ 64

abbrev pub not_found_if_missing : Error → Error
not_found_if_missing e = if is_namespace_not_found e then err_not_found else e

module _ {A : Type 0} {S : Type 0} where
  unfoldable pub first_of : List A → Exec S A
  unfolding pure raise
  first_of [] = raise err_not_found
  first_of (a ∷ rest) = pure a

  -- The value, or the error of its absence.
  unfoldable pub required : Error → Option A → Exec S A
  unfolding pure raise
  required e none = raise e
  required e (some a) = pure a

module _ {W : Type 0} (driver : Driver W) where
  unfoldable pub cluster_time : Exec W Timestamp
  unfolding ◌>>=◌ required
  cluster_time = do
    answer ← driver.run_command "admin" (("ping", int (pos 1)) ∷ [])
    required (sentinel "missig clusterTime") (driver.cluster_time_of answer)

  unfoldable pub advance_cluster_time : Exec W Timestamp
  unfolding ◌>>=◌ required
  advance_cluster_time = do
    answer ←
        driver.run_command "admin" (
          ("appendOplogNote", int (pos 1))
          ∷ ("data", value_of (("msg", str "pcsm:tick") ∷ []))
          ∷ [])
    required (sentinel "missig clusterTime") (driver.cluster_time_of answer)

  unfoldable pub list_database_names : Exec W (List String)
  list_database_names =
      driver.list_database_names
        (nested "name" "$nin" (arr (items_of (str "admin" ∷ str "config" ∷ str "local" ∷ []))))

  unfoldable pub list_collection_names : String → Exec W (List String)
  list_collection_names db = driver.list_collection_names db not_system

  unfoldable pub list_collection_specs : String → Exec W (List CollectionSpecification)
  list_collection_specs db = driver.list_collection_specifications db not_system

  unfoldable pub get_collection_spec : String → String → Exec W CollectionSpecification
  unfolding ◌>>=◌ first_of on_fail
  get_collection_spec db coll = do
    colls ←
        on_fail not_found_if_missing
          (driver.list_collection_specifications db (("name", str coll) ∷ []))
    first_of colls

  unfoldable pub get_collection_name_by_uuid : String → Bytes → Exec W String
  unfolding ◌>>=◌ first_of on_fail pure
  get_collection_name_by_uuid db uuid = do
    specs ←
        context "listCollections"
          (driver.list_collection_specifications db (("info.uuid", raw uuid) ∷ []))
    spec ← first_of specs
    pure spec.name

  unfoldable pub list_indexes : String → String → Exec W (List IndexPointer)
  unfolding ◌>>=◌ on_fail
  list_indexes db coll = do
    cursor ← context "list indexes" (driver.list_indexes db coll)
    context "list indexes" (driver.all_indexes cursor)

  abbrev index_builds_pipeline : String → String → List Value
  index_builds_pipeline db coll =
      value_of (nested "$currentOp" "allUsers" (boolean true))
      ∷ value_of (
          (
            "$match",
            value_of (
                ("op", str "command")
                ∷ ("command.createIndexes", str coll)
                ∷ ("command.$db", str db)
                ∷ []),
          )
          ∷ [])
      ∷ value_of (("$unwind", str "$command.indexes") ∷ [])
      ∷ value_of (nested "$replaceRoot" "newRoot" (str "$command.indexes"))
      ∷ value_of (nested "$project" "name" (int (pos 1)))
      ∷ []

  unfoldable pub list_in_progress_index_builds : String → String → Exec W (List String)
  unfolding ◌>>=◌ on_fail
  list_in_progress_index_builds db coll = do
    cursor ← context "$currentOp" (driver.aggregate "admin" "" (index_builds_pipeline db coll))
    context "cursor: all" (driver.all_names cursor)

  abbrev coll_stats_pipeline : List Value
  coll_stats_pipeline =
      value_of (nested "$collStats" "storageStats" (value_of []))
      ∷ value_of (
          (
            "$project",
            value_of (
                ("size", str "$storageStats.size")
                ∷ ("count", str "$storageStats.count")
                ∷ ("avgObjSize", str "$storageStats.avgObjSize")
                ∷ []),
          )
          ∷ [])
      ∷ []

  unfoldable pub get_coll_stats : String → String → Exec W CollStats
  unfolding ◌>>=◌ on_fail raise
  get_coll_stats db coll = do
    cursor ←
        on_fail (λ e. wrapping "$collStats" (not_found_if_missing e))
          (driver.aggregate db coll coll_stats_pipeline)
    more ← context "$collStas: cursor" (driver.next cursor)
    if more then context "decode" (driver.decode_stats cursor) else raise err_not_found

  abbrev not_found_if_none : Error → Error
  not_found_if_none e =
      if is_no_documents e
      then err_not_found
      else wrapping "find collection %s in config.collections" e

  unfoldable pub raise_if : Option Error → Exec W NoValue
  unfolding skip raise
  raise_if none = skip
  raise_if (some e) = raise e

  unfoldable pub read_chunks : String → Exec W (List Bytes)
  unfolding ◌>>=◌ on_fail gets raise_if
  read_chunks name = do
    cursor ← context "find chunks for %s" (driver.find_chunks (("ns", str name) ∷ []))
    err ← gets (driver.cursor_err cursor)
    context "iterate chunks" (raise_if err)
    context "read chunks" (driver.all_chunks cursor)

  -- The chunks are read, and not put into the answer.
  unfoldable pub get_collection_sharding_info : String → String → Exec W ShardingInfo
  unfolding ◌>>=◌ on_fail pure read_chunks
  get_collection_sharding_info db coll =
      let name = str_append db (str_append "." coll) in
      do
        info ← on_fail not_found_if_none (driver.find_sharding (("_id", str name) ∷ []))
        if is_sharded info then (read_chunks name >> pure info) else pure info
