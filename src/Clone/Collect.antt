-- ===== src/Clone/Collect.antt =====
-- collectSizeMap and listPrioritizedNamespaces of pcsm/clone.go: which collections a clone copies,
-- and in which order.
use percona_link_mongodb.Prelude.Maps.{Assoc, insert}
use percona_link_mongodb.Bson.{Bytes}
use percona_link_mongodb.Prelude.{
  ℕ, String, Bool, not, ◌||◌, Option, none, List, [], ◌∷◌, map, leb, ◌==◌, string_eq, if◌then◌else◌,
}
use percona_link_mongodb.Errors.{is_sentinel}
use percona_link_mongodb.Exec.{ok_if, Exec, Result, ok, fail, pure, on_fail, context, ◌>>=◌}
use percona_link_mongodb.Events.{Namespace, namespace_eq}
use percona_link_mongodb.Topo.{
  Driver, CollectionSpecification, CollStats, type_timeseries, type_view, uint64, get_coll_stats,
  list_database_names, list_collection_specs,
}
use percona_link_mongodb.Clone.{Clone, SizeMapElem, collect_size, size_of, elem_of}

-- config.PCSMDatabase
abbrev pub pcsm_database : String
pcsm_database = "percona_clustersync_mongodb"

-- sizeMap, and the total of its sizes.
abbrev pub Sizes : Type 0
Sizes = Assoc Namespace SizeMapElem × ℕ

abbrev pub namespace_in : String → CollectionSpecification → Namespace
namespace_in db spec = record { database = db; collection = spec.name }

module _ {W : Type 0} (source : Driver W) (ns_filter : String → String → Bool) where
  -- A collection that is gone when its size is asked for is left out.
  unfoldable pub sized :
      Namespace → CollectionSpecification → Sizes → Result CollStats → Result Sizes
  sized ns spec sizes (ok stats) = ok (
      collect_size ns (record { uuid = spec.uuid; size = uint64 stats.size; count = stats.count })
        sizes)
  sized ns spec sizes (fail e) = ok_if (is_sentinel "not found" e) sizes e

  unfoldable pub is_left_out : String → CollectionSpecification → Bool
  is_left_out db spec = (spec.kind == type_timeseries) || not (ns_filter db spec.name)

  unfoldable pub add_view : Namespace → Sizes → Exec W Sizes
  unfolding pure
  add_view ns (m, total) = pure (insert ns (elem_of none) m, total)

  unfoldable pub add_stats : Namespace → CollectionSpecification → Sizes → Exec W Sizes
  unfolding sized
  add_stats ns spec sizes w =
      let (r, w') =
        context "get collection stats for %q" (get_coll_stats source ns.database spec.name) w in
      (sized ns spec sizes r, w')

  unfoldable pub collect_collection : String → CollectionSpecification → Sizes → Exec W Sizes
  unfolding pure is_left_out add_view add_stats
  collect_collection db spec sizes =
      if is_left_out db spec
      then pure sizes
      else if spec.kind == type_view
      then add_view (namespace_in db spec) sizes
      else add_stats (namespace_in db spec) spec sizes

  unfoldable pub collect_collections : String → List CollectionSpecification → Sizes → Exec W Sizes
  unfolding ◌>>=◌ pure collect_collection
  collect_collections db [] sizes = pure sizes
  collect_collections db (spec ∷ specs) sizes = do
    sizes' ← collect_collection db spec sizes
    collect_collections db specs sizes'

  unfoldable pub collect_database : String → Sizes → Exec W Sizes
  unfolding ◌>>=◌ on_fail pure collect_collections
  collect_database db sizes = if db == pcsm_database then pure sizes else do
    specs ← context "listCollections" (list_collection_specs source db)
    context "collect collections for %q" (collect_collections db specs sizes)

  unfoldable pub collect_databases : List String → Sizes → Exec W Sizes
  unfolding ◌>>=◌ pure collect_database
  collect_databases [] sizes = pure sizes
  collect_databases (db ∷ dbs) sizes = do
    sizes' ← collect_database db sizes
    collect_databases dbs sizes'

  -- collectSizeMap, up to its writing of the clone's own fields.
  unfoldable pub collect : Exec W Sizes
  unfolding ◌>>=◌ on_fail collect_databases
  collect = do
    databases ← context "list database names" (list_database_names source)
    context "collect databases" (collect_databases databases ([], 0))

pub record NamespaceInfo : Type 0 where
  pub namespace : Namespace
  pub uuid : Option Bytes

-- One step of the sort from larger to smaller: `ns` goes before the first that is not larger.
unfoldable pub place :
    Assoc Namespace SizeMapElem → NamespaceInfo → List NamespaceInfo → List NamespaceInfo
place sizes ns [] = ns ∷ []
place sizes ns (other ∷ rest) =
    let more = place sizes ns rest in
    if leb (size_of other.namespace sizes) (size_of ns.namespace sizes)
    then ns ∷ other ∷ rest
    else other ∷ more

unfoldable pub sorted_by : Assoc Namespace SizeMapElem → List NamespaceInfo → List NamespaceInfo
unfolding place
sorted_by sizes [] = []
sorted_by sizes (ns ∷ rest) = place sizes ns (sorted_by sizes rest)

abbrev pub info_of : Namespace × SizeMapElem → NamespaceInfo
info_of (ns, elem) = record { namespace = ns; uuid = elem.uuid }

unfoldable pub list_prioritized_namespaces : Clone → List NamespaceInfo
unfolding sorted_by
list_prioritized_namespaces c = sorted_by c.size_map (map info_of c.size_map)
