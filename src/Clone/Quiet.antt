-- ===== src/Clone/Quiet.antt =====
-- The steps of a clone (pcsm/clone.go) that leave the clone's own fields as they are.
use percona_link_mongodb.Prelude.{
  ◌≡◌, refl, ◌∙◌, Bool, true, false, Option, none, some, if◌then◌else◌, string_eq,
}
use percona_link_mongodb.Bson.{Timestamp, Doc, Bytes}
use percona_link_mongodb.Errors.{Error}
use percona_link_mongodb.Exec.{Exec, Result, ok, fail, continue, pure, raise, skip, on_fail, ◌>>=◌}
use percona_link_mongodb.Events.{Namespace}
use percona_link_mongodb.Catalog.{Catalog}
use percona_link_mongodb.Topo.{CollectionSpecification, ShardingInfo}
use percona_link_mongodb.Clone.Copying.{
  Cloning, Parts, on_world, on_catalog, in_catalog, create_on_target, create_indexes_on_target,
  sharding_info, shard_by, shard_if_sharded, set_uuid_if_any, prepare, record_collection,
  create_indexes_if_any, make_collection,
}

-- `m` leaves the clone's own fields as they are, whether it fails or not.
pub record IsQuiet {W A : Type 0} (m : Exec (Cloning W) A) : Type 0 where
  pub at : (s : Cloning W) → (m s).1.clone ≡ s.clone

module _ {W A : Type 0} where
  pub IsQuiet-pure : (a : A) → IsQuiet {W = W} (pure a)
  unfolding pure
  IsQuiet-pure a = record { at = λ s. refl }

  pub IsQuiet-raise : (e : Error) → IsQuiet {W = W} {A = A} (raise e)
  unfolding raise
  IsQuiet-raise e = record { at = λ s. refl }

  pub IsQuiet-on_world : (m : Exec W A) → IsQuiet (on_world m)
  unfolding on_world
  IsQuiet-on_world m = record { at = λ s. refl }

  pub IsQuiet-on_fail :
      (f : Error → Error) (m : Exec (Cloning W) A) → IsQuiet m → IsQuiet (on_fail f m)
  unfolding on_fail
  IsQuiet-on_fail f m h = record { at = λ s. h.at s }

  pub IsQuiet-if :
      (b : Bool) (m n : Exec (Cloning W) A) → IsQuiet m → IsQuiet n → IsQuiet (if b then m else n)
  IsQuiet-if true m n km kn = km
  IsQuiet-if false m n km kn = kn

module _ {W A B : Type 0} where
  continued :
      (f : A → Exec (Cloning W) B) (r : Result A) (s : Cloning W)
      → ((a : A) → IsQuiet (f a))
      → (continue r f s).1.clone ≡ s.clone
  continued f (ok a) s k = (k a).at s
  continued f (fail e) s k = refl

  pub IsQuiet-bind :
      (m : Exec (Cloning W) A) (f : A → Exec (Cloning W) B)
      → IsQuiet m
      → ((a : A) → IsQuiet (f a))
      → IsQuiet (m >>= f)
  unfolding ◌>>=◌
  IsQuiet-bind m f h k = record { at = λ s. continued f (m s).0 (m s).1 k ∙ h.at s }

module _ {W : Type 0} where
  pub IsQuiet-skip : IsQuiet {W = W} skip
  unfolding skip
  IsQuiet-skip = record { at = λ s. refl }

  pub IsQuiet-in_catalog : (f : Catalog → Catalog) → IsQuiet {W = W} (in_catalog f)
  unfolding in_catalog
  IsQuiet-in_catalog f = record { at = λ s. refl }

  pub IsQuiet-on_catalog : (f : Catalog → W → Option Error × Catalog × W) → IsQuiet (on_catalog f)
  unfolding on_catalog
  IsQuiet-on_catalog f = record { at = λ s. refl }

ruleset quiet_rules = (
  IsQuiet-pure, IsQuiet-raise, IsQuiet-on_world, IsQuiet-on_fail, IsQuiet-if, IsQuiet-bind,
  IsQuiet-skip, IsQuiet-in_catalog, IsQuiet-on_catalog,
)

module _ {W : Type 0} (parts : Parts W) where
  unmarshal-IsQuiet : {A : Type 0} (r : Result A) → IsQuiet {W = W} (λ s. (r, s))
  unmarshal-IsQuiet r = record { at = λ s. refl }

  create_on_target-IsQuiet :
      (ns : Namespace) (spec : CollectionSpecification) → IsQuiet (create_on_target parts ns spec)
  unfolding create_on_target
  create_on_target-IsQuiet ns spec = search (quiet_rules, unmarshal-IsQuiet)

  create_indexes_on_target-IsQuiet : (ns : Namespace) → IsQuiet (create_indexes_on_target parts ns)
  unfolding create_indexes_on_target
  create_indexes_on_target-IsQuiet ns = search quiet_rules

  sharding_info-IsQuiet : (ns : Namespace) → IsQuiet (sharding_info parts ns)
  unfolding sharding_info on_world
  sharding_info-IsQuiet ns = record { at = λ s. refl }

  shard_by-IsQuiet :
      (ns : Namespace) (key : Option Doc) (unique : Bool) → IsQuiet (shard_by parts ns key unique)
  unfolding shard_by
  shard_by-IsQuiet ns none unique = IsQuiet-skip
  shard_by-IsQuiet ns (some key) unique = IsQuiet-on_world _

  shard_if_sharded-IsQuiet :
      (ns : Namespace) (info : Option ShardingInfo) → IsQuiet (shard_if_sharded parts ns info)
  unfolding shard_if_sharded
  shard_if_sharded-IsQuiet ns none = IsQuiet-skip
  shard_if_sharded-IsQuiet ns (some info) = shard_by-IsQuiet ns info.shard_key info.unique

  set_uuid_if_any-IsQuiet :
      (ns : Namespace) (uuid : Option Bytes) → IsQuiet (set_uuid_if_any parts ns uuid)
  unfolding set_uuid_if_any
  set_uuid_if_any-IsQuiet ns none = IsQuiet-skip
  set_uuid_if_any-IsQuiet ns (some uuid) = IsQuiet-in_catalog _

  record_collection-IsQuiet :
      (ns : Namespace) (ts : Timestamp) (spec : CollectionSpecification)
      → IsQuiet (record_collection parts ns ts spec)
  unfolding record_collection
  record_collection-IsQuiet ns ts spec = search (quiet_rules, set_uuid_if_any-IsQuiet)

  create_indexes_if_any-IsQuiet :
      (ns : Namespace) (spec : CollectionSpecification)
      → IsQuiet (create_indexes_if_any parts ns spec)
  unfolding create_indexes_if_any
  create_indexes_if_any-IsQuiet ns spec = search (quiet_rules, create_indexes_on_target-IsQuiet)

  make_collection-IsQuiet :
      (ns : Namespace) (ts : Timestamp) (spec : CollectionSpecification)
      → IsQuiet (make_collection parts ns ts spec)
  unfolding make_collection
  make_collection-IsQuiet ns ts spec =
      search
        (
          quiet_rules, create_on_target-IsQuiet, create_indexes_if_any-IsQuiet,
          sharding_info-IsQuiet, shard_if_sharded-IsQuiet, record_collection-IsQuiet,
        )
        depth 16

  pub prepare-IsQuiet : (ns : Namespace) → IsQuiet (prepare parts ns)
  unfolding prepare
  prepare-IsQuiet ns = search (quiet_rules, make_collection-IsQuiet) depth 8
