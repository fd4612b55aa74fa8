-- ===== src/Clone/Recorded.antt =====
-- What the catalog records of a collection before its documents are copied: the prepare step of
-- doCollectionClone (pcsm/clone.go).
pub mod Created
pub mod Prepared
use percona_link_mongodb.Bson.{Bytes, Timestamp, Doc}
use percona_link_mongodb.Prelude.{
  ◌≡◌, refl, ◌∙◌, String, Bool, Option, none, some, List, [], is_empty, arith, if-cases,
  Option-cases, inl, inr, ==_iff, ◌==◌, string_eq,
}
use percona_link_mongodb.Errors.{Error, err_timeseries_unsupported}
use percona_link_mongodb.Exec.{
  Exec, Result, ok, fail, no_value, result_of, pure, raise, skip, wrapping, on_fail, context, ◌>>=◌,
}
use percona_link_mongodb.Exec.Rules.{
  Outcome, Outcome-ok, Outcome-fail, Outcome-if, Outcome-bind, Outcome-on_fail, Outcome-weaken,
}
use percona_link_mongodb.Events.{Namespace, CreateCollectionOptions}
use percona_link_mongodb.Catalog.{
  Catalog, CollectionCatalog, IndexPointer, get_collection, with_indexes, set_collection_timestamp,
  set_collection_uuid, delete_collection_from_catalog, add_collection_to_catalog,
}
use percona_link_mongodb.Catalog.Places.{get_collection-delete, get_collection-add_missing}
use percona_link_mongodb.Catalog.Commands.{create_collection, drop_collection}
use percona_link_mongodb.Catalog.Commands.Effects.{drop_none, create_none}
use percona_link_mongodb.Catalog.Indexes.Kept.{
  HasNoUuid, get_collection-put, add_incomplete_indexes-HasNoUuid, create_indexes-HasNoUuid,
}
use percona_link_mongodb.Topo.{
  CollectionSpecification, ShardingInfo, type_collection, type_timeseries, cluster_time,
  get_collection_spec, list_indexes, list_in_progress_index_builds,
}
use percona_link_mongodb.Clone.{split_indexes, create_if_any, clone_indexes}
use percona_link_mongodb.Clone.Copying.{
  Cloning, Parts, on_world, on_catalog, in_catalog, drop_on_target, create_on_target, missing_as,
  create_indexes_on_target, sharding_info, shard_by, shard_if_sharded, set_uuid_if_any,
  record_collection, create_indexes_if_any, make_collection, prepare,
}

module _ {W : Type 0} where
  abbrev pub Anything : Cloning W → Type 0
  Anything s = s ≡ s

  pub Outcome-catalog :
      {A : Type 0} (P : Catalog → Type 0) (r : Result A) (s : Cloning W)
      → P s.catalog
      → Outcome (λ a s'. P s'.catalog) Anything (r, s)
  Outcome-catalog P (ok a) s h = Outcome-ok a s h
  Outcome-catalog P (fail e) s h = Outcome-fail e s refl

  -- A call of the clusters leaves what is known of the catalog.
  pub on_world-keeps :
      {A : Type 0} (P : Catalog → Type 0) (m : Exec W A) (s : Cloning W)
      → P s.catalog
      → Outcome (λ a s'. P s'.catalog) Anything (on_world m s)
  unfolding on_world
  on_world-keeps P m s h = Outcome-catalog P (m s.world).0 _ h

  -- What holds of the catalog after an operation on it, if it has no error.
  pub on_catalog-gives :
      (P : Catalog → Type 0) (f : Catalog → W → Option Error × Catalog × W) (s : Cloning W)
      → ((f s.catalog s.world).0 ≡ none → P (f s.catalog s.world).1)
      → Outcome (λ v s'. P s'.catalog) Anything (on_catalog f s)
  unfolding on_catalog
  on_catalog-gives P f s h = either (f s.catalog s.world).0 _ h
    where
      either :
          (o : Option Error) (s' : Cloning W)
          → (o ≡ none → P s'.catalog)
          → Outcome (λ v s'. P s'.catalog) Anything (result_of o, s')
      either none s' h = Outcome-ok no_value s' (h refl)
      either (some e) s' h = Outcome-fail e s' refl

module _ (db coll : String) where
  -- The entry of the collection has this time and this UUID.
  pub record IsRecorded (ts : Timestamp) (uuid : Option Bytes) (c : Catalog) : Type 0 where
    pub entry : CollectionCatalog
    pub found : get_collection c db coll ≡ some entry
    pub time : entry.added_at ≡ ts
    pub id : entry.uuid ≡ uuid

  pub set_timestamp-IsRecorded :
      (c : Catalog) (ts : Timestamp)
      → HasNoUuid db coll c
      → IsRecorded ts none (set_collection_timestamp c db coll ts)
  unfolding set_collection_timestamp
  set_timestamp-IsRecorded c ts h = elim (Option-cases (get_collection c db coll)) [
    | inl e ↦ absurd (ground (arith, e))
    | inr (entry, e) ↦ record {
      entry = record entry { added_at = ts };
      found =
          rw (e, set_collection_timestamp)
            (get_collection-put c db coll (record entry { added_at = ts }));
      time = refl;
      id = ground (arith, e);
    }
  ]

  pub set_uuid-IsRecorded :
      (c : Catalog) (ts : Timestamp) (uuid : Bytes)
      → IsRecorded ts none c
      → IsRecorded ts (some uuid) (set_collection_uuid c db coll (some uuid))
  unfolding set_collection_uuid
  set_uuid-IsRecorded c ts uuid h = record {
    entry = record h.entry { uuid = some uuid };
    found =
        rw (h.found, set_collection_uuid)
          (get_collection-put c db coll (record h.entry { uuid = some uuid }));
    time = h.time;
    id = refl;
  }

  pub dropped-none :
      (c : Catalog) → get_collection (delete_collection_from_catalog c db coll) db coll ≡ none
  dropped-none c =
      get_collection-delete c db coll db coll ∙ ground (arith, ==_iff db db, ==_iff coll coll)

  pub added-HasNoUuid :
      (c : Catalog)
      → get_collection c db coll ≡ none
      → HasNoUuid db coll (add_collection_to_catalog c db coll)
  added-HasNoUuid c h =
      rw (get_collection-add_missing c db coll db coll h)
        (rw (get_collection-put c db coll (with_indexes [])) refl)
