-- ===== src/Catalog/Uuids.antt =====
-- The map from the UUIDs of collections to their namespaces.
use percona_link_mongodb.Prelude.Maps.{lookup, lookup-insert}
use percona_link_mongodb.Bson.{Bytes}
use percona_link_mongodb.Prelude.{
  inl, ◌∙◌, is_some, String, ◌≡◌, ◌⊎◌, ◌||◌, is_some, refl, Bool, true, false, ◌&&◌, Option, none,
  some, [], ◌∷◌, arith, ◌==◌, ==_iff, string_eq, list_eq, nat_eq, if◌then◌else◌, inr,
}
use percona_link_mongodb.Events.{Namespace}
use percona_link_mongodb.Catalog.{
  uuid_map, uuids_of, Catalog, DatabaseCatalog, put_uuid, UuidMap, uuids_of_database,
}

-- The entry of the collection has the UUID.
abbrev has_uuid : Bytes → Option Bytes → Bool
has_uuid u none = false
has_uuid u (some v) = v == u

abbrev holds_in : Bytes → String → DatabaseCatalog → Bool
holds_in u coll [] = false
holds_in u coll ((k, entry) ∷ d) = (k == coll) && has_uuid u entry.uuid || holds_in u coll d

-- Some entry of the catalog, at the namespace, has the UUID.
abbrev pub holds : Bytes → Namespace → Catalog → Bool
holds u ns [] = false
holds u ns ((db, d) ∷ c) = (db == ns.database) && holds_in u ns.collection d || holds u ns c

lookup-put_uuid :
    (u : Bytes) (o : Option Bytes) (ns : Namespace) (m : UuidMap)
    → lookup u (put_uuid o ns m) ≡ (if has_uuid u o then some ns else lookup u m)
unfolding put_uuid
lookup-put_uuid u none ns m = refl
lookup-put_uuid u (some v) ns m = lookup-insert v u ns m

uuids_of_database_sound :
    (u : Bytes) (ns : Namespace) (db : String) (d : DatabaseCatalog) (m : UuidMap)
    → lookup u (uuids_of_database db d m) ≡ some ns
    → (((db == ns.database) && holds_in u ns.collection d) ≡ true) ⊎ (lookup u m ≡ some ns)
unfolding uuids_of_database
uuids_of_database_sound u ns db [] m h = inr h
uuids_of_database_sound u ns db ((coll, entry) ∷ d) m h = ground (
  arith,
  lookup-put_uuid u entry.uuid (record { database = db; collection = coll }) m,
  ==_iff db ns.database,
  ==_iff coll ns.collection,
  uuids_of_database_sound u ns db d
      (put_uuid entry.uuid (record { database = db; collection = coll }) m) h,
)

uuids_of_sound :
    (u : Bytes) (ns : Namespace) (c : Catalog) (m : UuidMap)
    → lookup u (uuids_of c m) ≡ some ns
    → (holds u ns c ≡ true) ⊎ (lookup u m ≡ some ns)
unfolding uuids_of
uuids_of_sound u ns [] m h = inr h
uuids_of_sound u ns ((db, d) ∷ c) m h = elim (uuids_of_sound u ns c (uuids_of_database db d m) h) [
  | inl rest ↦ inl (ground arith)
  | inr here ↦ elim (uuids_of_database_sound u ns db d m here) [
    | inl found ↦ inl (ground arith)
    | inr before ↦ inr before
  ]
]

-- A namespace that the UUID map gives for a UUID is one at which the catalog has a collection with
-- that UUID.
uuid_map-holds :
    (u : Bytes) (ns : Namespace) (c : Catalog)
    → lookup u (uuid_map c) ≡ some ns
    → holds u ns c ≡ true
unfolding uuid_map
uuid_map-holds u ns c h = elim (uuids_of_sound u ns c [] h) [
  | inl found ↦ found
  | inr nothing ↦ (unfold lookup in cc)
]

abbrev recorded_in : Bytes → DatabaseCatalog → Bool
recorded_in u [] = false
recorded_in u ((k, entry) ∷ d) = has_uuid u entry.uuid || recorded_in u d

-- Some collection of the catalog has the UUID.
abbrev pub recorded : Bytes → Catalog → Bool
recorded u [] = false
recorded u ((db, d) ∷ c) = recorded_in u d || recorded u c

is_some-uuids_of_database :
    (u : Bytes) (db : String) (d : DatabaseCatalog) (m : UuidMap)
    → is_some (lookup u (uuids_of_database db d m)) ≡ (recorded_in u d || is_some (lookup u m))
unfolding uuids_of_database
is_some-uuids_of_database u db [] m = refl
is_some-uuids_of_database u db ((coll, entry) ∷ d) m =
    is_some-uuids_of_database u db d _
    ∙ ground (arith, lookup-put_uuid u entry.uuid (record { database = db; collection = coll }) m)

is_some-uuids_of :
    (u : Bytes) (c : Catalog) (m : UuidMap)
    → is_some (lookup u (uuids_of c m)) ≡ (recorded u c || is_some (lookup u m))
unfolding uuids_of
is_some-uuids_of u [] m = refl
is_some-uuids_of u ((db, d) ∷ c) m =
    is_some-uuids_of u c (uuids_of_database db d m)
    ∙ ground (arith, is_some-uuids_of_database u db d m)

-- The UUID map has an entry for exactly the UUIDs that some collection of the catalog has.
is_some-uuid_map : (u : Bytes) (c : Catalog) → is_some (lookup u (uuid_map c)) ≡ recorded u c
unfolding uuid_map
is_some-uuid_map u c = is_some-uuids_of u c [] ∙ (unfold lookup in ground arith)
