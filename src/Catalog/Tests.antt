-- ===== src/Catalog/Tests.antt =====
-- Witnesses and tests of the catalog.
use percona_link_mongodb.Errors.Retry.{retry_loop}
use percona_link_mongodb.Target.{retried}
use percona_link_mongodb.Errors.{
  canceled, wrap, is_transient, is_namespace_exists, is_namespace_not_found, is_index_not_found,
}
use percona_link_mongodb.Prelude.Maps.{lookup, insert}
use percona_link_mongodb.Bson.{pos, str, zero_timestamp}
use percona_link_mongodb.Prelude.{
  is_some, ℕ, ◌+◌, String, ◌≡◌, refl, true, false, none, some, List, [], ◌∷◌, length, list_eq,
  nat_eq, string_eq,
}
use percona_link_mongodb.Events.{
  is_clustered, IndexSpecification, CreateCollectionOptions, ModifyIndexOption,
}
use percona_link_mongodb.Target.{retried, Target}
use percona_link_mongodb.Catalog.{
  is_unsuccessful, Catalog, CollectionCatalog, IndexPointer, IndexCatalogEntry, get_collection,
  put_collection, get_index, remove_index_from_catalog,
}
use percona_link_mongodb.Catalog.Removal.{remove_index-keeps_length}
use percona_link_mongodb.Catalog.Indexes.{
  entry_of, prepared, with_collation, prepared_all, create_indexes,
}
use percona_link_mongodb.Catalog.Indexes.Recorded.{get_index-create_indexes}
use percona_link_mongodb.Catalog.Commands.{
  create_collection, drop_collection, rename, drop_index, modify_index,
}
use percona_link_mongodb.Catalog.Commands.Effects.{KeptOnError, errors_keep_catalog}
use percona_link_mongodb.Catalog.Finalize.{changes_of}
use percona_link_mongodb.Catalog.Finalize.Restored.{assign_all, assign_all-changes_of}

abbrev spec_named : String → IndexSpecification
spec_named name = record {
  name = name;
  keys_document = [];
  sparse = none;
  hidden = some true;
  unique = some true;
  prepare_unique = none;
  clustered = none;
  expire_after_seconds = some (pos 60);
  collation = none;
  others = [];
}

abbrev pointer : ℕ → String → IndexPointer
pointer ref name = record { ref = ref; spec = spec_named name }

abbrev two_entries : List IndexCatalogEntry
two_entries = entry_of false false (pointer 1 "a") ∷ entry_of false false (pointer 2 "b") ∷ []

abbrev coll_entry : CollectionCatalog
coll_entry = record { added_at = zero_timestamp; uuid = some (7 ∷ []); indexes = two_entries }

abbrev small : Catalog
small = ("db", ("c", coll_entry) ∷ []) ∷ []

remove_index-keeps_length_example :
    (after : CollectionCatalog) × (get_collection
        (remove_index_from_catalog small "db" "c" "a")
        "db"
        "c"
      ≡ some after)
    × (length after.indexes ≡ 2)
unfolding get_collection lookup
remove_index-keeps_length_example = remove_index-keeps_length small "db" "c" "a" coll_entry refl

-- The entry that is removed is gone, and the last entry stands twice.
removed_twice :
    get_collection (remove_index_from_catalog small "db" "c" "a") "db" "c"
    ≡ some (record coll_entry {
      indexes = entry_of false false (pointer 2 "b") ∷ entry_of false false (pointer 2 "b") ∷ [];
    })
unfolding remove_index_from_catalog get_collection put_collection lookup insert
removed_twice = refl

-- A target on which every call succeeds.
abbrev willing : Target ℕ
willing = record {
  run_command = λ db cmd n. (none, n + 1);
  drop = λ db coll n. (none, n + 1);
  drop_index = λ db coll index n. (none, n + 1);
  list_collection_names = λ db n. (none, [], n + 1);
  encode_index = λ s. str s.name;
  simple_collation = 0 ∷ [];
}

abbrev new_pointers : List IndexPointer
new_pointers = pointer 3 "_id_" ∷ pointer 4 "x" ∷ []

get_index-create_indexes_example :
    get_index (create_indexes willing small "db" "c" new_pointers 0).0 "db" "c" "x"
    ≡ some (pointer 4 "x")
unfolding prepared_all
get_index-create_indexes_example =
    get_index-create_indexes willing small "db" "c" "x" new_pointers 0 (refl, (refl, tt)) refl

abbrev plain : CreateCollectionOptions
plain = record {
  clustered_index = none;
  capped = none;
  size = none;
  max_docs = none;
  view_on = "";
  pipeline = [];
  collation = none;
  change_stream_pre_and_post_images = none;
  validator = none;
  validation_level = none;
  validation_action = none;
  storage_engine = none;
  index_option_defaults = none;
}

abbrev hide : ModifyIndexOption
hide = record {
  name = "a";
  hidden = some true;
  unique = none;
  prepare_unique = none;
  expire_after_seconds = none;
}

abbrev expire : ModifyIndexOption
expire = record hide { expire_after_seconds = some (pos 60) }

-- A target that is cut off: every call fails, and is counted.
abbrev broken : Target ℕ
broken = record {
  run_command = λ db cmd n. (some canceled, n + 1);
  drop = λ db coll n. (some canceled, n + 1);
  drop_index = λ db coll index n. (some canceled, n + 1);
  list_collection_names = λ db n. (some canceled, [], n + 1);
  encode_index = λ s. str s.name;
  simple_collation = 0 ∷ [];
}

-- Each of the five operations fails on it.
all_fail :
    (is_some (create_collection broken small "db" "c" plain 0).0 ≡ true)
    × (is_some (drop_collection broken small "db" "c" 0).0 ≡ true)
    × (is_some (rename broken small "db" "c" "db2" "d" 0).0 ≡ true)
    × (is_some (drop_index broken small "db" "c" "a" 0).0 ≡ true)
    × (is_some (modify_index broken small "db" "c" expire 0).0 ≡ true)
unfolding create_collection drop_collection rename drop_index modify_index retried retry_loop
    is_transient wrap is_namespace_exists is_namespace_not_found is_index_not_found
all_fail = (refl, refl, refl, refl, refl)

errors_keep_catalog_example :
    let (e1, c1, _) = create_collection broken small "db" "c" plain 0 in
    let (e2, c2, _) = drop_collection broken small "db" "c" 0 in
    let (e3, c3, _) = rename broken small "db" "c" "db2" "d" 0 in
    let (e4, c4, _) = drop_index broken small "db" "c" "a" 0 in
    let (e5, c5, _) = modify_index broken small "db" "c" expire 0 in
    KeptOnError small e1 c1
    × KeptOnError small e2 c2
    × KeptOnError small e3 c3
    × KeptOnError small e4 c4
    × KeptOnError small e5 c5
errors_keep_catalog_example = errors_keep_catalog broken small "db" "c" 0 plain "db2" "d" "a" expire

assign_all-changes_of_example :
    assign_all
      (changes_of (entry_of false false (pointer 1 "a")))
      (prepared (0 ∷ []) (spec_named "a"))
    ≡ with_collation (0 ∷ []) (spec_named "a")
unfolding is_unsuccessful is_clustered
assign_all-changes_of_example =
    assign_all-changes_of (0 ∷ []) (entry_of false false (pointer 1 "a")) (λ h. refl)
