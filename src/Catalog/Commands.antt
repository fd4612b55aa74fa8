-- ===== src/Catalog/Commands.antt =====
-- The operations of pcsm/catalog.go that create, drop, rename, modify and shard collections on the
-- target, and keep the catalog in step. An operation returns its error, the catalog and the target.
pub mod Effects
use Prim.Native.String.{◌++◌ as str_append}
use text.Mathlib.Text.{starts_with}
use percona_link_mongodb.Bson.{
  ℤ, pos, Bytes, Value, str, int, boolean, raw, arr, doc, Doc, fields_of, items_of,
}
use percona_link_mongodb.Prelude.{
  ℕ, String, Bool, true, false, not, ◌&&◌, ◌||◌, Option, none, some, List, [], ◌∷◌, ◌++◌, ◌==◌,
  string_eq, if◌then◌else◌, is_some,
}
use percona_link_mongodb.Errors.{
  Error, err_timeseries_unsupported, wrap, is_namespace_exists, is_namespace_not_found,
  is_index_not_found,
}
use percona_link_mongodb.Events.{Namespace, CreateCollectionOptions, ModifyIndexOption}
use percona_link_mongodb.Target.{Target, retried}
use percona_link_mongodb.Catalog.{
  Catalog, add_collection_to_catalog, delete_collection_from_catalog, delete_database_from_catalog,
  rename_collection_in_catalog, remove_index_from_catalog, modify_index_in_catalog,
}
use percona_link_mongodb.Catalog.Indexes.{max_duration}

-- TimeseriesPrefix
abbrev pub timeseries_prefix : String
timeseries_prefix = "system.buckets."

-- `if v != nil { cmd = append(cmd, bson.E{key, v}) }`
abbrev pub given : {A : Type 0} → String → (A → Value) → Option A → Doc
given key value none = []
given key value (some v) = (key, value v) ∷ []

abbrev enabled_doc : Bool → Value
enabled_doc b = doc (fields_of (("enabled", boolean b) ∷ []))

abbrev doc_value : Doc → Value
doc_value d = doc (fields_of d)

unfoldable pub capped_options : CreateCollectionOptions → Doc
capped_options opts = elim opts.capped [
  | none ↦ []
  | some b ↦ ("capped", boolean b) ∷ (given "size" int opts.size ++ given "max" int opts.max_docs)
]

unfoldable pub create_command : String → CreateCollectionOptions → Doc
unfolding capped_options fields_of
create_command coll opts =
    ("create", str coll)
    ∷ (given "clusteredIndex" doc_value opts.clustered_index
        ++ (capped_options opts
            ++ (given "collation" raw opts.collation
                ++ (given "changeStreamPreAndPostImages" enabled_doc
                      opts.change_stream_pre_and_post_images
                    ++ (given "validator" raw opts.validator
                        ++ (given "validationLevel" str opts.validation_level
                            ++ (given "validationAction" str opts.validation_action
                                ++ (given "storageEngine" raw opts.storage_engine
                                    ++ given "indexOptionDefaults" raw
                                        opts.index_option_defaults))))))))

unfoldable pub create_view_command : String → CreateCollectionOptions → Doc
unfolding items_of
create_view_command view opts =
    ("create", str view)
    ∷ ("viewOn", str opts.view_on)
    ∷ ("pipeline", arr (items_of opts.pipeline))
    ∷ given "collation" raw opts.collation

unfoldable pub rename_command : String → String → String → String → Doc
rename_command db coll target_db target_coll =
    ("renameCollection", str (str_append db (str_append "." coll)))
    ∷ ("to", str (str_append target_db (str_append "." target_coll)))
    ∷ ("dropTarget", boolean true)
    ∷ []

unfoldable pub modify_validation_command :
    String → Option Bytes → Option String → Option String → Doc
modify_validation_command coll validator level action =
    ("collMod", str coll)
    ∷ (given "validator" raw validator
        ++ (given "validationLevel" str level ++ given "validationAction" str action))

unfoldable pub modify_capped_command : String → Option ℤ → Option ℤ → Doc
modify_capped_command coll size_bytes max_docs =
    ("collMod", str coll) ∷ (given "cappedSize" int size_bytes ++ given "cappedMax" int max_docs)

-- { collMod: coll, index: { name: index, propName: value } }
unfoldable pub modify_option_command : String → String → String → Value → Doc
unfolding fields_of
modify_option_command coll index prop_name value =
    ("collMod", str coll)
    ∷ ("index", doc (fields_of (("name", str index) ∷ (prop_name, value) ∷ [])))
    ∷ []

unfoldable pub shard_command : String → String → Doc → Bool → Doc
unfolding fields_of
shard_command db coll shard_key unique =
    ("shardCollection", str (str_append db (str_append "." coll)))
    ∷ ("key", doc (fields_of shard_key))
    ∷ ("collation", doc (fields_of (("locale", str "simple") ∷ [])))
    ∷ (if unique then ("unique", boolean true) ∷ [] else [])

module _ {W : Type 0} (target : Target W) where
  -- An operation on the target, and what it makes of the catalog if it has no error.
  abbrev on_success : Option Error × W → Catalog → Catalog → Option Error × Catalog × W
  on_success (none, w) c c' = (none, c', w)
  on_success (some e, w) c c' = (some e, c, w)

  created : Option Error → Catalog → String → String → W → Option Error × Catalog × W
  created none c db coll w = (none, add_collection_to_catalog c db coll, w)
  created (some e) c db coll w =
      if is_namespace_exists e
      then (none, add_collection_to_catalog c db coll, w)
      else (some e, c, w)

  unfoldable pub do_create_collection :
      Catalog → String → String → CreateCollectionOptions → W → Option Error × Catalog × W
  unfolding created
  do_create_collection c db coll opts w =
      let (err, w') =
        retried "create collection %s.%s" (target.run_command db (create_command coll opts)) w in
      created err c db coll w'

  unfoldable pub do_create_view :
      Catalog → String → String → CreateCollectionOptions → W → Option Error × Catalog × W
  do_create_view c db view opts w =
      on_success
        (retried "create view %s.%s" (target.run_command db (create_view_command view opts)) w) c c

  unfoldable pub create_collection :
      Catalog → String → String → CreateCollectionOptions → W → Option Error × Catalog × W
  unfolding do_create_collection do_create_view
  create_collection c db coll opts w =
      if opts.view_on == ""
      then do_create_collection c db coll opts w
      else if starts_with opts.view_on timeseries_prefix
      then (some err_timeseries_unsupported, c, w)
      else do_create_view c db coll opts w

  unfoldable pub drop_collection : Catalog → String → String → W → Option Error × Catalog × W
  drop_collection c db coll w =
      on_success (retried "drop collection %s.%s" (target.drop db coll) w) c
        (delete_collection_from_catalog c db coll)

  -- The collections are dropped concurrently; here one after the other, the first error being the
  -- group's, after which the calls that are not begun see a canceled context and are left out.
  unfoldable pub drop_each : String → List String → W → Option Error × W
  drop_each db [] w = (none, w)
  drop_each db (coll ∷ colls) w =
      let (err, w') = retried "drop namespace %s.%s" (target.drop db coll) w in
      elim err [ none ↦ drop_each db colls w' | some e ↦ (some e, w') ]

  -- The database leaves the catalog whether or not the drops succeed.
  unfoldable pub drop_database : Catalog → String → W → Option Error × Catalog × W
  drop_database c db w =
      let (err, colls, w1) = target.list_collection_names db w in
      elim err [
        | some e ↦ (wrap (some e) "list collection names", c, w1)
        | none ↦
            (let (err', w2) = drop_each db colls w1 in
              (err', delete_database_from_catalog c db, w2))
      ]

  unfoldable pub rename :
      Catalog → String → String → String → String → W → Option Error × Catalog × W
  rename c db coll target_db target_coll w =
      let (err, w') =
        retried "rename collection %s.%s to %s.%s"
          (target.run_command "admin" (rename_command db coll target_db target_coll)) w in
      elim err [
        | none ↦ (none, rename_collection_in_catalog c db coll target_db target_coll, w')
        | some e ↦ if is_namespace_not_found e then (none, c, w') else (some e, c, w')
      ]

  unfoldable pub drop_index : Catalog → String → String → String → W → Option Error × Catalog × W
  drop_index c db coll index w =
      let (err, w') = retried "drop index %s.%s.%s" (target.drop_index db coll index) w in
      elim err [
        | none ↦ (none, remove_index_from_catalog c db coll index, w')
        | some e ↦
            if not (is_namespace_not_found e) && not (is_index_not_found e)
            then (some e, c, w')
            else (none, remove_index_from_catalog c db coll index, w')
      ]

  unfoldable pub do_modify_index_option :
      String → String → String → String → Value → W → Option Error × W
  do_modify_index_option db coll index prop_name value =
      retried "modify index %s.%s.%s: %s"
        (target.run_command db (modify_option_command coll index prop_name value))

  -- The command that keeps the time to live long is sent first; the catalog gets the real value.
  unfoldable pub modify_index :
      Catalog → String → String → ModifyIndexOption → W → Option Error × Catalog × W
  modify_index c db coll mods w = elim mods.expire_after_seconds [
    | none ↦ (none, modify_index_in_catalog c db coll mods, w)
    | some ttl ↦
        on_success
          (retried "modify index %s.%s.%s"
            (target.run_command db
              (modify_option_command coll mods.name "expireAfterSeconds" (int max_duration)))
            w)
          c (modify_index_in_catalog c db coll mods)
  ]

  unfoldable pub modify_capped_collection :
      String → String → Option ℤ → Option ℤ → W → Option Error × W
  modify_capped_collection db coll size_bytes max_docs =
      retried "modify capped collection %s.%s"
        (target.run_command db (modify_capped_command coll size_bytes max_docs))

  unfoldable pub modify_view : String → String → String → Value → W → Option Error × W
  modify_view db view view_on pipeline = retried "modify view %s.%s" (
      target.run_command db
        (("collMod", str view) ∷ ("viewOn", str view_on) ∷ ("pipeline", pipeline) ∷ []))

  unfoldable pub modify_change_stream_pre_and_post_images :
      String → String → Bool → W → Option Error × W
  modify_change_stream_pre_and_post_images db coll enabled =
      retried "modify changeStreamPreAndPostImages %s.%s" (
        target.run_command db
          (("collMod", str coll) ∷ ("changeStreamPreAndPostImages", enabled_doc enabled) ∷ []))

  unfoldable pub modify_validation :
      String → String → Option Bytes → Option String → Option String → W → Option Error × W
  modify_validation db coll validator level action =
      retried "modify validation %s.%s"
        (target.run_command db (modify_validation_command coll validator level action))

  unfoldable pub shard_collection : String → String → Doc → Bool → W → Option Error × W
  shard_collection db coll shard_key unique =
      retried "shard collection"
        (target.run_command "admin" (shard_command db coll shard_key unique))
