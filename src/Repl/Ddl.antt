-- ===== src/Repl/Ddl.antt =====
-- applyDDLChange and doModify of pcsm/repl.go: the change events that are not writes of documents.
-- Errors that are only logged are dropped, and the catalog and target that the call left are kept.
use text.Mathlib.Text.{starts_with}
use percona_link_mongodb.Prelude.{
  ℕ, suc, String, Bool, ◌||◌, Option, none, some, List, [], ◌∷◌, is_some, ◌==◌, string_eq,
  if◌then◌else◌,
}
use percona_link_mongodb.Errors.{Error, wrap}
use percona_link_mongodb.Events.Parse.{err_invalidate_event}
use percona_link_mongodb.Events.{
  OperationType, invalidate, drop_database, create, rename, modify, drop, create_indexes,
  drop_indexes, insert, update, replace, delete, shard_collection, reshard_collection,
  refine_collection_shard_key, tick, unknown, create_event, drop_event, drop_database_event,
  create_indexes_event, drop_indexes_event, modify_event, rename_event, shard_collection_event,
  no_event, insert_event, update_event, replace_event, delete_event, ChangeEvent, Event, Namespace,
  IndexSpecification, ModifyOpDesc, CreateCollectionOptions,
}
use percona_link_mongodb.Target.{Target}
use percona_link_mongodb.Catalog.{Catalog, IndexPointer, set_collection_uuid}
use percona_link_mongodb.Catalog.Indexes.{create_indexes as build_indexes}
use percona_link_mongodb.Catalog.Commands.{
  timeseries_prefix, create_collection, drop_collection, drop_database as drop_each_collection,
  rename as rename_collection, drop_index, modify_index, modify_capped_collection, modify_view,
  modify_change_stream_pre_and_post_images, modify_validation,
  shard_collection as run_shard_collection,
}

-- e.OperationDescription of a create event: IsTimeseries
unfoldable pub is_timeseries : CreateCollectionOptions → Bool
is_timeseries opts = starts_with opts.view_on timeseries_prefix

-- string(change.OperationType)
unfoldable pub op_text : OperationType → String
op_text invalidate = "invalidate"
op_text drop_database = "dropDatabase"
op_text create = "create"
op_text rename = "rename"
op_text modify = "modify"
op_text drop = "drop"
op_text create_indexes = "createIndexes"
op_text drop_indexes = "dropIndexes"
op_text insert = "insert"
op_text update = "update"
op_text replace = "replace"
op_text delete = "delete"
op_text shard_collection = "shardCollection"
op_text reshard_collection = "reshardCollection"
op_text refine_collection_shard_key = "refineCollectionShardKey"
op_text tick = "@tick"
op_text (unknown text) = text

-- The pointers to the elements of the decoded slice: each its own.
unfoldable pub pointers : ℕ → List IndexSpecification → List IndexPointer
pointers n [] = []
pointers n (s ∷ specs) = record { ref = n; spec = s } ∷ pointers (suc n) specs

module _ {W : Type 0} (target : Target W) where
  -- After the collection has been dropped, and after it has been created.
  created : Namespace → ChangeEvent → Option Error × Catalog × W → Option Error × Catalog × W
  created ns change (some e, c, w) = (wrap (some e) "create", c, w)
  created ns change (none, c, w) =
      (none, set_collection_uuid c ns.database ns.collection change.header.collection_uuid, w)

  dropped :
      Namespace
      → ChangeEvent
      → CreateCollectionOptions
      → Option Error × Catalog × W
      → Option Error × Catalog × W
  unfolding created
  dropped ns change opts (some e, c, w) = (wrap (some e) "drop before create", c, w)
  dropped ns change opts (none, c, w) =
      created ns change (create_collection target c ns.database ns.collection opts w)

  unfoldable pub apply_create :
      Namespace → ChangeEvent → CreateCollectionOptions → Catalog → W → Option Error × Catalog × W
  unfolding dropped
  apply_create ns change opts c w =
      dropped ns change opts (drop_collection target c ns.database ns.collection w)

  -- The error is that of the last index.
  unfoldable pub drop_all :
      Namespace → List String → Option Error → Catalog → W → Option Error × Catalog × W
  drop_all ns [] err c w = (err, c, w)
  drop_all ns (name ∷ names) err c w =
      let (err', c', w') = drop_index target c ns.database ns.collection name w in
      drop_all ns names err' c' w'

  modify_images : Namespace → ModifyOpDesc → W → W
  modify_images ns opts w = elim opts.change_stream_pre_and_post_images [
    | none ↦ w
    | some enabled ↦
        (modify_change_stream_pre_and_post_images target ns.database ns.collection enabled w).1
  ]

  validate : Namespace → ModifyOpDesc → W → W
  validate ns opts w =
      if is_some opts.validator || is_some opts.validation_level || is_some opts.validation_action
      then (modify_validation target ns.database ns.collection opts.validator opts.validation_level
          opts.validation_action w).1
      else w

  modify_rest : Namespace → ModifyOpDesc → Catalog → W → Catalog × W
  modify_rest ns opts c w =
      if is_some opts.capped_size || is_some opts.capped_max
      then (
        c,
        (modify_capped_collection target ns.database ns.collection opts.capped_size opts.capped_max
            w).1,
      )
      else if opts.view_on == ""
      then (c, w)
      else if starts_with opts.view_on timeseries_prefix
      then (c, w)
      else (c, (modify_view target ns.database ns.collection opts.view_on opts.pipeline w).1)

  -- doModify; the cases that only log do nothing.
  unfoldable pub do_modify : Namespace → ModifyOpDesc → Catalog → W → Catalog × W
  unfolding modify_images validate modify_rest
  do_modify ns opts c w =
      let w' = validate ns opts (modify_images ns opts w) in
      elim opts.index [
        | some index ↦
            (let (err, c', w2) = modify_index target c ns.database ns.collection index w' in
              (c', w2))
        | none ↦ modify_rest ns opts c w'
      ]

  abbrev named_error : OperationType → Option Error × Catalog × W → Option Error × Catalog × W
  named_error op (err, c, w) = (wrap err (op_text op), c, w)

  abbrev no_error : Catalog × W → Option Error × Catalog × W
  no_error (c, w) = (none, c, w)

  -- By the event that the parser made: one for each of the operation types that Go switches on.
  unfoldable pub apply_event : ChangeEvent → Event → Catalog → W → Option Error × Catalog × W
  unfolding apply_create drop_all do_modify is_timeseries pointers op_text
  apply_event change (create_event opts) c w =
      if is_timeseries opts
      then (none, c, w)
      else named_error create (apply_create change.header.namespace change opts c w)
  apply_event change drop_event c w =
      let ns = change.header.namespace in
      named_error drop (drop_collection target c ns.database ns.collection w)
  apply_event change drop_database_event c w =
      named_error drop_database (drop_each_collection target c change.header.namespace.database w)
  apply_event change (create_indexes_event specs) c w =
      let ns = change.header.namespace in
      no_error (build_indexes target c ns.database ns.collection (pointers 0 specs) w)
  apply_event change (drop_indexes_event names) c w =
      named_error drop_indexes (drop_all change.header.namespace names none c w)
  apply_event change (modify_event opts) c w = no_error (do_modify change.header.namespace opts c w)
  apply_event change (rename_event to) c w =
      let ns = change.header.namespace in
      named_error rename (
        percona_link_mongodb.Catalog.Commands.rename target c ns.database ns.collection to.database
          to.collection w)
  apply_event change (shard_collection_event key unique) c w =
      let ns = change.header.namespace in
      let (err, w') = run_shard_collection target ns.database ns.collection key unique w in
      (wrap err (op_text shard_collection), c, w')
  apply_event change no_event c w = elim change.header.operation_type [
    | invalidate ↦ (some err_invalidate_event, c, w)
    | _ ↦ (none, c, w)
  ]
  apply_event change (insert_event key full) c w = (none, c, w)
  apply_event change (update_event key d) c w = (none, c, w)
  apply_event change (replace_event key full) c w = (none, c, w)
  apply_event change (delete_event key) c w = (none, c, w)
