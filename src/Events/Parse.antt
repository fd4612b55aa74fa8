-- ===== src/Events/Parse.antt =====
-- parseChangeEvent of pcsm/events.go. bson.Unmarshal is the driver's: `Decoder` has what it makes of
-- the document for each type that it is given, `none` where it fails.
pub mod Typed
use percona_link_mongodb.Bson.{Bytes, Doc}
use percona_link_mongodb.Prelude.{Option, none, some, List, String, Bool}
use percona_link_mongodb.Errors.{Error, new, sentinel, wrapped}
use percona_link_mongodb.Events.{
  OperationType, invalidate, drop_database, create, rename, modify, drop, create_indexes,
  drop_indexes, insert, update, replace, delete, shard_collection, reshard_collection,
  refine_collection_shard_key, tick, unknown, EventHeader, Event, drop_event, drop_database_event,
  no_event, ChangeEvent, insert_event, update_event, replace_event, delete_event, create_event,
  create_indexes_event, drop_indexes_event, modify_event, rename_event, shard_collection_event,
  UpdateDescription, CreateCollectionOptions, IndexSpecification, ModifyOpDesc, Namespace,
}

abbrev pub err_invalidate_event : Error
err_invalidate_event = sentinel "invalidate"

abbrev pub err_unsupported : Error
err_unsupported = new "unsupported operation"

-- ParsingError{cause: err}
abbrev pub parsing_error : Error
parsing_error = wrapped (new "bson") "parsing event"

pub data ParseResult : Type 0 where
  parsed : ChangeEvent → ParseResult
  failed : Error → ParseResult

-- bson.Unmarshal of the document into the header, and into the Go type of each event.
pub record Decoder : Type 0 where
  pub read_header : Bytes → Option EventHeader
  pub read_insert : Bytes → Option (Doc × Bytes)
  pub read_update : Bytes → Option (Doc × UpdateDescription)
  pub read_replace : Bytes → Option (Bytes × Bytes)
  pub read_delete : Bytes → Option Doc
  pub read_create : Bytes → Option CreateCollectionOptions
  pub read_create_indexes : Bytes → Option (List IndexSpecification)
  pub read_drop_indexes : Bytes → Option (List String)
  pub read_modify : Bytes → Option ModifyOpDesc
  pub read_rename : Bytes → Option Namespace
  pub read_shard_collection : Bytes → Option (Doc × Bool)

-- An event of one Go type, once Unmarshal has returned.
unfoldable pub parse_as : {A : Type 0} → (A → Event) → EventHeader → Option A → ParseResult
parse_as make h none = failed parsing_error
parse_as make h (some a) = parsed (record { header = h; event = make a })

module _ (decoder : Decoder) where
  -- The switch on the type of the operation.
  unfoldable pub parse_event : Bytes → EventHeader → OperationType → ParseResult
  unfolding parse_as
  parse_event raw h insert = parse_as (λ p. insert_event p.0 p.1) h (decoder.read_insert raw)
  parse_event raw h update = parse_as (λ p. update_event p.0 p.1) h (decoder.read_update raw)
  parse_event raw h replace = parse_as (λ p. replace_event p.0 p.1) h (decoder.read_replace raw)
  parse_event raw h delete = parse_as delete_event h (decoder.read_delete raw)
  parse_event raw h create = parse_as create_event h (decoder.read_create raw)
  parse_event raw h create_indexes =
      parse_as create_indexes_event h (decoder.read_create_indexes raw)
  parse_event raw h drop_indexes = parse_as drop_indexes_event h (decoder.read_drop_indexes raw)
  parse_event raw h modify = parse_as modify_event h (decoder.read_modify raw)
  parse_event raw h rename = parse_as rename_event h (decoder.read_rename raw)
  parse_event raw h shard_collection =
      parse_as (λ p. shard_collection_event p.0 p.1) h (decoder.read_shard_collection raw)
  parse_event raw h drop = parsed (record { header = h; event = drop_event })
  parse_event raw h drop_database = parsed (record { header = h; event = drop_database_event })
  parse_event raw h reshard_collection = failed err_unsupported
  parse_event raw h refine_collection_shard_key = failed err_unsupported
  parse_event raw h invalidate = failed err_invalidate_event
  parse_event raw h tick = parsed (record { header = h; event = no_event })
  parse_event raw h (unknown text) = parsed (record { header = h; event = no_event })

  parse_header : Bytes → Option EventHeader → ParseResult
  unfolding parse_event
  parse_header raw none = failed parsing_error
  parse_header raw (some h) = parse_event raw h h.operation_type

  unfoldable pub parse_change_event : Bytes → ParseResult
  unfolding parse_header
  parse_change_event raw = parse_header raw (decoder.read_header raw)
