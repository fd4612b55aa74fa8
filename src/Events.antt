-- ===== src/Events.antt =====
-- pcsm/events.go: the change events, their headers, and the parser of raw change stream documents.
pub mod Parse
mod Tests
use percona_link_mongodb.Bson.{ℤ, Bytes, Value, Doc, Timestamp}
use percona_link_mongodb.Prelude.{
  ℕ, ◌≡◌, ◌↔◌, refl, String, Bool, true, false, not, ◌&&◌, Option, none, some, List, [], ◌∷◌, ◌++◌,
  arith, Eq, ◌==◌, nat_eq, string_eq, list_eq, list_eqb, is_some, if◌then◌else◌,
}

-- `unknown` stands for any other text; `tick` is the pseudo event "@tick" of pcsm/repl.go.
pub data OperationType : Type 0 where
  invalidate drop_database create rename modify drop create_indexes drop_indexes : OperationType
  insert update replace delete : OperationType
  shard_collection reshard_collection refine_collection_shard_key tick : OperationType
  unknown : String → OperationType

pub record Namespace : Type 0 where
  pub database : String
  pub collection : String

abbrev pub namespace_eqb : Namespace → Namespace → Bool
namespace_eqb a b = (a.database == b.database) && (a.collection == b.collection)

pub namespace_eqb_iff : (a b : Namespace) → (namespace_eqb a b ≡ true) ↔ (a ≡ b)
namespace_eqb_iff a b =
    ground
      (arith, string_eq.eqb_iff a.database b.database, string_eq.eqb_iff a.collection b.collection)

instance abbrev pub namespace_eq : Eq Namespace
namespace_eq = record { eqb = namespace_eqb; eqb_iff = namespace_eqb_iff }

-- The header: the fields that every event has. A nil pointer is `none`.
pub record EventHeader : Type 0 where
  pub operation_type : OperationType
  pub namespace : Namespace
  pub collection_uuid : Option Bytes
  pub txn_number : Option ℕ
  pub lsid : Bytes
  pub id : Bytes
  pub cluster_time : Timestamp

unfoldable pub is_transaction : EventHeader → Bool
is_transaction e = is_some e.txn_number

unfoldable pub same_txn : Option ℕ → Option ℕ → Bool → Bool
same_txn none other same_lsid = false
same_txn (some n) none same_lsid = false
same_txn (some n) (some m) same_lsid = (n == m) && same_lsid

unfoldable pub is_same_transaction : EventHeader → EventHeader → Bool
unfolding same_txn
is_same_transaction e other = same_txn e.txn_number other.txn_number (e.lsid == other.lsid)

unfoldable pub is_view : EventHeader → Bool
is_view e = not (is_some e.collection_uuid)

pub record CreateCollectionOptions : Type 0 where
  pub clustered_index : Option Doc
  pub capped : Option Bool
  pub size : Option ℤ
  pub max_docs : Option ℤ
  pub view_on : String
  pub pipeline : List Value
  pub collation : Option Bytes
  pub change_stream_pre_and_post_images : Option Bool
  pub validator : Option Bytes
  pub validation_level : Option String
  pub validation_action : Option String
  pub storage_engine : Option Bytes
  pub index_option_defaults : Option Bytes

pub record IndexSpecification : Type 0 where
  pub name : String
  pub keys_document : Bytes
  pub sparse : Option Bool
  pub hidden : Option Bool
  pub unique : Option Bool
  pub prepare_unique : Option Bool
  pub clustered : Option Bool
  pub expire_after_seconds : Option ℤ
  pub collation : Option Bytes
  pub others : Doc  -- the fields that the program only passes on

unfoldable pub is_clustered : IndexSpecification → Bool
is_clustered s = elim s.clustered [ none ↦ false | some b ↦ b ]

pub record ModifyIndexOption : Type 0 where
  pub name : String
  pub hidden : Option Bool
  pub unique : Option Bool
  pub prepare_unique : Option Bool
  pub expire_after_seconds : Option ℤ

pub record ModifyOpDesc : Type 0 where
  pub index : Option ModifyIndexOption
  pub capped_size : Option ℤ
  pub capped_max : Option ℤ
  pub view_on : String
  pub pipeline : Value
  pub expire_after_seconds : Option ℤ
  pub change_stream_pre_and_post_images : Option Bool
  pub validator : Option Bytes
  pub validation_level : Option String
  pub validation_action : Option String

pub record TruncatedArray : Type 0 where
  pub field : String
  pub new_size : ℤ

-- `disambiguated_paths` is the decoded document whose values are all arrays.
pub record UpdateDescription : Type 0 where
  pub disambiguated_paths : List (String × List Value)
  pub removed_fields : List String
  pub truncated_arrays : List TruncatedArray
  pub updated_fields : Doc

pub data Event : Type 0 where
  insert_event : Doc → Bytes → Event  -- DocumentKey, FullDocument
  update_event : Doc → UpdateDescription → Event  -- DocumentKey, UpdateDescription
  replace_event : Bytes → Bytes → Event  -- DocumentKey, FullDocument
  delete_event : Doc → Event  -- DocumentKey
  create_event : CreateCollectionOptions → Event
  drop_event drop_database_event : Event
  create_indexes_event : List IndexSpecification → Event
  drop_indexes_event : List String → Event
  modify_event : ModifyOpDesc → Event
  rename_event : Namespace → Event
  shard_collection_event : Doc → Bool → Event  -- ShardKey, Unique
  no_event : Event

pub record ChangeEvent : Type 0 where
  pub header : EventHeader
  pub open header use *
  pub event : Event
