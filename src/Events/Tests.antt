-- ===== src/Events/Tests.antt =====
-- Witnesses of the parser of events.
use percona_link_mongodb.Bson.{zero_timestamp}
use percona_link_mongodb.Prelude.{refl, none, some, [], ◌∷◌}
use percona_link_mongodb.Events.{insert, insert_event, EventHeader}
use percona_link_mongodb.Events.Parse.{Decoder, parse_event, parse_change_event}
use percona_link_mongodb.Events.Parse.Typed.{IsTyped, parse_change_event-IsTyped}

abbrev header : EventHeader
header = record {
  operation_type = insert;
  namespace = record { database = "db"; collection = "a" };
  collection_uuid = some (1 ∷ []);
  txn_number = none;
  lsid = [];
  id = 9 ∷ [];
  cluster_time = zero_timestamp;
}

-- A decoder that reads inserts alone.
abbrev decoder : Decoder
decoder = record {
  read_header = λ raw. some header;
  read_insert = λ raw. some ([], raw);
  read_update = λ raw. none;
  read_replace = λ raw. none;
  read_delete = λ raw. none;
  read_create = λ raw. none;
  read_create_indexes = λ raw. none;
  read_drop_indexes = λ raw. none;
  read_modify = λ raw. none;
  read_rename = λ raw. none;
  read_shard_collection = λ raw. none;
}

parse_change_event-IsTyped_example :
    IsTyped decoder (5 ∷ []) (record { header = header; event = insert_event [] (5 ∷ []) })
unfolding parse_change_event parse_event
parse_change_event-IsTyped_example =
    parse_change_event-IsTyped decoder (5 ∷ [])
      (record { header = header; event = insert_event [] (5 ∷ []) }) refl
