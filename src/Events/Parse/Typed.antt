-- ===== src/Events/Parse/Typed.antt =====
-- The events that parseChangeEvent of pcsm/events.go lets through.
use mathlib.Core.Path.{subst}
use percona_link_mongodb.Bson.{Bytes}
use percona_link_mongodb.Prelude.{◌≡◌, refl, sym, ap, ◌∙◌, Option, none, some, arith}
use percona_link_mongodb.Events.{
  OperationType, invalidate, drop_database, create, rename, modify, drop, create_indexes,
  drop_indexes, insert, update, replace, delete, shard_collection, reshard_collection,
  refine_collection_shard_key, tick, unknown, EventHeader, Event, insert_event, update_event,
  replace_event, delete_event, create_event, drop_event, drop_database_event, create_indexes_event,
  drop_indexes_event, modify_event, rename_event, shard_collection_event, no_event, ChangeEvent,
}
use percona_link_mongodb.Events.Parse.{
  parsed, Decoder, parse_as, parse_event, parse_header, parse_change_event,
}

-- The Go types of the payloads.
pub data Payload : Type 0 where
  of_insert of_update of_replace of_delete of_create of_drop of_drop_database : Payload
  of_create_indexes of_drop_indexes of_modify of_rename of_shard_collection empty_payload : Payload

unfoldable pub payload_of : Event → Payload
payload_of (insert_event key document) = of_insert
payload_of (update_event key description) = of_update
payload_of (replace_event key document) = of_replace
payload_of (delete_event key) = of_delete
payload_of (create_event options) = of_create
payload_of drop_event = of_drop
payload_of drop_database_event = of_drop_database
payload_of (create_indexes_event indexes) = of_create_indexes
payload_of (drop_indexes_event names) = of_drop_indexes
payload_of (modify_event description) = of_modify
payload_of (rename_event ns) = of_rename
payload_of (shard_collection_event key unique) = of_shard_collection
payload_of no_event = empty_payload

-- The payload that an operation has, none for an operation that is refused.
unfoldable pub payload_for : OperationType → Option Payload
payload_for insert = some of_insert
payload_for update = some of_update
payload_for replace = some of_replace
payload_for delete = some of_delete
payload_for create = some of_create
payload_for drop = some of_drop
payload_for drop_database = some of_drop_database
payload_for create_indexes = some of_create_indexes
payload_for drop_indexes = some of_drop_indexes
payload_for modify = some of_modify
payload_for rename = some of_rename
payload_for shard_collection = some of_shard_collection
payload_for reshard_collection = none
payload_for refine_collection_shard_key = none
payload_for invalidate = none
payload_for tick = some empty_payload
payload_for (unknown text) = some empty_payload

parsed-injective : (a b : ChangeEvent) → parsed a ≡ parsed b → a ≡ b
parsed-injective a b h = cc h

-- An event with the header `h` and the payload that its operation has.
abbrev Fits : EventHeader → OperationType → ChangeEvent → Type 0
Fits h op change = (change.header ≡ h) × (payload_for op ≡ some (payload_of change.event))

made-Fits :
    (h : EventHeader) (op : OperationType) (e : Event) (change : ChangeEvent)
    → payload_for op ≡ some (payload_of e)
    → parsed (record { header = h; event = e }) ≡ parsed change
    → Fits h op change
made-Fits h op e change payload p =
    subst (λ x. Fits h op x) (parsed-injective (record { header = h; event = e }) change p)
      (refl, payload)

parse_as-Fits :
    {A : Type 0} (make : A → Event) (h : EventHeader) (op : OperationType) (o : Option A)
    (change : ChangeEvent)
    → ((a : A) → payload_for op ≡ some (payload_of (make a)))
    → parse_as make h o ≡ parsed change
    → Fits h op change
unfolding parse_as
parse_as-Fits make h op none change typed p = ground arith
parse_as-Fits make h op (some a) change typed p = made-Fits h op (make a) change (typed a) p

module _ (decoder : Decoder) where
  -- A parsed event has the header that was read, and the payload that its operation has.
  pub record IsTyped (raw : Bytes) (change : ChangeEvent) : Type 0 where
    pub header : decoder.read_header raw ≡ some change.header
    pub payload : payload_for change.header.operation_type ≡ some (payload_of change.event)

  parse_event-Fits :
      (raw : Bytes) (h : EventHeader) (op : OperationType) (change : ChangeEvent)
      → parse_event decoder raw h op ≡ parsed change
      → Fits h op change
  unfolding parse_event payload_for payload_of
  parse_event-Fits raw h insert change p =
      parse_as-Fits (λ x. insert_event x.0 x.1) h insert _ change (λ a. refl) p
  parse_event-Fits raw h update change p =
      parse_as-Fits (λ x. update_event x.0 x.1) h update _ change (λ a. refl) p
  parse_event-Fits raw h replace change p =
      parse_as-Fits (λ x. replace_event x.0 x.1) h replace _ change (λ a. refl) p
  parse_event-Fits raw h delete change p =
      parse_as-Fits delete_event h delete _ change (λ a. refl) p
  parse_event-Fits raw h create change p =
      parse_as-Fits create_event h create _ change (λ a. refl) p
  parse_event-Fits raw h create_indexes change p =
      parse_as-Fits create_indexes_event h create_indexes _ change (λ a. refl) p
  parse_event-Fits raw h drop_indexes change p =
      parse_as-Fits drop_indexes_event h drop_indexes _ change (λ a. refl) p
  parse_event-Fits raw h modify change p =
      parse_as-Fits modify_event h modify _ change (λ a. refl) p
  parse_event-Fits raw h rename change p =
      parse_as-Fits rename_event h rename _ change (λ a. refl) p
  parse_event-Fits raw h shard_collection change p =
      parse_as-Fits (λ x. shard_collection_event x.0 x.1) h shard_collection _ change (λ a. refl) p
  parse_event-Fits raw h drop change p = made-Fits h drop drop_event change refl p
  parse_event-Fits raw h drop_database change p =
      made-Fits h drop_database drop_database_event change refl p
  parse_event-Fits raw h reshard_collection change p = ground arith
  parse_event-Fits raw h refine_collection_shard_key change p = ground arith
  parse_event-Fits raw h invalidate change p = ground arith
  parse_event-Fits raw h tick change p = made-Fits h tick no_event change refl p
  parse_event-Fits raw h (unknown text) change p = made-Fits h (unknown text) no_event change refl p

  header-IsTyped :
      (raw : Bytes) (o : Option EventHeader) (change : ChangeEvent)
      → decoder.read_header raw ≡ o
      → parse_header decoder raw o ≡ parsed change
      → IsTyped raw change
  unfolding parse_header
  header-IsTyped raw none change read p = ground arith
  header-IsTyped raw (some h) change read p =
      let (same, payload) = parse_event-Fits raw h h.operation_type change p in
      record {
        header = read ∙ ap (λ x. some x) (sym same);
        payload =
            subst
              (λ (x : EventHeader). payload_for x.operation_type ≡ some (payload_of change.event))
              (sym same) payload;
      }

  -- Every event that parseChangeEvent lets through has the header of its document and a payload of
  -- the Go type that belongs to its operation; invalidate and the two operations on shard keys that
  -- are not supported never get through.
  pub parse_change_event-IsTyped :
      (raw : Bytes) (change : ChangeEvent)
      → parse_change_event decoder raw ≡ parsed change
      → IsTyped raw change
  unfolding parse_change_event
  parse_change_event-IsTyped raw change p =
      header-IsTyped raw (decoder.read_header raw) change refl p
