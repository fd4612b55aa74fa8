-- ===== src/Bulk.antt =====
-- pcsm/bulk.go: the two implementations of `bulkWrite`. `clientBulkWrite` keeps one list of writes;
-- `collectionBulkWrite` keeps a list for each namespace. The update operators are in the child.
-- `bulkWrite` as an interface value is the type `Bulk`, with a case for each implementation.
pub mod Update
pub mod Queue
pub mod Flush
pub mod Fields
mod Tests
use percona_link_mongodb.Prelude.Maps.{Assoc, lookup, insert}
use percona_link_mongodb.Bson.{Bytes, Value, Doc, doc, raw, fields_of}
use percona_link_mongodb.Prelude.{
  ℕ, suc, ◌+◌, Bool, true, false, Option, none, some, List, [], ◌∷◌, ◌++◌, length, nat_eqb, leb,
  ltb, if◌then◌else◌,
}
use percona_link_mongodb.Errors.{Error, wrap}
use percona_link_mongodb.Errors.Retry.{run_with_retry, default_max_retries}
use percona_link_mongodb.Events.{Namespace, namespace_eq, Event, UpdateDescription}
use Update.{collect_update_ops}

-- mongo.ReplaceOneModel (with its Upsert), UpdateOneModel and DeleteOneModel, and their Client
-- variants.
pub data WriteModel : Type 0 where
  replace_one : Value → Bytes → Bool → WriteModel
  update_one : Value → Value → WriteModel
  delete_one : Value → WriteModel

-- The models that Insert, Update, Replace and Delete build from an event.
unfoldable pub insert_model : Doc → Bytes → WriteModel
insert_model key full = replace_one (doc (fields_of key)) full true

unfoldable pub update_model : Doc → UpdateDescription → WriteModel
update_model key d = update_one (doc (fields_of key)) (collect_update_ops d)

unfoldable pub replace_model : Bytes → Bytes → WriteModel
replace_model key full = replace_one (raw key) full false

unfoldable pub delete_model : Doc → WriteModel
delete_model key = delete_one (doc (fields_of key))

pub record ClientBulk : Type 0 where
  pub writes : List (Namespace × WriteModel)
  pub cap : ℕ

pub record CollectionBulk : Type 0 where
  pub max_ops : ℕ
  pub count : ℕ
  pub writes : Assoc Namespace (List WriteModel)

pub data Bulk : Type 0 where
  client : ClientBulk → Bulk
  collection : CollectionBulk → Bulk

unfoldable pub new_client_bulk_write : ℕ → Bulk
new_client_bulk_write size = client (record { writes = []; cap = size })

unfoldable pub new_collection_bulk_write : ℕ → Bulk
new_collection_bulk_write size = collection (record { max_ops = size; count = 0; writes = [] })

unfoldable pub full : Bulk → Bool
full (client o) = nat_eqb (length o.writes) o.cap
full (collection o) = nat_eqb o.count o.max_ops

unfoldable pub empty : Bulk → Bool
empty (client o) = nat_eqb (length o.writes) 0
empty (collection o) = nat_eqb o.count 0

-- `o.writes[ns]`, with nil for a missing key.
unfoldable pub ops_of : Option (List WriteModel) → List WriteModel
ops_of none = []
ops_of (some ops) = ops

-- The capacity after Go's append: it stays while there is room; `grow` is the runtime's choice.
unfoldable pub cap_after_append : (ℕ → ℕ) → ℕ → ℕ → ℕ
cap_after_append grow size cap = if ltb size cap then cap else grow size

unfoldable pub add : (ℕ → ℕ) → Namespace → WriteModel → Bulk → Bulk
unfolding cap_after_append ops_of
add grow ns m (client o) = client (record {
  writes = o.writes ++ ((ns, m) ∷ []);
  cap = cap_after_append grow (length o.writes) o.cap;
})
add grow ns m (collection o) = collection (record o {
  writes = insert ns (ops_of (lookup ns o.writes) ++ (m ∷ [])) o.writes;
  count = o.count + 1;
})

-- What the driver does for `m.BulkWrite` (all namespaces) and `mcoll.BulkWrite` (one namespace).
pub record BulkTarget (W : Type 0) : Type 0 where
  pub client_bulk_write : List (Namespace × WriteModel) → W → Option Error × W
  pub coll_bulk_write : Namespace → List WriteModel → W → Option Error × W

-- topo.DefaultRetryInterval, in seconds
abbrev pub default_retry_interval : ℕ
default_retry_interval = 5

module _ {W : Type 0} (target : BulkTarget W) where
  -- The call of the driver with its error wrapped, as RunWithRetry is given it.
  client_call : List (Namespace × WriteModel) → W → Option Error × W
  client_call writes w =
      let (err, w') = target.client_bulk_write writes w in (wrap err "bulk write", w')

  coll_call : Namespace → List WriteModel → W → Option Error × W
  coll_call ns ops w =
      let (err, w') = target.coll_bulk_write ns ops w in (wrap err "bulk write %q", w')

  unfoldable pub client_write : List (Namespace × WriteModel) → W → Option Error × W
  unfolding client_call run_with_retry
  client_write writes =
      run_with_retry (client_call writes) default_retry_interval default_max_retries

  unfoldable pub coll_write : Namespace → List WriteModel → W → Option Error × W
  unfolding coll_call run_with_retry
  coll_write ns ops = run_with_retry (coll_call ns ops) default_retry_interval default_max_retries

  -- The namespaces are written one after the other, in the order of the map; the first error stops
  -- the rest (the program runs several at once, and each of them writes one namespace).
  unfoldable pub coll_loop : Assoc Namespace (List WriteModel) → ℕ → W → Option Error × ℕ × W
  coll_loop [] total w = (none, total, w)
  coll_loop ((ns, ops) ∷ rest) total w =
      let (err, w') = coll_write ns ops w in
      elim err [ some e ↦ (some e, total, w') | none ↦ coll_loop rest (total + length ops) w' ]

  unfoldable pub client_done : ClientBulk → Option Error → W → Option Error × ℕ × Bulk × W
  client_done o (some e) w = (some e, 0, client o, w)
  client_done o none w = (none, length o.writes, client (record o { writes = [] }), w)

  unfoldable pub coll_done : CollectionBulk → Option Error → ℕ → W → Option Error × ℕ × Bulk × W
  coll_done o (some e) total w = (some e, 0, collection o, w)
  coll_done o none total w = (none, total, collection (record o { writes = []; count = 0 }), w)

  -- Do: the error, or the number of writes; what the queue is afterwards; the target.
  unfoldable pub do_bulk : Bulk → W → Option Error × ℕ × Bulk × W
  unfolding client_done coll_done
  do_bulk (client o) w = let (err, w') = client_write o.writes w in client_done o err w'
  do_bulk (collection o) w =
      let (err, total, w') = coll_loop o.writes 0 w in coll_done o err total w'
