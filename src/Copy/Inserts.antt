-- ===== src/Copy/Inserts.antt =====
-- insertBatch of pcsm/copy.go. What InsertMany does is a parameter, and so is `bulk_of`, which finds a
-- mongo.BulkWriteException in an error.
pub mod Present
use percona_link_mongodb.Bson.{ℤ, pos, negsuc, Bytes}
use percona_link_mongodb.Prelude.{
  ℕ, zero, suc, Bool, Option, none, some, List, [], ◌∷◌, length, if◌then◌else◌,
}
use percona_link_mongodb.Errors.{Error, cause_of, DriverError}
use percona_link_mongodb.Events.{Namespace}
use percona_link_mongodb.Target.{retried}

-- mongo.BulkWriteException: for each of its write errors, whether it is a duplicate key error.
pub record BulkWriteException : Type 0 where
  pub duplicates : List Bool
  pub has_write_concern_error : Bool

pub record InsertBatchTask : Type 0 where
  pub namespace : Namespace
  pub id : ℕ
  pub size_bytes : ℕ
  pub documents : List Bytes

pub record InsertBatchResult : Type 0 where
  pub id : ℕ
  pub size_bytes : ℕ
  pub count : ℤ
  pub err : Option Error

unfoldable pub inserted : InsertBatchTask → ℤ → InsertBatchResult
inserted task count = record {
  id = task.id;
  size_bytes = task.size_bytes;
  count = count;
  err = none;
}

unfoldable pub not_inserted : InsertBatchTask → Error → InsertBatchResult
not_inserted task e = record { id = task.id; size_bytes = 0; count = pos 0; err = some e }

-- count--
unfoldable pub minus_one : ℤ → ℤ
minus_one (pos zero) = negsuc 0
minus_one (pos (suc n)) = pos n
minus_one (negsuc n) = negsuc (suc n)

-- The loop over the write errors: a duplicate key says that the document is already there.
unfoldable pub tolerate : InsertBatchTask → Error → ℤ → List Bool → InsertBatchResult
unfolding inserted not_inserted minus_one
tolerate task e count [] = inserted task count
tolerate task e count (duplicate ∷ rest) =
    let more = tolerate task e (minus_one count) rest in
    if duplicate then more else not_inserted task e

module _ {W : Type 0} (bulk_of : DriverError → Option BulkWriteException)
    (insert_many : Namespace → List Bytes → W → Option Error × W) where
  unfoldable pub bulk_error : Error → Option BulkWriteException
  unfolding cause_of
  bulk_error e = elim (cause_of e) [ none ↦ none | some d ↦ bulk_of d ]

  unfoldable pub on_bulk_error :
      InsertBatchTask → Error → Option BulkWriteException → InsertBatchResult
  unfolding tolerate not_inserted
  on_bulk_error task e none = not_inserted task e
  on_bulk_error task e (some bulk) =
      if bulk.has_write_concern_error
      then not_inserted task e
      else tolerate task e (pos (length task.documents)) bulk.duplicates

  unfoldable pub insert_result : InsertBatchTask → Option Error → InsertBatchResult
  unfolding on_bulk_error bulk_error inserted
  insert_result task none = inserted task (pos (length task.documents))
  insert_result task (some e) = on_bulk_error task e (bulk_error e)

  unfoldable pub insert_batch : InsertBatchTask → W → InsertBatchResult × W
  unfolding retried insert_result
  insert_batch task w =
      let (err, w') =
        retried "insert batch: id %d, doc count %d" (insert_many task.namespace task.documents) w in
      (insert_result task err, w')
