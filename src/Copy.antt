-- ===== src/Copy.antt =====
-- pcsm/copy.go: the options of the copy manager, and the reader of one segment, which puts the
-- documents of a cursor into batches. A document is its bytes. `next_id` gives the numbers of the
-- batches; what the cursor reads, and its error at the end, are arguments.
pub mod Batches
pub mod Limits
pub mod Segments
pub mod Keys
pub mod Inserts
mod Scenarios
mod Tests
use percona_link_mongodb.Bson.{ℤ, pos, negsuc, Bytes}
use percona_link_mongodb.Prelude.{
  ℕ, ◌+◌, ◌*◌, ◌/◌, min, max, Bool, ◌||◌, Option, none, some, List, [], ◌∷◌, ◌++◌, length, is_empty,
  ltb, nat_eqb, if◌then◌else◌,
}
use percona_link_mongodb.Errors.{Error, wrap}

-- config.MaxBSONSize, MaxWriteBatchSizeBytes, MaxInsertBatchSize, MinCloneSegmentSizeBytes,
-- MaxCloneSegmentSizeBytes, MaxCloneReadBatchSizeBytes
abbrev pub max_bson_size : ℕ
max_bson_size = 16777216

abbrev pub max_write_batch_size_bytes : ℕ
max_write_batch_size_bytes = 47999488

abbrev pub max_insert_batch_size : ℕ
max_insert_batch_size = 10000

abbrev pub min_clone_segment_size_bytes : ℕ
min_clone_segment_size_bytes = 479994880

abbrev pub max_clone_segment_size_bytes : ℕ
max_clone_segment_size_bytes = 68719476736

abbrev pub max_clone_read_batch_size_bytes : ℕ
max_clone_read_batch_size_bytes = 2147483647

pub record CopyManagerOptions : Type 0 where
  pub num_read_workers : ℤ
  pub num_insert_workers : ℤ
  pub segment_size_bytes : ℤ
  pub read_batch_size_bytes : ℤ

-- The options as the copy manager keeps them; a segment size of zero is config.AutoCloneSegmentSize.
pub record Settings : Type 0 where
  pub read_workers : ℕ
  pub insert_workers : ℕ
  pub segment_size : ℕ
  pub read_batch_size : ℕ

-- A number of workers below 1 stands for the default.
unfoldable pub workers : ℕ → ℤ → ℕ
workers default (negsuc n) = default
workers default (pos n) = if nat_eqb n 0 then default else n

unfoldable pub segment_setting : ℤ → ℕ
segment_setting (negsuc n) = 0
segment_setting (pos n) =
    if nat_eqb n 0 then 0 else min (max n min_clone_segment_size_bytes) max_clone_segment_size_bytes

unfoldable pub read_batch_setting : ℤ → ℕ
read_batch_setting (negsuc n) = max_bson_size
read_batch_setting (pos n) =
    if nat_eqb n 0
    then max_write_batch_size_bytes
    else min (max n max_bson_size) max_clone_read_batch_size_bytes

-- The first part of NewCopyManager; `cpus` is runtime.NumCPU().
unfoldable pub copy_settings : ℕ → CopyManagerOptions → Settings
unfolding workers segment_setting read_batch_setting
copy_settings cpus options = record {
  read_workers = workers (max (cpus / 4) 1) options.num_read_workers;
  insert_workers = workers (cpus * 2) options.num_insert_workers;
  segment_size = segment_setting options.segment_size_bytes;
  read_batch_size = read_batch_setting options.read_batch_size_bytes;
}

pub record ReadBatchResult : Type 0 where
  pub id : ℕ
  pub documents : List Bytes
  pub size_bytes : ℕ

-- The variables of readSegment, with what it has sent and the state of `next_id`.
pub record Reading (S : Type 0) : Type 0 where
  pub batch_id : ℕ
  pub documents : List Bytes
  pub size_bytes : ℕ
  pub sent : List ReadBatchResult
  pub ids : S

module _ {S : Type 0} (next_id : S → ℕ × S) where
  abbrev pub batch_of : Reading S → ReadBatchResult
  batch_of r = record { id = r.batch_id; documents = r.documents; size_bytes = r.size_bytes }

  unfoldable pub begin_reading : S → Reading S
  begin_reading ids =
      let (id, ids') = next_id ids in
      record { batch_id = id; documents = []; size_bytes = 0; sent = []; ids = ids' }

  unfoldable pub send_batch : Reading S → Reading S
  send_batch r =
      let (id, ids') = next_id r.ids in
      record {
        batch_id = id;
        documents = [];
        size_bytes = 0;
        sent = r.sent ++ (batch_of r ∷ []);
        ids = ids';
      }

  unfoldable pub is_over : Bytes → Reading S → Bool
  is_over document r =
      ltb max_write_batch_size_bytes (r.size_bytes + length document)
      || nat_eqb (length r.documents) max_insert_batch_size

  unfoldable pub take_document : Bytes → Reading S → Reading S
  take_document document r = record r {
    documents = r.documents ++ (document ∷ []);
    size_bytes = r.size_bytes + length document;
  }

  -- The body of the loop.
  unfoldable pub read_document : Bytes → Reading S → Reading S
  unfolding send_batch is_over take_document
  read_document document r = take_document document (if is_over document r then send_batch r else r)

  unfoldable pub read_documents : List Bytes → Reading S → Reading S
  unfolding read_document
  read_documents [] r = r
  read_documents (document ∷ documents) r = read_documents documents (read_document document r)

  -- After the loop, with the error of the cursor.
  unfoldable pub end_reading : Option Error → Reading S → Option Error × List ReadBatchResult
  end_reading (some e) r = (wrap (some e) "getMore", r.sent)
  end_reading none r = (none, if is_empty r.documents then r.sent else r.sent ++ (batch_of r ∷ []))

  unfoldable pub read_segment : List Bytes → Option Error → S → Option Error × List ReadBatchResult
  unfolding begin_reading read_documents end_reading
  read_segment documents err ids = end_reading err (read_documents documents (begin_reading ids))
