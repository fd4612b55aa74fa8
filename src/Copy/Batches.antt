-- ===== src/Copy/Batches.antt =====
-- The batches that readSegment of pcsm/copy.go sends.
use mathlib.Core.Path.{subst}
use mathlib.Core.List.{append_assoc, append-nil}
use percona_link_mongodb.Bson.{Bytes}
use percona_link_mongodb.Prelude.{
  ℕ, ◌+◌, ◌≤◌, ◌≡◌, refl, sym, ◌∙◌, ap, true, false, Option, none, some, List, [], ◌∷◌, ◌++◌,
  length, length-append, is_empty, All, arith, if-cases, Bool-cases, inl, inr,
}
use percona_link_mongodb.Errors.{Error, wrap}
use percona_link_mongodb.Copy.{
  ReadBatchResult, Reading, max_bson_size, max_write_batch_size_bytes, max_insert_batch_size,
  batch_of, begin_reading, send_batch, is_over, take_document, read_document, read_documents,
  end_reading, read_segment,
}

unfoldable pub total_bytes : List Bytes → ℕ
total_bytes [] = 0
total_bytes (d ∷ ds) = length d + total_bytes ds

-- A batch that may be inserted: it is not empty, says its size, and keeps both limits.
pub record IsBatch (b : ReadBatchResult) : Type 0 where
  pub not_empty : is_empty b.documents ≡ false
  pub size : b.size_bytes ≡ total_bytes b.documents
  pub few_bytes : b.size_bytes ≤ max_write_batch_size_bytes
  pub few_documents : length b.documents ≤ max_insert_batch_size

-- The documents of batches, in order.
abbrev pub documents_of : List ReadBatchResult → List Bytes
documents_of [] = []
documents_of (b ∷ bs) = b.documents ++ documents_of bs

documents_of-append :
    (bs : List ReadBatchResult) (b : ReadBatchResult)
    → documents_of (bs ++ b ∷ []) ≡ documents_of bs ++ b.documents
documents_of-append [] b = append-nil b.documents
documents_of-append (a ∷ bs) b =
    ap (λ ds. a.documents ++ ds) (documents_of-append bs b)
    ∙ sym (append_assoc a.documents (documents_of bs) b.documents)

All-append :
    (bs : List ReadBatchResult) (b : ReadBatchResult)
    → All IsBatch bs
    → IsBatch b
    → All IsBatch (bs ++ b ∷ [])
All-append [] b h k = (k, tt)
All-append (a ∷ bs) b (h, hs) k = (h, All-append bs b hs k)

total_bytes-append :
    (ds : List Bytes) (d : Bytes) → total_bytes (ds ++ d ∷ []) ≡ total_bytes ds + length d
unfolding total_bytes
total_bytes-append [] d = omega arith
total_bytes-append (e ∷ ds) d = omega (arith, total_bytes-append ds d)

nothing_held : (ds : List Bytes) → is_empty ds ≡ true → (total_bytes ds ≡ 0) × (length ds ≡ 0)
unfolding total_bytes
nothing_held [] h = (refl, refl)
nothing_held (d ∷ ds) h = ground arith

module _ {S : Type 0} (next_id : S → ℕ × S) where
  -- Between two documents: what was sent and what is held is what was read, in order.
  record IsReading (read : List Bytes) (r : Reading S) : Type 0 where
    all_read : documents_of r.sent ++ r.documents ≡ read
    batches : All IsBatch r.sent
    size : r.size_bytes ≡ total_bytes r.documents
    few_bytes : r.size_bytes ≤ max_write_batch_size_bytes
    few_documents : length r.documents ≤ max_insert_batch_size

  send_batch-IsReading :
      (read : List Bytes) (r : Reading S)
      → IsReading read r
      → is_empty r.documents ≡ false
      → IsReading read (send_batch next_id r)
  unfolding send_batch total_bytes
  send_batch-IsReading read r h some_held = record {
    all_read =
        append-nil (documents_of (r.sent ++ batch_of next_id r ∷ []))
        ∙ documents_of-append r.sent (batch_of next_id r)
        ∙ h.all_read;
    batches = All-append r.sent (batch_of next_id r) h.batches (record {
      not_empty = some_held;
      size = h.size;
      few_bytes = h.few_bytes;
      few_documents = h.few_documents;
    });
    size = refl;
    few_bytes = omega arith;
    few_documents = omega arith;
  }

  take_document-IsReading :
      (read : List Bytes) (document : Bytes) (r : Reading S)
      → IsReading read r
      → is_over next_id document r ≡ false
      → IsReading (read ++ document ∷ []) (take_document next_id document r)
  unfolding take_document is_over
  take_document-IsReading read document r h room = record {
    all_read =
        sym (append_assoc (documents_of r.sent) r.documents (document ∷ []))
        ∙ ap (λ ds. ds ++ document ∷ []) h.all_read;
    batches = h.batches;
    size = omega (arith, total_bytes-append r.documents document, h.size);
    few_bytes = ground (arith, room);
    few_documents =
        ground (arith, room, h.few_documents, length-append r.documents (document ∷ []));
  }

  over-not_empty :
      (read : List Bytes) (document : Bytes) (r : Reading S)
      → IsReading read r
      → length document ≤ max_bson_size
      → is_over next_id document r ≡ true
      → is_empty r.documents ≡ false
  unfolding is_over total_bytes
  over-not_empty read document r h small over = elim (Bool-cases (is_empty r.documents)) [
    | inr e ↦ e
    | inl e ↦ ground (arith, nothing_held r.documents e, h.size, over, small)
  ]

  sent-not_over :
      (document : Bytes) (r : Reading S)
      → length document ≤ max_bson_size
      → is_over next_id document (send_batch next_id r) ≡ false
  unfolding is_over send_batch
  sent-not_over document r small = ground arith

  read_document-IsReading :
      (read : List Bytes) (document : Bytes) (r : Reading S)
      → IsReading read r
      → length document ≤ max_bson_size
      → IsReading (read ++ document ∷ []) (read_document next_id document r)
  unfolding read_document
  read_document-IsReading read document r h small =
      if-cases (λ r'. IsReading (read ++ document ∷ []) (take_document next_id document r'))
        (is_over next_id document r)
        (λ over.
          take_document-IsReading read document (send_batch next_id r)
            (send_batch-IsReading read r h (over-not_empty read document r h small over))
            (sent-not_over document r small))
        (λ room. take_document-IsReading read document r h room)

  read_documents-IsReading :
      (read documents : List Bytes) (r : Reading S)
      → IsReading read r
      → All (λ d. length d ≤ max_bson_size) documents
      → IsReading (read ++ documents) (read_documents next_id documents r)
  unfolding read_documents
  read_documents-IsReading read [] r h small =
      subst (λ ds. IsReading ds r) (sym (append-nil read)) h
  read_documents-IsReading read (d ∷ ds) r h (small, rest) =
      subst (λ ds'. IsReading ds' (read_documents next_id ds (read_document next_id d r)))
        (append_assoc read (d ∷ []) ds)
        (read_documents-IsReading (read ++ d ∷ []) ds (read_document next_id d r)
          (read_document-IsReading read d r h small) rest)

  begin-IsReading : (ids : S) → IsReading [] (begin_reading next_id ids)
  unfolding begin_reading total_bytes
  begin-IsReading ids = record {
    all_read = refl;
    batches = tt;
    size = refl;
    few_bytes = omega arith;
    few_documents = omega arith;
  }

  -- What is sent of the documents, by the error that readSegment returns.
  abbrev pub ReadAs : List Bytes → Option Error × List ReadBatchResult → Type 0
  ReadAs documents (none, batches) = (documents_of batches ≡ documents) × All IsBatch batches
  ReadAs documents (some e, batches) =
      ((rest : List Bytes) × (documents_of batches ++ rest ≡ documents)) × All IsBatch batches

  held_none : (ds : List Bytes) → is_empty ds ≡ true → ds ≡ []
  held_none [] h = refl
  held_none (d ∷ ds) h = ground arith

  end_reading-ReadAs :
      (documents : List Bytes) (err : Option Error) (r : Reading S)
      → IsReading documents r
      → ReadAs documents (end_reading next_id err r)
  unfolding end_reading wrap
  end_reading-ReadAs documents (some e) r h = ((r.documents, h.all_read), h.batches)
  end_reading-ReadAs documents none r h =
      if-cases (λ bs. ReadAs documents (none, bs)) (is_empty r.documents)
        (λ e. (
          sym (append-nil (documents_of r.sent))
              ∙ ap (λ ds. documents_of r.sent ++ ds) (sym (held_none r.documents e))
              ∙ h.all_read,
          h.batches,
        ))
        (λ e. (
          documents_of-append r.sent (batch_of next_id r) ∙ h.all_read,
          All-append r.sent (batch_of next_id r) h.batches (record {
            not_empty = e;
            size = h.size;
            few_bytes = h.few_bytes;
            few_documents = h.few_documents;
          }),
        ))

  -- For documents of at most 16 MiB each: without an error, the batches that readSegment sends hold
  -- the documents of the segment, each once and in order; with an error of the cursor, they hold a
  -- first part of them. No batch is empty, each says the number of its bytes, and none has more
  -- bytes than MaxWriteBatchSizeBytes or more documents than MaxInsertBatchSize.
  pub read_segment-ReadAs :
      (documents : List Bytes) (err : Option Error) (ids : S)
      → All (λ d. length d ≤ max_bson_size) documents
      → ReadAs documents (read_segment next_id documents err ids)
  unfolding read_segment
  read_segment-ReadAs documents err ids small =
      end_reading-ReadAs documents err
        (read_documents next_id documents (begin_reading next_id ids))
        (read_documents-IsReading [] documents (begin_reading next_id ids) (begin-IsReading ids)
          small)
