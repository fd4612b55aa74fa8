-- ===== src/Copy/Inserts/Present.antt =====
-- What a result of insertBatch of pcsm/copy.go says of the target.
use percona_link_mongodb.Bson.{ℤ, Bytes}
use percona_link_mongodb.Prelude.{
  ◌≡◌, ◌≢◌, refl, sym, ap, ◌∙◌, String, Bool, true, false, Option, none, some, List, [], ◌∷◌, all,
  All, arith, if-cases, Option-cases, inl, inr,
}
use percona_link_mongodb.Errors.{Error, DriverError, wrap, wrapped, cause_of}
use percona_link_mongodb.Errors.Retry.{after, run_with_retry_outcome}
use percona_link_mongodb.Events.{Namespace}
use percona_link_mongodb.Target.{retried, wrapped_call}
use percona_link_mongodb.Copy.Inserts.{
  BulkWriteException, InsertBatchTask, InsertBatchResult, not_inserted, tolerate, bulk_error,
  on_bulk_error, insert_result, insert_batch,
}

abbrev is_true : Bool → Bool
is_true b = b

tolerate-all :
    (task : InsertBatchTask) (e : Error) (count : ℤ) (duplicates : List Bool)
    → (tolerate task e count duplicates).err ≡ none
    → all is_true duplicates ≡ true
unfolding tolerate not_inserted
tolerate-all task e count [] h = refl
tolerate-all task e count (true ∷ rest) h = tolerate-all task e _ rest h
tolerate-all task e count (false ∷ rest) h = ground arith

retried-last :
    {W : Type 0} (text : String) (call : W → Option Error × W) (w : W)
    → (w' : W) × (retried text call w ≡ wrapped_call text call w')
unfolding retried
retried-last text call w =
    let (k, stops, e) =
      run_with_retry_outcome (wrapped_call text call) 5 3 w (omega arith) (omega arith) in
    (after (wrapped_call text call) k w, e)

module _ {W : Type 0} (bulk_of : DriverError → Option BulkWriteException)
    (insert_many : Namespace → List Bytes → W → Option Error × W)
    (has : W → Namespace → Bytes → Type 0) where
  -- What the program relies on in an unordered InsertMany: without an error all documents are there
  -- (`has`), and also where each of its write errors says that a document is there already and
  -- there is no other error.
  pub record IsInsertMany : Type 0 where
    pub on_success :
        (ns : Namespace) (docs : List Bytes) (w : W)
        → (insert_many ns docs w).0 ≡ none
        → All (has (insert_many ns docs w).1 ns) docs
    pub on_duplicates :
        (ns : Namespace) (docs : List Bytes) (w : W) (e : Error) (bulk : BulkWriteException)
        → (insert_many ns docs w).0 ≡ some e
        → bulk_error bulk_of insert_many e ≡ some bulk
        → bulk.has_write_concern_error ≡ false
        → all is_true bulk.duplicates ≡ true
        → All (has (insert_many ns docs w).1 ns) docs

  module _ (laws : IsInsertMany) where
    text : String
    text = "insert batch: id %d, doc count %d"

    on_bulk_error-all :
        (task : InsertBatchTask) (e : Error) (bulk : BulkWriteException)
        → (on_bulk_error bulk_of insert_many task e (some bulk)).err ≡ none
        → (bulk.has_write_concern_error ≡ false) × (all is_true bulk.duplicates ≡ true)
    unfolding on_bulk_error not_inserted
    on_bulk_error-all task e bulk =
        if-cases
          (λ (x : InsertBatchResult).
            x.err ≡ none
            → (bulk.has_write_concern_error ≡ false) × (all is_true bulk.duplicates ≡ true))
          bulk.has_write_concern_error (λ _ h. ground arith)
          λ other h. (other, tolerate-all task e _ bulk.duplicates h)

    no_bulk_error :
        (task : InsertBatchTask) (e : Error)
        → (on_bulk_error bulk_of insert_many task e none).err ≢ none
    unfolding on_bulk_error not_inserted
    no_bulk_error task e h = ground arith

    bulk_error-wrapped :
        (e : Error) (context : String)
        → bulk_error bulk_of insert_many (wrapped e context) ≡ bulk_error bulk_of insert_many e
    unfolding bulk_error cause_of
    bulk_error-wrapped e context = refl

    -- The result of one attempt, with its error wrapped.
    judged :
        (task : InsertBatchTask) (r : Option Error) (w : W)
        → (insert_many task.namespace task.documents w).0 ≡ r
        → (insert_result bulk_of insert_many task (wrap r text)).err ≡ none
        → All (has (insert_many task.namespace task.documents w).1 task.namespace) task.documents
    unfolding insert_result wrap text
    judged task none w e h = laws.on_success task.namespace task.documents w e
    judged task (some x) w e h = elim (Option-cases (bulk_error bulk_of insert_many x)) [
      | inl b ↦ absurd (
          no_bulk_error task (wrapped x text) (
            ap (λ y. (on_bulk_error bulk_of insert_many task (wrapped x text) y).err)
              (sym (bulk_error-wrapped x text ∙ b))
            ∙ h))
      | inr (bulk, b) ↦
          (let (concern, duplicates) = on_bulk_error-all task (wrapped x text) bulk (
              ap (λ y. (on_bulk_error bulk_of insert_many task (wrapped x text) y).err)
                (sym (bulk_error-wrapped x text ∙ b))
              ∙ h) in
            laws.on_duplicates task.namespace task.documents w x bulk e b concern duplicates)
    ]

    -- Where insertBatch reports no error, all documents of its batch are on the target, after however
    -- many attempts, and also where some of them were there before.
    pub insert_batch-present :
        (task : InsertBatchTask) (w : W)
        → (insert_batch bulk_of insert_many task w).0.err ≡ none
        → All (has (insert_batch bulk_of insert_many task w).1 task.namespace) task.documents
    unfolding insert_batch text
    insert_batch-present task w h =
        let call = insert_many task.namespace task.documents in
        let (w', e) = retried-last text call w in
        rw e (
          judged task (call w').0 w' refl
            (ap (λ x. (insert_result bulk_of insert_many task x.0).err) (sym e) ∙ h))
