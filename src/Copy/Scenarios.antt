-- ===== src/Copy/Scenarios.antt =====
-- Witnesses of the inserting of batches and of the key range of a collection.
use percona_link_mongodb.Bson.{pos, Bytes}
use percona_link_mongodb.Prelude.{
  ℕ, zero, suc, inr, ◌+◌, String, Bool, true, false, Option, none, some, List, [], ◌∷◌, contains,
  ◌≡◌, refl, nat_eq, list_eq, arith, nat_eqb, All, ==_iff, ◌||◌, if◌then◌else◌,
}
use percona_link_mongodb.Errors.{Error, DriverError, driver, no_documents}
use percona_link_mongodb.Exec.{ok, fail}
use percona_link_mongodb.Events.{Namespace}
use percona_link_mongodb.Topo.{CollStats, get_coll_stats}
use percona_link_mongodb.Topo.Samples.{driver as source}
use percona_link_mongodb.Copy.Keys.{
  Ids, IdDoc, SegmentOptions, err_eoc, size_of, is_nan, contains_text, new_segmenter,
}
use percona_link_mongodb.Copy.Keys.Lost.{answer, IsCollection, new_segmenter-eoc}
use percona_link_mongodb.Copy.Inserts.{BulkWriteException, InsertBatchTask, insert_batch}
use percona_link_mongodb.Copy.Inserts.Present.{IsInsertMany, insert_batch-present}

abbrev ns : Namespace
ns = record { database = "db"; collection = "a" }

-- A target that holds a list of documents, and says of each insertion that all of them were there.
abbrev duplicate : DriverError
duplicate = record {
  network = false;
  timeout = false;
  retryable_label = false;
  duplicate_key = true;
  command = none;
  write = none;
}

abbrev all_there : DriverError → Option BulkWriteException
all_there d = some (record { duplicates = true ∷ true ∷ []; has_write_concern_error = false })

-- The target is the test whether it holds a document.
abbrev insert_many : Namespace → List Bytes → (Bytes → Bool) → Option Error × (Bytes → Bool)
insert_many place docs w = (some (driver duplicate), λ d. contains docs d || w d)

abbrev Has : (Bytes → Bool) → Namespace → Bytes → Type 0
Has w place d = w d ≡ true

contains_weaken :
    (w : Bytes → Bool) (x : Bytes) (docs more : List Bytes)
    → All (Has (λ d. contains docs d || w d) ns) more
    → All (Has (λ d. contains (x ∷ docs) d || w d) ns) more
contains_weaken w x docs [] h = tt
contains_weaken w x docs (d ∷ more) h = (ground (arith, h.0), contains_weaken w x docs more h.1)

contains_self :
    (place : Namespace) (w : Bytes → Bool) (docs : List Bytes)
    → All (Has (λ d. contains docs d || w d) place) docs
contains_self place w [] = tt
contains_self place w (d ∷ docs) =
    (ground (arith, ==_iff d d), contains_weaken w d docs docs (contains_self place w docs))

insert_many-IsInsertMany : IsInsertMany all_there insert_many Has
insert_many-IsInsertMany = record {
  on_success = λ place docs w h. contains_self place w docs;
  on_duplicates = λ place docs w e bulk h b c d. contains_self place w docs;
}

abbrev task : InsertBatchTask
task = record { namespace = ns; id = 1; size_bytes = 2; documents = (1 ∷ []) ∷ (2 ∷ []) ∷ [] }

abbrev nothing : Bytes → Bool
nothing d = false

insert_batch-present_example :
    All (Has (insert_batch all_there insert_many task nothing).1 ns) task.documents
unfolding insert_batch percona_link_mongodb.Errors.wrap percona_link_mongodb.Errors.is_transient
insert_batch-present_example =
    insert_batch-present all_there insert_many Has insert_many-IsInsertMany task nothing refl

-- A collection with one document, whose key is a text that begins with NaN.
abbrev one_id : Ids ℕ String
one_id = record {
  find_id = λ descending skipped w.
      if nat_eqb skipped 0
      then (ok (record { id = "NaNtes"; raw = 7 ∷ [] }), w + 1)
      else (fail no_documents, w + 1);
  ranges_by_type = λ w. (fail no_documents, w);
  debug_string = λ k. k;
  type_of = λ k. 2;
}

abbrev segments : SegmentOptions
segments = record { segment_size_bytes = 0; batch_size_bytes = 1000; auto_num_segment = 4 }

abbrev nan_doc : IdDoc String
nan_doc = record { id = "NaNtes"; raw = 7 ∷ [] }

one_id-IsCollection : IsCollection one_id (nan_doc ∷ [])
one_id-IsCollection = record { from_start = asked; from_end = asked }
  where
    asked : (n w : ℕ) → (one_id.find_id false n w).0 ≡ answer (nan_doc ∷ []) n
    asked zero w = refl
    asked (suc n) w = ground arith

abbrev small : CollStats
small = record { count = pos 3; size = pos 30; avg_obj_size = pos 10 }

-- The document with the NaN key counts as none.
nan_is_lost : (new_segmenter one_id source ns segments 0).0 ≡ fail err_eoc
unfolding get_coll_stats size_of is_nan contains_text
nan_is_lost =
    (new_segmenter-eoc one_id source ns segments small (nan_doc ∷ []) 0 3 refl refl
        one_id-IsCollection (λ h w e. ground arith)).1
      (inr (nan_doc, refl, refl))
