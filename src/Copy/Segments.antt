-- ===== src/Copy/Segments.antt =====
-- Segmenter and CappedSegmenter of pcsm/copy.go. `K` is the type of the _id values. What the source
-- cluster answers to the query for the end of a segment is `find_key`: an error, the key, or none
-- for ErrNoDocuments; `query` is the error of Find for the documents of a segment. A cursor is the
-- range of the keys that its query asks for.
pub mod Tiling
pub mod Retried
use percona_link_mongodb.Prelude.{
  ℕ, Bool, true, false, Option, none, some, List, [], ◌∷◌, ◌⊎◌, inl, inr, Eq, ◌==◌, if◌then◌else◌,
}
use percona_link_mongodb.Errors.{Error, wrap}

-- keyRange: the maximum is none for the zero key.
pub record KeyRange (K : Type 0) : Type 0 where
  pub min_key : K
  pub max_key : Option K

-- `curr` is none for the zero range.
pub record Segmenter (K : Type 0) : Type 0 where
  pub segment_size : ℕ
  pub key_ranges : List (KeyRange K)
  pub curr : Option (KeyRange K)

-- What Next returns: a cursor, errEOC, or another error.
pub data Segment (K : Type 0) : Type 0 where
  segment : K → K → Segment K
  end_of_collection : Segment K
  failed : Option Error → Segment K

module _ {K : Type 0} ⦃keys : Eq K⦄ (find_key : K → K → ℕ → Error ⊎ Option K)
    (query : K → K → Option Error) where
  unfoldable pub end_key : K → Error ⊎ Option K → Error ⊎ K
  end_key hi (inl e) = inl e
  end_key hi (inr none) = inr hi
  end_key hi (inr (some k)) = inr k

  unfoldable pub find_segment_max_key : ℕ → K → K → Error ⊎ K
  unfolding end_key
  find_segment_max_key size lo hi = end_key hi (find_key lo hi size)

  -- The range that doNext leaves after a segment that ends at `k`.
  unfoldable pub left_of : K → K → K → KeyRange K
  left_of lo hi k =
      if k == hi
      then record { min_key = lo; max_key = none }
      else record { min_key = k; max_key = some hi }

  -- doNext, once Find has returned for the segment from `lo` to `k`; an error leaves the range.
  unfoldable pub queried :
      ℕ → List (KeyRange K) → K → K → K → Option Error → Segment K × Segmenter K
  unfolding left_of
  queried size ranges lo hi k (some e) = (
    failed (wrap (wrap (some e) "query") "next cursor"),
    record {
      segment_size = size;
      key_ranges = ranges;
      curr = some (record { min_key = lo; max_key = some hi });
    },
  )
  queried size ranges lo hi k none = (
    segment lo k,
    record { segment_size = size; key_ranges = ranges; curr = some (left_of lo hi k) },
  )

  -- doNext on a range with a maximum; an error leaves the range.
  unfoldable pub do_next : ℕ → List (KeyRange K) → K → K → Error ⊎ K → Segment K × Segmenter K
  unfolding queried
  do_next size ranges lo hi (inl e) = (
    failed (wrap (wrap (some e) "find segment max _id") "next cursor"),
    record {
      segment_size = size;
      key_ranges = ranges;
      curr = some (record { min_key = lo; max_key = some hi });
    },
  )
  do_next size ranges lo hi (inr k) = queried size ranges lo hi k (query lo k)

  -- The loop of Next: a range without a maximum is exhausted, and the next one is tried.
  unfoldable pub next_in : ℕ → List (KeyRange K) → K → Option K → Segment K × Segmenter K
  unfolding do_next find_segment_max_key
  next_in size ranges lo (some hi) = do_next size ranges lo hi (find_segment_max_key size lo hi)
  next_in size [] lo none =
      (end_of_collection, record { segment_size = size; key_ranges = []; curr = none })
  next_in size (r ∷ ranges) lo none = next_in size ranges r.min_key r.max_key

  unfoldable pub next_from : ℕ → List (KeyRange K) → Option (KeyRange K) → Segment K × Segmenter K
  unfolding next_in
  next_from size ranges none =
      (end_of_collection, record { segment_size = size; key_ranges = ranges; curr = none })
  next_from size ranges (some r) = next_in size ranges r.min_key r.max_key

  unfoldable pub next : Segmenter K → Segment K × Segmenter K
  unfolding next_from
  next seg = next_from seg.segment_size seg.key_ranges seg.curr

-- The cursor of CappedSegmenter: the whole collection, once.
pub record CappedSegmenter : Type 0 where
  pub batch_size : ℕ
  pub end_of_coll : Bool

-- Next: true for the cursor, false for errEOC; `err` is the error of the query.
unfoldable pub capped_next : Option Error → CappedSegmenter → Option Error × Bool × CappedSegmenter
capped_next err cs = if cs.end_of_coll then (none, false, cs) else elim err [
  | some e ↦ (wrap (some e) "query", false, cs)
  | none ↦ (none, true, record cs { end_of_coll = true })
]
