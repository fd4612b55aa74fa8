-- ===== src/Copy/Tests.antt =====
-- Witnesses of the copy manager.
use percona_link_mongodb.Bson.{pos, negsuc}
use percona_link_mongodb.Prelude.{
  inr, ℕ, refl, suc, ◌+◌, ◌<◌, leb, nat_eq, if◌then◌else◌, ◌≤◌, ◌≡◌, ◌⊎◌, some, [], ◌∷◌, arith,
}
use percona_link_mongodb.Errors.{Error, canceled, wrap, wrapped}
use percona_link_mongodb.Copy.{
  none, List, Option, CopyManagerOptions, copy_settings, read_segment, max_bson_size,
  min_clone_segment_size_bytes, max_clone_segment_size_bytes, max_clone_read_batch_size_bytes,
}
use percona_link_mongodb.Copy.Segments.{
  KeyRange, Segmenter, next, next_from, next_in, do_next, find_segment_max_key, end_key, queried,
}
use percona_link_mongodb.Copy.Segments.Retried.{next-retried}
use percona_link_mongodb.Copy.Segments.Tiling.{read_all, Tiling, read_all-Tiling}
use percona_link_mongodb.Copy.Batches.{ReadAs, read_segment-ReadAs}
use percona_link_mongodb.Copy.Limits.{copy_settings-bounds}

-- The counter of copyCollection.
abbrev count : ℕ → ℕ × ℕ
count n = (suc n, suc n)

read_segment-ReadAs_example :
    ReadAs count
      ((1 ∷ 2 ∷ []) ∷ (3 ∷ []) ∷ [])
      (read_segment count ((1 ∷ 2 ∷ []) ∷ (3 ∷ []) ∷ []) (some canceled) 0)
read_segment-ReadAs_example =
    read_segment-ReadAs count ((1 ∷ 2 ∷ []) ∷ (3 ∷ []) ∷ []) (some canceled) 0
      (omega arith, (omega arith, tt))

abbrev small : CopyManagerOptions
small = record {
  num_read_workers = pos 0;
  num_insert_workers = pos 3;
  segment_size_bytes = pos 1;
  read_batch_size_bytes = negsuc 4;
}

copy_settings-bounds_example :
    let s = copy_settings 2 small in
    (1 ≤ s.read_workers)
    × (1 ≤ s.insert_workers)
    × ((s.segment_size ≡ 0)
        ⊎ ((min_clone_segment_size_bytes ≤ s.segment_size)
            × (s.segment_size ≤ max_clone_segment_size_bytes)))
    × (max_bson_size ≤ s.read_batch_size)
    × (s.read_batch_size ≤ max_clone_read_batch_size_bytes)
copy_settings-bounds_example = copy_settings-bounds 2 small (omega arith)

-- A collection whose keys are numbers, all of them there.
abbrev find_number : ℕ → ℕ → ℕ → Option ℕ
find_number lo hi size = if leb (lo + suc size) hi then some (lo + suc size) else none

find_number-inside : (lo hi k : ℕ) → find_number lo hi 2 ≡ some k → (lo < k) × (k ≤ hi)
find_number-inside lo hi k h = ground (arith, h)

abbrev one_to_eight : KeyRange ℕ
one_to_eight = record { min_key = 1; max_key = some 8 }

-- The segments of the keys 1 to 8 with 2 keys between: 1 to 4, 4 to 7, 7 to 8.
read_numbers :
    read_all find_number 9 (record { segment_size = 2; key_ranges = []; curr = some one_to_eight })
    ≡ some ((1, 4) ∷ (4, 7) ∷ (7, 8) ∷ [])
unfolding read_all next
read_numbers = refl

read_all-Tiling_example :
    (segs : List (ℕ × ℕ)) × (read_all find_number 9
        (record { segment_size = 2; key_ranges = []; curr = some one_to_eight })
      ≡ some segs)
    × Tiling 1 (some 8) [] segs
read_all-Tiling_example =
    read_all-Tiling find_number (λ k. k) 2 find_number-inside 9 one_to_eight [] (omega arith)

-- A segmenter at a range that is exhausted, with another one behind it, and a query that fails.
abbrev between : Segmenter ℕ
between = record {
  segment_size = 2;
  key_ranges = one_to_eight ∷ [];
  curr = some (record { min_key = 9; max_key = none });
}

abbrev cut_off : ℕ → ℕ → Option Error
cut_off lo hi = some canceled

abbrev answering : ℕ → ℕ → ℕ → Error ⊎ Option ℕ
answering lo hi size = inr (find_number lo hi size)

next-retried_example :
    next answering (λ lo hi. none) (next answering cut_off between).1
    ≡ next answering (λ lo hi. none) between
unfolding next next_from next_in do_next find_segment_max_key end_key queried wrap
next-retried_example =
    next-retried answering answering cut_off (λ lo hi. none) between
      (next answering cut_off between).1 (some (wrapped (wrapped canceled "query") "next cursor"))
      refl
