-- ===== src/Copy/Segments/Tiling.antt =====
-- The segments that Segmenter of pcsm/copy.go gives until the end of the collection.
use mathlib.Core.Path.{subst}
use percona_link_mongodb.Prelude.{
  ℕ, zero, suc, ◌+◌, ◌-◌, ◌≤◌, ◌<◌, ◌≡◌, refl, false, Option, none, some, Option-cases, List, [],
  ◌∷◌, inl, inr, Eq, ◌==◌, ==_iff, if-cases, ap, sym, arith,
}
use percona_link_mongodb.Copy.Segments.{
  KeyRange, Segmenter, Segment, segment, end_of_collection, failed, end_key, find_segment_max_key,
  left_of, queried, do_next, next_in, next_from, next,
}

-- The segments of a range that goes on from `lo`, and of the ranges after it: in each range the
-- first begins at its minimum, each other where the one before it ended, and the last ends at its
-- maximum.
pub data Tiling {K : Type 0} : K → Option K → List (KeyRange K) → List (K × K) → Type 0 where
  finished : {lo : K} → Tiling lo none [] []
  next_range :
      {lo : K} {r : KeyRange K} {rs : List (KeyRange K)} {segs : List (K × K)}
      → Tiling r.min_key r.max_key rs segs
      → Tiling lo none (r ∷ rs) segs
  last_segment :
      {lo hi : K} {rs : List (KeyRange K)} {segs : List (K × K)}
      → Tiling lo none rs segs
      → Tiling lo (some hi) rs ((lo, hi) ∷ segs)
  inner_segment :
      {lo hi k : K} {rs : List (KeyRange K)} {segs : List (K × K)}
      → Tiling k (some hi) rs segs
      → Tiling lo (some hi) rs ((lo, k) ∷ segs)

module _ {K : Type 0} ⦃keys : Eq K⦄ (find : K → K → ℕ → Option K) where
  abbrev prepend : K × K → Option (List (K × K)) → Option (List (K × K))
  prepend s none = none
  prepend s (some segs) = some (s ∷ segs)

  unfoldable collect :
      Segment K × Segmenter K → (Segmenter K → Option (List (K × K))) → Option (List (K × K))
  collect (segment a b, seg) later = prepend (a, b) (later seg)
  collect (end_of_collection, seg) later = some []
  collect (failed err, seg) later = none

  -- Next, called until errEOC: the segments, or none if the fuel runs out or a query fails.
  unfoldable pub read_all : ℕ → Segmenter K → Option (List (K × K))
  unfolding collect
  read_all zero seg = none
  read_all (suc n) seg =
      collect (next (λ lo hi size. inr (find lo hi size)) (λ lo hi. none) seg) (read_all n)

  abbrev at_range : ℕ → List (KeyRange K) → K → Option K → Segmenter K
  at_range size rs lo hi = record {
    segment_size = size;
    key_ranges = rs;
    curr = some (record { min_key = lo; max_key = hi });
  }

  module _ (rank : K → ℕ) where
    -- How many segments a range may have.
    abbrev room : K → Option K → ℕ
    room lo none = 0
    room lo (some hi) = suc (rank hi - rank lo)

    abbrev pub room_all : List (KeyRange K) → ℕ
    room_all [] = 0
    room_all (r ∷ rs) = room r.min_key r.max_key + room_all rs

    module _ (size : ℕ)
        (inside : (lo hi k : K)
          → find lo hi size ≡ some k
          → (rank lo < rank k) × (rank k ≤ rank hi)) where
      abbrev Tiled : ℕ → List (KeyRange K) → K → Option K → Type 0
      Tiled n rs lo hi =
          (segs : List (K × K)) × (read_all n (at_range size rs lo hi) ≡ some segs)
          × Tiling lo hi rs segs

      collected :
          (n : ℕ) (rs : List (KeyRange K)) (lo hi k : K)
          → (k ≡ hi → Tiled n rs lo none)
          → ((k == hi) ≡ false → Tiled n rs k (some hi))
          → (segs : List (K × K)) × (collect
                (do_next
                  (λ lo hi size. inr (find lo hi size))
                  (λ lo hi. none)
                  size
                  rs
                  lo
                  hi
                  (inr k))
                (read_all n)
              ≡ some segs)
            × Tiling lo (some hi) rs segs
      unfolding collect do_next queried left_of
      collected n rs lo hi k at_end within =
          if-cases
            (λ r.
              (segs : List (K × K)) × (prepend (lo, k)
                  (read_all n (record { segment_size = size; key_ranges = rs; curr = some r }))
                ≡ some segs)
              × Tiling lo (some hi) rs segs)
            (k == hi)
            (λ h.
              let same : k ≡ hi = (==_iff k hi).0 h in
              let (segs, e, t) = at_end same in
              (
                (lo, k) ∷ segs,
                ap (prepend (lo, k)) e,
                subst (λ x. Tiling lo (some hi) rs ((lo, x) ∷ segs)) (sym same) (last_segment t),
              ))
            (λ h.
              let (segs, e, t) = within h in
              ((lo, k) ∷ segs, ap (prepend (lo, k)) e, inner_segment t))

      found :
          (n : ℕ) (rs : List (KeyRange K)) (lo hi : K)
          → Tiled n rs lo none
          → ((k : K) → find lo hi size ≡ some k → Tiled n rs k (some hi))
          → Tiled (suc n) rs lo (some hi)
      unfolding read_all next next_from next_in find_segment_max_key end_key
      found n rs lo hi at_end within = elim (Option-cases (find lo hi size)) [
        | inl e ↦ rw e (collected n rs lo hi hi (λ h. at_end) (λ h. ground (arith, ==_iff hi hi)))
        | inr (k, e) ↦ rw e (collected n rs lo hi k (λ h. at_end) (λ h. within k e))
      ]

      read_ranges :
          (n : ℕ) (rs : List (KeyRange K)) (lo : K) (hi : Option K)
          → room lo hi + room_all rs < n
          → Tiled n rs lo hi
      unfolding read_all next next_from next_in collect
      read_ranges zero rs lo hi h = ground (arith, h)
      read_ranges (suc n) rs lo (some hi) h =
          found n rs lo hi (read_ranges n rs lo none (omega (arith, h)))
            (λ k e. read_ranges n rs k (some hi) (omega (arith, h, inside lo hi k e)))
      read_ranges (suc n) [] lo none h = ([], refl, finished)
      read_ranges (suc n) (r ∷ rs) lo none h =
          let (segs, e, t) = read_ranges (suc n) rs r.min_key r.max_key (omega (arith, h)) in
          (segs, e, next_range t)

      -- If neither the query for the end of a segment nor the one for its documents fails, and the key
      -- that the first one finds is behind the given minimum and not behind the given maximum: from a
      -- segmenter that stands at a range, Next gives, in at most as many calls as the ranges have
      -- places for keys, and one more, the end of the collection, and before it segments that tile the
      -- ranges: in every range, one after the other, the first segment begins at its minimum, each
      -- other one where the one before it ended, and the last ends at its maximum.
      pub read_all-Tiling :
          (n : ℕ) (r : KeyRange K) (rs : List (KeyRange K))
          → room_all (r ∷ rs) < n
          → (segs : List (K × K)) × (read_all n
                (record { segment_size = size; key_ranges = rs; curr = some r })
              ≡ some segs)
            × Tiling r.min_key r.max_key rs segs
      read_all-Tiling n r rs h = read_ranges n rs r.min_key r.max_key h
