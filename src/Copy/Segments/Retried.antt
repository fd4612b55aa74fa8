-- ===== src/Copy/Segments/Retried.antt =====
-- What a call of Next that fails leaves of Segmenter of pcsm/copy.go.
use mathlib.Core.Path.{subst}
use percona_link_mongodb.Prelude.{
  ℕ, ◌≡◌, refl, Option, none, some, List, [], ◌∷◌, ◌⊎◌, inl, inr, Eq,
}
use percona_link_mongodb.Errors.{Error}
use percona_link_mongodb.Copy.Segments.{
  KeyRange, Segmenter, Segment, segment, end_of_collection, failed, find_segment_max_key, queried,
  do_next, next_in, next_from, next,
}

-- The part of a call that failed; a call that did not is no such part.
abbrev Kept : {K : Type 0} → (Segmenter K → Type 0) → Segment K × Segmenter K → Type 0
Kept P (failed err, seg) = P seg
Kept P (segment a b, seg) = Unit {0}
Kept P (end_of_collection, seg) = Unit {0}

Kept-failed :
    {K : Type 0} (P : Segmenter K → Type 0) (r : Segment K × Segmenter K) (err : Option Error)
    (seg : Segmenter K)
    → Kept P r
    → r ≡ (failed err, seg)
    → P seg
Kept-failed P r err seg h e = subst (λ x. Kept P x) e h

module _ {K : Type 0} ⦃keys : Eq K⦄ (find find' : K → K → ℕ → Error ⊎ Option K)
    (query query' : K → K → Option Error) where
  -- The next call gives what `r` is.
  abbrev Next : Segment K × Segmenter K → Segmenter K → Type 0
  Next r seg = next find' query' seg ≡ r

  queried-Kept :
      (size : ℕ) (rs : List (KeyRange K)) (lo hi k : K) (o : Option Error)
      → Kept
          (Next (next_in find' query' size rs lo (some hi)))
          (queried find query size rs lo hi k o)
  unfolding queried next next_from
  queried-Kept size rs lo hi k none = tt
  queried-Kept size rs lo hi k (some e) = refl

  do_next-Kept :
      (size : ℕ) (rs : List (KeyRange K)) (lo hi : K) (r : Error ⊎ K)
      → Kept (Next (next_in find' query' size rs lo (some hi))) (do_next find query size rs lo hi r)
  unfolding do_next next next_from
  do_next-Kept size rs lo hi (inl e) = refl
  do_next-Kept size rs lo hi (inr k) = queried-Kept size rs lo hi k (query lo k)

  next_in-Kept :
      (size : ℕ) (rs : List (KeyRange K)) (lo : K) (hi : Option K)
      → Kept (Next (next_in find' query' size rs lo hi)) (next_in find query size rs lo hi)
  unfolding next_in
  next_in-Kept size rs lo (some hi) =
      do_next-Kept size rs lo hi (find_segment_max_key find query size lo hi)
  next_in-Kept size [] lo none = tt
  next_in-Kept size (r ∷ rs) lo none = next_in-Kept size rs r.min_key r.max_key

  next_from-Kept :
      (size : ℕ) (rs : List (KeyRange K)) (o : Option (KeyRange K))
      → Kept (Next (next_from find' query' size rs o)) (next_from find query size rs o)
  unfolding next_from
  next_from-Kept size rs none = tt
  next_from-Kept size rs (some r) = next_in-Kept size rs r.min_key r.max_key

  -- A call of Next that fails loses nothing, even if it has gone on to another range before: whatever
  -- the queries then answer, the next call gives the segment, the end or the error that it would have
  -- given in place of the one that failed, and leaves the same segmenter.
  pub next-retried :
      (seg seg' : Segmenter K) (err : Option Error)
      → next find query seg ≡ (failed err, seg')
      → next find' query' seg' ≡ next find' query' seg
  unfolding next
  next-retried seg seg' err h =
      Kept-failed (Next (next find' query' seg)) (next find query seg) err seg'
        (next_from-Kept seg.segment_size seg.key_ranges seg.curr) h
