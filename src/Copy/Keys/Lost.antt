-- ===== src/Copy/Keys/Lost.antt =====
-- For which collections NewSegmenter of pcsm/copy.go says that there is nothing to copy.
use mathlib.Core.List.{reverse, reverse-reverse}
use percona_link_mongodb.Bson.{Bytes}
use percona_link_mongodb.Prelude.{
  zero, suc, Bool-cases, ℕ, ◌≡◌, ◌≢◌, ◌⊎◌, ◌↔◌, inl, inr, refl, sym, ap, ◌∙◌, String, Bool, true,
  false, List, [], ◌∷◌, nat_eqb, if-cases, arith,
}
use percona_link_mongodb.Errors.{Error, no_documents, is_no_documents}
use percona_link_mongodb.Exec.{
  Exec, Result, ok, fail, continue, wrapping, map_fail, on_fail, pure, context, ◌>>=◌,
}
use percona_link_mongodb.Exec.Rules.{
  Holds, Outcome, Outcome-ok, Outcome-if, Outcome-bind, Outcome-on_fail,
}
use percona_link_mongodb.Events.{Namespace}
use percona_link_mongodb.Topo.{Driver, CollStats, get_coll_stats}
use percona_link_mongodb.Copy.Segments.{KeyRange}
use percona_link_mongodb.Copy.Keys.{
  Ids, IdDoc, SegmentOptions, NewSegmenter, err_eoc, size_of, is_nan, skip_nan, get_id_key_range,
  if_empty, is_one_type, from_ranges, segmenter_of, sized_segmenter, new_segmenter,
}

-- FindOne on sorted documents: the one that is left first behind those that are skipped.
abbrev pub answer : {K : Type 0} → List (IdDoc K) → ℕ → Result (IdDoc K)
answer [] n = fail no_documents
answer (d ∷ ds) zero = ok d
answer (d ∷ ds) (suc n) = answer ds n

-- A result that is no error, and a value with `Q`.
abbrev Certain : {S A : Type 0} → (A → Type 0) → Result A × S → Type 0
Certain Q r = Outcome (λ a s. Q a) (λ s. ⊥) r

Certain-value :
    {S A : Type 0} (Q : A → Type 0) (r : Result A) (s : S) → Certain Q (r, s) → (a : A) × (r ≡ ok a)
unfolding Holds
Certain-value Q (ok a) s h = (a, refl)
Certain-value Q (fail e) s h = absurd h.holds

find-Certain :
    {S A : Type 0} (r : Result A) (s : S) (a : A) → r ≡ ok a → Certain (λ x. x ≡ a) (r, s)
find-Certain (ok x) s a h = Outcome-ok x s (ground arith)
find-Certain (fail e) s a h = absurd (ground arith)

-- The end of a list of two elements at least.
reverse-two :
    {A : Type 0} (x y : A) (xs rev : List A)
    → reverse (x ∷ y ∷ xs) ≡ rev
    → (a : A) × (b : A) × (rest : List A) × (rev ≡ a ∷ b ∷ rest)
reverse-two x y xs [] h = absurd (cc (sym (reverse-reverse (x ∷ y ∷ xs)) ∙ ap reverse h))
reverse-two x y xs (a ∷ []) h = absurd (cc (sym (reverse-reverse (x ∷ y ∷ xs)) ∙ ap reverse h))
reverse-two x y xs (a ∷ b ∷ rest) h = (a, b, rest, refl)

module _ {W K : Type 0} (ids : Ids W K) where
  -- What the queries for the ends find in a collection with these documents, in the order of their
  -- keys.
  pub record IsCollection (docs : List (IdDoc K)) : Type 0 where
    pub from_start : (n : ℕ) (w : W) → (ids.find_id false n w).0 ≡ answer docs n
    pub from_end : (n : ℕ) (w : W) → (ids.find_id true n w).0 ≡ answer (reverse docs) n

  -- No document, or one document with a NaN key.
  abbrev pub HasNoKey : List (IdDoc K) → Type 0
  HasNoKey docs = (docs ≡ []) ⊎ ((d : IdDoc K) × (docs ≡ d ∷ []) × (is_nan ids d.id ≡ true))

  -- The end of a collection, behind a document with a NaN key.
  abbrev HasKey : Bool → IdDoc K → Type 0
  HasKey descending d =
      is_nan ids d.id ≡ true → (w : W) → (e : IdDoc K) × ((ids.find_id descending 1 w).0 ≡ ok e)

  skip_nan-Certain :
      (descending : Bool) (text : String) (d x : IdDoc K) (nan : Bytes) (w : W)
      → HasKey descending d
      → x ≡ d
      → Certain (λ y. y ≡ y) (skip_nan ids descending text x nan w)
  unfolding skip_nan pure
  skip_nan-Certain descending text d x nan w second same =
      Outcome-if (is_nan ids x.id)
        (context text (ids.find_id descending 1) >>= (λ other. pure (other, x.raw))) (pure (x, nan))
        w
        (λ h.
          let (e, found) = second (ap (λ (y : IdDoc K). is_nan ids y.id) (sym same) ∙ h) w in
          Outcome-bind {Q = λ a s. a ≡ e} (context text (ids.find_id descending 1)) _ w
            (Outcome-on_fail (wrapping text) (ids.find_id descending 1) w
              (find-Certain (ids.find_id descending 1 w).0 (ids.find_id descending 1 w).1 e found))
            λ a s h. Outcome-ok (a, x.raw) s refl)
        λ _. Outcome-ok (x, nan) w refl

  get_id_key_range-Certain :
      (d l : IdDoc K) (w : W)
      → ((w : W) → (ids.find_id false 0 w).0 ≡ ok d)
      → HasKey false d
      → ((w : W) → (ids.find_id true 0 w).0 ≡ ok l)
      → HasKey true l
      → Certain (λ y. y ≡ y) (get_id_key_range ids w)
  unfolding get_id_key_range pure
  get_id_key_range-Certain d l w at_start low at_end high =
      Outcome-bind {Q = λ x s. x ≡ d} (context "min _id" (ids.find_id false 0)) _ w
        (Outcome-on_fail (wrapping "min _id") (ids.find_id false 0) w
          (find-Certain (ids.find_id false 0 w).0 _ d (at_start w)))
        λ x w1 same.
          Outcome-bind {Q = λ x s. x ≡ x} (skip_nan ids false "min _id (skip NaN)" x []) _ w1
            (skip_nan-Certain false "min _id (skip NaN)" d x [] w1 low same)
            λ first w2 _.
              Outcome-bind {Q = λ x s. x ≡ l} (context "max _id" (ids.find_id true 0)) _ w2
                (Outcome-on_fail (wrapping "max _id") (ids.find_id true 0) w2
                  (find-Certain (ids.find_id true 0 w2).0 _ l (at_end w2)))
                λ y w3 same_end.
                  Outcome-bind {Q = λ x s. x ≡ x} (skip_nan ids true "max _id (skip NaN)" y first.1)
                    _ w3 (skip_nan-Certain true "max _id (skip NaN)" l y first.1 w3 high same_end)
                    λ last w4 _. Outcome-ok _ w4 refl

  key_range_of :
      (docs : List (IdDoc K)) (w : W)
      → IsCollection docs
      → HasNoKey docs ⊎ Certain (λ y. y ≡ y) (get_id_key_range ids w)
  key_range_of [] w c = inl (inl refl)
  key_range_of (d ∷ []) w c = elim (Bool-cases (is_nan ids d.id)) [
    | inl nan ↦ inl (inr (d, refl, nan))
    | inr key ↦ inr (
        get_id_key_range-Certain d d w (λ w. c.from_start 0 w) (λ h. absurd (ground arith))
          (λ w. c.from_end 0 w) (λ h. absurd (ground arith)))
  ]
  key_range_of (x ∷ y ∷ ds) w c =
      let (a, b, rest, e) = reverse-two x y ds (reverse (x ∷ y ∷ ds)) refl in
      inr (
        get_id_key_range-Certain x a w (λ w. c.from_start 0 w) (λ h w. (y, c.from_start 1 w))
          (λ w. c.from_end 0 w ∙ ap (λ ds. answer ds 0) e)
          (λ h w. (b, c.from_end 1 w ∙ ap (λ ds. answer ds 1) e)))

  no_key-fails :
      (docs : List (IdDoc K)) (w : W)
      → IsCollection docs
      → HasNoKey docs
      → (e : Error) × ((get_id_key_range ids w).0 ≡ fail e) × (is_no_documents e ≡ true)
  unfolding get_id_key_range on_fail skip_nan ◌>>=◌ is_no_documents
  no_key-fails docs w c (inl none_there) = (
    wrapping "min _id" no_documents,
    rw (c.from_start 0 w ∙ ap (λ ds. answer ds 0) none_there) refl,
    refl,
  )
  no_key-fails docs w c (inr (d, only, nan)) = (
    wrapping "min _id (skip NaN)" no_documents,
    rw (c.from_start 0 w ∙ ap (λ ds. answer ds 0) only)
        (rw nan (rw (c.from_start 1 (ids.find_id false 0 w).1 ∙ ap (λ ds. answer ds 1) only) refl)),
    refl,
  )

  -- The ranges of each type, of a collection that has documents, are not none.
  abbrev pub HasTypes : List (IdDoc K) → Type 0
  HasTypes docs = docs ≢ [] → (w : W) → (ids.ranges_by_type w).0 ≢ ok []

  ranges-ne-eoc :
      (size batch : ℕ) (nan : Bytes) (r : Result (List (KeyRange K))) (w : W)
      → r ≢ ok []
      → (continue
          (map_fail (wrapping "get ID key range by type") r)
          (from_ranges ids size batch nan)
          w).0
        ≢ fail err_eoc
  unfolding from_ranges pure
  ranges-ne-eoc size batch nan (ok []) w h e = h refl
  ranges-ne-eoc size batch nan (ok (r ∷ rs)) w h e = ground arith
  ranges-ne-eoc size batch nan (fail x) w h e = ground arith

  segmenter_of-ne-eoc :
      (size batch : ℕ) (r : KeyRange K × Bytes) (w : W)
      → ((w : W) → (ids.ranges_by_type w).0 ≢ ok [])
      → (segmenter_of ids size batch r w).0 ≢ fail err_eoc
  unfolding segmenter_of on_fail ◌>>=◌
  segmenter_of-ne-eoc size batch (r, nan) w h =
      if-cases (λ (m : Exec W (NewSegmenter K)). (m w).0 ≢ fail err_eoc) (is_one_type ids r)
        (λ _. ranges-ne-eoc size batch nan (ok (r ∷ [])) w (λ e. ground arith))
        λ _. ranges-ne-eoc size batch nan (ids.ranges_by_type w).0 _ (h w)

  abbrev ranged : ℕ → ℕ → Result (KeyRange K × Bytes) → W → Result (NewSegmenter K)
  ranged size batch r w = (continue (map_fail (if_empty ids) r) (segmenter_of ids size batch) w).0

  ranged-fail :
      (size batch : ℕ) (r : Result (KeyRange K × Bytes)) (w : W) (e : Error)
      → r ≡ fail e
      → is_no_documents e ≡ true
      → ranged size batch r w ≡ fail err_eoc
  ranged-fail size batch r w e failed empty = rw failed (rw empty refl)

  ranged-ok :
      (size batch : ℕ) (r : Result (KeyRange K × Bytes)) (w : W) (a : KeyRange K × Bytes)
      → r ≡ ok a
      → ((w : W) → (ids.ranges_by_type w).0 ≢ ok [])
      → ranged size batch r w ≢ fail err_eoc
  ranged-ok size batch r w a found types = rw found (segmenter_of-ne-eoc size batch a w types)

  -- The range of a collection is there, or there is no key.
  HasNoKey-or-range :
      (docs : List (IdDoc K)) (w : W)
      → IsCollection docs
      → HasNoKey docs ⊎ ((a : KeyRange K × Bytes) × ((get_id_key_range ids w).0 ≡ ok a))
  HasNoKey-or-range docs w c = elim (key_range_of docs w c) [
    | inl h ↦ inl h
    | inr h ↦ inr (Certain-value _ (get_id_key_range ids w).0 (get_id_key_range ids w).1 h)
  ]

  sized-eoc :
      (options : SegmentOptions) (stats : CollStats) (docs : List (IdDoc K)) (w : W)
      → nat_eqb (size_of stats.avg_obj_size) 0 ≡ false
      → IsCollection docs
      → HasTypes docs
      → ((sized_segmenter ids options stats w).0 ≡ fail err_eoc) ↔ HasNoKey docs
  unfolding sized_segmenter on_fail ◌>>=◌
  sized-eoc options stats docs w some_size c types = rw some_size (
    (λ eoc. elim (HasNoKey-or-range docs w c) [
      | inl h ↦ h
      | inr (a, found) ↦ elim (no_docs docs) [
        | inl none_there ↦ inl none_there
        | inr some_there ↦ absurd (ranged-ok _ _ _ _ a found (types some_there) eoc)
      ]
    ]),
    (λ h. let (e, failed, empty) = no_key-fails docs w c h in ranged-fail _ _ _ _ e failed empty),
  )
    where
      no_docs : (ds : List (IdDoc K)) → (ds ≡ []) ⊎ (ds ≢ [])
      no_docs [] = inl refl
      no_docs (d ∷ ds) = inr (λ h. ground arith)

  pub new_segmenter-eoc :
      (source : Driver W) (ns : Namespace) (options : SegmentOptions) (stats : CollStats)
      (docs : List (IdDoc K)) (w w1 : W)
      → get_coll_stats source ns.database ns.collection w ≡ (ok stats, w1)
      → nat_eqb (size_of stats.avg_obj_size) 0 ≡ false
      → IsCollection docs
      → HasTypes docs
      → ((new_segmenter ids source ns options w).0 ≡ fail err_eoc) ↔ HasNoKey docs
  unfolding new_segmenter on_fail ◌>>=◌
  new_segmenter-eoc source ns options stats docs w w1 sized some_size c types =
      rw sized (sized-eoc options stats docs w1 some_size c types)
