-- ===== src/Copy/Keys.antt =====
-- The key range of a collection in pcsm/copy.go: getIDKeyRange, NewSegmenter, NewCappedSegmenter and
-- handleNanIDDoc. `K` is the type of the _id values; the calls of the driver are the fields of
-- `Ids`. The sizes that the server reports are not negative.
pub mod Lost
use Prim.Native.String.{◌++◌ as str_append}
use text.Mathlib.Text.{starts_with}
use percona_link_mongodb.Bson.{ℤ, pos, negsuc, Bytes}
use percona_link_mongodb.Prelude.{
  ℕ, ◌/◌, min, max, String, Bool, true, false, ◌||◌, Option, none, some, List, [], ◌∷◌, length,
  is_empty, nat_eqb, if◌then◌else◌,
}
use percona_link_mongodb.Errors.{Error, sentinel, namespace_not_found, is_sentinel, is_no_documents}
use percona_link_mongodb.Exec.{
  Exec, Result, ok, fail, wrapping, pure, raise, on_fail, context, ◌>>=◌,
}
use percona_link_mongodb.Events.{Namespace}
use percona_link_mongodb.Topo.{Driver, CollStats, get_coll_stats}
use percona_link_mongodb.Copy.{
  ReadBatchResult, min_clone_segment_size_bytes, max_clone_read_batch_size_bytes,
}
use percona_link_mongodb.Copy.Segments.{KeyRange, Segmenter, CappedSegmenter}

-- errEOC
abbrev pub err_eoc : Error
err_eoc = sentinel "end of collection"

-- A document of a query with the projection { _id: 1 }: its _id, and its bytes, which hold no other
-- field.
pub record IdDoc (K : Type 0) : Type 0 where
  pub id : K
  pub raw : Bytes

-- FindOne sorted by _id, in descending order or not, behind a number of documents that are skipped;
-- the aggregation of the ranges of each type; RawValue.DebugString and RawValue.Type.
pub record Ids (W K : Type 0) : Type 0 where
  pub find_id : Bool → ℕ → Exec W (IdDoc K)
  pub ranges_by_type : Exec W (List (KeyRange K))
  pub debug_string : K → String
  pub type_of : K → ℕ

-- strings.Contains
unfoldable pub contains_text : String → String → Bool
contains_text part String.[] = starts_with String.[] part
contains_text part (String.◌∷◌ c s) = starts_with (String.◌∷◌ c s) part || contains_text part s

-- An int64 that is not negative.
unfoldable pub size_of : ℤ → ℕ
size_of (pos n) = n
size_of (negsuc n) = 0

pub record SegmentOptions : Type 0 where
  pub segment_size_bytes : ℕ  -- zero is config.AutoCloneSegmentSize
  pub batch_size_bytes : ℕ
  pub auto_num_segment : ℕ

-- A segmenter with the batch size of its cursors and its nanDoc.
pub record NewSegmenter (K : Type 0) : Type 0 where
  pub segmenter : Segmenter K
  pub batch_size : ℕ
  pub nan_doc : Bytes

unfoldable pub segment_size : SegmentOptions → CollStats → ℕ
unfolding size_of
segment_size options stats =
    if nat_eqb options.segment_size_bytes 0
    then max (size_of stats.size / options.auto_num_segment) min_clone_segment_size_bytes
    else options.segment_size_bytes / size_of stats.avg_obj_size

-- math.MaxInt32 is the bound of the batch size.
unfoldable pub batch_size : ℕ → CollStats → ℕ
unfolding size_of
batch_size bytes stats = min (bytes / size_of stats.avg_obj_size) max_clone_read_batch_size_bytes

-- handleNanIDDoc: the batch that it sends.
unfoldable pub handle_nan_id_doc : Bytes → ℕ → Option ReadBatchResult
handle_nan_id_doc nan_doc next_id =
    if is_empty nan_doc
    then none
    else some (record { id = next_id; documents = nan_doc ∷ []; size_bytes = length nan_doc })

module _ {W K : Type 0} (ids : Ids W K) where
  unfoldable pub is_nan : K → Bool
  unfolding contains_text
  is_nan k = contains_text "NaN" (ids.debug_string k)

  -- The document at one end, or the next one if it has a NaN key, which becomes the nanDoc.
  unfoldable pub skip_nan : Bool → String → IdDoc K → Bytes → Exec W (IdDoc K × Bytes)
  unfolding ◌>>=◌ on_fail pure is_nan
  skip_nan descending text d nan_doc =
      if is_nan d.id
      then context text (ids.find_id descending 1) >>= (λ other. pure (other, d.raw))
      else pure (d, nan_doc)

  unfoldable pub get_id_key_range : Exec W (KeyRange K × Bytes)
  unfolding ◌>>=◌ on_fail pure skip_nan
  get_id_key_range = do
    first ← context "min _id" (ids.find_id false 0)
    low ← skip_nan false "min _id (skip NaN)" first []
    last ← context "max _id" (ids.find_id true 0)
    high ← skip_nan true "max _id (skip NaN)" last low.1
    pure (record { min_key = low.0.id; max_key = some high.0.id }, high.1)

  abbrev pub if_empty : Error → Error
  if_empty e = if is_no_documents e then err_eoc else wrapping "get ID key range" e

  abbrev pub missing_as : Namespace → Error → Error
  missing_as ns e =
      if is_sentinel "not found" e
      then namespace_not_found ns.database ns.collection
      else wrapping "$collStats" e

  unfoldable pub is_one_type : KeyRange K → Bool
  is_one_type r = elim r.max_key [
    | none ↦ false
    | some hi ↦ nat_eqb (ids.type_of r.min_key) (ids.type_of hi)
  ]

  unfoldable pub from_ranges : ℕ → ℕ → Bytes → List (KeyRange K) → Exec W (NewSegmenter K)
  unfolding raise pure
  from_ranges size batch nan_doc [] = raise err_eoc
  from_ranges size batch nan_doc (r ∷ ranges) = pure (record {
    segmenter = record { segment_size = size; key_ranges = ranges; curr = some r };
    batch_size = batch;
    nan_doc = nan_doc;
  })

  unfoldable pub segmenter_of : ℕ → ℕ → KeyRange K × Bytes → Exec W (NewSegmenter K)
  unfolding ◌>>=◌ on_fail from_ranges is_one_type
  segmenter_of size batch (r, nan_doc) =
      if is_one_type r
      then from_ranges size batch nan_doc (r ∷ [])
      else (context "get ID key range by type" ids.ranges_by_type
          >>= from_ranges size batch nan_doc)

  unfoldable pub sized_segmenter : SegmentOptions → CollStats → Exec W (NewSegmenter K)
  unfolding ◌>>=◌ on_fail raise size_of segment_size batch_size get_id_key_range segmenter_of
  sized_segmenter options stats =
      if nat_eqb (size_of stats.avg_obj_size) 0
      then raise err_eoc
      else (on_fail if_empty get_id_key_range
          >>= segmenter_of (segment_size options stats) (batch_size options.batch_size_bytes stats))

  unfoldable pub new_segmenter : Driver W → Namespace → SegmentOptions → Exec W (NewSegmenter K)
  unfolding ◌>>=◌ on_fail sized_segmenter
  new_segmenter source ns options =
      on_fail (missing_as ns) (get_coll_stats source ns.database ns.collection)
      >>= sized_segmenter options

  unfoldable pub new_capped_segmenter : Driver W → Namespace → ℕ → Exec W CappedSegmenter
  unfolding ◌>>=◌ on_fail raise pure size_of batch_size
  new_capped_segmenter source ns batch_size_bytes = do
    stats ← on_fail (missing_as ns) (get_coll_stats source ns.database ns.collection)
    if nat_eqb (size_of stats.avg_obj_size) 0
        then raise err_eoc
        else pure (record { batch_size = batch_size batch_size_bytes stats; end_of_coll = false })
