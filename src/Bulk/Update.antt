-- ===== src/Bulk/Update.antt =====
-- collectUpdateOps, collectUpdateOpsWithPipeline and isArrayPath of pcsm/bulk.go: the update that is
-- sent to the target for an update event of the source.
use Prim.Native.Char.{code}
use Prim.Native.String.{◌++◌ as str_append}
use text.Mathlib.Text.{starts_with}
use percona_link_mongodb.Prelude.Maps.{Assoc, lookup, insert}
use percona_link_mongodb.Bson.{ℤ, pos, negsuc, Value, str, int, arr, doc, Doc, fields_of, items_of}
use percona_link_mongodb.Prelude.{
  ℕ, zero, suc, ◌+◌, ◌-◌, ◌*◌, ◌^◌, String, Bool, true, false, ◌&&◌, Option, none, some, List, [],
  ◌∷◌, ◌++◌, map, any, length, nat_eqb, leb, ltb, ◌==◌, string_eq, if◌then◌else◌,
}
use percona_link_mongodb.Events.{TruncatedArray, UpdateDescription}

-- strings.Split(s, ".")
prepend : String → List String → List String
prepend c [] = c ∷ []
prepend c (p ∷ ps) = str_append c p ∷ ps

unfoldable pub split_dot : String → List String
unfolding prepend
split_dot String.[] = "" ∷ []
split_dot (String.◌∷◌ c s) =
    let rest = split_dot s in
    if nat_eqb (code c) b'.' then "" ∷ rest else prepend (String.◌∷◌ c "") rest

-- strings.Join(parts[:len(parts)-1], ".") and parts[len(parts)-1]
unfoldable pub join_init : List String → String
join_init [] = ""
join_init (p ∷ []) = ""
join_init (p ∷ q ∷ []) = p
join_init (p ∷ q ∷ r ∷ ps) = str_append p (str_append "." (join_init (q ∷ r ∷ ps)))

unfoldable pub last_part : List String → String
last_part [] = ""
last_part (p ∷ []) = p
last_part (p ∷ q ∷ ps) = last_part (q ∷ ps)

-- strconv.Atoi: the value, and whether the error is nil. A number out of the range of int64 is an
-- error with the nearest value, any other text an error with zero.
digits_value : ℕ → String → Option ℕ
digits_value n String.[] = some n
digits_value n (String.◌∷◌ ch rest) =
    let c = code ch in
    let more = digits_value (n * 10 + (c - 48)) rest in if leb 48 c && leb c 57 then more else none

unsigned_value : String → Option ℕ
unfolding digits_value
unsigned_value s = if s == "" then none else digits_value 0 s

signed : Bool → Option ℕ → ℤ × Bool
signed negative none = (pos 0, false)
signed false (some n) = if ltb n (2 ^ 63) then (pos n, true) else (pos (2 ^ 63 - 1), false)
signed true (some zero) = (pos 0, true)
signed true (some (suc n)) =
    if ltb n (2 ^ 63) then (negsuc n, true) else (negsuc (2 ^ 63 - 1), false)

unfoldable pub atoi : String → ℤ × Bool
unfolding unsigned_value signed
atoi String.[] = (pos 0, false)
atoi (String.◌∷◌ c s) =
    if nat_eqb (code c) b'-'
    then signed true (unsigned_value s)
    else if nat_eqb (code c) b'+'
    then signed false (unsigned_value s)
    else signed false (unsigned_value (String.◌∷◌ c s))

abbrev pub is_int : Value → Bool
is_int (int n) = true
is_int _ = false

-- The map of the disambiguated paths: a later entry of one key replaces an earlier one.
unfoldable pub paths_map :
    Assoc String (List Value) → List (String × List Value) → Assoc String (List Value)
paths_map m [] = m
paths_map m ((k, path) ∷ rest) = paths_map (insert k path m) rest

unfoldable pub is_array_path : String → Assoc String (List Value) → Bool
unfolding split_dot last_part atoi
is_array_path field dp = elim (lookup field dp) [
  | some path ↦ any is_int path
  | none ↦
      (let parts = split_dot field in
        if ltb (length parts) 2 then false else (atoi (last_part parts)).1)
]

-- A bson.D with one entry.
abbrev pub single : String → Value → Value
single k v = doc (fields_of ((k, v) ∷ []))

unfoldable pub truncate_stage : TruncatedArray → Value
unfolding fields_of items_of
truncate_stage t = single "$set" (
    single t.field
      (single "$slice" (arr (items_of (str (str_append "$" t.field) ∷ int t.new_size ∷ [])))))

-- idx + 1 on a 64-bit int; MaxInt64 + 1 wraps to MinInt64.
unfoldable pub int_suc : ℤ → ℤ
int_suc (pos n) = if ltb (n + 1) (2 ^ 63) then pos (n + 1) else negsuc (2 ^ 63 - 1)
int_suc (negsuc zero) = pos 0
int_suc (negsuc (suc n)) = negsuc n

-- The new value of an array element: what stands before the index, the value, and what stands
-- behind it.
unfoldable pub element_stage : String → ℤ → Value → Value
unfolding fields_of items_of int_suc
element_stage name idx v =
    let expr = str (str_append "$" name) in
    single "$set" (
      single name (
        single "$concatArrays" (
          arr (
            items_of (
              single "$slice" (arr (items_of (expr ∷ int idx ∷ [])))
              ∷ arr (items_of (v ∷ []))
              ∷ single "$slice"
                  (arr (items_of (expr ∷ int (int_suc idx) ∷ single "$size" expr ∷ [])))
              ∷ [])))))

unfoldable pub update_stage : Assoc String (List Value) → String × Value → Value
unfolding is_array_path join_init last_part atoi element_stage fields_of
update_stage dp (key, v) =
    if is_array_path key dp
    then (let parts = split_dot key in element_stage (join_init parts) (atoi (last_part parts)).0 v)
    else single "$set" (single key v)

unfoldable pub unset_stage : List String → List Value
unfolding fields_of items_of
unset_stage [] = []
unset_stage (f ∷ fs) = single "$unset" (arr (items_of (map str (f ∷ fs)))) ∷ []

unfoldable pub pipeline_stages : UpdateDescription → List Value
unfolding truncate_stage update_stage unset_stage paths_map
pipeline_stages d =
    map truncate_stage d.truncated_arrays
    ++ (map (update_stage (paths_map [] d.disambiguated_paths)) d.updated_fields
        ++ unset_stage d.removed_fields)

unfoldable pub collect_update_ops_with_pipeline : UpdateDescription → Value
unfolding pipeline_stages items_of
collect_update_ops_with_pipeline d = arr (items_of (pipeline_stages d))

-- Some truncated array's name begins the key of an updated field.
unfoldable pub has_conflict : UpdateDescription → Bool
has_conflict d =
    any
      (λ (t : TruncatedArray).
        any (λ (u : String × Value). starts_with u.0 t.field) d.updated_fields)
      d.truncated_arrays

unfoldable pub unset_field : String → String × Value
unset_field f = (f, int (pos 1))

unfoldable pub push_field : TruncatedArray → String × Value
unfolding fields_of items_of
push_field t =
    (t.field, doc (fields_of (("$each", arr (items_of [])) ∷ ("$slice", int t.new_size) ∷ [])))

-- An operator that stands in the update only if it has fields.
unfoldable pub operator : String → Doc → Doc
operator name [] = []
operator name (f ∷ fs) = (name, doc (fields_of (f ∷ fs))) ∷ []

unfoldable pub update_ops : UpdateDescription → Doc
unfolding operator unset_field push_field fields_of
update_ops d =
    operator "$set" d.updated_fields
    ++ (operator "$unset" (map unset_field d.removed_fields)
        ++ operator "$push" (map push_field d.truncated_arrays))

unfoldable pub collect_update_ops : UpdateDescription → Value
unfolding has_conflict collect_update_ops_with_pipeline update_ops fields_of
collect_update_ops d =
    if has_conflict d then collect_update_ops_with_pipeline d else doc (fields_of (update_ops d))
