-- ===== src/Bulk/Fields.antt =====
-- Properties of the updates that pcsm/bulk.go builds: what can be read back from an update without
-- a conflict, and how the path of an updated field is read.
use percona_link_mongodb.Prelude.Maps.{Assoc, lookup}
use percona_link_mongodb.Bson.{
  pos, Value, str, int, doc, end, field, Doc, doc_of_fields, doc_of_fields-fields_of,
}
use percona_link_mongodb.Prelude.{
  String, ◌≡◌, refl, true, false, some, List, [], ◌∷◌, ◌++◌, map, any, arith, ◌==◌, string_eq,
  if◌then◌else◌,
}
use percona_link_mongodb.Events.{TruncatedArray, UpdateDescription}
use percona_link_mongodb.Bulk.Update.{
  split_dot, join_init, last_part, atoi, is_int, is_array_path, element_stage, update_stage,
  has_conflict, unset_field, push_field, operator, update_ops, collect_update_ops,
}

-- The fields under an operator of an update document.
abbrev operand : Value → Doc
operand (doc fs) = doc_of_fields fs
operand _ = []

abbrev read_operator : String → Doc → Doc
read_operator name [] = []
read_operator name ((k, v) ∷ ops) = if k == name then operand v else read_operator name ops

abbrev read_key : String × Value → String
read_key (k, v) = k

-- The size in { $each: [], $slice: size }.
abbrev read_slice : String × Value → TruncatedArray
read_slice (k, doc (field each v (field slice (int n) end))) = record { field = k; new_size = n }
read_slice (k, v) = record { field = k; new_size = pos 0 }

-- The updated fields, the removed fields and the truncated arrays of an update document.
pub read_update : Value → Doc × List String × List TruncatedArray
read_update (doc fs) =
    let ops = doc_of_fields fs in
    (
      read_operator "$set" ops,
      map read_key (read_operator "$unset" ops),
      map read_slice (read_operator "$push" ops),
    )
read_update _ = ([], [], [])

map-read_key : (fs : List String) → map read_key (map unset_field fs) ≡ fs
unfolding unset_field
map-read_key [] = refl
map-read_key (f ∷ fs) = ground (arith, map-read_key fs)

map-read_slice : (ts : List TruncatedArray) → map read_slice (map push_field ts) ≡ ts
unfolding push_field
map-read_slice [] = refl
map-read_slice (t ∷ ts) = ground (arith, map-read_slice ts)

three_operators : Doc → Doc → Doc → Doc
three_operators a b c = operator "$set" a ++ (operator "$unset" b ++ operator "$push" c)

module _ (b c : Doc) where
  read-set : (a : Doc) → read_operator "$set" (three_operators a b c) ≡ a
  unfolding three_operators operator
  read-set [] = read-set_none b c
    where
      read-set_none :
          (b c : Doc) → read_operator "$set" (operator "$unset" b ++ operator "$push" c) ≡ []
      read-set_none [] [] = refl
      read-set_none [] (y ∷ ys) = refl
      read-set_none (x ∷ xs) [] = refl
      read-set_none (x ∷ xs) (y ∷ ys) = refl
  read-set (x ∷ xs) = doc_of_fields-fields_of (x ∷ xs)

read-unset_none : (c : Doc) → read_operator "$unset" (operator "$push" c) ≡ []
unfolding operator
read-unset_none [] = refl
read-unset_none (y ∷ ys) = refl

read-unset : (a b c : Doc) → read_operator "$unset" (three_operators a b c) ≡ b
unfolding three_operators operator
read-unset [] [] c = read-unset_none c
read-unset (x ∷ xs) [] c = read-unset_none c
read-unset [] (y ∷ ys) c = doc_of_fields-fields_of (y ∷ ys)
read-unset (x ∷ xs) (y ∷ ys) c = doc_of_fields-fields_of (y ∷ ys)

read-push : (a b c : Doc) → read_operator "$push" (three_operators a b c) ≡ c
unfolding three_operators operator
read-push [] [] [] = refl
read-push [] [] (z ∷ zs) = doc_of_fields-fields_of (z ∷ zs)
read-push [] (y ∷ ys) [] = refl
read-push [] (y ∷ ys) (z ∷ zs) = doc_of_fields-fields_of (z ∷ zs)
read-push (x ∷ xs) [] [] = refl
read-push (x ∷ xs) [] (z ∷ zs) = doc_of_fields-fields_of (z ∷ zs)
read-push (x ∷ xs) (y ∷ ys) [] = refl
read-push (x ∷ xs) (y ∷ ys) (z ∷ zs) = doc_of_fields-fields_of (z ∷ zs)

update_ops-three_operators :
    (d : UpdateDescription)
    → update_ops d
      ≡ three_operators d.updated_fields
          (map unset_field d.removed_fields)
          (map push_field d.truncated_arrays)
unfolding update_ops three_operators
update_ops-three_operators d = refl

-- Every part of a description without a conflict is in the update that is sent, and can be read
-- back from it: the updated fields in order under $set, the removed fields under $unset, and the
-- truncated arrays with their new sizes under $push.
pub read_update-collect_update_ops :
    (d : UpdateDescription)
    → has_conflict d ≡ false
    → read_update (collect_update_ops d) ≡ (d.updated_fields, d.removed_fields, d.truncated_arrays)
unfolding collect_update_ops read_update
read_update-collect_update_ops d h = rw h (
    simp (
      doc_of_fields-fields_of, update_ops-three_operators, read-set, read-unset, read-push,
      map-read_key, map-read_slice,
    ))

any-append :
    (front : List Value) (v : Value) → any is_int front ≡ true → any is_int (front ++ v ∷ []) ≡ true
any-append [] v h = cc
any-append (x ∷ xs) v h = ground (arith, any-append xs v)

is_array_path-index :
    (dp : Assoc String (List Value)) (key : String) (path : List Value)
    → lookup key dp ≡ some path
    → any is_int path ≡ true
    → is_array_path key dp ≡ true
unfolding is_array_path
is_array_path-index dp key path found index = rw (found, is_array_path) index

-- For an updated field whose disambiguated path ends in the name of a field, with an array index
-- anywhere before it: the field is written as an element of an array all the same, the array being
-- the key without its last part and the index being what Atoi makes of the last part.
pub update_stage-name_after_index :
    (dp : Assoc String (List Value)) (key name : String) (v : Value) (front : List Value)
    → lookup key dp ≡ some (front ++ str name ∷ [])
    → any is_int front ≡ true
    → update_stage dp (key, v)
      ≡ element_stage (join_init (split_dot key)) (atoi (last_part (split_dot key))).0 v
unfolding update_stage
update_stage-name_after_index dp key name v front found index =
    rw (is_array_path-index dp key _ found (any-append front (str name) index))
