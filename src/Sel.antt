-- ===== src/Sel.antt =====
-- sel/sel.go: the namespace filter that decides which collections are cloned and replicated.
-- A filter is the list of texts "db.coll" or "db.*"; its map is `FilterMap`.
pub mod Meaning
mod Tests
use Prim.Native.Char.{code}
use percona_link_mongodb.Prelude.Maps.{Assoc, lookup, insert}
use percona_link_mongodb.Prelude.{
  String, Bool, true, false, not, ◌&&◌, Option, none, some, List, [], ◌∷◌, ◌++◌, is_empty, contains,
  nat_eqb, ◌==◌, string_eq, if◌then◌else◌, is_some,
}

-- strings.Cut(s, "."): the text before the first dot, and the text after it (empty with no dot).
unfoldable pub cut_dot : String → String × String
cut_dot String.[] = ("", "")
cut_dot (String.◌∷◌ c s) =
    let (before, after) = cut_dot s in
    if nat_eqb (code c) b'.' then ("", s) else (String.◌∷◌ c before, after)

abbrev pub FilterMap : Type 0
FilterMap = Assoc String (List String)

-- A key whose list is empty stands for the whole database.
unfoldable pub has_coll : Option (List String) → String → Bool
has_coll none coll = false
has_coll (some []) coll = true
has_coll (some (c ∷ cs)) coll = contains (c ∷ cs) coll

unfoldable pub has : FilterMap → String → String → Bool
unfolding has_coll
has f db coll = has_coll (lookup db f) coll

-- The list that a key gets, given what `filterMap[db]` holds.
unfoldable pub entry_list : Option (List String) → String → List String
entry_list (some []) coll = []
entry_list none coll = if coll == "*" then [] else coll ∷ []
entry_list (some (c ∷ cs)) coll = if coll == "*" then [] else (c ∷ cs) ++ (coll ∷ [])

-- One round of the loop of doMakeFitler.
unfoldable pub add_filter : FilterMap → String → FilterMap
unfolding entry_list cut_dot
add_filter m f = let (db, coll) = cut_dot f in insert db (entry_list (lookup db m) coll) m

unfoldable pub make_filter_from : FilterMap → List String → FilterMap
unfolding add_filter
make_filter_from m [] = m
make_filter_from m (f ∷ fs) = make_filter_from (add_filter m f) fs

unfoldable pub do_make_filter : List String → FilterMap
unfolding make_filter_from
do_make_filter fs = make_filter_from [] fs

-- The closure that MakeFilter returns, over the two maps.
unfoldable pub filter_with : FilterMap → FilterMap → String → String → Bool
unfolding has
filter_with include exclude db coll =
    let db_included = is_some (lookup db include) in
    let db_excluded = is_some (lookup db exclude) in
    let ns_included = not (is_empty include) && has include db coll in
    let ns_excluded = not (is_empty exclude) && has exclude db coll in
    if ns_included && db_included && not ns_excluded
    then true
    else if db_included && not ns_excluded
    then false
    else if ns_excluded && db_excluded
    then false
    else if db_excluded
    then true
    else true

unfoldable pub allow_all_filter : String → String → Bool
allow_all_filter db coll = true

unfoldable pub make_filter : List String → List String → String → String → Bool
unfolding do_make_filter filter_with allow_all_filter
make_filter include exclude =
    if is_empty include && is_empty exclude
    then allow_all_filter
    else filter_with (do_make_filter include) (do_make_filter exclude)
