-- ===== src/Sel/Meaning.antt =====
-- What a namespace filter means, stated on the lists that the user gave, and that the filter of
-- sel/sel.go decides it.
use percona_link_mongodb.Prelude.Maps.{lookup, lookup-insert}
use percona_link_mongodb.Prelude.{
  String, Bool, true, not, ◌&&◌, ◌||◌, ◌≡◌, refl, ◌∙◌, ap, Option, none, some, List, [], ◌∷◌, ◌++◌,
  is_empty, contains, any, arith, or_assoc, ==_iff, ◌==◌, string_eq, is_some,
}
use percona_link_mongodb.Sel.{
  FilterMap, cut_dot, has_coll, has, entry_list, add_filter, make_filter_from, do_make_filter,
  filter_with, make_filter,
}

-- The entry names the database, with a collection or with the star.
abbrev pub names_db : String → String → Bool
names_db db f = (cut_dot f).0 == db

-- The entry covers the namespace.
abbrev pub covers : String → String → String → Bool
covers db coll f = ((cut_dot f).0 == db) && (((cut_dot f).1 == "*") || ((cut_dot f).1 == coll))

abbrev pub listed : List String → String → String → Bool
listed fs db coll = any (covers db coll) fs

abbrev pub mentions : List String → String → Bool
mentions fs db = any (names_db db) fs

contains-append :
    (xs : List String) (a c : String) → contains (xs ++ a ∷ []) c ≡ (contains xs c || (a == c))
contains-append [] a c = ground arith
contains-append (x ∷ xs) a c = ground (arith, contains-append xs a c)

has_coll-entry :
    (o : Option (List String)) (d c : String)
    → has_coll (some (entry_list o d)) c ≡ (has_coll o c || ((d == "*") || (d == c)))
unfolding has_coll entry_list
has_coll-entry none d c = ground arith
has_coll-entry (some []) d c = refl
has_coll-entry (some (x ∷ xs)) d c = ground (arith, contains-append (x ∷ xs) d c)

has-add_filter :
    (m : FilterMap) (f db coll : String)
    → has (add_filter m f) db coll ≡ (has m db coll || covers db coll f)
unfolding has add_filter
has-add_filter m f db coll = rw lookup-insert (
    ground
      (arith, ==_iff (cut_dot f).0 db, has_coll-entry (lookup (cut_dot f).0 m) (cut_dot f).1 coll))

dom-add_filter :
    (m : FilterMap) (f db : String)
    → is_some (lookup db (add_filter m f)) ≡ (is_some (lookup db m) || names_db db f)
unfolding add_filter
dom-add_filter m f db = rw lookup-insert (ground arith)

has-make_filter_from :
    (m : FilterMap) (fs : List String) (db coll : String)
    → has (make_filter_from m fs) db coll ≡ (has m db coll || listed fs db coll)
unfolding make_filter_from
has-make_filter_from m [] db coll = ground arith
has-make_filter_from m (f ∷ fs) db coll =
    has-make_filter_from (add_filter m f) fs db coll
    ∙ ap (λ (b : Bool). b || listed fs db coll) (has-add_filter m f db coll)
    ∙ or_assoc (has m db coll) (covers db coll f) (listed fs db coll)

dom-make_filter_from :
    (m : FilterMap) (fs : List String) (db : String)
    → is_some (lookup db (make_filter_from m fs)) ≡ (is_some (lookup db m) || mentions fs db)
unfolding make_filter_from
dom-make_filter_from m [] db = ground arith
dom-make_filter_from m (f ∷ fs) db =
    dom-make_filter_from (add_filter m f) fs db
    ∙ ap (λ (b : Bool). b || mentions fs db) (dom-add_filter m f db)
    ∙ or_assoc (is_some (lookup db m)) (names_db db f) (mentions fs db)

-- The map that doMakeFitler builds answers as a search through the list does.
pub has-do_make_filter :
    (fs : List String) (db coll : String) → has (do_make_filter fs) db coll ≡ listed fs db coll
unfolding do_make_filter has lookup
has-do_make_filter fs db coll = has-make_filter_from [] fs db coll

dom-do_make_filter :
    (fs : List String) (db : String) → is_some (lookup db (do_make_filter fs)) ≡ mentions fs db
unfolding do_make_filter lookup
dom-do_make_filter fs db = dom-make_filter_from [] fs db

has-is_empty :
    (m : FilterMap) (db coll : String) → (not (is_empty m) && has m db coll) ≡ has m db coll
unfolding has lookup
has-is_empty [] db coll = refl
has-is_empty (e ∷ m) db coll = refl

-- A listed namespace is mentioned by its database.
listed-mentions :
    (fs : List String) (db coll : String) → listed fs db coll ≡ true → mentions fs db ≡ true
listed-mentions [] db coll h = h
listed-mentions (f ∷ fs) db coll h = ground (arith, listed-mentions fs db coll)

filter_with-listed :
    (include exclude : List String) (db coll : String)
    → filter_with (do_make_filter include) (do_make_filter exclude) db coll
      ≡ (not (listed exclude db coll) && (not (mentions include db) || listed include db coll))
unfolding filter_with
filter_with-listed include exclude db coll =
    rw
      (
        has-is_empty, has-is_empty, has-do_make_filter, has-do_make_filter, dom-do_make_filter,
        dom-do_make_filter,
      )
      (ground (arith, listed-mentions include db coll, listed-mentions exclude db coll))

-- For every include list, exclude list, database and collection: MakeFilter lets the namespace
-- through exactly when no exclude entry covers it and, if some include entry names its database,
-- some include entry covers it. (A database that no include entry names is let through.)
pub make_filter-eq-listed :
    (include exclude : List String) (db coll : String)
    → make_filter include exclude db coll
      ≡ (not (listed exclude db coll) && (not (mentions include db) || listed include db coll))
unfolding make_filter
make_filter-eq-listed [] [] db coll = refl
make_filter-eq-listed [] (e ∷ es) db coll = filter_with-listed [] (e ∷ es) db coll
make_filter-eq-listed (i ∷ is) es db coll = filter_with-listed (i ∷ is) es db coll
