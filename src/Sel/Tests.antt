-- ===== src/Sel/Tests.antt =====
-- Witnesses and tests of the filter, on the lists of sel/sel_test.go.
use percona_link_mongodb.Prelude.Maps.{insert, lookup}
use percona_link_mongodb.Prelude.{String, true, false, not, ◌&&◌, ◌||◌, ◌≡◌, refl, List, [], ◌∷◌}
use percona_link_mongodb.Sel.{make_filter}
use percona_link_mongodb.Sel.Meaning.{listed, mentions, make_filter-eq-listed}

abbrev included : List String
included = "db_0.*" ∷ "db_1.coll_0" ∷ "db_1.coll_1" ∷ "db_2.coll_0" ∷ "db_2.coll_1" ∷ []

abbrev excluded : List String
excluded = "db_0.*" ∷ "db_1.coll_0" ∷ "db_3.coll_1" ∷ []

filter_table :
    (make_filter included excluded "db_0" "coll_0" ≡ false)
    × (make_filter included excluded "db_1" "coll_0" ≡ false)
    × (make_filter included excluded "db_1" "coll_1" ≡ true)
    × (make_filter included excluded "db_2" "coll_2" ≡ false)
    × (make_filter included excluded "db_3" "coll_1" ≡ false)
    × (make_filter included excluded "db_4" "coll_0" ≡ true)
unfolding make_filter insert lookup
filter_table = (refl, refl, refl, refl, refl, refl)

make_filter-eq-listed_example : make_filter included excluded "db_1" "coll_1" ≡ (
    not (listed excluded "db_1" "coll_1")
    && (not (mentions included "db_1") || listed included "db_1" "coll_1"))
make_filter-eq-listed_example = make_filter-eq-listed included excluded "db_1" "coll_1"
