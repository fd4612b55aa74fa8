-- ===== src/Clone/Listed.antt =====
-- What collectSizeMap and listPrioritizedNamespaces of pcsm/clone.go choose to copy.
use percona_link_mongodb.Prelude.Maps.{lookup, insert, lookup-insert}
use percona_link_mongodb.Prelude.{
  ℕ, String, Bool, true, false, not, ◌&&◌, List, [], ◌∷◌, ◌≡◌, refl, arith, is_some, ◌==◌, ==_iff,
  string_eq,
}
use percona_link_mongodb.Errors.{is_sentinel}
use percona_link_mongodb.Exec.{Exec, Result, ok, fail, pure, context}
use percona_link_mongodb.Exec.Rules.{
  Outcome, Outcome-ok, Outcome-ok_if, Outcome-fail, Outcome-on_fail, Outcome-if, Outcome-bind,
}
use percona_link_mongodb.Events.{Namespace, namespace_eq}
use percona_link_mongodb.Topo.{
  type_view, Driver, CollectionSpecification, CollStats, list_collection_specs, list_database_names,
}
use percona_link_mongodb.Clone.{SizeMapElem, collect_size}
use percona_link_mongodb.Clone.Collect.{
  Sizes, pcsm_database, namespace_in, sized, is_left_out, add_view, add_stats, collect_collection,
  collect_collections, collect_database, collect_databases, collect,
}

module _ {W : Type 0} (source : Driver W) (ns_filter : String → String → Bool) where
  abbrev is_selected : Namespace → Bool
  is_selected ns = not (ns.database == pcsm_database) && ns_filter ns.database ns.collection

  -- Every namespace of the size map is outside the program's own database, and the filter lets it
  -- through.
  pub record AreSelected (sizes : Sizes) : Type 0 where
    pub at : (ns : Namespace) → is_some (lookup ns sizes.0) ≡ true → is_selected ns ≡ true

  abbrev Anything : W → Type 0
  Anything w = w ≡ w

  abbrev Selected : Sizes → W → Type 0
  Selected sizes w = AreSelected sizes

  insert-AreSelected :
      (ns : Namespace) (elem : SizeMapElem) (sizes : Sizes) (total : ℕ)
      → is_selected ns ≡ true
      → AreSelected sizes
      → AreSelected (insert ns elem sizes.0, total)
  insert-AreSelected ns elem sizes total here h = record {
    at =
        λ asked x. ground (arith, lookup-insert ns asked elem sizes.0, ==_iff ns asked, h.at asked);
  }

  anything : {A : Type 0} (m : Exec W A) (w : W) → Outcome (λ a. Anything) Anything (m w)
  anything m w = either (m w).0 (m w).1
    where
      either : {A : Type 0} (r : Result A) (w : W) → Outcome (λ a. Anything) Anything (r, w)
      either (ok a) w = Outcome-ok a w refl
      either (fail e) w = Outcome-fail e w refl

  sized-Selected :
      (ns : Namespace) (spec : CollectionSpecification) (sizes : Sizes) (r : Result CollStats)
      (w : W)
      → is_selected ns ≡ true
      → AreSelected sizes
      → Outcome Selected Anything (sized source ns_filter ns spec sizes r, w)
  unfolding sized collect_size
  sized-Selected ns spec sizes (ok stats) w here h =
      Outcome-ok _ w (insert-AreSelected ns _ sizes _ here h)
  sized-Selected ns spec sizes (fail e) w here h =
      Outcome-ok_if (is_sentinel "not found" e) sizes e w (λ _. h) λ _. refl

  collect_collection-Selected :
      (db : String) (spec : CollectionSpecification) (sizes : Sizes) (w : W)
      → (db == pcsm_database) ≡ false
      → AreSelected sizes
      → Outcome Selected Anything (collect_collection source ns_filter db spec sizes w)
  unfolding collect_collection is_left_out pure add_view add_stats
  collect_collection-Selected db spec sizes w own h =
      Outcome-if (is_left_out source ns_filter db spec) (pure sizes) _ w (λ _. Outcome-ok sizes w h)
        λ kept.
          Outcome-if (spec.kind == type_view)
            (add_view source ns_filter (namespace_in db spec) sizes)
            (add_stats source ns_filter (namespace_in db spec) spec sizes) w
            (λ _. Outcome-ok _ w (insert-AreSelected _ _ sizes _ (here kept) h))
            (λ _. sized-Selected _ spec sizes _ _ (here kept) h)
    where
      here :
          is_left_out source ns_filter db spec ≡ false → is_selected (namespace_in db spec) ≡ true
      here kept = ground arith

  collect_collections-Selected :
      (db : String) (specs : List CollectionSpecification) (sizes : Sizes) (w : W)
      → (db == pcsm_database) ≡ false
      → AreSelected sizes
      → Outcome Selected Anything (collect_collections source ns_filter db specs sizes w)
  unfolding collect_collections pure
  collect_collections-Selected db [] sizes w own h = Outcome-ok sizes w h
  collect_collections-Selected db (spec ∷ specs) sizes w own h =
      Outcome-bind (collect_collection source ns_filter db spec sizes) _ w
        (collect_collection-Selected db spec sizes w own h)
        λ sizes' w' h'. collect_collections-Selected db specs sizes' w' own h'

  collect_database-Selected :
      (db : String) (sizes : Sizes) (w : W)
      → AreSelected sizes
      → Outcome Selected Anything (collect_database source ns_filter db sizes w)
  unfolding collect_database pure
  collect_database-Selected db sizes w h =
      Outcome-if (db == pcsm_database) _ _ w (λ _. Outcome-ok sizes w h)
        λ own.
          Outcome-bind (context "listCollections" (list_collection_specs source db)) _ w
            (anything (context "listCollections" (list_collection_specs source db)) w)
            λ specs w' _.
              Outcome-on_fail _ (collect_collections source ns_filter db specs sizes) w'
                (collect_collections-Selected db specs sizes w' own h)

  collect_databases-Selected :
      (dbs : List String) (sizes : Sizes) (w : W)
      → AreSelected sizes
      → Outcome Selected Anything (collect_databases source ns_filter dbs sizes w)
  unfolding collect_databases pure
  collect_databases-Selected [] sizes w h = Outcome-ok sizes w h
  collect_databases-Selected (db ∷ dbs) sizes w h =
      Outcome-bind (collect_database source ns_filter db sizes) _ w
        (collect_database-Selected db sizes w h)
        λ sizes' w' h'. collect_databases-Selected dbs sizes' w' h'

  nothing-AreSelected : AreSelected ([], 0)
  unfolding lookup
  nothing-AreSelected = record { at = λ ns x. ground arith }

  -- Whatever databases and collections the source cluster lists: a size map that collectSizeMap
  -- makes without an error has only namespaces outside the program's own database that the
  -- namespace filter lets through.
  pub collect-AreSelected : (w : W) → Outcome Selected Anything (collect source ns_filter w)
  unfolding collect
  collect-AreSelected w =
      Outcome-bind (context "list database names" (list_database_names source)) _ w
        (anything (context "list database names" (list_database_names source)) w)
        λ dbs w' _.
          Outcome-on_fail _ (collect_databases source ns_filter dbs ([], 0)) w'
            (collect_databases-Selected dbs ([], 0) w' nothing-AreSelected)
