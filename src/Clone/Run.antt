-- ===== src/Clone/Run.antt =====
-- doClone and run of pcsm/clone.go. The collections are cloned one after the other. A collection
-- that is renamed while it is copied is copied again, under its new name; `fuel` bounds the number of
-- times, and the result `false` says that it was used up.
use percona_link_mongodb.Bson.{Bytes}
use percona_link_mongodb.Prelude.{
  ℕ, zero, suc, String, Bool, true, false, Option, none, some, List, [], ◌∷◌, ◌==◌, string_eq,
  if◌then◌else◌,
}
use percona_link_mongodb.Errors.{is_sentinel, is_missing_namespace}
use percona_link_mongodb.Exec.{
  ok_if, Exec, Result, ok, fail, NoValue, no_value, wrapping, pure, gets, on_fail, context, ◌>>=◌,
  ◌>>◌,
}
use percona_link_mongodb.Topo.{cluster_time, get_collection_name_by_uuid}
use percona_link_mongodb.Clone.{renamed}
use percona_link_mongodb.Clone.Copying.{
  Cloning, Parts, on_world, on_clone, do_collection_clone, drop_on_target,
}
use percona_link_mongodb.Clone.Collect.{NamespaceInfo, collect, list_prioritized_namespaces}

-- `if err != nil && !errors.As(err, &NamespaceNotFoundError{})`
unfoldable pub unless_missing : Result NoValue → Result NoValue
unless_missing (ok v) = ok v
unless_missing (fail e) = ok_if (is_missing_namespace e) no_value (wrapping "%s" e)

-- The name, `none` for a collection that was dropped.
unfoldable pub unless_dropped : Result String → Result (Option String)
unless_dropped (ok name) = ok (some name)
unless_dropped (fail e) =
    if is_sentinel "not found" e
    then ok none
    else fail (wrapping "get collection name by uuid: %s" e)

module _ {S A B : Type 0} where
  unfoldable pub via : (Result A → Result B) → Exec S A → Exec S B
  via f m s = let (r, s') = m s in (f r, s')

module _ {W : Type 0} (parts : Parts W) where
  abbrev with_name : String → NamespaceInfo → NamespaceInfo
  with_name name ns = record ns { namespace = record ns.namespace { collection = name } }

  -- The result is the collection to clone again, if there is one.
  unfoldable pub after_rename :
      NamespaceInfo → Option String → Exec (Cloning W) (Option NamespaceInfo)
  unfolding ◌>>=◌ on_clone on_fail pure
  after_rename ns none = pure none
  after_rename ns (some name) = if name == ns.namespace.collection then pure none else do
    on_clone (renamed ns.namespace (with_name name ns).namespace)
    context "drop collection %q" (drop_on_target parts ns.namespace)
    pure (some (with_name name ns))

  unfoldable pub find_renamed :
      NamespaceInfo → Option Bytes → Exec (Cloning W) (Option NamespaceInfo)
  unfolding ◌>>=◌ on_world via pure after_rename
  find_renamed ns none = pure none
  find_renamed ns (some uuid) = do
    name ←
        via unless_dropped
          (on_world (get_collection_name_by_uuid parts.source ns.namespace.database uuid))
    after_rename ns name

  -- One round of the loop of doClone.
  unfoldable pub clone_round : NamespaceInfo → Exec (Cloning W) (Option NamespaceInfo)
  unfolding ◌>>=◌ via find_renamed
  clone_round ns = do
    via unless_missing (do_collection_clone parts ns.namespace)
    find_renamed ns ns.uuid

  unfoldable pub clone_rounds : ℕ → NamespaceInfo → Exec (Cloning W) Bool
  unfolding ◌>>=◌ pure clone_round
  clone_rounds zero ns = pure false
  clone_rounds (suc fuel) ns =
      clone_round ns >>= λ again. elim again [ none ↦ pure true | some ns' ↦ clone_rounds fuel ns' ]

  unfoldable pub do_clone : ℕ → List NamespaceInfo → Exec (Cloning W) Bool
  unfolding ◌>>=◌ pure clone_rounds
  do_clone fuel [] = pure true
  do_clone fuel (ns ∷ namespaces) =
      clone_rounds fuel ns >>= λ over. if over then do_clone fuel namespaces else pure false

  module _ (ns_filter : String → String → Bool) where
    unfoldable pub collect_size_map : Exec (Cloning W) NoValue
    unfolding ◌>>=◌ on_world on_clone
    collect_size_map = do
      sizes ← on_world (collect parts.source ns_filter)
      on_clone (λ c. let (m, total) = sizes in record c { size_map = m; total_size = total })

    unfoldable pub finish_run : Bool → Exec (Cloning W) Bool
    unfolding ◌>>=◌ on_world on_clone on_fail pure
    finish_run false = pure false
    finish_run true = do
      finish_ts ← context "finishTS: get source cluster time" (on_world (cluster_time parts.source))
      on_clone (λ c. record c { finish_ts = finish_ts })
      pure true

    unfoldable pub run : ℕ → Exec (Cloning W) Bool
    unfolding ◌>>=◌ on_world on_clone on_fail gets do_clone collect_size_map finish_run
    run fuel = do
      start_ts ← context "startTS: get source cluster time" (on_world (cluster_time parts.source))
      on_clone (λ c. record c { start_ts = start_ts })
      context "get size map" collect_size_map
      namespaces ← gets (λ s. list_prioritized_namespaces s.clone)
      over ← context "copy" (do_clone fuel namespaces)
      finish_run over
