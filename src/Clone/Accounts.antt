-- ===== src/Clone/Accounts.antt =====
-- What doCollectionClone of pcsm/clone.go makes of the sizes, as numbers that wrap round at 2 ^ 64.
use percona_link_mongodb.Prelude.Maps.{remove, lookup-remove}
use percona_link_mongodb.Prelude.{
  ℕ, ◌+◌, ◌%◌, ◌^◌, ◌≤◌, ◌<◌, ◌≡◌, refl, ◌∙◌, false, Option, none, some, List, [], ◌∷◌, arith, ◌==◌,
  string_eq,
}
use percona_link_mongodb.Errors.{Error, is_sentinel, is_collection_dropped, is_collection_renamed}
use percona_link_mongodb.Exec.{
  no_value, Exec, Result, ok, fail, NoValue, wrapping, pure, raise, skip, ignoring, ◌>>=◌, ◌>>◌,
}
use percona_link_mongodb.Exec.Rules.{
  Outcome, Outcome-ok, Outcome-fail, Outcome-if, Outcome-bind, Outcome-weaken,
}
use percona_link_mongodb.Events.{Namespace, namespace_eq}
use percona_link_mongodb.Topo.{CollectionSpecification}
use percona_link_mongodb.Clone.{Clone, elem_of, size_of, plus64, minus64, dropped, copied, adjusted}
use percona_link_mongodb.Clone.Copying.{
  copy_documents, Cloning, Parts, CopyUpdate, on_catalog, on_clone, drop_on_target, prepare,
  on_update_error, read_updates, do_collection_clone,
}
use percona_link_mongodb.Clone.Sizes.{size_of-removed}
use percona_link_mongodb.Clone.Quiet.{IsQuiet, prepare-IsQuiet}

module _ (ns : Namespace) where
  -- The sizes of all other collections are what they were.
  pub record OthersKept (c c' : Clone) : Type 0 where
    pub at : (k : Namespace) → (ns == k) ≡ false → size_of k c'.size_map ≡ size_of k c.size_map

  OthersKept-trans : (c d e : Clone) → OthersKept c d → OthersKept d e → OthersKept c e
  OthersKept-trans c d e h k = record { at = λ j x. k.at j x ∙ h.at j x }

  -- From `c`, with `total` copied of the collection, to `c'`, with `total'`.
  record Accounted (c : Clone) (total : ℕ) (c' : Clone) (total' : ℕ) : Type 0 where
    in_copied : (c'.copied_size + total) % 2 ^ 64 ≡ (c.copied_size + total') % 2 ^ 64
    in_total :
        (c'.total_size + size_of ns c.size_map) % 2 ^ 64
        ≡ (c.total_size + size_of ns c'.size_map) % 2 ^ 64
    less : size_of ns c'.size_map ≤ size_of ns c.size_map
    others : OthersKept c c'

  Accounted-refl : (c : Clone) (total : ℕ) → Accounted c total c total
  Accounted-refl c total = record {
    in_copied = refl;
    in_total = refl;
    less = omega arith;
    others = record { at = λ k x. refl };
  }

  Accounted-trans :
      (c d e : Clone) (i j k : ℕ) → Accounted c i d j → Accounted d j e k → Accounted c i e k
  Accounted-trans c d e i j k g h = record {
    in_copied = omega (arith, g.in_copied, h.in_copied);
    in_total = omega (arith, g.in_total, h.in_total);
    less = omega (arith, g.less, h.less);
    others = OthersKept-trans c d e g.others h.others;
  }

  removed-OthersKept : (c d : Clone) → d.size_map ≡ remove ns c.size_map → OthersKept c d
  unfolding size_of elem_of
  removed-OthersKept c d e = record {
    at = λ k x. rw e (ground (arith, lookup-remove ns k c.size_map));
  }

  dropped-Accounted :
      (c : Clone) (total : ℕ)
      → size_of ns c.size_map < 2 ^ 64
      → Accounted c total (dropped ns c) total
  unfolding dropped minus64
  dropped-Accounted c total small = record {
    in_copied = refl;
    in_total = rw (size_of-removed ns c) (omega (arith, small));
    less = rw (size_of-removed ns c) (omega arith);
    others = removed-OthersKept c (dropped ns c) refl;
  }

  copied-Accounted :
      (c : Clone) (total bytes : ℕ) → Accounted c total (copied bytes c) (plus64 total bytes)
  unfolding copied plus64
  copied-Accounted c total bytes = record {
    in_copied = omega arith;
    in_total = refl;
    less = omega arith;
    others = record { at = λ k x. refl };
  }

  -- The end of a copy in which `total` was copied.
  pub record Cleared (c c' : Clone) : Type 0 where
    pub gone : size_of ns c'.size_map ≡ 0
    pub remaining :
        (c'.total_size + c.copied_size + size_of ns c.size_map) % 2 ^ 64
        ≡ (c.total_size + c'.copied_size) % 2 ^ 64
    pub others : OthersKept c c'

  adjusted-Cleared :
      (c d : Clone) (total : ℕ)
      → Accounted c 0 d total
      → size_of ns c.size_map < 2 ^ 64
      → total < 2 ^ 64
      → Cleared c (adjusted ns total d)
  unfolding adjusted minus64
  adjusted-Cleared c d total h small bound = record {
    gone = size_of-removed ns d;
    remaining = omega (arith, h.in_copied, h.in_total, h.less, small, bound);
    others = OthersKept-trans c d _ h.others (removed-OthersKept d _ refl);
  }

module _ {W : Type 0} (parts : Parts W) (ns : Namespace) where
  abbrev Counts : Clone → ℕ → ℕ → Cloning W → Type 0
  Counts c i j s = Accounted ns c i s.clone j

  abbrev Fails : Clone → Cloning W → Type 0
  Fails c s = OthersKept ns c s.clone

  skip-Accounted :
      (s : Cloning W) (i : ℕ)
      → Outcome (λ (v : NoValue). Counts s.clone i i) (Fails s.clone) (skip s)
  unfolding skip
  skip-Accounted s i = Outcome-ok no_value s (Accounted-refl ns s.clone i)

  on_update_error-Accounted :
      (e : Option Error) (s : Cloning W) (i : ℕ)
      → size_of ns s.clone.size_map < 2 ^ 64
      → Outcome (λ (v : NoValue). Counts s.clone i i) (Fails s.clone) (on_update_error parts ns e s)
  unfolding on_update_error ◌>>=◌ ignoring on_catalog on_clone raise
  on_update_error-Accounted none s i small = skip-Accounted s i
  on_update_error-Accounted (some e) s i small =
      Outcome-if (is_collection_dropped e)
        (ignoring (drop_on_target parts ns) >> on_clone (dropped ns)) _ s
        (λ _. Outcome-ok no_value _ (dropped-Accounted ns s.clone i small))
        λ _.
          Outcome-if (is_collection_renamed e) skip _ s (λ _. skip-Accounted s i)
            λ _.
              Outcome-if (is_sentinel "timeseries is not supported" e) skip
                (raise (wrapping ns.collection e)) s (λ _. skip-Accounted s i)
                (λ _. Outcome-fail _ s (Accounted-refl ns s.clone i).others)

  -- The state after a step, with the total that it gives.
  record Counted (c : Clone) (i j : ℕ) (s : Cloning W) : Type 0 where
    counts : Accounted ns c i s.clone j
    bound : j < 2 ^ 64

  read_updates-Counted :
      (updates : List CopyUpdate) (c : Clone) (i j : ℕ) (s : Cloning W)
      → size_of ns c.size_map < 2 ^ 64
      → Counted c i j s
      → Outcome (Counted c i) (Fails c) (read_updates parts ns j updates s)
  unfolding read_updates pure on_clone plus64
  read_updates-Counted [] c i j s small h = Outcome-ok j s h
  read_updates-Counted (u ∷ updates) c i j s small h =
      Outcome-bind (on_update_error parts ns u.err) _ s
        (Outcome-weaken _ _ (λ _ k. Accounted-trans ns c _ _ i j j h.counts k)
          (OthersKept-trans ns c _ _ h.counts.others)
          (on_update_error-Accounted u.err s j (omega (arith, small, h.counts.less))))
        λ _ s' k. read_updates-Counted updates c i (plus64 j u.size_bytes) _ small (record {
          counts = Accounted-trans ns c _ _ i j _ k (copied-Accounted ns s'.clone j u.size_bytes);
          bound = omega arith;
        })

  ended :
      (m : Exec (Cloning W) CollectionSpecification) (s : Cloning W)
      → IsQuiet m
      → Outcome (λ spec s'. s'.clone ≡ s.clone) (λ s'. s'.clone ≡ s.clone) (m s)
  ended m s h = either (m s).0 (m s).1 (h.at s)
    where
      either :
          (r : Result CollectionSpecification) (s' : Cloning W)
          → s'.clone ≡ s.clone
          → Outcome (λ spec s'. s'.clone ≡ s.clone) (λ s'. s'.clone ≡ s.clone) (r, s')
      either (ok a) s' e = Outcome-ok a s' e
      either (fail x) s' e = Outcome-fail x s' e

  begin-Counted : (c : Clone) (s : Cloning W) → s.clone ≡ c → Counted c 0 0 s
  begin-Counted c s e = record { counts = rw e (Accounted-refl ns c 0); bound = omega arith }

  same-OthersKept : (c d : Clone) → d ≡ c → OthersKept ns c d
  same-OthersKept c d e = rw e (record { at = λ k x. refl })

  copy_documents-Cleared :
      (spec : CollectionSpecification) (c : Clone) (s : Cloning W)
      → size_of ns c.size_map < 2 ^ 64
      → s.clone ≡ c
      → Outcome (λ _ s'. Cleared ns c s'.clone) (Fails c) (copy_documents parts ns spec s)
  unfolding copy_documents on_clone
  copy_documents-Cleared spec c s small e =
      let (updates, w) = parts.copy ns spec s.world in
      let s' : Cloning W = record s { world = w } in
      Outcome-bind {Q = Counted c 0} (read_updates parts ns 0 updates) _ s'
        (read_updates-Counted updates c 0 0 s' small (begin-Counted c s' e))
        λ total s'' h.
          Outcome-ok no_value _ (adjusted-Cleared ns c s''.clone total h.counts small h.bound)

  -- Whatever the copy manager reports: where doCollectionClone returns without an error, the size map
  -- has no size for the collection any more, and totalSize less copiedSize is smaller by the size that
  -- it had (as uint64 numbers; the equation adds instead of taking away). The sizes of all other
  -- collections are kept, also where it fails.
  pub do_collection_clone-Cleared :
      (s : Cloning W)
      → size_of ns s.clone.size_map < 2 ^ 64
      → Outcome
          (λ _ s'. Cleared ns s.clone s'.clone)
          (λ s'. OthersKept ns s.clone s'.clone)
          (do_collection_clone parts ns s)
  unfolding do_collection_clone
  do_collection_clone-Cleared s small =
      Outcome-bind {Q = λ spec s'. s'.clone ≡ s.clone} (prepare parts ns) (copy_documents parts ns)
        s
        (Outcome-weaken _ _ (λ _ e. e) (same-OthersKept s.clone _)
          (ended (prepare parts ns) s (prepare-IsQuiet parts ns)))
        λ spec s' e. copy_documents-Cleared spec s.clone s' small e
