-- ===== src/Bulk/Queue.antt =====
-- What the two queues of pcsm/bulk.go hold: the collection queue is the client queue, split by
-- namespace.
use mathlib.Core.List.{append_assoc, append-nil}
use percona_link_mongodb.Prelude.Maps.{lookup, lookup-insert}
use percona_link_mongodb.Prelude.{
  ℕ, ◌≡◌, refl, sym, ◌∙◌, ap, List, [], ◌∷◌, ◌++◌, length, arith, ◌==◌, ==_iff, if◌then◌else◌,
}
use percona_link_mongodb.Events.{Namespace, namespace_eq}
use percona_link_mongodb.Bulk.{
  WriteModel, Bulk, client, collection, ops_of, add, new_client_bulk_write,
  new_collection_bulk_write,
}

-- A queue that takes a list of writes, as Insert, Update, Replace and Delete do one by one.
unfoldable pub add_all : (ℕ → ℕ) → List (Namespace × WriteModel) → Bulk → Bulk
add_all grow [] o = o
add_all grow ((ns, m) ∷ ws) o = add_all grow ws (add grow ns m o)

-- The writes of one namespace, in order.
abbrev pub writes_of : Namespace → List (Namespace × WriteModel) → List WriteModel
writes_of ns [] = []
writes_of ns ((k, m) ∷ ws) = let rest = writes_of ns ws in if k == ns then m ∷ rest else rest

-- The writes that a queue holds for one namespace.
unfoldable pub queued : Bulk → Namespace → List WriteModel
unfolding ops_of
queued (client o) ns = writes_of ns o.writes
queued (collection o) ns = ops_of (lookup ns o.writes)

-- How many writes a queue holds.
unfoldable pub size : Bulk → ℕ
size (client o) = length o.writes
size (collection o) = o.count

writes_of-append :
    (ns : Namespace) (xs ys : List (Namespace × WriteModel))
    → writes_of ns (xs ++ ys) ≡ writes_of ns xs ++ writes_of ns ys
writes_of-append ns [] ys = refl
writes_of-append ns ((k, m) ∷ xs) ys = ground (arith, writes_of-append ns xs ys)

queued-add :
    (grow : ℕ → ℕ) (k ns : Namespace) (m : WriteModel) (o : Bulk)
    → queued (add grow k m o) ns ≡ queued o ns ++ writes_of ns ((k, m) ∷ [])
unfolding queued add
queued-add grow k ns m (client o) = writes_of-append ns o.writes ((k, m) ∷ [])
queued-add grow k ns m (collection o) =
    simp lookup-insert (ground (arith, ==_iff k ns, append-nil (ops_of (lookup ns o.writes))))

queued-add_all :
    (grow : ℕ → ℕ) (ws : List (Namespace × WriteModel)) (o : Bulk) (ns : Namespace)
    → queued (add_all grow ws o) ns ≡ queued o ns ++ writes_of ns ws
unfolding add_all
queued-add_all grow [] o ns = sym (append-nil _)
queued-add_all grow ((k, m) ∷ ws) o ns =
    queued-add_all grow ws (add grow k m o) ns
    ∙ ap (λ (l : List WriteModel). l ++ writes_of ns ws) (queued-add grow k ns m o)
    ∙ append_assoc (queued o ns) (writes_of ns ((k, m) ∷ [])) (writes_of ns ws)
    ∙ ap (λ (l : List WriteModel). queued o ns ++ l) (sym (writes_of-append ns ((k, m) ∷ []) ws))

-- For every list of writes, namespace, and pair of queue sizes: after the writes have been added to
-- a new client queue and to a new collection queue, both hold for the namespace exactly the writes
-- of the list for that namespace, in the order of the list.
pub queues_agree :
    (grow : ℕ → ℕ) (ws : List (Namespace × WriteModel)) (a b : ℕ) (ns : Namespace)
    → (queued (add_all grow ws (new_client_bulk_write a)) ns ≡ writes_of ns ws)
      × (queued (add_all grow ws (new_collection_bulk_write b)) ns ≡ writes_of ns ws)
unfolding new_client_bulk_write new_collection_bulk_write queued lookup
queues_agree grow ws a b ns = (queued-add_all grow ws _ ns, queued-add_all grow ws _ ns)
