-- ===== src/Bulk/Flush.antt =====
-- Bounds of the queues of pcsm/bulk.go, and what Do reports and leaves behind.
use percona_link_mongodb.Prelude.Maps.{Assoc, lookup, insert}
use percona_link_mongodb.Prelude.{
  ℕ, ◌+◌, ◌≤◌, ◌≡◌, refl, true, false, Option, none, some, List, [], ◌∷◌, ◌++◌, length,
  length-append, arith,
}
use percona_link_mongodb.Errors.{Error}
use percona_link_mongodb.Events.{Namespace, namespace_eq}
use percona_link_mongodb.Bulk.{
  WriteModel, ClientBulk, CollectionBulk, Bulk, client, collection, ops_of, full, empty, add,
  BulkTarget, coll_write, client_write, client_done, coll_done, coll_loop, do_bulk,
}
use percona_link_mongodb.Bulk.Queue.{size}

unfoldable pub total_ops : Assoc Namespace (List WriteModel) → ℕ
total_ops [] = 0
total_ops ((ns, ops) ∷ rest) = length ops + total_ops rest

-- The size that the queue was made with.
abbrev pub limit : Bulk → ℕ
limit (client o) = o.cap
limit (collection o) = o.max_ops

abbrev pub CountIsRight : Bulk → Type 0
CountIsRight (client o) = Unit
CountIsRight (collection o) = o.count ≡ total_ops o.writes

-- The count of the collection queue is right, and no queue is over its size.
pub record IsValid (o : Bulk) : Type 0 where
  pub counted : CountIsRight o
  pub bounded : size o ≤ limit o

total_ops-insert :
    (ns : Namespace) (m : WriteModel) (ws : Assoc Namespace (List WriteModel))
    → total_ops (insert ns (ops_of (lookup ns ws) ++ m ∷ []) ws) ≡ total_ops ws + 1
unfolding total_ops insert lookup ops_of
total_ops-insert ns m [] = omega arith
total_ops-insert ns m ((k, ops) ∷ ws) =
    ground (arith, total_ops-insert ns m ws, length-append ops (m ∷ []))

CountIsRight-add :
    (grow : ℕ → ℕ) (ns : Namespace) (m : WriteModel) (o : Bulk)
    → CountIsRight o
    → CountIsRight (add grow ns m o)
unfolding add
CountIsRight-add grow ns m (client o) h = tt
CountIsRight-add grow ns m (collection o) h = omega (arith, total_ops-insert ns m o.writes)

-- Adding a write to a valid queue that is not full gives a valid queue of the same limit with one
-- write more, which is not empty; Go's append then never has to grow the slice, whatever the
-- runtime's growth is.
pub add-IsValid :
    (grow : ℕ → ℕ) (ns : Namespace) (m : WriteModel) (o : Bulk)
    → IsValid o
    → full o ≡ false
    → IsValid (add grow ns m o)
      × (limit (add grow ns m o) ≡ limit o)
      × (size (add grow ns m o) ≡ size o + 1)
      × (empty (add grow ns m o) ≡ false)
unfolding add full empty size
add-IsValid grow ns m (client o) v h =
    let e : length (o.writes ++ (ns, m) ∷ []) ≡ length o.writes + 1 =
      length-append o.writes ((ns, m) ∷ []) in
    (record { counted = tt; bounded = ground arith }, ground arith, e, ground arith)
add-IsValid grow ns m (collection o) v h = (
  record {
    counted = CountIsRight-add grow ns m (collection o) v.counted;
    bounded = ground (arith, v.bounded);
  },
  refl,
  refl,
  ground arith,
)

-- What Do reports and leaves of a queue, by its error.
abbrev pub DoneAs : Bulk → Option Error → ℕ → Bulk → Type 0
DoneAs o none n o' = (n ≡ size o) × IsValid o' × (empty o' ≡ true) × (limit o' ≡ limit o)
DoneAs o (some e) n o' = (n ≡ 0) × (o' ≡ o)

module _ {W : Type 0} (target : BulkTarget W) where
  coll_loop_total :
      (ws : Assoc Namespace (List WriteModel)) (total : ℕ) (w : W)
      → (coll_loop target ws total w).0 ≡ none
      → (coll_loop target ws total w).1 ≡ total + total_ops ws
  unfolding coll_loop total_ops
  coll_loop_total [] total w h = omega arith
  coll_loop_total ((ns, ops) ∷ rest) total w h =
      ground (arith, coll_loop_total rest (total + length ops) (coll_write target ns ops w).1)

  client_done-DoneAs :
      (o : ClientBulk) (err : Option Error) (w : W)
      → let (err', n, o', w') = client_done target o err w in DoneAs (client o) err' n o'
  unfolding client_done size empty
  client_done-DoneAs o (some e) w = (refl, refl)
  client_done-DoneAs o none w = (refl, record { counted = tt; bounded = omega arith }, refl, refl)

  coll_done-DoneAs :
      (o : CollectionBulk) (err : Option Error) (total : ℕ) (w : W)
      → (err ≡ none → total ≡ o.count)
      → let (err', n, o', w') = coll_done target o err total w in DoneAs (collection o) err' n o'
  unfolding coll_done size empty total_ops
  coll_done-DoneAs o (some e) total w h = (refl, refl)
  coll_done-DoneAs o none total w h =
      (h refl, record { counted = refl; bounded = omega arith }, refl, refl)

  -- Do on a valid queue: if it reports no error, it reports the number of writes that were queued
  -- and leaves a valid, empty queue of the same limit; if it reports an error, it reports zero
  -- writes and leaves the queue as it was.
  pub do_bulk-DoneAs :
      (o : Bulk) (w : W)
      → IsValid o
      → let (err, n, o', w') = do_bulk target o w in DoneAs o err n o'
  unfolding do_bulk
  do_bulk-DoneAs (client o) w v =
      client_done-DoneAs o (client_write target o.writes w).0 (client_write target o.writes w).1
  do_bulk-DoneAs (collection o) w v =
      let (err, total, w') = coll_loop target o.writes 0 w in
      coll_done-DoneAs o err total w'
        (λ h. omega (arith, coll_loop_total o.writes 0 w h, v.counted))
