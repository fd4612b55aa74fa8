-- ===== src/Repl/Loop/Flush.antt =====
-- doBulkOps of pcsm/repl.go: what a flush of the queue does to the loop's state.
use percona_link_mongodb.Prelude.{
  ℕ, ◌+◌, ◌≡◌, refl, ◌⊎◌, inl, inr, true, false, Option, none, some, nat_eqb, arith, if-cases, leb,
  ◌-◌, not, ◌&&◌,
}
use percona_link_mongodb.Errors.{Error}
use percona_link_mongodb.Bulk.{Bulk, client, collection, full, empty, do_bulk}
use percona_link_mongodb.Bulk.Queue.{size}
use percona_link_mongodb.Bulk.Flush.{IsValid, limit, DoneAs, do_bulk-DoneAs}
use percona_link_mongodb.Repl.{set_failed, do_pause}
use percona_link_mongodb.Repl.Loop.{
  Loop, Env, bulk_ops_interval, Step, bulk_ops_done, do_bulk_ops, flush_due, flush_any,
}

-- The events that are counted or queued.
abbrev pub weight : Loop → ℕ
weight l = l.repl.events_processed + size l.bulk

-- The loop has failed with an error, and is about to pause.
abbrev pub Failed : Loop → Type 0
Failed l = ((e : Error) × (l.repl.err ≡ some e)) × (l.repl.pausing ≡ true)

-- Between two events the queue is valid and has room.
pub record IsReady (l : Loop) : Type 0 where
  pub valid : IsValid l.bulk
  pub has_room : full l.bulk ≡ false

-- No event is taken in, and the position moves to the last queued event at most.
pub record IsHeld (l l' : Loop) : Type 0 where
  pub valid : IsValid l'.bulk
  pub same_limit : limit l'.bulk ≡ limit l.bulk
  pub same_filter : l'.repl.ns_filter ≡ l.repl.ns_filter
  pub same_weight : weight l' ≡ weight l
  pub op_time :
      (l'.repl.last_replicated_op_time ≡ l.repl.last_replicated_op_time)
      ⊎ (l'.repl.last_replicated_op_time ≡ l.bulk_ts)

pub size-empty : (o : Bulk) → empty o ≡ true → size o ≡ 0
unfolding empty size
size-empty (client o) h = ground arith
size-empty (collection o) h = ground arith

pub limit-full :
    (o o' : Bulk)
    → IsValid o
    → full o ≡ false
    → limit o' ≡ limit o
    → empty o' ≡ true
    → full o' ≡ false
unfolding full empty size
limit-full (client o) (client o') v h e k = ground (arith, v.bounded)
limit-full (client o) (collection o') v h e k = ground (arith, v.bounded)
limit-full (collection o) (client o') v h e k = ground (arith, v.bounded)
limit-full (collection o) (collection o') v h e k = ground (arith, v.bounded)

module _ {W : Type 0} (env : Env W) where
  abbrev pub FlushedAs : Loop → Step env → Type 0
  FlushedAs l (false, l', w) = Failed l'
  FlushedAs l (true, l', w) = IsHeld l l' × (empty l'.bulk ≡ true)

  bulk_ops_done-FlushedAs :
      (l : Loop) (err : Option Error) (n : ℕ) (bulk : Bulk) (w : W)
      → DoneAs l.bulk err n bulk
      → FlushedAs l (bulk_ops_done env err n bulk l w)
  unfolding bulk_ops_done set_failed do_pause
  bulk_ops_done-FlushedAs l (some e) n bulk w h = ((e, refl), refl)
  bulk_ops_done-FlushedAs l none n bulk w (counted, valid, emptied, lim) =
      if-cases (FlushedAs l) (nat_eqb n 0)
        (λ h. (
          record {
            valid = valid;
            same_limit = lim;
            same_filter = refl;
            same_weight = ground (arith, size-empty bulk emptied);
            op_time = inl refl;
          },
          emptied,
        ))
        (λ h. (
          record {
            valid = valid;
            same_limit = lim;
            same_filter = refl;
            same_weight = ground (arith, size-empty bulk emptied);
            op_time = inr refl;
          },
          emptied,
        ))

  -- A flush of a valid queue either fails, or empties the queue and counts its writes.
  pub do_bulk_ops-FlushedAs :
      (l : Loop) (w : W) → IsValid l.bulk → FlushedAs l (do_bulk_ops env l w)
  unfolding do_bulk_ops
  do_bulk_ops-FlushedAs l w v =
      let (err, n, bulk, w') = do_bulk env.bulk_target l.bulk w in
      bulk_ops_done-FlushedAs l err n bulk w' (do_bulk-DoneAs env.bulk_target l.bulk w v)

  abbrev pub HeldAs : Loop → Step env → Type 0
  HeldAs l (false, l', w) = Failed l'
  HeldAs l (true, l', w) = IsHeld l l' × (full l'.bulk ≡ false)

  not_flushed : (l : Loop) → IsValid l.bulk → IsHeld l l
  not_flushed l v = record {
    valid = v;
    same_limit = refl;
    same_filter = refl;
    same_weight = refl;
    op_time = inl refl;
  }

  FlushedAs-HeldAs : (l : Loop) → IsReady l → (s : Step env) → FlushedAs l s → HeldAs l s
  FlushedAs-HeldAs l r (false, l', w) h = h
  FlushedAs-HeldAs l r (true, l', w) h =
      (h.0, limit-full l.bulk l'.bulk r.valid r.has_room h.0.same_limit h.1)

  pub flush_due-HeldAs : (l : Loop) (w : W) → IsReady l → HeldAs l (flush_due env l w)
  unfolding flush_due
  flush_due-HeldAs l w r =
      if-cases (HeldAs l)
        (leb bulk_ops_interval (env.now w - l.last_bulk_done_at) && not (empty l.bulk))
        (λ h. FlushedAs-HeldAs l r (do_bulk_ops env l w) (do_bulk_ops-FlushedAs l w r.valid))
        (λ h. (not_flushed l r.valid, r.has_room))

  pub flush_any-FlushedAs : (l : Loop) (w : W) → IsValid l.bulk → FlushedAs l (flush_any env l w)
  unfolding flush_any
  flush_any-FlushedAs l w v =
      if-cases (FlushedAs l) (empty l.bulk) (λ h. (not_flushed l v, h))
        (λ h. do_bulk_ops-FlushedAs l w v)
