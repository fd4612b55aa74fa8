-- ===== src/Repl/Loop/Counts.antt =====
-- The loop of pcsm/repl.go from one change event to the next: which events are counted, and how far
-- the replicated position moves.
use percona_link_mongodb.Prelude.{
  ℕ, ◌+◌, ◌≤◌, ◌≡◌, refl, ◌∙◌, ◌⊎◌, inl, inr, Bool, true, false, not, Option, none, some, arith,
  if◌then◌else◌, if-cases, String, ◌==◌, string_eq,
}
use percona_link_mongodb.Errors.{Error}
use percona_link_mongodb.Events.{ChangeEvent}
use percona_link_mongodb.Catalog.{uuid_map, Catalog}
use percona_link_mongodb.Bulk.{WriteModel, full, empty}
use percona_link_mongodb.Bulk.Flush.{IsValid, add-IsValid}
use percona_link_mongodb.Repl.{set_failed, do_pause}
use percona_link_mongodb.Repl.Ddl.{apply_event}
use percona_link_mongodb.Repl.Loop.{
  apply_as, advanced, moves_uuids, Loop, Env, Step, pcsm_database, is_tick, find_namespace_by_uuid,
  write_of, skipped, enqueued, and_then, flush_any, flush_full, do_bulk_ops, ddl_done, apply_ddl,
  apply_change, handle_change,
}
use percona_link_mongodb.Repl.Loop.Flush.{
  weight, Failed, IsReady, IsHeld, FlushedAs, limit-full, do_bulk_ops-FlushedAs,
  flush_any-FlushedAs,
}

-- An event that is let through, and an event that may be counted: any but a tick.
unfoldable pub applied : (String → String → Bool) → ChangeEvent → ℕ
applied ns_filter change =
    let ns = change.header.namespace in
    if is_tick change.header.operation_type
    then 0
    else if ns.database == pcsm_database
    then 0
    else if not (ns_filter ns.database ns.collection)
    then 0
    else 1

unfoldable pub countable : ChangeEvent → ℕ
countable change = if is_tick change.header.operation_type then 0 else 1

-- The position is where it was, or at the event with nothing left in the queue before it.
abbrev pub AtEvent : ChangeEvent → Loop → Type 0
AtEvent change l =
    (l.repl.last_replicated_op_time ≡ change.header.cluster_time)
    × ((empty l.bulk ≡ true) ⊎ (is_tick change.header.operation_type ≡ true))

pub record IsHandled (change : ChangeEvent) (l l' : Loop) : Type 0 where
  pub valid : IsValid l'.bulk
  pub same_filter : l'.repl.ns_filter ≡ l.repl.ns_filter
  pub at_least : weight l + applied l.repl.ns_filter change ≤ weight l'
  pub at_most : weight l' ≤ weight l + countable change
  pub op_time :
      (l'.repl.last_replicated_op_time ≡ l.repl.last_replicated_op_time) ⊎ AtEvent change l'

applied-countable :
    (f : String → String → Bool) (change : ChangeEvent) → applied f change ≤ countable change
unfolding applied countable
applied-countable f change = ground arith

module _ {W : Type 0} (env : Env W) (change : ChangeEvent) where
  abbrev pub HandledAs : Loop → Step env → Type 0
  HandledAs l (false, l', w) = Failed l'
  HandledAs l (true, l', w) = IsHandled change l l' × (full l'.bulk ≡ false)

  -- What is handled and not full needs no flush.
  unflushed :
      (l l' : Loop) (w : W)
      → IsHandled change l l'
      → full l'.bulk ≡ false
      → HandledAs l (flush_full env l' w)
  unfolding flush_full
  unflushed l l' w h room = rw room (h, room)

  module _ (l : Loop) (not_tick : is_tick change.header.operation_type ≡ false) where
    countable_one : countable change ≡ 1
    unfolding countable
    countable_one = rw not_tick refl

    applied_one : applied l.repl.ns_filter change ≤ 1
    applied_one = omega (arith, applied-countable l.repl.ns_filter change, countable_one)

    after_flush :
        (m : WriteModel) (s : Step env)
        → IsReady l
        → FlushedAs env (enqueued env.grow change m l) s
        → HandledAs l s
    unfolding enqueued
    after_flush m (false, l', w) r h = h
    after_flush m (true, l', w) r h =
        let g =
          add-IsValid env.grow (find_namespace_by_uuid l.uuids change.header) m l.bulk r.valid
            r.has_room in
        (
          record {
            valid = h.0.valid;
            same_filter = h.0.same_filter;
            at_least = omega (arith, h.0.same_weight, g.2, applied_one);
            at_most = omega (arith, h.0.same_weight, g.2, countable_one);
            op_time = elim h.0.op_time [ inl e ↦ inl e | inr e ↦ inr (e, inl h.1) ];
          },
          limit-full l.bulk l'.bulk r.valid r.has_room (h.0.same_limit ∙ g.1) h.1,
        )

    ddl_done-HandledAs :
        (l1 : Loop) (r : Option Error × Catalog × W)
        → IsReady l
        → IsHeld l l1
        → empty l1.bulk ≡ true
        → HandledAs l (and_then env (ddl_done env change l1 r) (flush_full env))
    unfolding ddl_done and_then set_failed do_pause
    ddl_done-HandledAs l1 (some e, c, w) r h emptied = ((e, refl), refl)
    ddl_done-HandledAs l1 (none, c, w) r h emptied =
        let room : full l1.bulk ≡ false =
          limit-full l.bulk l1.bulk r.valid r.has_room h.same_limit emptied in
        unflushed l
          (record l1 {
            repl = record l1.repl {
              catalog = c;
              last_replicated_op_time = change.header.cluster_time;
              events_processed = l1.repl.events_processed + 1;
            };
            uuids = if moves_uuids change.header.operation_type then uuid_map c else l1.uuids;
          })
          w
          (record {
            valid = h.valid;
            same_filter = h.same_filter;
            at_least = omega (arith, h.same_weight, applied_one);
            at_most = omega (arith, h.same_weight, countable_one);
            op_time = inr (refl, inl emptied);
          })
          room

    ddl-HandledAs :
        (s : Step env)
        → IsReady l
        → FlushedAs env l s
        → HandledAs l (and_then env (and_then env s (apply_ddl env change)) (flush_full env))
    unfolding and_then apply_ddl
    ddl-HandledAs (false, l1, w) r h = h
    ddl-HandledAs (true, l1, w) r h =
        ddl_done-HandledAs l1 (apply_event env.target change change.event l1.repl.catalog w) r h.0
          h.1

    enqueued-HandledAs :
        (m : WriteModel) (w : W)
        → IsReady l
        → HandledAs l (flush_full env (enqueued env.grow change m l) w)
    unfolding flush_full enqueued
    enqueued-HandledAs m w r =
        let g =
          add-IsValid env.grow (find_namespace_by_uuid l.uuids change.header) m l.bulk r.valid
            r.has_room in
        if-cases (HandledAs l) (full (enqueued env.grow change m l).bulk)
          (λ h.
            after_flush m (do_bulk_ops env (enqueued env.grow change m l) w) r
              (do_bulk_ops-FlushedAs env (enqueued env.grow change m l) w g.0))
          (λ h. (
            record {
              valid = g.0;
              same_filter = refl;
              at_least = omega (arith, g.2, applied_one);
              at_most = omega (arith, g.2, countable_one);
              op_time = inl refl;
            },
            h,
          ))

    apply_as-HandledAs :
        (m : Option WriteModel) (w : W)
        → IsReady l
        → HandledAs l (and_then env (apply_as env change m l w) (flush_full env))
    unfolding apply_as and_then
    apply_as-HandledAs (some m) w r = enqueued-HandledAs m w r
    apply_as-HandledAs none w r =
        ddl-HandledAs (flush_any env l w) r (flush_any-FlushedAs env l w r.valid)

    -- An event that is not let through.
    skipped-IsHandled :
        IsReady l
        → applied l.repl.ns_filter change ≡ 0
        → IsHandled change l (skipped change l) × (full (skipped change l).bulk ≡ false)
    unfolding skipped
    skipped-IsHandled r none_applied =
        if-cases (λ l'. IsHandled change l l' × (full l'.bulk ≡ false)) (empty l.bulk)
          (λ h. (
            record {
              valid = r.valid;
              same_filter = refl;
              at_least = omega (arith, none_applied);
              at_most = omega (arith, countable_one);
              op_time = inr (refl, inl h);
            },
            r.has_room,
          ))
          (λ h. (
            record {
              valid = r.valid;
              same_filter = refl;
              at_least = omega (arith, none_applied);
              at_most = omega arith;
              op_time = inl refl;
            },
            r.has_room,
          ))

  tick-HandledAs :
      (l : Loop) (w : W)
      → IsReady l
      → is_tick change.header.operation_type ≡ true
      → HandledAs l (true, advanced change.header.cluster_time 0 l, w)
  unfolding applied
  tick-HandledAs l w r h = (
    record {
      valid = r.valid;
      same_filter = refl;
      at_least = rw h (omega arith);
      at_most = omega arith;
      op_time = inr (refl, inr h);
    },
    r.has_room,
  )

  pub handle_change-HandledAs :
      (l : Loop) (w : W) → IsReady l → HandledAs l (handle_change env change l w)
  unfolding handle_change applied apply_change
  handle_change-HandledAs l w r =
      let ns = change.header.namespace in
      if-cases (HandledAs l) (is_tick change.header.operation_type) (tick-HandledAs l w r)
        (λ not_tick.
          if-cases (HandledAs l) (ns.database == pcsm_database)
            (λ h. skipped-IsHandled l not_tick r (rw (not_tick, h) refl))
            (λ other.
              if-cases (HandledAs l) (not (l.repl.ns_filter ns.database ns.collection))
                (λ h. skipped-IsHandled l not_tick r (rw (not_tick, other, h) refl))
                (λ h. apply_as-HandledAs l not_tick (write_of change.event) w r)))
