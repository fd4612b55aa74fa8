-- ===== src/Repl/Loop/Runs.antt =====
-- A step and a whole run of the loop of pcsm/repl.go.
use percona_link_mongodb.Prelude.{
  ℕ, ◌+◌, ◌≤◌, ◌≡◌, sym, ap, ◌∙◌, ◌⊎◌, inl, inr, Bool, true, false, List, [], ◌∷◌, arith, String,
  map, sum,
}
use percona_link_mongodb.Events.{ChangeEvent}
use percona_link_mongodb.Bulk.{empty}
use percona_link_mongodb.Repl.Loop.{
  Loop, Env, Step, and_then, flush_due, flush_any, handle_change, loop_step, run_loop,
}
use percona_link_mongodb.Repl.Loop.Flush.{
  size-empty, weight, Failed, IsReady, IsHeld, FlushedAs, HeldAs, flush_due-HeldAs,
  flush_any-FlushedAs,
}
use percona_link_mongodb.Repl.Loop.Counts.{
  applied, countable, AtEvent, HandledAs, handle_change-HandledAs,
}

-- From one event to the next: the queue stays valid, the event is counted or queued at most once,
-- and exactly once if it is let through, and the position stays, or moves to the last event that
-- was queued, or to this event with an empty queue.
pub record IsStepped (change : ChangeEvent) (l l' : Loop) : Type 0 where
  pub ready : IsReady l'
  pub same_filter : l'.repl.ns_filter ≡ l.repl.ns_filter
  pub at_least : weight l + applied l.repl.ns_filter change ≤ weight l'
  pub at_most : weight l' ≤ weight l + countable change
  pub op_time :
      (l'.repl.last_replicated_op_time ≡ l.repl.last_replicated_op_time)
      ⊎ (l'.repl.last_replicated_op_time ≡ l.bulk_ts)
      ⊎ AtEvent change l'

-- The number of events that are let through, and that may be counted.
abbrev pub applied_all : (String → String → Bool) → List ChangeEvent → ℕ
applied_all f changes = sum (map (applied f) changes)

abbrev pub countable_all : List ChangeEvent → ℕ
countable_all changes = sum (map countable changes)

module _ {W : Type 0} (env : Env W) where
  abbrev pub SteppedAs : ChangeEvent → Loop → Step env → Type 0
  SteppedAs change l (false, l', w) = Failed l'
  SteppedAs change l (true, l', w) = IsStepped change l l'

  HandledAs-SteppedAs :
      (change : ChangeEvent) (l l1 : Loop) (s : Step env)
      → IsHeld l l1
      → HandledAs env change l1 s
      → SteppedAs change l s
  HandledAs-SteppedAs change l l1 (false, l', w) k h = h
  HandledAs-SteppedAs change l l1 (true, l', w) k (h, room) = record {
    ready = record { valid = h.valid; has_room = room };
    same_filter = h.same_filter ∙ k.same_filter;
    at_least = rw (sym k.same_filter) (omega (arith, k.same_weight, h.at_least));
    at_most = omega (arith, k.same_weight, h.at_most);
    op_time = elim h.op_time [
      | inr e ↦ inr (inr e)
      | inl e ↦ elim k.op_time [ inl d ↦ inl (e ∙ d) | inr d ↦ inr (inl (e ∙ d)) ]
    ];
  }

  handled :
      (change : ChangeEvent) (l : Loop) (s : Step env)
      → HeldAs env l s
      → SteppedAs change l (and_then env s (handle_change env change))
  unfolding and_then
  handled change l (false, l1, w) h = h
  handled change l (true, l1, w) (k, room) =
      HandledAs-SteppedAs change l l1 (handle_change env change l1 w) k
        (handle_change-HandledAs env change l1 w (record { valid = k.valid; has_room = room }))

  -- For every event and every state whose queue is valid and has room, the body of the loop either
  -- fails with an error and pauses, or goes on with a valid queue that has room; then the event is
  -- counted or queued at most once (never, if it is a tick) and exactly once if it is let through,
  -- and the replicated position stays, moves to the last event that was queued before, or moves to
  -- this event, which it does only with an empty queue or on a tick.
  pub loop_step-SteppedAs :
      (change : ChangeEvent) (l : Loop) (w : W)
      → IsReady l
      → SteppedAs change l (loop_step env change l w)
  unfolding loop_step
  loop_step-SteppedAs change l w r =
      handled change l (flush_due env l w) (flush_due-HeldAs env l w r)

  abbrev pub RanAs : List ChangeEvent → Loop → Step env → Type 0
  RanAs changes l (false, l', w) = Failed l'
  RanAs changes l (true, l', w) =
      (empty l'.bulk ≡ true)
      × (weight l + applied_all l.repl.ns_filter changes ≤ l'.repl.events_processed)
      × (l'.repl.events_processed ≤ weight l + countable_all changes)

  last_flush : (l : Loop) (s : Step env) → FlushedAs env l s → RanAs [] l s
  last_flush l (false, l', w) h = h
  last_flush l (true, l', w) (h, emptied) = (
    emptied,
    omega (arith, h.same_weight, size-empty l'.bulk emptied),
    omega (arith, h.same_weight, size-empty l'.bulk emptied),
  )

  after_step :
      (change : ChangeEvent) (changes : List ChangeEvent) (l l1 : Loop) (s : Step env)
      → IsStepped change l l1
      → RanAs changes l1 s
      → RanAs (change ∷ changes) l s
  after_step change changes l l1 (false, l', w) k h = h
  after_step change changes l l1 (true, l', w) k (emptied, low, high) = (
    emptied,
    omega (arith, k.at_least, low, ap (λ f. applied_all f changes) k.same_filter),
    omega (arith, k.at_most, high),
  )

  after_steps :
      (change : ChangeEvent) (changes : List ChangeEvent) (l : Loop) (s : Step env)
      → ((l1 : Loop) (w1 : W) → IsReady l1 → RanAs changes l1 (run_loop env changes l1 w1))
      → SteppedAs change l s
      → RanAs (change ∷ changes) l (and_then env s (run_loop env changes))
  unfolding and_then
  after_steps change changes l (false, l1, w1) later h = h
  after_steps change changes l (true, l1, w1) later h =
      after_step change changes l l1 (run_loop env changes l1 w1) h (later l1 w1 h.ready)

  -- For every list of events and every state whose queue is valid and has room, the loop either
  -- fails with an error and pauses, or ends with an empty queue; then eventsProcessed is at least
  -- what it was, plus the writes that were queued, plus the number of events that the filter lets
  -- through, and at most what it was, plus those writes, plus the number of events but the ticks.
  pub run_loop-RanAs :
      (changes : List ChangeEvent) (l : Loop) (w : W)
      → IsReady l
      → RanAs changes l (run_loop env changes l w)
  unfolding run_loop
  run_loop-RanAs [] l w r = last_flush l (flush_any env l w) (flush_any-FlushedAs env l w r.valid)
  run_loop-RanAs (change ∷ changes) l w r =
      after_steps change changes l (loop_step env change l w) (run_loop-RanAs changes)
        (loop_step-SteppedAs change l w r)
