-- ===== src/Watch/Order.antt =====
-- The watch loop sends what it reads, in order, and nothing else but ticks.
use mathlib.Core.List.{append_assoc, append-nil}
use percona_link_mongodb.Bson.{Timestamp}
use percona_link_mongodb.Prelude.{
  Bool, true, false, ◌≡◌, refl, sym, ◌∙◌, ap, Option, none, some, List, [], ◌∷◌, ◌++◌, arith,
  if◌then◌else◌, Bool-cases, inl, inr,
}
use percona_link_mongodb.Errors.{Error}
use percona_link_mongodb.Events.{
  OperationType, tick, ChangeEvent, is_transaction, is_same_transaction,
}
use percona_link_mongodb.Events.Parse.{parsed, failed}
use percona_link_mongodb.Watch.{
  CursorStatus, open_cursor, closed, Clock, advanced, clock_failed, clock_canceled, Item, next,
  idle, Watch, watch_step, watch_run, dispatch, running, on_idle, on_event, on_txn_event,
  check_cursor, read_clock,
}

abbrev pub is_tick : OperationType → Bool
is_tick tick = true
is_tick _ = false

-- The events of a list that are not ticks.
abbrev pub real : List ChangeEvent → List ChangeEvent
real [] = []
real (e ∷ es) = let rest = real es in if is_tick e.operation_type then rest else e ∷ rest

abbrev pub pending_of : Option (ChangeEvent × List ChangeEvent) → List ChangeEvent
pending_of none = []
pending_of (some (txn0, ops)) = txn0 ∷ ops

-- The transaction that is kept back.
abbrev pub pending : Watch → List ChangeEvent
pending w = pending_of w.txn

abbrev item_events : Item → List ChangeEvent
item_events (next (parsed e) status) = e ∷ []
item_events (next (failed err) status) = []
item_events (idle status clock) = []

abbrev unless_stopped {ℓ} : {A : Type ℓ} → Option (Option Error) → List A → List A
unless_stopped none es = es
unless_stopped (some err) es = []

-- The events of the feed that the loop reads before it returns.
abbrev pub taken : (Timestamp → Timestamp → Bool) → Watch → List Item → List ChangeEvent
taken after w [] = []
taken after w (item ∷ feed) =
    unless_stopped w.stopped (item_events item) ++ taken after (watch_step after w item) feed

real-append : (xs ys : List ChangeEvent) → real (xs ++ ys) ≡ real xs ++ real ys
real-append [] ys = refl
real-append (x ∷ xs) ys = ground (arith, real-append xs ys)

-- What a step does to the list of what was sent and is kept back: `es` comes behind it.
abbrev Adds : Watch → List ChangeEvent → Watch → Type 0
Adds w es w' = real (w'.sent ++ pending w') ≡ real (w.sent ++ pending w) ++ real es

ruleset list_laws = (append_assoc, append-nil, real-append)

on_event-Adds : (e : ChangeEvent) (w : Watch) → w.txn ≡ none → Adds w (e ∷ []) (on_event e w)
unfolding on_event
on_event-Adds e w h = elim (Bool-cases (is_transaction e.header)) [
  | inl t ↦ simp (t, h, list_laws)
  | inr t ↦ simp (t, h, list_laws)
]

check_cursor-Adds :
    (status : CursorStatus) (w w' : Watch) (es : List ChangeEvent)
    → Adds w es w'
    → Adds w es (check_cursor status w')
unfolding check_cursor
check_cursor-Adds open_cursor w w' es h = h
check_cursor-Adds (closed err) w w' es h = h

read_clock-Adds :
    (clock : Clock) (w w' : Watch) (es : List ChangeEvent)
    → Adds w es w'
    → Adds w es (read_clock clock w')
unfolding read_clock
read_clock-Adds (advanced ts) w w' es h = h
read_clock-Adds clock_failed w w' es h = h
read_clock-Adds clock_canceled w w' es h = h

Adds-refl : (w : Watch) → Adds w [] w
Adds-refl w = sym (append-nil _)

on_txn_event-Adds :
    (txn0 : ChangeEvent) (ops : List ChangeEvent) (e : ChangeEvent) (status : CursorStatus)
    (w : Watch)
    → w.txn ≡ some (txn0, ops)
    → Adds w (e ∷ []) (on_txn_event txn0 ops e status w)
unfolding on_txn_event
on_txn_event-Adds txn0 ops e status w h =
    elim (Bool-cases (is_same_transaction txn0.header e.header)) [
      | inl same ↦ simp (same, h, list_laws) (ground arith)
      | inr other ↦ elim (Bool-cases (is_transaction e.header)) [
        | inl t ↦ simp (other, t, h, list_laws) (ground arith)
        | inr t ↦
            rw (other, t)
              (check_cursor-Adds status w _ (e ∷ []) (simp (h, list_laws) (ground arith)))
      ]
    ]

module _ (after : Timestamp → Timestamp → Bool) where
  on_idle-Adds :
      (status : CursorStatus) (clock : Clock) (w : Watch)
      → w.txn ≡ none
      → Adds w [] (on_idle after status clock w)
  unfolding on_idle
  on_idle-Adds (closed err) clock w h = Adds-refl w
  on_idle-Adds open_cursor clock w h = elim (Bool-cases (after w.source_ts w.last_event_ts)) [
    | inl t ↦ rw t (read_clock-Adds clock w _ [] (simp (h, list_laws)))
    | inr t ↦ rw t (read_clock-Adds clock w w [] (Adds-refl w))
  ]

  dispatch-Adds :
      (o : Option (ChangeEvent × List ChangeEvent)) (item : Item) (w : Watch)
      → w.txn ≡ o
      → Adds w (item_events item) (dispatch after o item w)
  unfolding dispatch
  dispatch-Adds none (next (failed err) status) w h = Adds-refl w
  dispatch-Adds none (next (parsed e) status) w h = on_event-Adds e w h
  dispatch-Adds none (idle status clock) w h = on_idle-Adds status clock w h
  dispatch-Adds (some (txn0, ops)) (next (failed err) status) w h = Adds-refl w
  dispatch-Adds (some (txn0, ops)) (next (parsed e) status) w h =
      on_txn_event-Adds txn0 ops e status w h
  dispatch-Adds (some (txn0, ops)) (idle (closed err) clock) w h = Adds-refl w
  dispatch-Adds (some (txn0, ops)) (idle open_cursor clock) w h = simp (h, list_laws)

  running-Adds :
      (o : Option (Option Error)) (item : Item) (w : Watch)
      → Adds w (unless_stopped o (item_events item)) (running after o item w)
  unfolding running
  running-Adds none item w = dispatch-Adds w.txn item w refl
  running-Adds (some err) item w = Adds-refl w

  watch_step-Adds :
      (item : Item) (w : Watch)
      → Adds w (unless_stopped w.stopped (item_events item)) (watch_step after w item)
  unfolding watch_step
  watch_step-Adds item w = running-Adds w.stopped item w

  -- For every state of the loop and every feed of the cursor, errors and closed cursors included:
  -- leaving ticks aside, what has been sent followed by the transaction that is kept back is what
  -- was sent and kept back before, followed by the events read from the feed until the loop
  -- returned, in their order. No event is dropped, doubled or moved.
  pub watch_run_order :
      (w : Watch) (feed : List Item)
      → let w' = watch_run after w feed in
        real (w'.sent ++ pending w') ≡ real (w.sent ++ pending w) ++ real (taken after w feed)
  unfolding watch_run
  watch_run_order w [] = sym (append-nil _)
  watch_run_order w (item ∷ feed) =
      watch_run_order (watch_step after w item) feed
      ∙ ap (λ (es : List ChangeEvent). es ++ real (taken after (watch_step after w item) feed))
          (watch_step-Adds item w)
      ∙ simp (append_assoc, real-append)
