-- ===== src/Clone.antt =====
-- pcsm/clone.go: the state of `Clone`, its checkpoint, its start and end, the estimate of the size
-- that is left, and the choice of the indexes to build. A uint64 wraps round at 2 ^ 64. The copying
-- itself is in the children Collect, Copying and Run.
pub mod Sizes
pub mod Recovery
pub mod Copying
pub mod Collect
pub mod Run
pub mod Listed
pub mod Priority
pub mod Quiet
pub mod Accounts
pub mod Recorded
mod Copies
mod Tests
use percona_link_mongodb.Prelude.Maps.{Assoc, lookup, insert, remove}
use percona_link_mongodb.Bson.{ℤ, pos, Bytes, Timestamp, zero_timestamp}
use percona_link_mongodb.Prelude.{
  ℕ, ◌+◌, ◌-◌, ◌%◌, ◌^◌, String, Bool, true, false, not, ◌&&◌, Option, none, some, List, [], ◌∷◌,
  nat_eqb, is_some, is_empty, contains, if◌then◌else◌, ◌==◌, string_eq,
}
use percona_link_mongodb.Errors.{Error, new, wrap, message}
use percona_link_mongodb.Events.{Namespace, namespace_eq, IndexSpecification}
use percona_link_mongodb.Catalog.{Catalog, IndexPointer}
use percona_link_mongodb.Catalog.Indexes.{create_indexes, add_incomplete_indexes}
use percona_link_mongodb.Target.{Target}
use percona_link_mongodb.Repl.{is_zero, error_text, error_of}

pub record SizeMapElem : Type 0 where
  pub uuid : Option Bytes
  pub size : ℕ
  pub count : ℤ

-- `done` says that doneSig is closed.
pub record Clone : Type 0 where
  pub err : Option Error
  pub size_map : Assoc Namespace SizeMapElem
  pub total_size : ℕ
  pub copied_size : ℕ
  pub start_ts : Timestamp
  pub finish_ts : Timestamp
  pub start_time : ℕ
  pub finish_time : ℕ
  pub done : Bool

unfoldable pub new_clone : Clone
new_clone = record {
  err = none;
  size_map = [];
  total_size = 0;
  copied_size = 0;
  start_ts = zero_timestamp;
  finish_ts = zero_timestamp;
  start_time = 0;
  finish_time = 0;
  done = false;
}

pub record CloneStatus : Type 0 where
  pub estimated_total_size : ℕ
  pub copied_size : ℕ
  pub start_ts : Timestamp
  pub finish_ts : Timestamp
  pub start_time : ℕ
  pub finish_time : ℕ
  pub err : Option Error

unfoldable pub is_started : CloneStatus → Bool
is_started cs = not (nat_eqb cs.start_time 0)

unfoldable pub is_finished : CloneStatus → Bool
is_finished cs = not (nat_eqb cs.finish_time 0)

unfoldable pub is_running : CloneStatus → Bool
unfolding is_started is_finished
is_running cs = is_started cs && not (is_finished cs)

unfoldable pub status : Clone → CloneStatus
status c = record {
  estimated_total_size = c.total_size;
  copied_size = c.copied_size;
  start_ts = c.start_ts;
  finish_ts = c.finish_ts;
  start_time = c.start_time;
  finish_time = c.finish_time;
  err = c.err;
}

pub record CloneCheckpoint : Type 0 where
  pub total_size : ℕ
  pub copied_size : ℕ
  pub start_ts : Timestamp
  pub finish_ts : Timestamp
  pub start_time : ℕ
  pub finish_time : ℕ
  pub error : String

-- The finish timestamp is saved as the zero one, as the source does.
unfoldable pub saved : (Error → String) → Clone → CloneCheckpoint
unfolding error_text
saved text c = record {
  total_size = c.total_size;
  copied_size = c.copied_size;
  start_ts = c.start_ts;
  finish_ts = zero_timestamp;
  start_time = c.start_time;
  finish_time = c.finish_time;
  error = error_text text c.err;
}

unfoldable pub checkpoint : (Error → String) → Clone → Option CloneCheckpoint
unfolding saved
checkpoint text c =
    if nat_eqb c.start_time 0 && not (is_some c.err) then none else some (saved text c)

-- `if cp.Error != "" { c.err = ... }` keeps the error that is there.
unfoldable pub recovered_error : Option Error → Option Error → Option Error
recovered_error none old = old
recovered_error (some e) old = some e

unfoldable pub restored : CloneCheckpoint → Clone → Clone
unfolding recovered_error error_of
restored cp c = record c {
  total_size = cp.total_size;
  copied_size = cp.copied_size;
  start_ts = cp.start_ts;
  finish_ts = cp.finish_ts;
  start_time = cp.start_time;
  finish_time = cp.finish_time;
  err = recovered_error (error_of cp.error) c.err;
}

unfoldable pub recover : CloneCheckpoint → Clone → Option Error × Clone
recover cp c =
    if is_zero c.start_ts
    then (none, restored cp c)
    else (some (new "cannot restore: already used"), c)

unfoldable pub reset_error : Clone → Clone
reset_error c = record c { err = none }

-- Start up to its goroutine.
unfoldable pub start : ℕ → Clone → Option Error × Clone
start now c = elim c.err [
  | some e ↦ (wrap (some e) "cannot start due an existing error", c)
  | none ↦
      if not (nat_eqb c.finish_time 0)
      then (some (new "already completed"), c)
      else if not (nat_eqb c.start_time 0)
      then (some (new "already started"), c)
      else (none, record c { start_time = now })
]

-- The goroutine of Start, once `run` has returned: an error is kept, none leaves what is there.
unfoldable pub finish : ℕ → Option Error → Clone → Clone
unfolding recovered_error
finish now err c = record c { err = recovered_error err c.err; done = true; finish_time = now }

-- uint64 addition and subtraction.
unfoldable pub plus64 : ℕ → ℕ → ℕ
plus64 a b = (a + b) % 2 ^ 64

unfoldable pub minus64 : ℕ → ℕ → ℕ
minus64 a b = (a + (2 ^ 64 - b)) % 2 ^ 64

-- A lookup in the map, with the zero element for a missing key.
unfoldable pub elem_of : Option SizeMapElem → SizeMapElem
elem_of none = record { uuid = none; size = 0; count = pos 0 }
elem_of (some elem) = elem

-- c.sizeMap[ns].Size
unfoldable pub size_of : Namespace → Assoc Namespace SizeMapElem → ℕ
unfolding elem_of
size_of ns sizes = (elem_of (lookup ns sizes)).size

-- collectSizeMap, for one collection that it found: what it adds to the map and to the total.
unfoldable pub collect_size :
    Namespace → SizeMapElem → Assoc Namespace SizeMapElem × ℕ → Assoc Namespace SizeMapElem × ℕ
collect_size ns elem (sizes, total) = (insert ns elem sizes, plus64 total elem.size)

-- doCollectionClone, on an update that says that the collection was dropped.
unfoldable pub dropped : Namespace → Clone → Clone
dropped ns c = record c {
  total_size = minus64 c.total_size (size_of ns c.size_map);
  size_map = remove ns c.size_map;
}

-- doCollectionClone, on the size of an update.
unfoldable pub copied : ℕ → Clone → Clone
copied size_bytes c = record c { copied_size = plus64 c.copied_size size_bytes }

-- doCollectionClone, at its end: `total_copied` is what was copied of the collection.
unfoldable pub adjusted : Namespace → ℕ → Clone → Clone
adjusted ns total_copied c = record c {
  total_size = minus64 c.total_size (minus64 (size_of ns c.size_map) total_copied);
  size_map = remove ns c.size_map;
}

-- doClone, on a collection that was renamed from `prev_ns` to `ns` in the meantime.
unfoldable pub renamed : Namespace → Namespace → Clone → Clone
renamed prev_ns ns c = record c {
  size_map = insert prev_ns (elem_of (lookup prev_ns c.size_map)) (remove prev_ns c.size_map);
}

-- createIndexes: the indexes that are being built, and the others.
unfoldable pub split_indexes :
    List String → List IndexPointer → List IndexPointer × List IndexPointer
split_indexes unfinished [] = ([], [])
split_indexes unfinished (index ∷ indexes) =
    let (incomplete, built) = split_indexes unfinished indexes in
    if contains unfinished index.spec.name
    then (index ∷ incomplete, built)
    else (incomplete, index ∷ built)

module _ {W : Type 0} (target : Target W) where
  unfoldable pub create_if_any : Catalog → Namespace → List IndexPointer → W → Catalog × W
  create_if_any c ns built w =
      if is_empty built then (c, w) else create_indexes target c ns.database ns.collection built w

  -- createIndexes: `unfinished` and `indexes` are what the source cluster answered.
  unfoldable pub clone_indexes :
      Catalog → Namespace → List String → List IndexPointer → W → Catalog × W
  unfolding create_if_any
  clone_indexes c ns unfinished indexes w =
      if is_empty unfinished
      then create_indexes target c ns.database ns.collection indexes w
      else (let (incomplete, built) = split_indexes unfinished indexes in
          let (c', w') = create_if_any c ns built w in
          (add_incomplete_indexes c' ns.database ns.collection incomplete, w'))
