-- ===== src/Heartbeat/Tests.antt =====
-- Witnesses of the heartbeat, on a document that only the programs of the example change.
use percona_link_mongodb.Prelude.{ℕ, ◌+◌, ◌*◌, Option, none, some, ◌≡◌, refl, arith, true, false}
use percona_link_mongodb.Errors.{
  canceled, wrap, cause_of, is_sentinel, DriverError, driver, no_documents,
}
use percona_link_mongodb.Exec.{Result, ok, fail, NoValue, no_value}
use percona_link_mongodb.Heartbeat.{
  is_live, unix, second, do_heartbeat, do_first_heartbeat, take_over, inserted, judged, retry_loop,
  retry_heartbeat, is_duplicate_key, Beats, err_concurrent_process, err_stale_heartbeat,
}
use percona_link_mongodb.Heartbeat.Takeover.{
  IsStore, do_first_heartbeat-none, do_heartbeat-one_takes_over,
}

record World : Type 0 where
  clock : ℕ
  beat : Option ℕ

abbrev duplicate : DriverError
duplicate = record {
  network = false;
  timeout = false;
  retryable_label = false;
  duplicate_key = true;
  command = none;
  write = none;
}

insert_beat : ℕ → World → Result NoValue × World
insert_beat b w = elim w.beat [
  | none ↦ (ok no_value, record w { beat = some b })
  | some old ↦ (fail (driver duplicate), w)
]

find_beat : World → Result ℕ × World
find_beat w = elim w.beat [ none ↦ (fail no_documents, w) | some old ↦ (ok old, w) ]

swap_beat : ℕ → World → Result ℕ × World
swap_beat b w = elim w.beat [
  | none ↦ (fail no_documents, record w { beat = some b })
  | some old ↦ (ok old, record w { beat = some b })
]

abbrev store : Beats World
store = record {
  now = λ w. w.clock;
  insert = insert_beat;
  find = find_beat;
  swap = swap_beat;
  delete = λ w. (ok no_value, record w { beat = none });
  wait = λ w. record w { clock = w.clock + 5 * second };
}

abbrev beat_in : World → Option ℕ
beat_in w = w.beat

store-IsStore : IsStore store beat_in
unfolding insert_beat swap_beat
store-IsStore = record {
  insert_if_none = λ b w v h. ground arith;
  insert_some = λ b w v h. ground arith;
  swap_from = λ b s w h. ground arith;
  swap_to = λ b s w h. ground arith;
  later = λ b w. ground arith;
}

abbrev fresh : World
fresh = record { clock = 1000 * second; beat = none }

do_first_heartbeat-none_example :
    (beat_in fresh ≡ none)
    × (beat_in (do_first_heartbeat store fresh).2 ≡ some (do_first_heartbeat store fresh).0)
do_first_heartbeat-none_example =
    do_first_heartbeat-none store beat_in store-IsStore fresh
      (unfold do_first_heartbeat insert_beat in refl)

-- Two programs find the beat 900, at 1000 and 1002 seconds.
abbrev left_over : World
left_over = record { clock = 1000 * second; beat = some 900 }

abbrev two_later : World
two_later = record { clock = 1002 * second; beat = some 1000 }

do_heartbeat-one_takes_over_example :
    ((do_heartbeat store 900 left_over).1 ≡ some err_stale_heartbeat)
    × ((do_heartbeat store 900 two_later).1 ≡ some err_concurrent_process)
unfolding do_heartbeat unix swap_beat
do_heartbeat-one_takes_over_example =
    do_heartbeat-one_takes_over store beat_in store-IsStore 900 left_over two_later refl
      (omega arith) refl (omega arith)

-- retryHeartbeat takes over the beat that became stale between the two attempts, and then finds its
-- own: with two ticks left it ends with the error of its context.
own_beat_blocks : (retry_heartbeat store canceled 2 left_over).0 ≡ fail canceled
unfolding retry_heartbeat retry_loop do_first_heartbeat inserted take_over do_heartbeat judged
    is_duplicate_key is_live unix insert_beat find_beat swap_beat wrap cause_of is_sentinel
own_beat_blocks = refl
