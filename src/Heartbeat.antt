-- ===== src/Heartbeat.antt =====
-- heartbeat.go: the document by which a program keeps others from running on the same target. The
-- calls of the driver are the fields of `Beats`, over a state W of the target, which other programs
-- may change too. Clocks count nanoseconds. A Go function that returns a beat beside its error
-- returns both here.
pub mod Takeover
mod Tests
use percona_link_mongodb.Prelude.{
  false, ℕ, zero, suc, ◌+◌, ◌*◌, ◌/◌, Bool, not, Option, none, some, ltb, nat_eqb, if◌then◌else◌,
}
use percona_link_mongodb.Errors.{
  Error, sentinel, wrap, cause_of, is_sentinel, is_canceled, is_no_documents,
}
use percona_link_mongodb.Exec.{Exec, Result, ok, fail, NoValue, wrapping}

-- The clock, and InsertOne, FindOne, FindOneAndUpdate and DeleteOne of the heartbeat document. The
-- beat of a document without a time is 0. `wait` is the wait for the next tick of the ticker.
pub record Beats (W : Type 0) : Type 0 where
  pub now : W → ℕ
  pub insert : ℕ → Exec W NoValue
  pub find : Exec W ℕ
  pub swap : ℕ → Exec W ℕ
  pub delete : Exec W NoValue
  pub wait : W → W

abbrev pub err_concurrent_process : Error
err_concurrent_process = sentinel "detected concurrent process"

abbrev pub err_stale_heartbeat : Error
err_stale_heartbeat = sentinel "stale heartbeat"

abbrev pub second : ℕ
second = 1000000000

-- config.StaleHeartbeatDuration, in seconds
abbrev pub stale_heartbeat_duration : ℕ
stale_heartbeat_duration = 35

-- time.Since(time.Unix(beat, 0)) < config.StaleHeartbeatDuration
unfoldable pub is_live : ℕ → ℕ → Bool
is_live now beat = ltb now ((beat + stale_heartbeat_duration) * second)

unfoldable pub unix : ℕ → ℕ
unix now = now / second

-- mongo.IsDuplicateKeyError
unfoldable pub is_duplicate_key : Error → Bool
is_duplicate_key e = elim (cause_of e) [ none ↦ false | some d ↦ d.duplicate_key ]

-- What the outer loop does next, with its beat.
pub data Next : Type 0 where
  beating : ℕ → Next
  stopped : Next

module _ {W : Type 0} (beats : Beats W) where
  unfoldable pub judged : ℕ → ℕ → Result ℕ → W → Option Error
  unfolding is_live
  judged last curr (fail e) w = some e
  judged last curr (ok saved) w =
      if not (is_live (beats.now w) saved)
      then some err_stale_heartbeat
      else if not (nat_eqb saved last)
      then some err_concurrent_process
      else none

  unfoldable pub do_heartbeat : ℕ → W → ℕ × Option Error × W
  unfolding unix judged
  do_heartbeat last w =
      let curr = unix (beats.now w) in
      let (r, w') = beats.swap curr w in (curr, judged last curr r w', w')

  unfoldable pub take_over : Result ℕ → W → ℕ × Option Error × W
  unfolding is_live do_heartbeat
  take_over (fail e) w = (0, some (wrapping "find" e), w)
  take_over (ok last) w =
      if is_live (beats.now w) last
      then (0, some err_concurrent_process, w)
      else (let (curr, err, w') = do_heartbeat last w in (curr, wrap err "beat", w'))

  unfoldable pub inserted : ℕ → Result NoValue → W → ℕ × Option Error × W
  unfolding is_duplicate_key take_over
  inserted curr (ok v) w = (curr, none, w)
  inserted curr (fail e) w =
      if not (is_duplicate_key e)
      then (0, some e, w)
      else (let (r, w') = beats.find w in take_over r w')

  unfoldable pub do_first_heartbeat : W → ℕ × Option Error × W
  unfolding unix inserted
  do_first_heartbeat w =
      let curr = unix (beats.now w) in let (r, w') = beats.insert curr w in inserted curr r w'

  -- The loop of retryHeartbeat; the context is done after `ticks` ticks, with the error `ended`.
  unfoldable pub retry_loop : Error → ℕ → W → Result ℕ × W
  unfolding do_first_heartbeat
  retry_loop ended zero w = (fail ended, w)
  retry_loop ended (suc ticks) w =
      let (beat, err, w') = do_first_heartbeat (beats.wait w) in
      let later = retry_loop ended ticks w' in
      elim err [
        | none ↦ (ok beat, w')
        | some e ↦ if is_sentinel "stale heartbeat" e then (ok beat, w') else later
      ]

  -- A stale heartbeat that the first attempt takes over is only logged.
  unfoldable pub retry_heartbeat : Error → ℕ → W → Result ℕ × W
  unfolding do_first_heartbeat retry_loop
  retry_heartbeat ended ticks w =
      let (beat, err, w') = do_first_heartbeat w in
      elim err [ none ↦ (ok beat, w') | some e ↦ retry_loop ended ticks w' ]

  abbrev retry_failed : Result ℕ → Result ℕ
  retry_failed (ok beat) = ok beat
  retry_failed (fail e) = fail (wrapping "retry" e)

  -- RunHeartbeat, up to its goroutine: the result is the beat that the goroutine begins with.
  unfoldable pub begin_heartbeat : Error → ℕ → W → Result ℕ × W
  unfolding do_first_heartbeat retry_heartbeat
  begin_heartbeat ended ticks w =
      let (beat, err, w') = do_first_heartbeat w in
      let (r, w'') = retry_heartbeat ended ticks w' in
      elim err [
        | none ↦ (ok beat, w')
        | some e ↦
            if is_sentinel "detected concurrent process" e
            then (retry_failed r, w'')
            else if is_sentinel "stale heartbeat" e
            then (ok beat, w')
            else (fail (wrapping "first" e), w')
      ]

  -- One round of the goroutine, after its sleep.
  unfoldable pub next_beat : ℕ → W → Next × W
  unfolding do_heartbeat
  next_beat last w =
      let (saved, err, w') = do_heartbeat last w in
      elim err [
        | none ↦ (beating saved, w')
        | some e ↦
            if is_canceled e
            then (stopped, w')
            else if is_sentinel "detected concurrent process" e
            then (beating saved, w')
            else if is_sentinel "stale heartbeat" e
            then (beating saved, w')
            else if is_no_documents e
            then (beating saved, w')
            else (beating last, w')
      ]

  unfoldable pub delete_heartbeat : Exec W NoValue
  delete_heartbeat = beats.delete
