-- ===== src/Pcsm/Moves.antt =====
-- The commands of pcsm/pcsm.go, and the moves that they make between the states.
use percona_link_mongodb.Bson.{Timestamp}
use percona_link_mongodb.Prelude.{
  ◌≡◌, refl, Bool, true, false, not, ◌&&◌, ◌||◌, ◌⊎◌, inl, inr, Option, none, some, arith, if-cases,
}
use percona_link_mongodb.Errors.{Error, wrap}
use percona_link_mongodb.Repl.{Repl}
use percona_link_mongodb.Pcsm.{
  State, failed, idle, running, paused, finalizing, finalized, Pcsm, StartOptions, is_failed,
  is_idle, start, start_in, is_running, is_paused, started, pause, paused_repl, resume, do_resume,
  reset_error,
}
use percona_link_mongodb.Pcsm.Finish.{
  status_error, finalize_refusal, finalize_waited, finalize_paused, finalize_on, finalize,
  initial_sync_completed,
}

pub data Command : Type 0 where
  start_command : StartOptions → Command
  pause_command : Command
  resume_command : Bool → Command  -- ResumeFromFailure
  finalize_command : Bool → Bool → (Repl → Repl) → Command  -- the arguments of finalize

-- The states in which a command may be given, and the state that it moves to.
unfoldable pub admits : Command → State → Bool
admits (start_command options) s = elim s [ idle ↦ true | finalized ↦ true | _ ↦ false ]
admits pause_command s = elim s [ running ↦ true | _ ↦ false ]
admits (resume_command from_failure) s = elim s [
  | paused ↦ true
  | failed ↦ from_failure
  | _ ↦ false
]
admits (finalize_command ignore_history_lost history_lost ended) s = elim s [
  | idle ↦ false
  | failed ↦ ignore_history_lost && history_lost
  | _ ↦ true
]

unfoldable pub moves_to : Command → State
moves_to (start_command options) = running
moves_to pause_command = paused
moves_to (resume_command from_failure) = running
moves_to (finalize_command ignore_history_lost history_lost ended) = finalizing

-- A failure that shows no error.
abbrev pub IsMute : Pcsm → Type 0
IsMute ml = (ml.state ≡ failed) × (status_error ml ≡ none)

module _ (after : Timestamp → Timestamp → Bool) where
  unfoldable pub run_command : Command → Pcsm → Option Error × Pcsm
  run_command (start_command options) ml = start options ml
  run_command pause_command ml = pause ml
  run_command (resume_command from_failure) ml = resume from_failure ml
  run_command (finalize_command ignore_history_lost history_lost ended) ml =
      finalize after ignore_history_lost history_lost ended ml

  abbrev pub MovedAs : Command → Pcsm → Option Error × Pcsm → Type 0
  MovedAs cmd ml (some e, ml') = (ml'.state ≡ ml.state) × (ml'.err ≡ ml.err)
  MovedAs cmd ml (none, ml') =
      ((admits cmd ml.state ≡ true) × (ml'.state ≡ moves_to cmd)) ⊎ (IsMute ml × (ml' ≡ ml))

  paused_repl-MovedAs :
      (ml : Pcsm) (r : Option Error × Repl)
      → ml.state ≡ running
      → MovedAs pause_command ml (paused_repl ml r)
  unfolding paused_repl admits moves_to
  paused_repl-MovedAs ml (some e, repl) h = (refl, refl)
  paused_repl-MovedAs ml (none, repl) h = inl (rw h refl, refl)

  start_in-MovedAs :
      (s : State) (options : StartOptions) (ml : Pcsm)
      → ml.state ≡ s
      → MovedAs (start_command options) ml (start_in s options ml)
  unfolding start_in started admits moves_to
  start_in-MovedAs running options ml h = (refl, refl)
  start_in-MovedAs finalizing options ml h = (refl, refl)
  start_in-MovedAs failed options ml h = (refl, refl)
  start_in-MovedAs paused options ml h = (refl, refl)
  start_in-MovedAs idle options ml h = inl (rw h refl, refl)
  start_in-MovedAs finalized options ml h = inl (rw h refl, refl)

  state-is_running : (s : State) → not (is_running s) ≡ false → s ≡ running
  unfolding is_running
  state-is_running s h = ground arith

  pause-MovedAs : (ml : Pcsm) → MovedAs pause_command ml (pause ml)
  unfolding pause
  pause-MovedAs ml =
      if-cases (MovedAs pause_command ml) (not (is_running ml.state)) (λ h. (refl, refl))
        (λ h.
          if-cases (MovedAs pause_command ml)
            (not (percona_link_mongodb.Repl.is_running (percona_link_mongodb.Repl.status ml.repl)))
            (λ k. (refl, refl))
            (λ k.
              paused_repl-MovedAs ml (percona_link_mongodb.Repl.pause ml.repl)
                (state-is_running ml.state h)))

  admits_resume :
      (s : State) (from_failure : Bool)
      → not (is_paused s) && not (is_failed s && from_failure) ≡ false
      → admits (resume_command from_failure) s ≡ true
  unfolding admits is_paused is_failed
  admits_resume s from_failure h = ground arith

  do_resume-MovedAs :
      (from_failure : Bool) (ml : Pcsm)
      → admits (resume_command from_failure) ml.state ≡ true
      → MovedAs (resume_command from_failure) ml (do_resume from_failure ml)
  unfolding do_resume reset_error moves_to
  do_resume-MovedAs from_failure ml h =
      if-cases (MovedAs (resume_command from_failure) ml)
        (not (percona_link_mongodb.Repl.is_started (percona_link_mongodb.Repl.status ml.repl))
          && not from_failure)
        (λ k. (refl, refl))
        (λ k.
          if-cases (MovedAs (resume_command from_failure) ml)
            (not (percona_link_mongodb.Repl.is_paused (percona_link_mongodb.Repl.status ml.repl))
              && from_failure)
            (λ m. (refl, refl)) (λ m. inl (h, refl)))

  resume-MovedAs :
      (from_failure : Bool) (ml : Pcsm)
      → MovedAs (resume_command from_failure) ml (resume from_failure ml)
  unfolding resume
  resume-MovedAs from_failure ml =
      if-cases (MovedAs (resume_command from_failure) ml)
        (not (is_paused ml.state) && not (is_failed ml.state && from_failure)) (λ h. (refl, refl))
        (λ h. do_resume-MovedAs from_failure ml (admits_resume ml.state from_failure h))

  -- What a refusal of finalize says.
  abbrev RefusedAs : Bool → Bool → (Repl → Repl) → Pcsm → Option (Option Error) → Type 0
  RefusedAs i h ended ml none = admits (finalize_command i h ended) ml.state ≡ true
  RefusedAs i h ended ml (some (some e)) = Unit
  RefusedAs i h ended ml (some none) = IsMute ml

  state-is_failed : (s : State) → is_failed s ≡ true → s ≡ failed
  unfolding is_failed
  state-is_failed s h = ground arith

  refused_failed :
      (i h : Bool) (ended : Repl → Repl) (ml : Pcsm) (shown : Option Error)
      → ml.state ≡ failed
      → status_error ml ≡ shown
      → RefusedAs i h ended ml (some (wrap shown "failed state"))
  unfolding wrap
  refused_failed i h ended ml none s e = (s, e)
  refused_failed i h ended ml (some cause) s e = tt

  admits_finalize :
      (i h : Bool) (ended : Repl → Repl) (s : State)
      → is_idle s ≡ false
      → is_failed s && (not i || not h) ≡ false
      → admits (finalize_command i h ended) s ≡ true
  unfolding admits is_idle is_failed
  admits_finalize i h ended s not_idle not_failed = ground arith

  finalize_refusal-RefusedAs :
      (i h : Bool) (ended : Repl → Repl) (ml : Pcsm)
      → RefusedAs i h ended ml (finalize_refusal after i h ml)
  unfolding finalize_refusal
  finalize_refusal-RefusedAs i h ended ml =
      let P = RefusedAs i h ended ml in
      if-cases P (is_idle ml.state) (λ a. tt)
        (λ a.
          if-cases P (is_failed ml.state && (not i || not h))
            (λ b.
              refused_failed i h ended ml (status_error ml)
                (state-is_failed ml.state (ground (arith, b))) refl)
            (λ b.
              if-cases P
                (not (
                  percona_link_mongodb.Clone.is_finished
                    (percona_link_mongodb.Clone.status ml.clone)))
                (λ c. tt)
                (λ c.
                  if-cases P
                    (not (
                      percona_link_mongodb.Repl.is_started
                        (percona_link_mongodb.Repl.status ml.repl)))
                    (λ d. tt)
                    (λ d.
                      if-cases P (not (initial_sync_completed after ml)) (λ e. tt)
                        (λ e. admits_finalize i h ended ml.state a b)))))

  finalize_waited-MovedAs :
      (i h : Bool) (ended : Repl → Repl) (ml : Pcsm) (err : Option Error) (ml' : Pcsm)
      → admits (finalize_command i h ended) ml.state ≡ true
      → ml'.state ≡ ml.state
      → ml'.err ≡ ml.err
      → MovedAs (finalize_command i h ended) ml (finalize_waited after err ml')
  unfolding finalize_waited wrap moves_to
  finalize_waited-MovedAs i h ended ml (some e) ml' ok s e' = (s, e')
  finalize_waited-MovedAs i h ended ml none ml' ok s e' = inl (ok, refl)

  finalize_paused-MovedAs :
      (i h : Bool) (ended : Repl → Repl) (ml : Pcsm) (r : Option Error × Repl)
      → admits (finalize_command i h ended) ml.state ≡ true
      → MovedAs (finalize_command i h ended) ml (finalize_paused after ended ml r)
  unfolding finalize_paused wrap moves_to
  finalize_paused-MovedAs i h ended ml (some e, repl) ok = (refl, refl)
  finalize_paused-MovedAs i h ended ml (none, repl) ok =
      finalize_waited-MovedAs i h ended ml (ended repl).err (record ml { repl = ended repl }) ok
        refl refl

  finalize_on-MovedAs :
      (i h : Bool) (ended : Repl → Repl) (ml : Pcsm) (r : Option (Option Error))
      → RefusedAs i h ended ml r
      → MovedAs (finalize_command i h ended) ml (finalize_on after ended ml r)
  unfolding finalize_on moves_to
  finalize_on-MovedAs i h ended ml (some (some e)) p = (refl, refl)
  finalize_on-MovedAs i h ended ml (some none) p = inr (p, refl)
  finalize_on-MovedAs i h ended ml none p =
      if-cases (MovedAs (finalize_command i h ended) ml)
        (percona_link_mongodb.Repl.is_running (percona_link_mongodb.Repl.status ml.repl))
        (λ a. finalize_paused-MovedAs i h ended ml (percona_link_mongodb.Repl.pause ml.repl) p)
        (λ a. inl (p, refl))

  -- For every command, with its options, and every state: if the command returns an error, the
  -- state and the stored error are what they were; if it returns none, then the command is one that
  -- the state admits and the new state is the one that the command moves to, or, a case that only a
  -- failure that shows no error has, nothing was changed.
  pub run_command-MovedAs : (cmd : Command) (ml : Pcsm) → MovedAs cmd ml (run_command cmd ml)
  unfolding run_command start finalize
  run_command-MovedAs (start_command options) ml = start_in-MovedAs ml.state options ml refl
  run_command-MovedAs pause_command ml = pause-MovedAs ml
  run_command-MovedAs (resume_command from_failure) ml = resume-MovedAs from_failure ml
  run_command-MovedAs (finalize_command ignore_history_lost history_lost ended) ml =
      finalize_on-MovedAs ignore_history_lost history_lost ended ml
        (finalize_refusal after ignore_history_lost history_lost ml)
        (finalize_refusal-RefusedAs ignore_history_lost history_lost ended ml)
