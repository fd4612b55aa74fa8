-- ===== src/Errors/Tests.antt =====
-- Witnesses and tests of the error predicates and of the retry loop.
use mathlib.Core.Option
use text.Mathlib.TextEquality.{eq_iff}
use percona_link_mongodb.Prelude.{
  ℕ, true, false, ◌≡◌, refl, Option, none, some, List, [], ◌∷◌, arith,
}
use percona_link_mongodb.Errors.{
  wrap, Error, new, driver, deadline_exceeded, DriverError, is_transient,
}
use percona_link_mongodb.Errors.Retry.{run_with_retry, after, StopsAt, run_with_retry_outcome}
use percona_link_mongodb.Errors.Transient.{wrap_hides_label}

-- A call whose outcomes are listed in advance; past the end it succeeds.
abbrev scripted : List (Option Error) → Option Error × List (Option Error)
scripted [] = (none, [])
scripted (o ∷ os) = (o, os)

abbrev labelled : DriverError
labelled = record {
  network = false;
  timeout = false;
  retryable_label = true;
  duplicate_key = false;
  command = none;
  write = none;
}

abbrev flaky : List (Option Error)
flaky = some deadline_exceeded ∷ some deadline_exceeded ∷ none ∷ none ∷ []

abbrev broken : List (Option Error)
broken = some deadline_exceeded ∷ some (new "bad") ∷ none ∷ []

retry_runs :
    (run_with_retry scripted 5 3 flaky ≡ (none, none ∷ []))
    × (run_with_retry scripted 5 3 broken ≡ (some (new "bad"), none ∷ []))
    × (run_with_retry scripted 5 2 flaky ≡ (some deadline_exceeded, none ∷ none ∷ []))
unfolding run_with_retry is_transient
retry_runs = (refl, refl, refl)

run_with_retry_outcome_example :
    (k : ℕ) × StopsAt scripted 3 flaky k
    × (run_with_retry scripted 5 3 flaky ≡ scripted (after scripted k flaky))
run_with_retry_outcome_example =
    run_with_retry_outcome scripted 5 3 flaky (omega arith) (omega arith)

wrap_hides_label_example :
    (is_transient (driver labelled) ≡ true)
    × (Option.map is_transient (wrap (some (driver labelled)) "bulk write") ≡ some false)
unfolding is_transient
wrap_hides_label_example =
    wrap_hides_label labelled "bulk write" refl refl refl refl
      (ground (arith, eq_iff "bulk write" ""))
