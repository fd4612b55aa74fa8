-- ===== src/Errors/Transient.antt =====
-- Which errors IsTransient of topo/errors.go retries once errors.Wrap has put a message before them.
use percona_link_mongodb.Prelude.{
  String, true, false, ◌≡◌, arith, string_eq, some, if-cases, ==_iff, ◌==◌, ◌≢◌,
}
use mathlib.Core.Option
use percona_link_mongodb.Errors.{
  Error, wrapped, wrap, driver, DriverError, has_retryable_label, has_transient_code, is_transient,
}

-- For a driver error whose only sign of being transient is the label RetryableWriteError, and a
-- message that is not empty: IsTransient holds of the error itself, and does not hold of the error
-- that Wrap makes of it.
pub wrap_hides_label :
    (d : DriverError) (text : String)
    → d.network ≡ false
    → d.timeout ≡ false
    → has_transient_code d ≡ false
    → d.retryable_label ≡ true
    → text ≢ ""
    → (is_transient (driver d) ≡ true)
      × (Option.map is_transient (wrap (some (driver d)) text) ≡ some false)
unfolding is_transient wrap
wrap_hides_label d text n t c l filled = (
  ground arith,
  if-cases (λ e. Option.map is_transient e ≡ some false) (text == "")
      (λ h. absurd (filled ((==_iff text "").0 h))) λ _. hidden,
)
  where
    hidden : Option.map is_transient (some (wrapped (driver d) text)) ≡ some false
    hidden = ground arith

-- Every other sign passes through a message: if the outermost error carries no label of its own,
-- wrapping does not change what IsTransient answers.
is_transient-wrapped :
    (e : Error) (text : String)
    → has_retryable_label e ≡ false
    → is_transient (wrapped e text) ≡ is_transient e
unfolding is_transient
is_transient-wrapped e text h = ground arith
