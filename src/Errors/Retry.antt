-- ===== src/Errors/Retry.antt =====
-- RunWithRetry of topo/topo.go: which attempt's outcome it returns.
use percona_link_mongodb.Prelude.{
  ℕ, zero, suc, ◌+◌, ◌<◌, ◌≡◌, refl, ◌∙◌, ◌⊎◌, inl, inr, Bool, true, false, ◌||◌, Option, none,
  some, arith, nat_eqb, if◌then◌else◌, Bool-cases,
}
use percona_link_mongodb.Errors.{Error, new, is_transient}

abbrev pub default_max_retries : ℕ
default_max_retries = 3

module _ {S : Type 0} (fn : S → Option Error × S) where
  -- The loop, with the attempts that are left and the error of the last one.
  unfoldable pub retry_loop : ℕ → Option Error → S → Option Error × S
  retry_loop zero err s = (err, s)
  retry_loop (suc n) err s =
      let (e, s') = fn s in
      elim e [
        | none ↦ (none, s')
        | some x ↦ elim (is_transient x) [ true ↦ retry_loop n (some x) s' | false ↦ (some x, s') ]
      ]

  unfoldable pub run_with_retry : ℕ → ℕ → S → Option Error × S
  unfolding retry_loop
  run_with_retry interval max_retries s =
      if nat_eqb interval 0 || nat_eqb max_retries 0
      then (some (new "retryInterval and maxRetries must be greater than zero"), s)
      else retry_loop max_retries none s

  -- The state after k attempts.
  unfoldable pub after : ℕ → S → S
  after zero s = s
  after (suc k) s = after k (fn s).1

-- An outcome that the loop tries again.
abbrev pub retries : Option Error → Bool
retries none = false
retries (some e) = is_transient e

-- The attempt at which the loop stops: none before it could have stopped it.
pub record StopsAt {S : Type 0} (fn : S → Option Error × S) (n : ℕ) (s : S) (k : ℕ) : Type 0 where
  pub in_range : k < n
  pub last : (k + 1 ≡ n) ⊎ (retries (fn (after fn k s)).0 ≡ false)
  pub earlier : (j : ℕ) → j < k → retries (fn (after fn j s)).0 ≡ true

module _ {S : Type 0} (fn : S → Option Error × S) where
  retry_loop-next :
      (n : ℕ) (err : Option Error) (s : S)
      → retries (fn s).0 ≡ true
      → retry_loop fn (suc n) err s ≡ retry_loop fn n (fn s).0 (fn s).1
  unfolding retry_loop
  retry_loop-next n err s h = ground arith

  retry_loop-stop :
      (n : ℕ) (err : Option Error) (s : S)
      → retries (fn s).0 ≡ false
      → retry_loop fn (suc n) err s ≡ fn s
  unfolding retry_loop
  retry_loop-stop n err s h = ground arith

  StopsAt-zero : (n : ℕ) (s : S) → retries (fn s).0 ≡ false → StopsAt fn (suc n) s 0
  unfolding after
  StopsAt-zero n s h = record {
    in_range = omega arith;
    last = inr h;
    earlier = λ j lt. absurd (omega arith);
  }

  StopsAt-one : (s : S) → StopsAt fn 1 s 0
  StopsAt-one s = record {
    in_range = omega arith;
    last = inl (omega arith);
    earlier = λ j lt. absurd (omega arith);
  }

  earlier-suc :
      (k : ℕ) (s : S)
      → retries (fn s).0 ≡ true
      → ((j : ℕ) → j < k → retries (fn (after fn j (fn s).1)).0 ≡ true)
      → (j : ℕ) → j < suc k
      → retries (fn (after fn j s)).0 ≡ true
  unfolding after
  earlier-suc k s h all zero lt = h
  earlier-suc k s h all (suc j) lt = all j (omega arith)

  StopsAt-suc :
      (n k : ℕ) (s : S)
      → retries (fn s).0 ≡ true
      → StopsAt fn n (fn s).1 k
      → StopsAt fn (suc n) s (suc k)
  unfolding after
  StopsAt-suc n k s h st = record {
    in_range = omega (arith, st.in_range);
    last = elim st.last [ inl e ↦ inl (omega arith) | inr e ↦ inr e ];
    earlier = earlier-suc k s h st.earlier;
  }

  retry_loop_outcome :
      (n : ℕ) (err : Option Error) (s : S)
      → (k : ℕ) × StopsAt fn (suc n) s k × (retry_loop fn (suc n) err s ≡ fn (after fn k s))
  unfolding after
  retry_loop_outcome zero err s = elim (Bool-cases (retries (fn s).0)) [
    | inl again ↦ (0, StopsAt-one s, retry_loop-next 0 err s again ∙ (unfold retry_loop in refl))
    | inr done ↦ (0, StopsAt-zero 0 s done, retry_loop-stop 0 err s done)
  ]
  retry_loop_outcome (suc n) err s = elim (Bool-cases (retries (fn s).0)) [
    | inl again ↦
        (let (k, st, e) = retry_loop_outcome n (fn s).0 (fn s).1 in
          (suc k, StopsAt-suc (suc n) k s again st, retry_loop-next (suc n) err s again ∙ e))
    | inr done ↦ (0, StopsAt-zero (suc n) s done, retry_loop-stop (suc n) err s done)
  ]

  run_with_retry-suc :
      (i m : ℕ) (s : S) → run_with_retry fn (suc i) (suc m) s ≡ retry_loop fn (suc m) none s
  unfolding run_with_retry
  run_with_retry-suc i m s = ground arith

  -- With a positive interval and a positive number of retries, RunWithRetry returns the outcome and
  -- the state of one attempt k below maxRetries, such that every attempt before k failed with a
  -- transient error, and attempt k succeeded, failed with an error that is not transient, or was the
  -- last one allowed.
  pub run_with_retry_outcome :
      (interval max_retries : ℕ) (s : S)
      → 0 < interval
      → 0 < max_retries
      → (k : ℕ) × StopsAt fn max_retries s k
        × (run_with_retry fn interval max_retries s ≡ fn (after fn k s))
  unfolding run_with_retry
  run_with_retry_outcome zero m s hi hm = absurd (omega arith)
  run_with_retry_outcome (suc i) zero s hi hm = absurd (omega arith)
  run_with_retry_outcome (suc i) (suc m) s hi hm =
      let (k, st, e) = retry_loop_outcome m none s in (k, st, run_with_retry-suc i m s ∙ e)
