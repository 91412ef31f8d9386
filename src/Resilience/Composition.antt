-- ===== src/Resilience/Composition.antt =====
-- The three helpers composed as the file's header says: breaker outside, retry, then timeout.
use text.Mathlib.Text.{◌==◌ as str_eq}
use native.Mathlib.Numerals.{add-one}
use sealvo.Base.{
  ◌≢◌, ℕ, zero, suc, ◌+◌, ◌≤◌, ◌<◌, ◌≡◌, refl, ◌∙◌, Bool, true, false, Option, none, some, arith,
  if◌then◌else◌, leb,
}
use sealvo.Resilience.{
  ErrorLike, absent, number, Settled, rejected, timeout_error, with_timeout, is_transient_error,
}
use sealvo.Resilience.Retry.{Options, with_retry, attempts}
use sealvo.Resilience.Breaker.{Breaker, closed, opened, new_breaker, execute}

-- breaker.execute(() => withRetry(() => withTimeout(call, ms), options))
unfoldable pub guarded :
    {A : Type 0}
    → (ErrorLike → Bool)
    → ℕ
    → Options
    → ℕ
    → (ℕ → Option (ℕ × Settled A))
    → (ℕ → ℕ)
    → ℕ
    → ℕ
    → Breaker
    → Breaker × Option (Settled A)
guarded is_failure one o ms call draw now later b =
    execute is_failure now later (with_retry one o (λ i. with_timeout (call i) ms) draw).result b

module _ {A : Type 0} (one : ℕ) (o : Options) (f : ℕ → Settled A) (draw : ℕ → ℕ) where
  all_fail :
      (e : ErrorLike) (left attempt : ℕ)
      → ((i : ℕ) → f i ≡ rejected e)
      → o.should_retry e ≡ true
      → ((attempts one o f draw left attempt).result ≡ rejected e)
        × ((attempts one o f draw left attempt).calls ≡ left + 1)
  unfolding attempts
  all_fail e zero attempt h w = (h attempt, omega arith)
  all_fail e (suc left) attempt h w =
      let later = all_fail e left (attempt + 1) h w in
      rw (h attempt, w, attempts) (later.0, omega arith)

  one_call :
      (e : ErrorLike) (left : ℕ)
      → f 0 ≡ rejected e
      → o.should_retry e ≡ false
      → ((attempts one o f draw left 0).result ≡ rejected e)
        × ((attempts one o f draw left 0).calls ≡ 1)
  unfolding attempts
  one_call e zero h w = (h, refl)
  one_call e (suc left) h w = rw (h, w, attempts) (refl, refl)

not_transient :
    (e : ErrorLike) (n : ℕ)
    → str_eq e.name "TimeoutError" ≡ false
    → e.code ≡ absent
    → e.status ≡ number n
    → 400 ≤ n
    → n < 500
    → n ≢ 429
    → is_transient_error e ≡ false
unfolding is_transient_error
not_transient e n name code status low high ne =
    rw (name, code, status, is_transient_error) (ground arith)

-- With `isTransientError` as the test, an answer 4xx other than 429 is returned at once.
pub client_error_once :
    {A : Type 0} (one : ℕ) (o : Options) (f : ℕ → Settled A) (draw : ℕ → ℕ) (e : ErrorLike) (n : ℕ)
    → o.should_retry e ≡ is_transient_error e
    → f 0 ≡ rejected e
    → str_eq e.name "TimeoutError" ≡ false
    → e.code ≡ absent
    → e.status ≡ number n
    → 400 ≤ n
    → n < 500
    → n ≢ 429
    → ((with_retry one o f draw).result ≡ rejected e) × ((with_retry one o f draw).calls ≡ 1)
unfolding with_retry
client_error_once one o f draw e n t h name code status low high ne =
    one_call one o f draw e o.retries h (t ∙ not_transient e n name code status low high ne)

one_failure :
    {A : Type 0} (is_failure : ErrorLike → Bool) (now later : ℕ) (b : Breaker) (r : Settled A)
    (e : ErrorLike)
    → r ≡ rejected e
    → is_failure e ≡ true
    → b.circuit ≡ closed
    → ((execute is_failure now later r b).1 ≡ some (rejected e))
      × ((execute is_failure now later r b).0.failure_count ≡ b.failure_count + 1)
      × ((execute is_failure now later r b).0.circuit
          ≡ (if leb b.threshold (b.failure_count + 1) then opened else closed))
      × ((execute is_failure now later r b).0.threshold ≡ b.threshold)
unfolding execute
one_failure is_failure now later b r e h c p = ground arith

-- A service that never answers: each of the `retries + 1` calls times out, and the breaker counts
-- one failure for all of them.
pub silent_service :
    {A : Type 0} (is_failure : ErrorLike → Bool) (one : ℕ) (o : Options) (ms : ℕ) (draw : ℕ → ℕ)
    (now later : ℕ) (b : Breaker)
    → o.should_retry timeout_error ≡ true
    → is_failure timeout_error ≡ true
    → b.circuit ≡ closed
    → let f : ℕ → Settled A = λ i. with_timeout none ms in
      let (b', r) = guarded {A = A} is_failure one o ms (λ i. none) draw now later b in
      ((with_retry one o f draw).calls ≡ o.retries + 1)
      × (r ≡ some (rejected timeout_error))
      × (b'.failure_count ≡ b.failure_count + 1)
      × (b'.circuit ≡ (if leb b.threshold (b.failure_count + 1) then opened else closed))
unfolding guarded with_retry with_timeout
silent_service {A} is_failure one o ms draw now later b w c h =
    let f : ℕ → Settled A = λ i. with_timeout none ms in
    let run = all_fail one o f draw timeout_error o.retries 0 (λ i. refl) w in
    let counted =
      one_failure is_failure now later b (with_retry one o f draw).result timeout_error run.0 c h in
    (run.1, counted.0, counted.1, counted.2)

-- `n` calls in a row that fail, the i-th settling at `times i`.
unfoldable pub failing_calls : (ErrorLike → Bool) → ErrorLike → (ℕ → ℕ) → ℕ → Breaker → Breaker
failing_calls is_failure e times zero b = b
failing_calls is_failure e times (suc n) b =
    let r : Settled (Unit {0}) = rejected e in
    (execute is_failure (times n) (times n) r (failing_calls is_failure e times n b)).0

-- A new breaker opens at the threshold, not before: after `n` failures in a row it is closed with
-- `n` counted while `n` is below the threshold, and open when `n` reaches it.
pub opens_at_threshold :
    (is_failure : ErrorLike → Bool) (e : ErrorLike) (times : ℕ → ℕ) (threshold reset n : ℕ)
    → is_failure e ≡ true
    → n ≤ threshold
    → 0 < threshold
    → let b = failing_calls is_failure e times n (new_breaker threshold reset) in
      (b.failure_count ≡ n)
      × (b.threshold ≡ threshold)
      × (b.circuit ≡ (if leb threshold n then opened else closed))
unfolding failing_calls
opens_at_threshold is_failure e times threshold reset zero h le pos = ground arith
opens_at_threshold is_failure e times threshold reset (suc n) h le pos =
    let b = failing_calls is_failure e times n (new_breaker threshold reset) in
    let before = opens_at_threshold is_failure e times threshold reset n h (omega arith) pos in
    let still_closed : b.circuit ≡ closed = ground (arith, before) in
    let r : Settled (Unit {0}) = rejected e in
    let step = one_failure is_failure (times n) (times n) b r e refl h still_closed in
    (
      step.1 ∙ rw before.0 (omega arith),
      step.3 ∙ before.1,
      step.2 ∙ rw (before.0, before.1) (rw add-one),
    )
