-- ===== src/Resilience/Tests.antt =====
-- Tests of the resilience helpers.
use sealvo.Base.{ℕ, zero, suc, ◌+◌, ◌≤◌, ◌<◌, ◌≡◌, refl, true, false, arith, length}
use sealvo.Resilience.{ErrorLike, absent, number, Settled, resolved, rejected, is_transient_error}
use sealvo.Resilience.Retry.{Options, with_retry, with_retry_lem, Retryable}
use sealvo.Resilience.Breaker.{
  Breaker, closed, opened, half_open, new_breaker, admitted, begin, settle,
}
use sealvo.Resilience.Breaker.Reach.{
  System, Reach, here, next, start_call, idle, Reach-safe, probe_decides,
}

abbrev busy : ErrorLike
busy = record { name = "Error"; code = absent; status = number 503; status_code = absent }

abbrev defaults : Options
defaults = record { retries = 2; delay = 1_000; backoff = 2; should_retry = is_transient_error }

-- Two busy answers, then a value.
abbrev third_time : ℕ → Settled ℕ
third_time zero = rejected busy
third_time (suc zero) = rejected busy
third_time (suc (suc n)) = resolved 7

third_time_succeeds : (with_retry 10 defaults third_time (λ i. 5)).result ≡ resolved 7
unfolding with_retry is_transient_error
third_time_succeeds = refl

with_retry_lem_example :
    (n : ℕ) × (n ≤ 2)
    × ((with_retry 10 defaults third_time (λ i. 5)).calls ≡ n + 1)
    × (length (with_retry 10 defaults third_time (λ i. 5)).sleeps ≡ n)
    × ((with_retry 10 defaults third_time (λ i. 5)).result ≡ third_time n)
    × ((i : ℕ) → i < n → Retryable 10 defaults third_time (λ i. 5) i)
    × (n < 2 → ¬ Retryable 10 defaults third_time (λ i. 5) n)
with_retry_lem_example = with_retry_lem 10 defaults third_time (λ i. 5)

abbrev one_in_flight : System
one_in_flight = record { breaker = new_breaker 5 30_000; probes = 0; calls = 1 }

started : Reach is_transient_error (idle 5 30_000) one_in_flight
unfolding begin
started = next here (start_call (idle 5 30_000) 0 refl)

Reach-safe_example : (0 ≤ 1) × (closed ≡ half_open → ◌≡◌ {A = ℕ} 0 1) × (closed ≡ closed → 0 < 5)
Reach-safe_example = Reach-safe is_transient_error 5 30_000 one_in_flight (omega arith) started

abbrev open_breaker : Breaker
open_breaker = record (new_breaker 5 30_000) {
  circuit = opened;
  failure_count = 5;
  last_failure_time = 100;
}

probe_decides_example :
    let (b', admission) = begin 40_000 open_breaker in
    let seven : Settled ℕ = resolved 7 in
    let good = settle is_transient_error 40_010 true seven b' in
    let failed : Settled ℕ = rejected busy in
    let bad = settle is_transient_error 40_010 true failed b' in
    (admission ≡ admitted true)
    × (good.circuit ≡ closed)
    × (good.failure_count ≡ 0)
    × (good.probing ≡ false)
    × (bad.circuit ≡ opened)
    × (bad.last_failure_time ≡ 40_010)
    × (bad.probing ≡ false)
unfolding is_transient_error
probe_decides_example =
    probe_decides is_transient_error open_breaker 40_000 40_010 7 busy refl refl (omega arith) refl
