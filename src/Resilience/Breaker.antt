-- ===== src/Resilience/Breaker.antt =====
-- `CircuitBreaker`: `execute` is split where it awaits the function, into the part that admits or
-- rejects a call and the part that settles it; calls in flight interleave between the two.
pub mod Reach
use sealvo.Base.{
  ℕ, suc, ◌+◌, ◌≤◌, ◌<◌, Option, none, some, Bool, true, false, not, ◌&&◌, ◌||◌, List, [], ◌∷◌, ltb,
  leb, if◌then◌else◌,
}
use sealvo.Resilience.{ErrorLike, Settled, resolved, rejected}

pub data CircuitState : Type 0 where
  closed opened half_open : CircuitState

pub record Breaker : Type 0 where
  pub threshold : ℕ
  pub reset_timeout : ℕ
  pub failure_count : ℕ
  pub circuit : CircuitState
  pub last_failure_time : ℕ
  pub probing : Bool

-- The constructor
abbrev pub new_breaker : ℕ → ℕ → Breaker
new_breaker threshold reset_timeout = record {
  threshold = threshold;
  reset_timeout = reset_timeout;
  failure_count = 0;
  circuit = closed;
  last_failure_time = 0;
  probing = false;
}

-- Date.now() - lastFailureTime >= resetTimeout
unfoldable pub elapsed : ℕ → Breaker → Bool
elapsed now b = leb (b.last_failure_time + b.reset_timeout) now

-- CircuitOpenError, or the call is made, as the probe or not.
pub data Admission : Type 0 where
  circuit_open : Admission
  admitted : Bool → Admission

-- The second test of `execute`, on the state that the first has left.
unfoldable pub admit : CircuitState → Breaker → Breaker × Admission
admit closed b = (b, admitted false)
admit opened b = (b, circuit_open)
admit half_open b =
    if b.probing then (b, circuit_open) else (record b { probing = true }, admitted true)

unfoldable pub begin_on : CircuitState → ℕ → Breaker → Breaker × Admission
unfolding admit elapsed
begin_on opened now b =
    if elapsed now b then admit half_open (record b { circuit = half_open }) else (b, circuit_open)
begin_on closed now b = admit closed b
begin_on half_open now b = admit half_open b

unfoldable pub begin : ℕ → Breaker → Breaker × Admission
unfolding begin_on
begin now b = begin_on b.circuit now b

abbrev pub is_half_open : CircuitState → Bool
is_half_open half_open = true
is_half_open _ = false

unfoldable pub on_success : Breaker → Breaker
on_success b =
    let b' = record b { failure_count = 0 } in
    if is_half_open b.circuit then record b' { circuit = closed } else b'

unfoldable pub on_failure : ℕ → Breaker → Breaker
on_failure now b =
    let b' = record b { failure_count = b.failure_count + 1; last_failure_time = now } in
    if is_half_open b.circuit || leb b.threshold (b.failure_count + 1)
    then record b' { circuit = opened }
    else b'

unfoldable pub on_settled : {A : Type 0} → (ErrorLike → Bool) → ℕ → Settled A → Breaker → Breaker
unfolding on_success on_failure
on_settled is_failure now (resolved a) b = on_success b
on_settled is_failure now (rejected e) b = if is_failure e then on_failure now b else on_success b

-- try, catch and finally: the call that began with `is_probe` has settled.
unfoldable pub settle : {A : Type 0} → (ErrorLike → Bool) → ℕ → Bool → Settled A → Breaker → Breaker
unfolding on_settled
settle is_failure now is_probe r b =
    let b' = on_settled is_failure now r b in if is_probe then record b' { probing = false } else b'

unfoldable pub shown_state : CircuitState → Bool → CircuitState
shown_state opened true = half_open
shown_state opened false = opened
shown_state closed e = closed
shown_state half_open e = half_open

unfoldable pub get_state : ℕ → Breaker → CircuitState
unfolding elapsed shown_state
get_state now b = shown_state b.circuit (elapsed now b)

-- `execute` with no other call in between: `none` is CircuitOpenError.
unfoldable pub execute :
    {A : Type 0} → (ErrorLike → Bool) → ℕ → ℕ → Settled A → Breaker → Breaker × Option (Settled A)
unfolding begin settle
execute is_failure now later r b =
    let (b', admission) = begin now b in
    elim admission [
      | circuit_open ↦ (b', none)
      | admitted is_probe ↦ (settle is_failure later is_probe r b', some r)
    ]
