-- ===== src/Resilience.antt =====
-- packages/shared/src/resilience/index.ts: timeout, retry with backoff, circuit breaker.
-- The function that is protected is given by what its calls do; time and random numbers are
-- arguments. Promises settle at a time or never.
pub mod Retry
mod Tests
pub mod Composition
pub mod Breaker
use text.Mathlib.Text.{◌==◌ as str_eq}
use sealvo.Base.{
  ℕ, zero, suc, ◌+◌, ◌*◌, ◌^◌, Bool, true, false, ◌&&◌, ◌||◌, Option, none, some, List, [], ◌∷◌,
  String, ltb, leb, ◌==◌, if◌then◌else◌, any,
}

-- A property that a caught value may hold: `unknown` in the source.
pub data Field : Type 0 where
  absent : Field
  number : ℕ → Field
  str : String → Field

pub record ErrorLike : Type 0 where
  pub name : String
  pub code : Field
  pub status : Field
  pub status_code : Field

abbrev pub transient_grpc : List ℕ
transient_grpc = 4 ∷ 8 ∷ 13 ∷ 14 ∷ []

abbrev pub transient_net : List String
transient_net =
    "ECONNRESET" ∷ "ECONNREFUSED" ∷ "ETIMEDOUT" ∷ "EPIPE" ∷ "EAI_AGAIN" ∷ "ENOTFOUND" ∷ []

-- a || b: b when a is undefined, 0 or the empty text
unfoldable pub or_else : Field → Field → Field
or_else absent b = b
or_else (number n) b = if n == 0 then b else number n
or_else (str t) b = if str_eq t "" then b else str t

unfoldable pub is_transient_grpc : Field → Bool
is_transient_grpc (number n) = any (λ c. c == n) transient_grpc
is_transient_grpc _ = false

unfoldable pub is_transient_http : Field → Bool
is_transient_http (number n) = n == 429 || leb 500 n
is_transient_http _ = false

unfoldable pub is_transient_net : Field → Bool
is_transient_net (str t) = any (λ c. str_eq c t) transient_net
is_transient_net _ = false

unfoldable pub is_transient_error : ErrorLike → Bool
unfolding or_else is_transient_grpc is_transient_http is_transient_net
is_transient_error e =
    if str_eq e.name "TimeoutError"
    then true
    else if is_transient_grpc e.code
    then true
    else if is_transient_http (or_else e.status e.status_code)
    then true
    else is_transient_net e.code

-- How a call ends.
pub data Settled (A : Type 0) : Type 0 where
  resolved : A → Settled A
  rejected : ErrorLike → Settled A

abbrev pub timeout_error : ErrorLike
timeout_error = record {
  name = "TimeoutError";
  code = absent;
  status = absent;
  status_code = absent;
}

-- The timer is set before the call is made: it wins a tie. `none`: the call never settles.
unfoldable pub with_timeout : {A : Type 0} → Option (ℕ × Settled A) → ℕ → Settled A
with_timeout none ms = rejected timeout_error
with_timeout (some (t, r)) ms = if ltb t ms then r else rejected timeout_error
