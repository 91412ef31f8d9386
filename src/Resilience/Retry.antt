-- ===== src/Resilience/Retry.antt =====
-- `withRetry`: how often the function is called, what is returned, and how long it sleeps.
use sealvo.Base.{
  ℕ, zero, suc, ◌+◌, ◌*◌, ◌^◌, ◌≤◌, ◌<◌, ◌≡◌, refl, ap, sym, subst, ◌∙◌, ◌⊎◌, inl, inr, Bool, true,
  false, List, [], ◌∷◌, arith, if◌then◌else◌, length, Bool-cases,
}
use native.Mathlib.Nat.{add-zero, mul-le-mul_left}
use sealvo.Resilience.{ErrorLike, Settled, resolved, rejected}

pub record Options : Type 0 where
  pub retries : ℕ
  pub delay : ℕ
  pub backoff : ℕ
  pub should_retry : ErrorLike → Bool

-- What was returned, how many calls were made, and the sleeps in between.
pub record Run (A : Type 0) : Type 0 where
  pub result : Settled A
  pub calls : ℕ
  pub sleeps : List ℕ

pub Settled-cases :
    {A : Type 0} (r : Settled A)
    → ((a : A) × (r ≡ resolved a)) ⊎ ((e : ErrorLike) × (r ≡ rejected e))
Settled-cases (resolved a) = inl (a, refl)
Settled-cases (rejected e) = inr (e, refl)

-- Math.random() is draw / one, and a sleep is counted in units of 1 / (4 * one) ms:
-- w + w * 0.25 * (2 * draw / one - 1).
unfoldable pub sleep_units : ℕ → Options → ℕ → ℕ → ℕ
sleep_units one o attempt draw = o.delay * o.backoff ^ attempt * (3 * one + 2 * draw)

module _ {A : Type 0} (one : ℕ) (o : Options) (f : ℕ → Settled A) (draw : ℕ → ℕ) where
  -- The loop from `attempt` on, with `left` more attempts allowed after it.
  unfoldable pub attempts : ℕ → ℕ → Run A
  unfolding sleep_units
  attempts zero attempt = record { result = f attempt; calls = 1; sleeps = [] }
  attempts (suc left) attempt = elim (f attempt) [
    | resolved a ↦ record { result = resolved a; calls = 1; sleeps = [] }
    | rejected e ↦
        let rest = attempts left (attempt + 1) in
        if o.should_retry e
        then record {
          result = rest.result;
          calls = rest.calls + 1;
          sleeps = sleep_units one o attempt (draw attempt) ∷ rest.sleeps;
        }
        else record { result = rejected e; calls = 1; sleeps = [] }
  ]

  unfoldable pub with_retry : Run A
  unfolding attempts
  with_retry = attempts o.retries 0

  -- The attempt fails with an error that is worth another one.
  abbrev pub Retryable : ℕ → Type 0
  Retryable i = (e : ErrorLike) × (f i ≡ rejected e) × (o.should_retry e ≡ true)

  -- The attempts that were made: all but the last were worth another, and the last was not, or
  -- was the last allowed.
  abbrev pub Made : ℕ → ℕ → Type 0
  Made left attempt =
      (n : ℕ) × (n ≤ left)
      × ((attempts left attempt).calls ≡ n + 1)
      × (length (attempts left attempt).sleeps ≡ n)
      × ((attempts left attempt).result ≡ f (attempt + n))
      × ((i : ℕ) → i < n → Retryable (attempt + i))
      × (n < left → ¬ Retryable (attempt + n))

  again_case :
      (left attempt : ℕ) (x : ErrorLike)
      → f attempt ≡ rejected x
      → o.should_retry x ≡ true
      → Made left (attempt + 1)
      → Made (suc left) attempt
  unfolding attempts
  again_case left attempt x e again (n, le, calls, len, res, before, last) = (
    n + 1,
    omega arith,
    rw (e, again, attempts) (omega arith),
    rw (e, again, attempts) (omega arith),
    rw (e, again, attempts) (res ∙ ap f (omega arith)),
    λ i h. earlier i h,
    λ h r. last (omega arith) (subst Retryable (omega arith) r),
  )
    where
      earlier : (i : ℕ) → i < n + 1 → Retryable (attempt + i)
      earlier zero h = (x, ap f (add-zero attempt) ∙ e, again)
      earlier (suc i) h = subst Retryable (omega arith) (before i (omega arith))

  not_worth :
      (attempt : ℕ) (x : ErrorLike)
      → f attempt ≡ rejected x
      → o.should_retry x ≡ false
      → ¬ Retryable (attempt + 0)
  not_worth attempt x e last (y, p, q) = ground (arith, ap f (add-zero attempt))

  attempts_lem : (left attempt : ℕ) → Made left attempt
  unfolding attempts
  attempts_lem zero attempt =
      (0, omega arith, omega arith, refl, ap f (omega arith), λ i h. elim h [ ], λ h. elim h [ ])
  attempts_lem (suc left) attempt = elim (Settled-cases (f attempt)) [
    | inl (a, e) ↦ (
      0,
      omega arith,
      rw (e, attempts) (omega arith),
      rw (e, attempts) refl,
      rw (e, attempts) (sym (ap f (add-zero attempt) ∙ e)),
      λ i h. elim h [ ],
      λ h r. cc (ap f (add-zero attempt), r.1),
    )
    | inr (x, e) ↦ elim (Bool-cases (o.should_retry x)) [
      | inl again ↦ again_case left attempt x e again (attempts_lem left (attempt + 1))
      | inr last ↦ (
        0,
        omega arith,
        rw (e, last, attempts) (omega arith),
        rw (e, last, attempts) refl,
        rw (e, last, attempts) (sym (ap f (add-zero attempt) ∙ e)),
        λ i h. elim h [ ],
        λ h r. not_worth attempt x e last r,
      )
    ]
  ]

  -- The function is called until an attempt succeeds, fails with an error that is not worth
  -- another, or is the last of `retries + 1`: that attempt's outcome is returned, every attempt
  -- before it failed with an error worth another, and there is one sleep between two calls.
  pub with_retry_lem :
      (n : ℕ) × (n ≤ o.retries)
      × (with_retry.calls ≡ n + 1)
      × (length with_retry.sleeps ≡ n)
      × (with_retry.result ≡ f n)
      × ((i : ℕ) → i < n → Retryable i)
      × (n < o.retries → ¬ Retryable n)
  unfolding with_retry
  with_retry_lem =
      let (n, le, calls, len, res, before, last) = attempts_lem o.retries 0 in
      (
        n,
        le,
        calls,
        len,
        res ∙ ap f (omega arith),
        λ i h. subst Retryable (omega arith) (before i h),
        λ h r. last h (subst Retryable (omega arith) r),
      )

  -- The jitter keeps a sleep within a quarter of `delay * backoff ^ attempt`, above and below.
  pub sleep_units_bounds :
      (attempt : ℕ)
      → draw attempt < one
      → let base = o.delay * o.backoff ^ attempt in
        (3 * one * base ≤ sleep_units one o attempt (draw attempt))
        × (sleep_units one o attempt (draw attempt) ≤ 5 * one * base)
  unfolding sleep_units
  sleep_units_bounds attempt h =
      let base = o.delay * o.backoff ^ attempt in
      let above : base * draw attempt ≤ base * one = mul-le-mul_left base (omega arith) in
      omega arith
