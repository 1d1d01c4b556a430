-- ===== src/Rag/Errors.antt =====
-- backend/app/rag/errors.py: the retry wrapper round one call of a provider. The call is a
-- function of the attempt's number, since a provider may answer otherwise the next time; which
-- exceptions are rate limits (`is_retryable`) is a parameter, read off the client library's types.
use production_rag_system.Prelude.{
  ℕ, zero, suc, ◌+◌, ◌≤◌, ◌<◌, String, ◌≡◌, refl, ap, ◌∙◌, inl, inr, Bool, true, false, arith,
  Bool-cases, ◌==◌, if◌then◌else◌,
}
use production_rag_system.Core.Result.{Result, ok, err, Exc, provider_error}
use production_rag_system.Rag.State.{RagState, Seam, Preserves}

module _ {A : Type 0} (is_retryable : Exc → Bool) (message : Exc → String)
    (fn : ℕ → Result Exc A) where
  -- `AsyncRetrying(stop_after_attempt(n), reraise=True)`: the number of attempts left is the fuel.
  attempts : ℕ → ℕ → Result Exc A
  attempts zero i = fn i
  attempts (suc left) i = elim (fn i) [
    | ok a ↦ ok a
    | err e ↦ let again = attempts left (suc i) in if is_retryable e then again else err e
  ]

  wrap : Result Exc A → Result Exc A
  wrap (ok a) = ok a
  wrap (err e) = if is_retryable e then err (provider_error (message e)) else err e

  -- `max_retries` is `settings.LLM_MAX_RETRIES`: the attempts after the first.
  unfoldable pub call_with_retry : ℕ → Result Exc A
  unfolding attempts wrap
  call_with_retry max_retries = wrap (attempts max_retries 0)

  -- A failure after which the wrapper tries again.
  abbrev pub is_retried : Result Exc A → Bool
  is_retried (ok a) = false
  is_retried (err e) = is_retryable e

  wrap-settled : (r : Result Exc A) → is_retried r ≡ false → wrap r ≡ r
  unfolding wrap
  wrap-settled (ok a) h = refl
  wrap-settled (err e) h = rw h refl

  wrap-retried :
      (r : Result Exc A)
      → is_retried r ≡ true
      → (e : Exc) × (r ≡ err e) × (wrap r ≡ err (provider_error (message e)))
  unfolding wrap
  wrap-retried (ok a) h = absurd (ground arith)
  wrap-retried (err e) h = (e, refl, rw h refl)

  attempts-step :
      (left i : ℕ)
      → attempts (suc left) i ≡ (if is_retried (fn i) then attempts left (suc i) else fn i)
  unfolding attempts
  attempts-step left i =
      elim (fn i)
        as (λ r.
          (elim r [ ok a ↦ ok a | err e ↦ if is_retryable e then attempts left (suc i) else err e ])
          ≡ (if is_retried r then attempts left (suc i) else r)) [ ok a ↦ refl | err e ↦ refl ]

  attempts-settles :
      (left i n : ℕ)
      → i ≤ n
      → n ≤ i + left
      → ((j : ℕ) → j < n → is_retried (fn j) ≡ true)
      → is_retried (fn n) ≡ false
      → attempts left i ≡ fn n
  unfolding attempts
  attempts-settles zero i n lo hi before h = ap fn (omega arith)
  attempts-settles (suc left) i n lo hi before h = elim (Bool-cases (i == n)) [
    | inl same ↦ let eq : i ≡ n = ground arith in attempts-step left i ∙ rw (eq, h) refl
    | inr less ↦
        attempts-step left i
        ∙ rw (before i (ground arith))
            (attempts-settles left (suc i) n (ground arith) (omega arith) before h)
  ]

  attempts-exhausted :
      (left i : ℕ)
      → ((j : ℕ) → j ≤ i + left → is_retried (fn j) ≡ true)
      → attempts left i ≡ fn (i + left)
  unfolding attempts
  attempts-exhausted zero i all = ap fn (omega arith)
  attempts-exhausted (suc left) i all =
      attempts-step left i
      ∙ rw (all i (omega arith))
          (attempts-exhausted left (suc i) (λ j h. all j (omega (arith, h))) ∙ ap fn (omega arith))

  -- The first attempt that is not a retryable failure is the result, if it is among the first
  -- `max_retries + 1` attempts: a value, or an exception that is not worth a retry, as it is.
  pub call_with_retry-settles :
      (max_retries n : ℕ)
      → n ≤ max_retries
      → ((j : ℕ) → j < n → is_retried (fn j) ≡ true)
      → is_retried (fn n) ≡ false
      → call_with_retry max_retries ≡ fn n
  unfolding call_with_retry
  call_with_retry-settles max_retries n bound before h =
      rw (attempts-settles max_retries 0 n (omega arith) (omega (arith, bound)) before h)
        (wrap-settled (fn n) h)

  -- If the first `max_retries + 1` attempts all fail so, the last failure is raised as a
  -- ProviderError.
  pub call_with_retry-exhausted :
      (max_retries : ℕ)
      → ((j : ℕ) → j ≤ max_retries → is_retried (fn j) ≡ true)
      → (e : Exc) × (fn max_retries ≡ err e)
        × (call_with_retry max_retries ≡ err (provider_error (message e)))
  unfolding call_with_retry
  call_with_retry-exhausted max_retries all =
      rw
        (attempts-exhausted max_retries 0 (λ j h. all j (omega (arith, h)))
          ∙ ap fn (plus_zero max_retries))
        (wrap-retried (fn max_retries) (all max_retries (omega arith)))
    where
      plus_zero : (n : ℕ) → 0 + n ≡ n
      plus_zero n = omega arith

-- The same wrapper round a call that reads and writes the context variables: what a failed attempt
-- wrote to them, the next one finds.
module _ {F A : Type 0} (is_retryable : Exc → Bool) (message : Exc → String)
    (fn : ℕ → Seam F A) where
  -- What an attempt ended in, and the rest of the budget.
  abbrev try_again : Result Exc A → Seam F A → Seam F A
  try_again (ok a) again s = (ok a, s)
  try_again (err e) again s = if is_retryable e then again s else (err e, s)

  attempts_in : ℕ → ℕ → Seam F A
  attempts_in zero i s = fn i s
  attempts_in (suc left) i s = let (r, s') = fn i s in try_again r (attempts_in left (suc i)) s'

  unfoldable pub call_with_retry_in : ℕ → Seam F A
  unfolding attempts_in wrap
  call_with_retry_in max_retries s =
      let (r, s') = attempts_in max_retries 0 s in (wrap is_retryable message (λ i. r) r, s')

  -- What every attempt leaves alone, the wrapper leaves alone.
  module _ {B : Type 0} (part : RagState F → B) (each : (i : ℕ) → Preserves part (fn i)) where
    try_again-part :
        (r : Result Exc A) (again : Seam F A) (s : RagState F)
        → Preserves part again
        → part (try_again r again s).1 ≡ part s
    try_again-part (ok a) again s h = refl
    try_again-part (err e) again s h =
        elim (is_retryable e) as (λ b. part (if b then again s else (err e, s)).1 ≡ part s) [
          | true ↦ h s
          | false ↦ refl
        ]

    attempts_in-Preserves : (left i : ℕ) → Preserves part (attempts_in left i)
    unfolding attempts_in
    attempts_in-Preserves zero i s = each i s
    attempts_in-Preserves (suc left) i s =
        try_again-part (fn i s).0 (attempts_in left (suc i)) (fn i s).1
          (attempts_in-Preserves left (suc i))
        ∙ each i s

    pub call_with_retry_in-Preserves :
        (max_retries : ℕ) → Preserves part (call_with_retry_in max_retries)
    unfolding call_with_retry_in
    call_with_retry_in-Preserves max_retries s = attempts_in-Preserves max_retries 0 s
