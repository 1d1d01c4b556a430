-- ===== src/Rag/Stream/Settled.antt =====
-- Which run of the chain reaches the client.
use production_rag_system.Prelude.{
  ℕ, zero, suc, ◌+◌, ◌≤◌, ◌<◌, ◌≡◌, refl, ap, ◌∙◌, inl, inr, String, Bool, true, false, List, [],
  ◌∷◌, ◌++◌, arith, Bool-cases, ◌==◌,
}
use production_rag_system.Prelude.Text.{is_empty}
use production_rag_system.Core.Result.{Exc}
use production_rag_system.Rag.Stream.{
  ChainEvent, ChainRun, on_chat_model_stream, other, yielded_any, is_retried, raised_by,
  stream_attempts, stream_chain_with_retry, tokens_of,
}

tokens_of-append : (es fs : List ChainEvent) → tokens_of (es ++ fs) ≡ tokens_of es ++ tokens_of fs
unfolding tokens_of
tokens_of-append [] fs = refl
tokens_of-append (other ∷ es) fs = tokens_of-append es fs
tokens_of-append (on_chat_model_stream content ∷ es) fs = elim (Bool-cases (is_empty content)) [
  | inl blank ↦ rw blank (tokens_of-append es fs)
  | inr full ↦ rw full (ap (◌∷◌ content) (tokens_of-append es fs))
]

tokens_of-none : (es : List ChainEvent) → yielded_any es ≡ false → tokens_of es ≡ []
unfolding tokens_of
tokens_of-none [] h = refl
tokens_of-none (other ∷ es) h = tokens_of-none es h
tokens_of-none (on_chat_model_stream content ∷ es) h = elim (Bool-cases (is_empty content)) [
  | inl blank ↦ rw blank (tokens_of-none es (ground arith))
  | inr full ↦ absurd (ground arith)
]

module _ (is_retryable : Exc → Bool) (message : Exc → String) (run : ℕ → ChainRun) where
  abbrev retried : ℕ → Bool
  retried i = is_retried is_retryable message run (run i)

  abbrev tries : ℕ → ℕ → ChainRun
  tries = stream_attempts is_retryable message run

  -- A run that is started again has shown nothing.
  retried-silent :
      (r : ChainRun) → is_retried is_retryable message run r ≡ true → tokens_of r.yielded ≡ []
  retried-silent r h = elim (Bool-cases (yielded_any r.yielded)) [
    | inl any ↦ absurd (ground arith)
    | inr silent ↦ tokens_of-none r.yielded silent
  ]

  tries-settles :
      (left i n : ℕ)
      → i ≤ n
      → n ≤ i + left
      → ((j : ℕ) → j < n → retried j ≡ true)
      → (n < i + left → retried n ≡ false)
      → (tokens_of (tries left i).yielded ≡ tokens_of (run n).yielded)
        × ((tries left i).failure ≡ raised_by is_retryable message run (run n))
  unfolding stream_attempts
  tries-settles zero i n lo hi earlier stops =
      let same : i ≡ n = omega arith in rw same (refl, refl)
  tries-settles (suc left) i n lo hi earlier stops = elim (Bool-cases (i == n)) [
    | inl eq ↦ let same : i ≡ n = ground arith in rw (same, stops (omega arith)) (refl, refl)
    | inr ne ↦
        let more : retried i ≡ true = earlier i (ground arith) in
        let (shown, ended) =
          tries-settles left (suc i) n (ground arith) (omega arith) earlier
            (λ h. stops (omega arith)) in
        rw more (
          tokens_of-append (run i).yielded (tries left (suc i)).yielded
              ∙ rw (retried-silent (run i) more) shown,
          ended,
        )
  ]

  -- The client sees the tokens of one run alone, the first that is not a retryable failure before
  -- its first token, or the last that the budget allows; and the stream ends as that run ends, save
  -- that a retryable failure before the first token is a ProviderError.
  pub stream-settles :
      (max_retries n : ℕ)
      → n ≤ max_retries
      → ((j : ℕ) → j < n → retried j ≡ true)
      → (n < max_retries → retried n ≡ false)
      → (tokens_of (stream_chain_with_retry is_retryable message run max_retries).yielded
          ≡ tokens_of (run n).yielded)
        × ((stream_chain_with_retry is_retryable message run max_retries).failure
            ≡ raised_by is_retryable message run (run n))
  unfolding stream_chain_with_retry
  stream-settles max_retries n bound earlier stops =
      tries-settles max_retries 0 n (omega arith) (omega (arith, bound)) earlier
        (λ h. stops (omega (arith, h)))
