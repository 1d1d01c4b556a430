-- ===== src/Rag/Stream.antt =====
-- `_stream_chain_with_retry` of backend/app/rag/baseline.py: a run of the chain that fails before
-- its first token is started again. What the n-th run yields, and the exception that ends it, is a
-- parameter; of its events only the model's tokens are read, a blank one among them.
pub mod Settled
use production_rag_system.Prelude.{
  ℕ, zero, suc, String, Bool, true, false, not, ◌&&◌, ◌||◌, List, [], ◌∷◌, ◌++◌, map, Option, none,
  some, if◌then◌else◌,
}
use production_rag_system.Prelude.Text.{is_empty}
use production_rag_system.Core.Result.{Exc, provider_error}

-- An event of `astream_events`.
pub data ChainEvent : Type 0 where
  on_chat_model_stream : String → ChainEvent
  other : ChainEvent

pub record ChainRun : Type 0 where
  pub yielded : List ChainEvent
  pub failure : Option Exc

abbrev pub has_content : ChainEvent → Bool
has_content other = false
has_content (on_chat_model_stream content) = not (is_empty content)

-- `yielded_any`
abbrev pub yielded_any : List ChainEvent → Bool
yielded_any [] = false
yielded_any (e ∷ es) = has_content e || yielded_any es

module _ (is_retryable : Exc → Bool) (message : Exc → String) (run : ℕ → ChainRun) where
  -- A failure after which the chain is run again, while the budget lasts.
  abbrev pub is_retried : ChainRun → Bool
  is_retried r = elim r.failure [
    | none ↦ false
    | some e ↦ not (yielded_any r.yielded) && is_retryable e
  ]

  -- The exception of a run that is the last one.
  abbrev pub raised_by : ChainRun → Option Exc
  raised_by r = elim r.failure [
    | none ↦ none
    | some e ↦
        if is_retryable e && not (yielded_any r.yielded)
        then some (provider_error (message e))
        else some e
  ]

  abbrev pub last_run : ChainRun → ChainRun
  last_run r = record { yielded = r.yielded; failure = raised_by r }

  -- What the consumer has seen of a run stays before what the next one yields.
  abbrev pub before : List ChainEvent → ChainRun → ChainRun
  before seen r = record { yielded = seen ++ r.yielded; failure = r.failure }

  -- The number of attempts left is the fuel.
  unfoldable pub stream_attempts : ℕ → ℕ → ChainRun
  stream_attempts zero i = last_run (run i)
  stream_attempts (suc left) i =
      let again = before (run i).yielded (stream_attempts left (suc i)) in
      if is_retried (run i) then again else last_run (run i)

  -- `max_retries` is `settings.LLM_MAX_RETRIES`.
  unfoldable pub stream_chain_with_retry : ℕ → ChainRun
  unfolding stream_attempts
  stream_chain_with_retry max_retries = stream_attempts max_retries 0

-- The tokens that the pipeline passes on.
unfoldable pub tokens_of : List ChainEvent → List String
tokens_of [] = []
tokens_of (other ∷ es) = tokens_of es
tokens_of (on_chat_model_stream content ∷ es) =
    let rest = tokens_of es in if is_empty content then rest else content ∷ rest
