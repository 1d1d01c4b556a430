-- ===== src/Rag/Baseline/Responses.antt =====
-- backend/app/rag/baseline.py: what the pipeline is given, the responses that it ends in, and the
-- write-behind of the cache.
use production_rag_system.Prelude.{
  ℕ, String, Bool, true, false, not, ◌&&◌, List, [], ◌∷◌, ◌++◌, Option, none, some, length,
  if◌then◌else◌, Floats, concat,
}
use Prim.Native.String.{◌++◌ as str_append}
use production_rag_system.Core.Result.{Result, Exc}
use production_rag_system.Core.Contracts.{
  RetrievedChunk, RewriteResult, MemoryContext, PipelineFlags, AnswerResponse, Citation, Language,
}
use production_rag_system.Core.Settings.{Settings}
use production_rag_system.Caching.Keys.{normalize}
use production_rag_system.Caching.Entries.{Backend}
use production_rag_system.Caching.Seam.{keyed_on}
use production_rag_system.Rag.State.{Services}
use production_rag_system.Rag.Events.{
  SseEvent, searching, reranking, compressing, generating, citing, skipped, token, citations, meta,
  done, without_answer, emit,
}
use production_rag_system.Rag.Prompt.{format_context, system_prompt}
use production_rag_system.Rag.Stream.{ChainRun}
use production_rag_system.Rag.Rewrite.{Reply}
use production_rag_system.Rag.Citations.{CitedRow, post_llm_gate, suggestion_citations}
use production_rag_system.Rag.Generator.{Gen, stop, ◌>>◌}

-- What the pipeline calls and cannot be read here: the clients, the tokenizer (`_ENC`), the rewrite
-- model's reply to the n-th call, the embedding, what the n-th run of a model on a system and a
-- human message yields, the query of the citations, the token count of the compression, and the
-- clock.
pub record Providers (F V : Type 0) : Type 0 where
  pub services : Services F V
  pub backend : Backend F V
  pub encode : String → List ℕ
  pub decode : List ℕ → String
  pub rewrites : ℕ → Result Exc Reply
  pub embed : String → Result Exc V
  pub model : String → String → String → ℕ → ChainRun
  pub execute : List String → List CitedRow
  pub count_tokens : String → ℕ
  pub now : ℕ
  pub lookup_ms : ℕ
  pub retrieval_ms : ℕ
  pub compress_ms : ℕ
  pub generate_ms : ℕ
  pub cite_ms : ℕ

-- The arguments of `astream` besides the query.
pub record Ask : Type 0 where
  pub k : ℕ
  pub namespace : Option String
  pub flags : PipelineFlags
  pub memory : Option MemoryContext
  pub session_id : Option String

-- `answer_text += token`, token by token.
abbrev pub accumulate : String → List String → String
accumulate acc [] = acc
accumulate acc (t ∷ ts) = accumulate (str_append acc t) ts

abbrev pub was_summarized : Option MemoryContext → Bool
was_summarized none = false
was_summarized (some memory) = memory.summarized

-- The last three frames of an answer.
abbrev pub closing : AnswerResponse → List SseEvent
closing response = citations response.citations ∷ meta (without_answer response) ∷ done ∷ []

abbrev pub cached_response : AnswerResponse → PipelineFlags → AnswerResponse
cached_response hit flags = record hit { cache_hit = true; pipeline_flags = flags }

unfoldable pub replay_cached : AnswerResponse → PipelineFlags → List SseEvent
replay_cached hit flags =
    emit searching skipped
    ∷ emit reranking skipped
    ∷ emit compressing skipped
    ∷ emit generating skipped
    ∷ emit citing skipped
    ∷ token hit.answer
    ∷ closing (cached_response hit flags)

abbrev pub nonempty : List Citation → Bool
nonempty [] = false
nonempty (c ∷ cs) = true

-- `rerank_ms or 0`
abbrev pub ms_or_zero : Option ℕ → ℕ
ms_or_zero none = 0
ms_or_zero (some ms) = ms

abbrev pub answer_language : Option RewriteResult → Option Language
answer_language none = none
answer_language (some rr) = rr.language

module _ {F : Type 0} ⦃fl : Floats F⦄ {V : Type 0} (env : Providers F V) (settings : Settings F)
    (query : String) (ask : Ask) where
  abbrev pub response_of :
      String → List Citation → Bool → Option String → ℕ → ℕ → Bool → AnswerResponse
  response_of answer cs refused reason tokens_in tokens_out degraded = record {
    answer = answer;
    citations = cs;
    refused = refused;
    refusal_reason = reason;
    pipeline_flags = ask.flags;
    session_id = ask.session_id;
    memory_summarized = was_summarized ask.memory;
    cache_hit = false;
    tokens_in = tokens_in;
    tokens_out = tokens_out;
    degraded = degraded;
    request_id = none;
    latency_ms = none;
  }

  -- The refusal before generation.
  unfoldable pub refusal_response : List (RetrievedChunk F) → Bool → AnswerResponse
  unfolding suggestion_citations format_context
  refusal_response chunks degraded =
      let would_be_prompt = concat (system_prompt ∷ format_context chunks ∷ query ∷ []) in
      response_of ""
        (suggestion_citations settings.citation_quote_max_words chunks
          settings.refusal_suggestion_count)
        true (some "low_retrieval_confidence") (length (env.encode would_be_prompt)) 0 degraded

  unfoldable pub refuse : List (RetrievedChunk F) → Bool → Gen F V
  unfolding refusal_response
  refuse chunks degraded = do
    emit compressing skipped ∷ emit generating skipped ∷ emit citing skipped ∷ []
    closing (refusal_response chunks degraded)
    stop

  -- The write-behind: clean answers alone, and only where a vector was embedded for them.
  unfoldable pub write_behind : Option RewriteResult → Option V → AnswerResponse → Gen F V
  unfolding normalize
  write_behind rr none response w = stop w
  write_behind rr (some vec) response w =
      if settings.enable_cache
        && (not response.refused && (not response.degraded && nonempty response.citations))
      then stop (record w {
        scheduled =
            w.scheduled
            ++ record {
              normalized = normalize env.backend.unicode (keyed_on rr query);
              vec = vec;
              response = response;
            }
              ∷ [];
      })
      else stop w

  abbrev pub disclaimer_suffix : String
  disclaimer_suffix = str_append "\n\n" settings.disclaimer_text

  -- The response from what the citations of the generated text resolve to.
  unfoldable pub final_response : String → List Citation → ℕ → ℕ → Bool → AnswerResponse
  unfolding post_llm_gate
  final_response generated resolved tokens_in tokens_out degraded =
      let refused = post_llm_gate resolved in
      response_of (if refused then generated else str_append generated disclaimer_suffix) resolved
        refused (if refused then some "no_grounded_claims" else none) tokens_in tokens_out degraded
