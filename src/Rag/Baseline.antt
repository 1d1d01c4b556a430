-- ===== src/Rag/Baseline.antt =====
-- backend/app/rag/baseline.py: the pipeline behind an answer as a stream of frames. A generator is
-- a function of the world to a `Run`: the frames that it yields, the exception that leaves it if
-- one does, and the world after it. Logs, the trace and the cost records are left out; durations
-- are parameters.
pub mod Responses
pub mod Generation
pub mod Answer
pub mod Outcomes
pub mod Made
pub mod Ends
pub mod Staged
pub mod Guarantees
pub mod Again
pub mod Degraded
use production_rag_system.Prelude.{
  ℕ, ◌+◌, ◌-◌, String, Bool, true, false, not, ◌&&◌, List, [], ◌∷◌, ◌++◌, map, Option, none, some,
  length, take, leb, if◌then◌else◌, Floats, concat,
}
use Prim.Native.String.{◌++◌ as str_append}
use production_rag_system.Core.Result.{Result, ok, err, Exc, index_error}
use production_rag_system.Core.Contracts.{
  RetrievedChunk, RewriteResult, MemoryContext, PipelineFlags, AnswerResponse, Citation, Language,
}
use production_rag_system.Core.Settings.{Settings}
use production_rag_system.Caching.Keys.{normalize}
use production_rag_system.Caching.Entries.{Backend, Store}
use production_rag_system.Caching.Seam.{cache_lookup, keyed_on}
use production_rag_system.Rag.State.{Services, RagState, Seam}
use production_rag_system.Rag.Events.{
  SseEvent, Stage, rewriting, searching, reranking, compressing, generating, citing, started,
  finished, skipped, token, citations, meta, done, error, without_answer, emit, emit_ms,
}
use production_rag_system.Rag.Flags.{apply_flags}
use production_rag_system.Rag.Prompt.{
  format_context, system_prompt, human_prompt, render_language_directive, render_memory_block,
}
use production_rag_system.Rag.Stream.{ChainRun, stream_chain_with_retry, tokens_of}
use production_rag_system.Rag.Hybrid.{was_degraded}
use production_rag_system.Rag.Rerank.{last_rerank_ms}
use production_rag_system.Rag.Rewrite.{Reply, rewrite_query, retrieve, last_rewrite}
use production_rag_system.Rag.Citations.{
  CitedRow, parse_citations, post_llm_gate, pre_llm_gate, suggestion_citations,
}
use production_rag_system.Rag.Compression.{compress_chunks}
use production_rag_system.Rag.Errors.{call_with_retry_in}
use production_rag_system.Rag.Generator.{
  World, CacheWrite, Run, Gen, Call, stop, fail, handled, ◌>>◌, ◌>>=◌, in_rag, in_store,
}
use Responses.{Providers, Ask, answer_language, ms_or_zero, replay_cached, refuse}
use Generation.{compress_and_generate}

module _ {F : Type 0} ⦃fl : Floats F⦄ {V : Type 0} (env : Providers F V)
    (settings : Settings F) where
  unfoldable pub truncate_query : String → String
  truncate_query query =
      let tokens = env.encode query in
      if leb (length tokens) settings.max_query_tokens
      then query
      else env.decode (take settings.max_query_tokens tokens)

module _ {F : Type 0} ⦃fl : Floats F⦄ {V : Type 0} (env : Providers F V) (settings : Settings F)
    (query : String) (ask : Ask) where
  abbrev pub rerank_frames : Option ℕ → List SseEvent
  rerank_frames none = emit reranking skipped ∷ []
  rerank_frames (some ms) = emit reranking started ∷ emit_ms reranking (some ms) ∷ []

  abbrev pub rewrite_frames : Option RewriteResult → List SseEvent
  rewrite_frames none = emit_ms rewriting none ∷ []
  rewrite_frames (some rr) = emit_ms rewriting (some env.retrieval_ms) ∷ []

  abbrev pub rerank_duration : Call F V (Option ℕ)
  unfolding last_rerank_ms
  rerank_duration w = if settings.enable_rerank then in_rag last_rerank_ms w else (ok none, w)

  -- The refusal gate, then compression and generation.
  unfoldable pub gated :
      String
      → Bool
      → Option RewriteResult
      → Option RewriteResult
      → Option V
      → List (RetrievedChunk F)
      → Gen F V
  unfolding pre_llm_gate refuse compress_and_generate
  gated directive degraded rewrite_result rr query_vec chunks =
      if pre_llm_gate chunks settings
      then refuse env settings query ask chunks degraded
      else compress_and_generate env settings query ask directive degraded rewrite_result rr
          query_vec chunks

  unfoldable pub after_retrieval :
      Option RewriteResult → Option V → List (RetrievedChunk F) → Gen F V
  unfolding was_degraded last_rewrite last_rerank_ms render_language_directive gated
  after_retrieval rr query_vec chunks = do
    degraded ← in_rag was_degraded
    rewrite_result ← in_rag last_rewrite
    let directive = render_language_directive (answer_language rewrite_result)
    if settings.enable_query_rewrite then rewrite_frames rewrite_result else []
    rerank_ms ← rerank_duration
    emit_ms searching (some (env.retrieval_ms - ms_or_zero rerank_ms)) ∷ []
    rerank_frames rerank_ms
    gated directive degraded rewrite_result rr query_vec chunks

  -- The retrieval seam under the retry wrapper.
  unfoldable pub retrieved : Option RewriteResult → Option V → Seam F (List (RetrievedChunk F))
  unfolding call_with_retry_in retrieve
  retrieved rr query_vec =
      call_with_retry_in env.services.is_retryable env.services.message
        (λ attempt.
          retrieve env.services settings attempt (env.rewrites attempt) query ask.k ask.namespace rr
            query_vec)
        settings.llm_max_retries

  unfoldable pub search : Option RewriteResult → Option V → Gen F V
  unfolding retrieved after_retrieval
  search rr query_vec = do
    emit rewriting (if settings.enable_query_rewrite then started else skipped) ∷ []
    emit searching started ∷ []
    handled (in_rag (retrieved rr query_vec)) (λ e. (error (env.services.message e) ∷ []) >> stop)
        (after_retrieval rr query_vec)

  -- A hit is replayed; a miss goes on with what the lookup computed.
  unfoldable pub after_lookup : Option RewriteResult → Option AnswerResponse × Option V → Gen F V
  unfolding replay_cached search
  after_lookup rr (some hit, query_vec) = replay_cached hit ask.flags >> stop
  after_lookup rr (none, query_vec) = search rr query_vec

  abbrev pub rewritten : Option RewriteResult
  unfolding rewrite_query
  rewritten =
      if settings.enable_query_rewrite
      then some (rewrite_query (env.rewrites 0) query settings.rewrite_num_variants)
      else none

  unfoldable pub staged : Gen F V
  unfolding cache_lookup after_lookup search rewrite_query
  staged =
      let cached = (do
        emit Stage.cache_lookup started ∷ []
        found ← in_store (cache_lookup env.backend settings query rewritten env.embed env.now)
        emit_ms Stage.cache_lookup (some env.lookup_ms) ∷ []
        after_lookup rewritten found) in
      if settings.enable_cache then cached else search none none

module _ {F : Type 0} ⦃fl : Floats F⦄ {V : Type 0} (env : Providers F V)
    (settings : Settings F) where
  -- The query is truncated by the settings of before the flags.
  unfoldable pub pipeline_events : String → Ask → Gen F V
  unfolding truncate_query apply_flags staged
  pipeline_events query ask =
      staged env (apply_flags settings ask.flags) (truncate_query env settings query) ask
