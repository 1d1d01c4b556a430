-- ===== src/Rag/Baseline/Generation.antt =====
-- backend/app/rag/baseline.py: compression, generation, and the citations that close an answer.
use production_rag_system.Prelude.{
  ℕ, String, Bool, List, [], ◌∷◌, map, Option, none, some, length, if◌then◌else◌, Floats, concat,
}
use production_rag_system.Core.Result.{Exc, index_error}
use production_rag_system.Core.Contracts.{RetrievedChunk, RewriteResult, Citation}
use production_rag_system.Core.Settings.{Settings}
use production_rag_system.Rag.Events.{
  compressing, generating, citing, started, skipped, token, error, emit, emit_ms,
}
use production_rag_system.Rag.Prompt.{
  format_context, system_prompt, human_prompt, render_memory_block,
}
use production_rag_system.Rag.Stream.{ChainRun, stream_chain_with_retry, tokens_of}
use production_rag_system.Rag.Citations.{parse_citations}
use production_rag_system.Rag.Compression.{compress_chunks}
use production_rag_system.Rag.Generator.{Gen, stop, fail, ◌>>◌}
use production_rag_system.Rag.Baseline.Responses.{
  Providers, Ask, accumulate, closing, disclaimer_suffix, final_response, write_behind,
}

module _ {F : Type 0} ⦃fl : Floats F⦄ {V : Type 0} (env : Providers F V) (settings : Settings F)
    (query : String) (ask : Ask) where
  unfoldable pub conclude :
      String → ℕ → ℕ → Bool → Option RewriteResult → Option V → List Citation → Gen F V
  unfolding final_response write_behind
  conclude generated tokens_in tokens_out degraded rr query_vec resolved = do
    let response =
        final_response env settings query ask generated resolved tokens_in tokens_out degraded
    emit_ms citing (some env.cite_ms) ∷ []
    if response.refused then [] else token (disclaimer_suffix env settings query ask) ∷ []
    closing response
    write_behind env settings query ask rr query_vec response

  unfoldable pub cite :
      String → ℕ → ℕ → Bool → Option RewriteResult → Option V → List (RetrievedChunk F) → Gen F V
  unfolding conclude parse_citations
  cite generated tokens_in tokens_out degraded rr query_vec chunks = do
    emit citing started ∷ []
    elim (parse_citations env.services.unicode settings.citation_quote_max_words env.execute
        generated chunks) [
          | none ↦ fail index_error
          | some resolved ↦ conclude generated tokens_in tokens_out degraded rr query_vec resolved
        ]

  -- The run of the chain that reaches the client.
  unfoldable pub generation : String → List (RetrievedChunk F) → ChainRun
  unfolding stream_chain_with_retry human_prompt render_memory_block format_context
  generation directive chunks =
      stream_chain_with_retry env.services.is_retryable env.services.message
        (env.model settings.llm_model system_prompt
          (human_prompt directive (render_memory_block ask.memory) (format_context chunks) query))
        settings.llm_max_retries

  unfoldable pub prompt_tokens : String → List (RetrievedChunk F) → ℕ
  unfolding format_context render_memory_block
  prompt_tokens directive chunks = length (
      env.encode (
        concat (
          system_prompt
          ∷ directive
          ∷ format_context chunks
          ∷ render_memory_block ask.memory
          ∷ query
          ∷ [])))

  -- How the stream of tokens ended: by a failure, which becomes an `error` frame, or whole.
  unfoldable pub after_stream :
      String
      → Bool
      → Option RewriteResult
      → Option V
      → List (RetrievedChunk F)
      → List String
      → Option Exc
      → Gen F V
  unfolding cite prompt_tokens
  after_stream directive degraded rr query_vec chunks tokens (some e) = do
    error (env.services.message e) ∷ []
    stop
  after_stream directive degraded rr query_vec chunks tokens none = do
    emit_ms generating (some env.generate_ms) ∷ []
    cite (accumulate "" tokens) (prompt_tokens directive chunks) (length tokens) degraded rr
        query_vec chunks

  unfoldable pub generate :
      String → Bool → Option RewriteResult → Option V → List (RetrievedChunk F) → Gen F V
  unfolding generation after_stream tokens_of
  generate directive degraded rr query_vec chunks = do
    let out = generation directive chunks
    let tokens = tokens_of out.yielded
    emit generating started ∷ []
    map token tokens
    after_stream directive degraded rr query_vec chunks tokens out.failure

  -- The query that compression scores by.
  abbrev pub scoring_query : Option RewriteResult → String
  scoring_query none = query
  scoring_query (some rr) = rr.normalized

  unfoldable pub compress_and_generate :
      String
      → Bool
      → Option RewriteResult
      → Option RewriteResult
      → Option V
      → List (RetrievedChunk F)
      → Gen F V
  unfolding generate compress_chunks
  compress_and_generate directive degraded rewrite_result rr query_vec chunks =
      if settings.enable_compression
      then (emit compressing started ∷ emit_ms compressing (some env.compress_ms) ∷ [])
        >> generate directive degraded rr query_vec (
            compress_chunks env.count_tokens env.services.score settings env.services.unicode
              (scoring_query rewrite_result) chunks)
      else (emit compressing skipped ∷ []) >> generate directive degraded rr query_vec chunks
