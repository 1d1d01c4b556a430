-- ===== src/Rag/Baseline/Degraded.antt =====
-- What becomes of the `degraded` flag on its way through the pipeline with the rewrite on.
use production_rag_system.Prelude.{String, ◌≡◌, ◌∙◌, true, false, Option, arith, Floats}
use production_rag_system.Core.Result.{ok}
use production_rag_system.Core.Contracts.{AnswerResponse, RewriteResult}
use production_rag_system.Core.Settings.{Settings}
use production_rag_system.Rag.State.{RagState, Preserves}
use production_rag_system.Rag.Errors.{call_with_retry_in-Preserves}
use production_rag_system.Rag.Rewrite.{retrieve}
use production_rag_system.Rag.Rewrite.Context.{flag, retrieve-flag}
use production_rag_system.Rag.Flags.{apply_flags}
use production_rag_system.Rag.Generator.{World}
use production_rag_system.Rag.Baseline.{retrieved, pipeline_events, rewritten, truncate_query}
use production_rag_system.Rag.Baseline.Outcomes.{Outcome-answer}
use production_rag_system.Rag.Baseline.Made.{key_for}
use production_rag_system.Rag.Baseline.Staged.{staged-Outcome}
use production_rag_system.Rag.Baseline.Responses.{Providers, Ask}
use production_rag_system.Rag.Baseline.Answer.{answer}

module _ {F : Type 0} ⦃fl : Floats F⦄ {V : Type 0} (env : Providers F V) (settings : Settings F)
    (query : String) (ask : Ask) where
  retrieved-flag :
      (rr : Option RewriteResult) (vec : Option V)
      → settings.enable_query_rewrite ≡ true
      → Preserves (flag env.services settings) (retrieved env settings query ask rr vec)
  unfolding retrieved
  retrieved-flag rr vec on =
      call_with_retry_in-Preserves env.services.is_retryable env.services.message
        (λ attempt.
          retrieve env.services settings attempt (env.rewrites attempt) query ask.k ask.namespace rr
            vec)
        (flag env.services settings)
        (λ attempt.
          retrieve-flag env.services settings attempt (env.rewrites attempt) query ask.k
            ask.namespace rr vec on)
        settings.llm_max_retries

module _ {F : Type 0} ⦃fl : Floats F⦄ {V : Type 0} (env : Providers F V) (settings : Settings F)
    (query : String) (ask : Ask) (w : World F V) where
  -- A response that is no cache hit has the flag of before.
  abbrev pub HasFlag : RagState F → AnswerResponse → Type 0
  HasFlag s r = r.cache_hit ≡ false → r.degraded ≡ s.degraded

  -- With the rewrite on, a response that is no cache hit says degraded just if the flag stood
  -- before the run: whether the dense half fails in this run makes no difference.
  pub answer-degraded :
      (r : AnswerResponse)
      → ask.flags.query_rewrite ≡ true
      → answer (pipeline_events env settings query ask w) ≡ ok r
      → r.cache_hit ≡ false
      → r.degraded ≡ w.rag.degraded
  unfolding answer pipeline_events apply_flags
  answer-degraded r on =
      let settings' = apply_flags settings ask.flags in
      let query' = truncate_query env settings query in
      Outcome-answer (HasFlag w.rag) ask.flags.cache
        (key_for env settings' query' ask (rewritten env settings' query' ask)) "" w
        (pipeline_events env settings query ask w) r
        (staged-Outcome env settings' query' ask HasFlag
          (λ rr vec s a made generated.
            made.0 ∙ retrieved-flag env settings' query' ask rr vec on s)
          (λ hit s generated. absurd (ground arith)) w)
