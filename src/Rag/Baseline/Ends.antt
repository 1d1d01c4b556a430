-- ===== src/Rag/Baseline/Ends.antt =====
-- What the retrieval and all that follows it come to.
use production_rag_system.Prelude.{
  String, ◌≡◌, refl, inl, inr, Bool, true, false, List, [], ◌∷◌, Option, none, some, ℕ, ◌-◌,
  Bool-cases, Floats, if◌then◌else◌, All,
}
use production_rag_system.Core.Result.{Result, ok, err, Exc}
use production_rag_system.Core.Contracts.{RewriteResult, RetrievedChunk}
use production_rag_system.Core.Settings.{Settings}
use production_rag_system.Rag.Events.{
  stage, emit, emit_ms, error, rewriting, searching, started, finished, skipped,
}
use production_rag_system.Rag.State.{RagState}
use production_rag_system.Rag.Citations.{pre_llm_gate}
use production_rag_system.Rag.Prompt.{render_language_directive}
use production_rag_system.Rag.Hybrid.{was_degraded}
use production_rag_system.Rag.Rerank.{last_rerank_ms}
use production_rag_system.Rag.Rewrite.{last_rewrite}
use production_rag_system.Rag.Generator.{World, Run, yields, resume, in_rag, handled, stop, ◌>>◌}
use production_rag_system.Rag.Baseline.{
  gated, after_retrieval, retrieved, search, rerank_frames, rewrite_frames, rerank_duration,
}
use production_rag_system.Rag.Baseline.Responses.{Providers, Ask, answer_language, ms_or_zero}
use production_rag_system.Rag.Baseline.Answer.{collected}
use production_rag_system.Rag.Baseline.Outcomes.{
  Outcome, fails, IsStage, Outcome-stage, Outcome-stages, Outcome-from,
}
use production_rag_system.Rag.Baseline.Made.{
  IsMade, key_for, compress_and_generate-Outcome, refuse-Outcome,
}

module _ {F : Type 0} ⦃fl : Floats F⦄ {V : Type 0} (env : Providers F V) (settings : Settings F)
    (query : String) (ask : Ask) (rr : Option RewriteResult) (vec : Option V) where
  abbrev Ends : Bool → World F V → Run F V → Type 0
  Ends degraded w r =
      Outcome (IsMade env settings query ask degraded) settings.enable_cache
        (key_for env settings query ask rr) "" w r

  gated-Outcome :
      (directive : String) (degraded : Bool) (result : Option RewriteResult)
      (chunks : List (RetrievedChunk F)) (w : World F V)
      → Ends degraded w (gated env settings query ask directive degraded result rr vec chunks w)
  unfolding gated
  gated-Outcome directive degraded result chunks w =
      elim (Bool-cases (pre_llm_gate chunks settings)) [
        | inl shut ↦
            rw (shut, gated) (refuse-Outcome env settings query ask rr vec degraded chunks w)
        | inr passed ↦
            rw (passed, gated)
              (compress_and_generate-Outcome env settings query ask rr vec degraded directive result
                chunks w)
      ]

  rerank_frames-stages : (ms : Option ℕ) → All IsStage (rerank_frames env settings query ask ms)
  rerank_frames-stages none = (tt, tt)
  rerank_frames-stages (some ms) = (tt, (tt, tt))

  rewrite_frames-stages :
      (on : Bool) (result : Option RewriteResult)
      → All IsStage (if on then rewrite_frames env settings query ask result else [])
  rewrite_frames-stages true none = (tt, tt)
  rewrite_frames-stages true (some result) = (tt, tt)
  rewrite_frames-stages false result = tt

  -- What follows the duration of the rerank.
  ranked-Outcome :
      (degraded : Bool) (result : Option RewriteResult) (chunks : List (RetrievedChunk F))
      (ms : Option ℕ) (w : World F V)
      → Ends degraded w (
          yields (stage searching finished (some (env.retrieval_ms - ms_or_zero ms)) ∷ []) (
            yields (rerank_frames env settings query ask ms) (
              gated env settings query ask
                (render_language_directive (answer_language result))
                degraded
                result
                rr
                vec
                chunks
                w)))
  ranked-Outcome degraded result chunks ms w =
      let rest =
        gated env settings query ask (render_language_directive (answer_language result)) degraded
          result rr vec chunks w in
      let frames = rerank_frames env settings query ask ms in
      Outcome-stage (IsMade env settings query ask degraded) settings.enable_cache
        (key_for env settings query ask rr) "" searching finished
        (some (env.retrieval_ms - ms_or_zero ms)) w (yields frames rest)
        (Outcome-stages (IsMade env settings query ask degraded) settings.enable_cache
          (key_for env settings query ask rr) "" frames w rest (rerank_frames-stages ms)
          (gated-Outcome (render_language_directive (answer_language result)) degraded result chunks
            w))

  abbrev ranked :
      Bool → Option RewriteResult → List (RetrievedChunk F) → Option ℕ → World F V → Run F V
  ranked degraded result chunks ms w =
      yields (emit_ms searching (some (env.retrieval_ms - ms_or_zero ms)) ∷ []) (
        yields (rerank_frames env settings query ask ms) (
          gated env settings query ask (render_language_directive (answer_language result)) degraded
            result rr vec chunks w))

  -- A call that returns, and schedules nothing.
  abbrev Returns : World F V → Result Exc (Option ℕ) × World F V → Type 0
  Returns w (ok ms, w') = w'.scheduled ≡ w.scheduled
  Returns w (err e, w') = ⊥

  timed-Outcome :
      (degraded : Bool) (result : Option RewriteResult) (chunks : List (RetrievedChunk F))
      (w : World F V) (c : Result Exc (Option ℕ) × World F V)
      → Returns w c
      → Ends degraded w (resume c.0 (ranked degraded result chunks) c.1)
  timed-Outcome degraded result chunks w (ok ms, w') h =
      Outcome-from (IsMade env settings query ask degraded) settings.enable_cache
        (key_for env settings query ask rr) "" w w' (ranked degraded result chunks ms w') h
        (ranked-Outcome degraded result chunks ms w')
  timed-Outcome degraded result chunks w (err e, w') h = absurd h

  rerank_duration-Returns : (w : World F V) → Returns w (rerank_duration env settings query ask w)
  unfolding last_rerank_ms
  rerank_duration-Returns w =
      elim settings.enable_rerank
        as (λ b. Returns w (if b then in_rag last_rerank_ms w else (ok none, w))) [
          | true ↦ refl
          | false ↦ refl
        ]

  after_retrieval-Outcome :
      (chunks : List (RetrievedChunk F)) (w : World F V)
      → Ends w.rag.degraded w (after_retrieval env settings query ask rr vec chunks w)
  unfolding after_retrieval was_degraded last_rewrite
  after_retrieval-Outcome chunks w =
      let result = w.rag.rewrite_result in
      let degraded = w.rag.degraded in
      let w' : World F V = record w {
        rag = record w.rag { degraded = false; rewrite_result = none };
      } in
      let c = rerank_duration env settings query ask w' in
      let rest = resume c.0 (ranked degraded result chunks) c.1 in
      let P = IsMade env settings query ask degraded in
      let key = key_for env settings query ask rr in
      Outcome-stages P settings.enable_cache key ""
        (if settings.enable_query_rewrite then rewrite_frames env settings query ask result else [])
        w rest (rewrite_frames-stages settings.enable_query_rewrite result)
        (Outcome-from P settings.enable_cache key "" w w' rest refl
          (timed-Outcome degraded result chunks w' c (rerank_duration-Returns w')))

  retrieved-Outcome :
      (w : World F V) (c : Result Exc (List (RetrievedChunk F)) × RagState F)
      → Ends c.1.degraded w (
          handled {A = List (RetrievedChunk F)}
            (λ v. (c.0, record v { rag = c.1 }))
            (λ e. (error (env.services.message e) ∷ []) >> stop)
            (after_retrieval env settings query ask rr vec)
            w)
  unfolding collected
  retrieved-Outcome w (ok chunks, s) =
      let w' : World F V = record w { rag = s } in
      Outcome-from (IsMade env settings query ask s.degraded) settings.enable_cache
        (key_for env settings query ask rr) "" w w'
        (after_retrieval env settings query ask rr vec chunks w') refl
        (after_retrieval-Outcome chunks w')
  retrieved-Outcome w (err e, s) = fails (env.services.message e) refl refl refl refl

  -- The flag of the response is the one that the retrieval left.
  pub search-Outcome :
      (w : World F V)
      → Ends
          (retrieved env settings query ask rr vec w.rag).1.degraded
          w
          (search env settings query ask rr vec w)
  unfolding search
  search-Outcome w =
      let c = retrieved env settings query ask rr vec w.rag in
      let rest =
        handled {A = List (RetrievedChunk F)} (λ v. (c.0, record v { rag = c.1 }))
          (λ e. (error (env.services.message e) ∷ []) >> stop)
          (after_retrieval env settings query ask rr vec) w in
      Outcome-stages (IsMade env settings query ask c.1.degraded) settings.enable_cache
        (key_for env settings query ask rr) ""
        (emit rewriting (if settings.enable_query_rewrite then started else skipped)
          ∷ emit searching started
          ∷ [])
        w rest (tt, (tt, tt)) (retrieved-Outcome w c)
