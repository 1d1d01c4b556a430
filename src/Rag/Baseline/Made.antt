-- ===== src/Rag/Baseline/Made.antt =====
-- What the second half of the pipeline comes to, from the gate on: each part of
-- backend/app/rag/baseline.py that refuses or generates has an outcome.
use production_rag_system.Prelude.{
  String, ◌≡◌, refl, inl, inr, Bool, false, List, [], ◌∷◌, map, Option, none, some, length, arith,
  Bool-cases, Floats, ℕ, not, ◌&&◌, Option-cases,
}
use production_rag_system.Core.Result.{Exc, index_error}
use production_rag_system.Core.Contracts.{AnswerResponse, RewriteResult, Citation, RetrievedChunk}
use production_rag_system.Core.Settings.{Settings}
use production_rag_system.Caching.Keys.{normalize}
use production_rag_system.Caching.Seam.{keyed_on}
use production_rag_system.Rag.Events.{
  token, Stage, Status, stage, token, citing, generating, compressing, started, finished, skipped,
}
use production_rag_system.Rag.Citations.{post_llm_gate, parse_citations}
use production_rag_system.Rag.Compression.{compress_chunks}
use production_rag_system.Rag.Stream.{tokens_of}
use production_rag_system.Rag.Generator.{World, Run, yields}
use production_rag_system.Rag.Baseline.Responses.{
  Providers, Ask, accumulate, nonempty, final_response, write_behind, refuse, refusal_response,
}
use production_rag_system.Rag.Baseline.Generation.{
  conclude, cite, generate, generation, after_stream, scoring_query, prompt_tokens,
  compress_and_generate,
}
use production_rag_system.Rag.Baseline.Answer.{collected}
use production_rag_system.Rag.Baseline.Outcomes.{
  Schedules, Outcome, raises, fails, answers, Outcome-tokens, Outcome-stage, Schedules-none,
}

module _ {F : Type 0} ⦃fl : Floats F⦄ {V : Type 0} (env : Providers F V) (settings : Settings F)
    (query : String) (ask : Ask) where
  -- What a response that was generated says of the request.
  abbrev pub IsMade : Bool → AnswerResponse → Type 0
  IsMade degraded r =
      (r.degraded ≡ degraded)
      × (r.cache_hit ≡ false)
      × (r.pipeline_flags ≡ ask.flags)
      × (r.session_id ≡ ask.session_id)

  abbrev pub key_for : Option RewriteResult → String
  key_for rr = normalize env.backend.unicode (keyed_on rr query)

  write_behind-Schedules :
      (rr : Option RewriteResult) (vec : Option V) (response : AnswerResponse) (w : World F V)
      → response.cache_hit ≡ false
      → Schedules settings.enable_cache
          (key_for rr)
          response
          w
          (write_behind env settings query ask rr vec response w).world
  unfolding write_behind
  write_behind-Schedules rr none response w h =
      Schedules-none settings.enable_cache (key_for rr) response w
  write_behind-Schedules rr (some vec) response w h =
      elim (Bool-cases (
        settings.enable_cache
        && (not response.refused && (not response.degraded && nonempty response.citations)))) [
          | inl on ↦
              rw (on, write_behind)
                (record {
                  writes =
                      (record { normalized = key_for rr; vec = vec; response = response }) ∷ [];
                  added = refl;
                  at_most_one = omega arith;
                  clean = ((ground arith), tt);
                })
          | inr off ↦
              rw (off, write_behind) (Schedules-none settings.enable_cache (key_for rr) response w)
        ]

  write_behind-silent :
      (rr : Option RewriteResult) (vec : Option V) (response : AnswerResponse) (w : World F V)
      → ((write_behind env settings query ask rr vec response w).events ≡ [])
        × ((write_behind env settings query ask rr vec response w).raised ≡ none)
  unfolding write_behind
  write_behind-silent rr none response w = (refl, refl)
  write_behind-silent rr (some vec) response w = (ground arith, ground arith)

  -- The end of an answer, over the text that its tokens have spelled.
  conclude-Outcome :
      (generated : String) (tokens_in tokens_out : ℕ) (degraded : Bool) (rr : Option RewriteResult)
      (vec : Option V) (resolved : List Citation) (w : World F V)
      → Outcome (IsMade degraded) settings.enable_cache (key_for rr) generated w (
          conclude env settings query ask generated tokens_in tokens_out degraded rr vec resolved w)
  unfolding conclude final_response collected
  conclude-Outcome generated tokens_in tokens_out degraded rr vec resolved w =
      let response =
        final_response env settings query ask generated resolved tokens_in tokens_out degraded in
      let (silent, calm) = write_behind-silent rr vec response w in
      answers response (refl, refl, refl, refl) calm
        (elim (Bool-cases (post_llm_gate resolved)) [
          | inl refused ↦ rw (silent, refused) refl
          | inr kept ↦ rw (silent, kept) refl
        ])
        (elim (Bool-cases (post_llm_gate resolved)) [
          | inl refused ↦ rw (silent, calm, refused) refl
          | inr kept ↦ rw (silent, calm, kept) refl
        ])
        (write_behind-Schedules rr vec response w refl)

  module _ (rr : Option RewriteResult) (vec : Option V) (degraded : Bool) where
    abbrev Ends : String → World F V → Run F V → Type 0
    Ends text w r = Outcome (IsMade degraded) settings.enable_cache (key_for rr) text w r

    abbrev on_stage :
        (text : String) (s : Stage) (status : Status) (ms : Option ℕ) (w : World F V) (r : Run F V)
        → Ends text w r
        → Ends text w (yields (stage s status ms ∷ []) r)
    on_stage = Outcome-stage (IsMade degraded) settings.enable_cache (key_for rr)

    cite-Outcome :
        (generated : String) (tokens_in tokens_out : ℕ) (chunks : List (RetrievedChunk F))
        (w : World F V)
        → Ends generated w
            (cite env settings query ask generated tokens_in tokens_out degraded rr vec chunks w)
    unfolding cite collected
    cite-Outcome generated tokens_in tokens_out chunks w =
        elim (Option-cases (
          parse_citations env.services.unicode settings.citation_quote_max_words env.execute
            generated chunks)) [
              | inl raised ↦ rw (raised, cite) (raises index_error refl refl refl)
              | inr (resolved, found) ↦
                  rw (found, cite)
                    (on_stage generated citing started none w
                      (conclude env settings query ask generated tokens_in tokens_out degraded rr
                        vec resolved w)
                      (conclude-Outcome generated tokens_in tokens_out degraded rr vec resolved w))
            ]

    after_stream-Outcome :
        (directive : String) (chunks : List (RetrievedChunk F)) (tokens : List String)
        (failure : Option Exc) (w : World F V)
        → Ends
            (accumulate "" tokens)
            w
            (after_stream env settings query ask directive degraded rr vec chunks tokens failure w)
    unfolding after_stream collected
    after_stream-Outcome directive chunks tokens (some e) w =
        fails (env.services.message e) refl refl refl refl
    after_stream-Outcome directive chunks tokens none w =
        let text = accumulate "" tokens in
        let spent = prompt_tokens env settings query ask directive chunks in
        on_stage text generating finished (some env.generate_ms) w
          (cite env settings query ask text spent (length tokens) degraded rr vec chunks w)
          (cite-Outcome text spent (length tokens) chunks w)

    generate-Outcome :
        (directive : String) (chunks : List (RetrievedChunk F)) (w : World F V)
        → Ends "" w (generate env settings query ask directive degraded rr vec chunks w)
    unfolding generate
    generate-Outcome directive chunks w =
        let out = generation env settings query ask directive chunks in
        let tokens = tokens_of out.yielded in
        let rest =
          after_stream env settings query ask directive degraded rr vec chunks tokens out.failure
            w in
        on_stage "" generating started none w (yields (map token tokens) rest) (
          Outcome-tokens (IsMade degraded) settings.enable_cache (key_for rr) "" tokens w rest
            (after_stream-Outcome directive chunks tokens out.failure w))

    pub compress_and_generate-Outcome :
        (directive : String) (result : Option RewriteResult) (chunks : List (RetrievedChunk F))
        (w : World F V)
        → Ends "" w
            (compress_and_generate env settings query ask directive degraded result rr vec chunks w)
    unfolding compress_and_generate
    compress_and_generate-Outcome directive result chunks w =
        elim (Bool-cases settings.enable_compression) [
          | inl on ↦
              let chunks' =
                compress_chunks env.count_tokens env.services.score settings env.services.unicode
                  (scoring_query env settings query ask result) chunks in
              let rest = generate env settings query ask directive degraded rr vec chunks' w in
              rw (on, compress_and_generate)
                (on_stage "" compressing started none w
                  (yields (stage compressing finished (some env.compress_ms) ∷ []) rest)
                  (on_stage "" compressing finished (some env.compress_ms) w rest
                    (generate-Outcome directive chunks' w)))
          | inr off ↦
              let rest = generate env settings query ask directive degraded rr vec chunks w in
              rw (off, compress_and_generate)
                (on_stage "" compressing skipped none w rest (generate-Outcome directive chunks w))
        ]

    pub refuse-Outcome :
        (chunks : List (RetrievedChunk F)) (w : World F V)
        → Ends "" w (refuse env settings query ask chunks degraded w)
    unfolding refuse collected
    refuse-Outcome chunks w =
        answers (refusal_response env settings query ask chunks degraded) (refl, refl, refl, refl)
          refl refl refl
          (Schedules-none settings.enable_cache (key_for rr)
            (refusal_response env settings query ask chunks degraded) w)
