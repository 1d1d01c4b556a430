-- ===== src/Api/Transport/Same.antt =====
-- The JSON body and the SSE frames tell the same.
use production_rag_system.Prelude.{ℕ, String, ◌≡◌, refl, List, [], ◌∷◌, map, Option, none, some}
use Prim.Native.String.{◌++◌ as str_append}
use production_rag_system.Core.Result.{Result, ok, err, Exc}
use production_rag_system.Core.Contracts.{AnswerResponse}
use production_rag_system.Rag.Events.{SseEvent, Meta, stage, token, citations, meta, done, error}
use production_rag_system.Rag.Baseline.Answer.{collected}
use production_rag_system.Api.Transport.{
  exhausted, LogCtx, ApiExc, exc, stamp, stamp_frame, sse_stream, collect, collect_frames,
}

abbrev pub as_api : Result Exc AnswerResponse → Result ApiExc AnswerResponse
as_api (ok a) = ok a
as_api (err e) = err (exc e)

module _ (ctx : LogCtx) (latency_ms : ℕ) where
  abbrev stamped : Option Meta → Option Meta
  unfolding stamp
  stamped none = none
  stamped (some m) = some (stamp ctx latency_ms m)

  collect_frames-same :
      (es : List SseEvent) (text : String) (payload : Option Meta)
      → (collect_frames ctx latency_ms text payload es exhausted).0
        ≡ as_api (collected text (stamped payload) (map (stamp_frame ctx latency_ms) es) none)
  unfolding collect_frames collected stamp
  collect_frames-same [] text none = refl
  collect_frames-same [] text (some m) = refl
  collect_frames-same (token t ∷ es) text payload =
      collect_frames-same es (str_append text t) payload
  collect_frames-same (meta m ∷ es) text payload = collect_frames-same es text (some m)
  collect_frames-same (error message ∷ es) text payload = refl
  collect_frames-same (stage s status ms ∷ es) text payload = collect_frames-same es text payload
  collect_frames-same (citations cs ∷ es) text payload = collect_frames-same es text payload
  collect_frames-same (done ∷ es) text payload = collect_frames-same es text payload

  -- For frames whose loop is not cut short, the JSON variant returns or raises just what a client
  -- makes of the frames of the SSE variant: the tokens in a row with the last meta, or a
  -- ProviderError for an error frame or where no meta came.
  pub collect-sse_stream :
      (frames : List SseEvent)
      → (collect ctx latency_ms (record { frames = frames; stop = exhausted })).0
        ≡ as_api (
            collected "" none
              (sse_stream ctx latency_ms (record { frames = frames; stop = exhausted })).0
              none)
  unfolding collect sse_stream
  collect-sse_stream frames = collect_frames-same frames "" none
