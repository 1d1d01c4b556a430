-- ===== src/Rag/Baseline/Answer.antt =====
-- `answer` of backend/app/rag/baseline.py: the stream collected into one response, and that it is
-- the response that the stream was made of.
use production_rag_system.Prelude.{String, ◌≡◌, refl, List, [], ◌∷◌, ◌++◌, map, Option, none, some}
use Prim.Native.String.{◌++◌ as str_append}
use production_rag_system.Core.Result.{Result, ok, err, Exc, provider_error}
use production_rag_system.Core.Contracts.{AnswerResponse}
use production_rag_system.Rag.Events.{
  SseEvent, Meta, stage, token, citations, meta, done, error, with_answer,
}
use production_rag_system.Rag.Generator.{Run}
use production_rag_system.Rag.Baseline.Responses.{accumulate}

-- The end of the stream: an exception of the generator, or what was collected.
abbrev pub finish : String → Option Meta → Option Exc → Result Exc AnswerResponse
finish text payload (some e) = err e
finish text none none = err (provider_error "pipeline ended without a meta event")
finish text (some m) none = ok (with_answer text m)

-- The `async for` of `answer`. An `error` frame is raised at once.
unfoldable pub collected :
    String → Option Meta → List SseEvent → Option Exc → Result Exc AnswerResponse
collected text payload [] raised = finish text payload raised
collected text payload (token t ∷ es) raised = collected (str_append text t) payload es raised
collected text payload (meta m ∷ es) raised = collected text (some m) es raised
collected text payload (error message ∷ es) raised = err (provider_error message)
collected text payload (stage s status ms ∷ es) raised = collected text payload es raised
collected text payload (citations cs ∷ es) raised = collected text payload es raised
collected text payload (done ∷ es) raised = collected text payload es raised

unfoldable pub answer : {F V : Type 0} → Run F V → Result Exc AnswerResponse
unfolding collected
answer run = collected "" none run.events run.raised

pub collected-tokens :
    (ts : List String) (text : String) (es : List SseEvent) (raised : Option Exc)
    → collected text none (map token ts ++ es) raised
      ≡ collected (accumulate text ts) none es raised
unfolding collected
collected-tokens [] text es raised = refl
collected-tokens (t ∷ ts) text es raised = collected-tokens ts (str_append text t) es raised
