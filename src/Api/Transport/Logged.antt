-- ===== src/Api/Transport/Logged.antt =====
-- What the request log says of a JSON answer.
use production_rag_system.Prelude.{ℕ, String, ◌≡◌, refl, List, [], ◌∷◌, Option, none, some}
use Prim.Native.String.{◌++◌ as str_append}
use production_rag_system.Core.Result.{Result, ok, err, Exc, provider_error}
use production_rag_system.Core.Contracts.{AnswerResponse}
use production_rag_system.Rag.Events.{SseEvent, Meta, stage, token, citations, meta, done, error}
use production_rag_system.Api.Transport.{
  Stop, exhausted, timed_out, raised, Delivery, LogCtx, LogRow, ApiExc, timeout_error, exc, stamp,
  build_row, collect, collect_end, collect_frames,
}

abbrev pub Status : LogRow → ℕ → Option String → Type 0
Status row http_status error_type = (row.http_status ≡ http_status) × (row.error_type ≡ error_type)

abbrev pub StatusOf : Exc → LogRow → Type 0
StatusOf (provider_error message) row = Status row 503 (some "provider_error")
StatusOf _ row = Status row 200 none

-- The row of an answer repeats its figures; the row of an exception has its status.
abbrev pub IsLogged : Result ApiExc AnswerResponse → LogRow → Type 0
IsLogged (ok a) row =
    Status row 200 none
    × (row.pipeline_flags ≡ some a.pipeline_flags)
    × (row.cache_hit ≡ a.cache_hit)
    × (row.refused ≡ a.refused)
    × (row.degraded ≡ a.degraded)
    × (row.tokens_in ≡ a.tokens_in)
    × (row.tokens_out ≡ a.tokens_out)
    × (row.total_ms ≡ a.latency_ms)
IsLogged (err timeout_error) row = Status row 504 (some "timeout")
IsLogged (err (exc e)) row = StatusOf e row

module _ (ctx : LogCtx) (latency_ms : ℕ) where
  collect_end-IsLogged :
      (text : String) (payload : Option Meta) (stop : Stop)
      → let c = collect_end ctx latency_ms text payload stop in IsLogged c.0 c.1
  unfolding build_row stamp
  collect_end-IsLogged text none timed_out = (refl, refl)
  collect_end-IsLogged text (some m) timed_out = (refl, refl)
  collect_end-IsLogged text none (raised (provider_error message)) = (refl, refl)
  collect_end-IsLogged text (some m) (raised (provider_error message)) = (refl, refl)
  collect_end-IsLogged text none (raised _) = (refl, refl)
  collect_end-IsLogged text (some m) (raised _) = (refl, refl)
  collect_end-IsLogged text none exhausted = (refl, refl)
  collect_end-IsLogged text (some m) exhausted =
      ((refl, refl), refl, refl, refl, refl, refl, refl, refl)

  collect_frames-IsLogged :
      (es : List SseEvent) (text : String) (payload : Option Meta) (stop : Stop)
      → let c = collect_frames ctx latency_ms text payload es stop in IsLogged c.0 c.1
  unfolding collect_frames build_row
  collect_frames-IsLogged [] text payload stop = collect_end-IsLogged text payload stop
  collect_frames-IsLogged (token t ∷ es) text payload stop =
      collect_frames-IsLogged es (str_append text t) payload stop
  collect_frames-IsLogged (meta m ∷ es) text payload stop =
      collect_frames-IsLogged es text (some m) stop
  collect_frames-IsLogged (error message ∷ es) text none stop = (refl, refl)
  collect_frames-IsLogged (error message ∷ es) text (some m) stop = (refl, refl)
  collect_frames-IsLogged (stage s status ms ∷ es) text payload stop =
      collect_frames-IsLogged es text payload stop
  collect_frames-IsLogged (citations cs ∷ es) text payload stop =
      collect_frames-IsLogged es text payload stop
  collect_frames-IsLogged (done ∷ es) text payload stop =
      collect_frames-IsLogged es text payload stop

  -- The row that a JSON request writes repeats the figures of an answer that is returned, has 504
  -- for a timeout and 503 for a ProviderError; for any other exception it has 200 and no error.
  pub collect-IsLogged :
      (d : Delivery) → IsLogged (collect ctx latency_ms d).0 (collect ctx latency_ms d).1
  unfolding collect
  collect-IsLogged d = collect_frames-IsLogged d.frames "" none d.stop
