-- ===== src/Api/Transport.antt =====
-- `_sse_stream` and `_collect` of backend/app/api/ask.py, the two ways in which a stream of frames is
-- delivered, with the row that each writes to the request log (`build_row` of
-- backend/app/observability/request_log.py). What arrives is the frames and how their loop stopped;
-- the timings and the cost of the row are left out.
pub mod Same
pub mod Logged
use production_rag_system.Prelude.{
  ℕ, String, Bool, true, false, List, [], ◌∷◌, ◌++◌, map, Option, none, some, if◌then◌else◌,
}
use production_rag_system.Prelude.Text.{is_empty}
use Prim.Native.String.{◌++◌ as str_append}
use production_rag_system.Core.Result.{Result, ok, err, Exc, provider_error}
use production_rag_system.Core.Contracts.{AnswerResponse, PipelineFlags}
use production_rag_system.Rag.Events.{
  SseEvent, Meta, stage, token, citations, meta, done, error, with_answer,
}

-- How the `async for` over the generator stopped.
pub data Stop : Type 0 where
  exhausted timed_out : Stop
  raised : Exc → Stop

pub record Delivery : Type 0 where
  pub frames : List SseEvent
  pub stop : Stop

-- What the transport knows of a request besides its frames.
pub record LogCtx : Type 0 where
  pub user_id : Option String
  pub session_id : Option String
  pub model : String
  pub query_hash : String
  pub request_id : String

-- A row of `request_logs`.
pub record LogRow : Type 0 where
  pub request_id : String
  pub user_id : Option String
  pub session_id : Option String
  pub query_hash : String
  pub pipeline_flags : Option PipelineFlags
  pub cache_hit : Bool
  pub refused : Bool
  pub degraded : Bool
  pub memory_summarized : Bool
  pub total_ms : Option ℕ
  pub tokens_in : ℕ
  pub tokens_out : ℕ
  pub model : String
  pub http_status : ℕ
  pub error_type : Option String

-- `meta.get("request_id") or request_id_var.get()`
abbrev pub known_id : Option String → String → String
known_id none rid = rid
known_id (some i) rid = if is_empty i then rid else i

unfoldable pub build_row : LogCtx → Option Meta → ℕ → Option String → LogRow
build_row ctx none http_status error_type = record {
  request_id = ctx.request_id;
  user_id = ctx.user_id;
  session_id = ctx.session_id;
  query_hash = ctx.query_hash;
  pipeline_flags = none;
  cache_hit = false;
  refused = false;
  degraded = false;
  memory_summarized = false;
  total_ms = none;
  tokens_in = 0;
  tokens_out = 0;
  model = ctx.model;
  http_status = http_status;
  error_type = error_type;
}
build_row ctx (some m) http_status error_type = record {
  request_id = known_id m.request_id ctx.request_id;
  user_id = ctx.user_id;
  session_id = ctx.session_id;
  query_hash = ctx.query_hash;
  pipeline_flags = some m.pipeline_flags;
  cache_hit = m.cache_hit;
  refused = m.refused;
  degraded = m.degraded;
  memory_summarized = m.memory_summarized;
  total_ms = m.latency_ms;
  tokens_in = m.tokens_in;
  tokens_out = m.tokens_out;
  model = ctx.model;
  http_status = http_status;
  error_type = error_type;
}

pub data ApiExc : Type 0 where
  timeout_error : ApiExc
  exc : Exc → ApiExc

module _ (ctx : LogCtx) (latency_ms : ℕ) where
  unfoldable pub stamp : Meta → Meta
  stamp m = record m { request_id = some ctx.request_id; latency_ms = some latency_ms }

  abbrev pub stamp_frame : SseEvent → SseEvent
  unfolding stamp
  stamp_frame (meta m) = meta (stamp m)
  stamp_frame ev = ev

  -- What the loop of the SSE variant has noted after the frames.
  abbrev pub noted_meta : Option Meta → List SseEvent → Option Meta
  unfolding stamp
  noted_meta payload [] = payload
  noted_meta payload (meta m ∷ es) = noted_meta (some (stamp m)) es
  noted_meta payload (e ∷ es) = noted_meta payload es

  abbrev pub noted_error : Option String → List SseEvent → Option String
  noted_error error_type [] = error_type
  noted_error error_type (error message ∷ es) = noted_error (some "pipeline_error") es
  noted_error error_type (e ∷ es) = noted_error error_type es

  -- The frames on the wire, the exception that leaves the response's body, and the row.
  unfoldable pub sse_stream : Delivery → List SseEvent × Option Exc × LogRow
  unfolding stamp build_row
  sse_stream d = elim d.stop [
    | exhausted ↦ (
      map stamp_frame d.frames,
      none,
      build_row ctx (noted_meta none d.frames) 200 (noted_error none d.frames),
    )
    | timed_out ↦ (
      map stamp_frame d.frames ++ error "request timed out" ∷ [],
      none,
      build_row ctx (noted_meta none d.frames) 504 (some "timeout"),
    )
    | raised e ↦ (
      map stamp_frame d.frames,
      some e,
      build_row ctx (noted_meta none d.frames) 200 (noted_error none d.frames),
    )
  ]

  abbrev pub provider_failed : String → Option Meta → Result ApiExc AnswerResponse × LogRow
  unfolding build_row
  provider_failed message payload =
      (err (exc (provider_error message)), build_row ctx payload 503 (some "provider_error"))

  -- After the loop.
  abbrev pub collect_end : String → Option Meta → Stop → Result ApiExc AnswerResponse × LogRow
  unfolding build_row stamp
  collect_end text payload timed_out =
      (err timeout_error, build_row ctx payload 504 (some "timeout"))
  collect_end text payload (raised (provider_error message)) = provider_failed message payload
  collect_end text payload (raised e) = (err (exc e), build_row ctx payload 200 none)
  collect_end text none exhausted = provider_failed "pipeline ended without a meta event" none
  collect_end text (some m) exhausted =
      (ok (with_answer text (stamp m)), build_row ctx (some (stamp m)) 200 none)

  unfoldable pub collect_frames :
      String → Option Meta → List SseEvent → Stop → Result ApiExc AnswerResponse × LogRow
  unfolding build_row stamp
  collect_frames text payload [] stop = collect_end text payload stop
  collect_frames text payload (token t ∷ es) stop =
      collect_frames (str_append text t) payload es stop
  collect_frames text payload (meta m ∷ es) stop = collect_frames text (some m) es stop
  collect_frames text payload (error message ∷ es) stop = provider_failed message payload
  collect_frames text payload (stage s status ms ∷ es) stop = collect_frames text payload es stop
  collect_frames text payload (citations cs ∷ es) stop = collect_frames text payload es stop
  collect_frames text payload (done ∷ es) stop = collect_frames text payload es stop

  unfoldable pub collect : Delivery → Result ApiExc AnswerResponse × LogRow
  unfolding collect_frames
  collect d = collect_frames "" none d.frames d.stop
