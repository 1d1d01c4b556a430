-- ===== src/Rag/Events.antt =====
-- backend/app/rag/events.py with `StageEvent` of core/contracts.py and `emit` of memory/stages.py:
-- the frames of an answer's stream. The trace that rides on a `done` frame and the metrics are left
-- out; `meta` carries the response without its `answer`.
pub mod Protocol
use production_rag_system.Prelude.{ℕ, String, Bool, List, Option, none, ◌≡◌, refl}
use production_rag_system.Core.Contracts.{Citation, PipelineFlags, AnswerResponse}

pub data Stage : Type 0 where
  summarizing_memory rewriting cache_lookup searching reranking compressing generating citing :
      Stage

pub data Status : Type 0 where
  started finished skipped : Status

-- `response.model_dump(exclude={"answer"})`
pub record Meta : Type 0 where
  pub citations : List Citation
  pub refused : Bool
  pub refusal_reason : Option String
  pub pipeline_flags : PipelineFlags
  pub session_id : Option String
  pub memory_summarized : Bool
  pub cache_hit : Bool
  pub tokens_in : ℕ
  pub tokens_out : ℕ
  pub degraded : Bool
  pub request_id : Option String
  pub latency_ms : Option ℕ

abbrev pub without_answer : AnswerResponse → Meta
without_answer r = record {
  citations = r.citations;
  refused = r.refused;
  refusal_reason = r.refusal_reason;
  pipeline_flags = r.pipeline_flags;
  session_id = r.session_id;
  memory_summarized = r.memory_summarized;
  cache_hit = r.cache_hit;
  tokens_in = r.tokens_in;
  tokens_out = r.tokens_out;
  degraded = r.degraded;
  request_id = r.request_id;
  latency_ms = r.latency_ms;
}

-- `AnswerResponse(answer=answer, **meta)`
abbrev pub with_answer : String → Meta → AnswerResponse
with_answer answer m = record {
  answer = answer;
  citations = m.citations;
  refused = m.refused;
  refusal_reason = m.refusal_reason;
  pipeline_flags = m.pipeline_flags;
  session_id = m.session_id;
  memory_summarized = m.memory_summarized;
  cache_hit = m.cache_hit;
  tokens_in = m.tokens_in;
  tokens_out = m.tokens_out;
  degraded = m.degraded;
  request_id = m.request_id;
  latency_ms = m.latency_ms;
}

pub data SseEvent : Type 0 where
  stage : Stage → Status → Option ℕ → SseEvent
  token : String → SseEvent
  citations : List Citation → SseEvent
  meta : Meta → SseEvent
  done : SseEvent
  error : String → SseEvent

-- `stages.emit(stage, status)`, and with the milliseconds of a `done` frame.
abbrev pub emit : Stage → Status → SseEvent
emit s status = stage s status none

abbrev pub emit_ms : Stage → Option ℕ → SseEvent
emit_ms s ms = stage s finished ms
