-- ===== src/Tests/ApiTests.antt =====
-- The theorems on backend/app/api/ask.py and backend/app/core/ratelimit.py at concrete inputs.
use production_rag_system.Prelude.{
  ℕ, suc, String, ◌≡◌, refl, true, false, List, [], ◌∷◌, ◌++◌, Option, none, some, arith,
}
use production_rag_system.Core.Result.{Result, ok, err, Exc, external}
use production_rag_system.Core.Contracts.{Role, MemoryContext, AnswerResponse}
use production_rag_system.Core.Settings.{Settings}
use production_rag_system.Memory.Window.{Message, ChatSession, pairs}
use production_rag_system.Memory.Service.{Db, load_window, persist_user}
use production_rag_system.Memory.Overtaken.{
  Written, overtaken, question_of, answer_of, overtaken-mispaired,
}
use production_rag_system.Rag.Events.{SseEvent, Meta, token, citations, meta, done}
use production_rag_system.Rag.Baseline.Answer.{collected}
use production_rag_system.Api.Request.{AskRequest, CookieClaims, verify, resolve_owned}
use production_rag_system.Api.Turn.{TurnState, memory_events, release}
use production_rag_system.Api.Turn.Written.{Exact, memory_events-Exact}
use production_rag_system.Api.Turn.Kept.{memory_events-lock, memory_events-question}
use production_rag_system.Api.Transport.{
  timed_out, exhausted, Delivery, LogCtx, collect, sse_stream,
}
use production_rag_system.Api.Transport.Same.{as_api, collect-sse_stream}
use production_rag_system.Api.Transport.Logged.{IsLogged, collect-IsLogged}
use production_rag_system.Api.RateLimit.{allowed, rate_limited, check}
use production_rag_system.Api.RateLimit.Admission.{Request, verdicts, admits}
use production_rag_system.Api.RateLimit.Refined.{verdicts_refine}
use production_rag_system.Api.Locks.{stateful, acquire, open_turn}
use production_rag_system.Api.Locks.Owned.{IsOwn, open_turn-IsOwn}
use production_rag_system.Api.Locks.Exclusive.{
  Server, opens, here, further, IsExclusive, Reaches-IsExclusive,
}
use production_rag_system.Samples.{defaults}

abbrev reply_meta : Meta
reply_meta = record {
  citations = [];
  refused = false;
  refusal_reason = none;
  pipeline_flags = record {
    hybrid = false;
    rerank = false;
    query_rewrite = false;
    compression = false;
    cache = false;
    memory = true;
  };
  session_id = some "s1";
  memory_summarized = false;
  cache_hit = false;
  tokens_in = 2;
  tokens_out = 3;
  degraded = false;
  request_id = none;
  latency_ms = none;
}

abbrev shown : List SseEvent
shown = token "In May" ∷ token "." ∷ citations [] ∷ meta reply_meta ∷ done ∷ []

abbrev count : String → ℕ
count s = 4

abbrev chat : ChatSession
chat = record {
  id = "s1";
  user_id = some "u1";
  title = some "When?";
  is_archived = false;
  total_tokens = 4;
  summary = none;
  summary_token_count = none;
  summarized_upto_message_id = none;
  last_active_at = 3;
}

abbrev first_question : Message
first_question = record {
  id = "m1";
  session_id = "s1";
  role = Role.user;
  content = "When?";
  token_count = 4;
  created_at = 1;
  refused = false;
}

abbrev turn_start : TurnState
turn_start = record {
  db = record { sessions = chat ∷ []; messages = first_question ∷ [] };
  locked = "s2" ∷ "s1" ∷ [];
  transcript = [];
}

abbrev down : Option String → List Message → Result Exc String
down summary pending = err (external "down")

abbrev speaks : MemoryContext → List SseEvent × Option Exc
speaks c = (shown, none)

memory_events-Exact_example :
    (c : MemoryContext) × Exact "s1" turn_start
      (collected "" none (speaks c).0 (speaks c).1)
      (memory_events count defaults down speaks chat "m2" 5 9 "Where?" 7 turn_start)
memory_events-Exact_example =
    memory_events-Exact count defaults down speaks chat (λ c h. refl) "m2" 5 9 "Where?" 7 turn_start

memory_events-lock_example :
    ((memory_events count defaults down speaks chat "m2" 5 9 "Where?" 0 turn_start).state.locked
      ≡ turn_start.locked)
    × ((n : ℕ)
        → (memory_events count defaults down speaks chat "m2" 5 9 "Where?"
            (suc n)
            turn_start).state.locked
          ≡ release "s1" turn_start.locked)
memory_events-lock_example =
    memory_events-lock count defaults down speaks chat "m2" 5 9 "Where?" turn_start

memory_events-question_example :
    (memory_events count defaults down speaks chat "m2" 5 9 "Where?" 3 turn_start).state.db.messages
    ≡ (persist_user count defaults "m2" "s1" "Where?" 5 turn_start.db).1.messages
memory_events-question_example =
    memory_events-question count defaults down speaks chat "m2" 5 9 "Where?" 2 turn_start

abbrev log_ctx : LogCtx
log_ctx = record {
  user_id = some "u1";
  session_id = some "s1";
  model = "gpt-4o-mini";
  query_hash = "h";
  request_id = "r1";
}

collect-sse_stream_example :
    (collect log_ctx 80 (record { frames = shown; stop = exhausted })).0
    ≡ as_api (
        collected "" none
          (sse_stream log_ctx 80 (record { frames = shown; stop = exhausted })).0
          none)
collect-sse_stream_example = collect-sse_stream log_ctx 80 shown

abbrev cut_short : Delivery
cut_short = record { frames = token "In" ∷ []; stop = timed_out }

collect-IsLogged_example :
    IsLogged (collect log_ctx 80 cut_short).0 (collect log_ctx 80 cut_short).1
collect-IsLogged_example = collect-IsLogged log_ctx 80 cut_short

-- Two requests a minute; the count of the third is missed, and the fifth is in the next minute.
abbrev asked : List Request
asked =
    record { bucket = "user:u1"; limit = 2; at = 120; missed = false }
    ∷ record { bucket = "user:u1"; limit = 2; at = 121; missed = false }
    ∷ record { bucket = "user:u1"; limit = 2; at = 122; missed = true }
    ∷ record { bucket = "user:u1"; limit = 2; at = 130; missed = false }
    ∷ record { bucket = "user:u1"; limit = 2; at = 180; missed = false }
    ∷ []

verdicts_refine_example : verdicts 60 [] asked ≡ admits 60 [] asked
verdicts_refine_example =
    verdicts_refine 60 asked (ground arith)
      (ground arith, (ground arith, (ground arith, (ground arith, (ground arith, tt)))))

asked_verdicts : verdicts 60 [] asked ≡ allowed ∷ allowed ∷ allowed ∷ rate_limited 50 ∷ allowed ∷ []
unfolding verdicts admits check
asked_verdicts = refl

abbrev decode_cookie : String → Option CookieClaims
decode_cookie cookie = some (record { typ = "anon_session"; sid = some cookie })

abbrev remembering : Settings ℕ
remembering = record defaults { enable_memory = true }

abbrev request : AskRequest
request = record {
  question = "Where?";
  session_id = some "s9";
  namespace = none;
  deep = false;
  skip_cache = false;
}

abbrev anonymous : ChatSession
anonymous = record chat { id = "s9"; user_id = none }

abbrev idle : TurnState
idle = record {
  db = record { sessions = anonymous ∷ []; messages = [] };
  locked = [];
  transcript = [];
}

abbrev busy : TurnState
busy = record idle { locked = "s9" ∷ [] }

opened :
    open_turn remembering decode_cookie request (some "s9") none idle
    ≡ ok (stateful anonymous, busy)
unfolding open_turn verify resolve_owned acquire
opened = refl

open_turn-IsOwn_example :
    (remembering.enable_memory ≡ true)
    × (request.session_id ≡ some anonymous.id)
    × (anonymous.is_archived ≡ false)
    × IsOwn decode_cookie (some "s9") none anonymous
open_turn-IsOwn_example =
    open_turn-IsOwn remembering decode_cookie request (some "s9") none idle busy anonymous opened

abbrev quiet : Server
quiet = record { state = idle; running = [] }

abbrev one_turn : Server
one_turn = record { state = busy; running = "s9" ∷ [] }

Reaches-IsExclusive_example : IsExclusive one_turn
Reaches-IsExclusive_example =
    Reaches-IsExclusive remembering decode_cookie {v = quiet} {w = one_turn}
      (further (here quiet) (opens request (some "s9") none anonymous quiet busy opened))
      (record { one_each = tt; held = refl })

abbrev spoken : AnswerResponse
spoken = record {
  answer = "In May.";
  citations = [];
  refused = false;
  refusal_reason = none;
  pipeline_flags = reply_meta.pipeline_flags;
  session_id = some "s1";
  memory_summarized = false;
  cache_hit = false;
  tokens_in = 2;
  tokens_out = 3;
  degraded = false;
  request_id = none;
  latency_ms = none;
}

abbrev asked_first : Written String
asked_first = record { id = "m1"; content = "When?"; at = 1 }

abbrev asked_next : Written String
asked_next = record { id = "m2"; content = "Where?"; at = 2 }

abbrev told_first : Written AnswerResponse
told_first = record { id = "m3"; content = spoken; at = 3 }

abbrev told_next : Written AnswerResponse
told_next = record { id = "m4"; content = record spoken { answer = "At the office." }; at = 4 }

abbrev no_messages : Db
no_messages = record { sessions = chat ∷ []; messages = [] }

overtaken-mispaired_example :
    pairs (
      load_window defaults "s1"
        (overtaken count defaults "s1" asked_first asked_next told_first told_next no_messages))
    ≡ []
      ++ (question_of count defaults "s1" asked_next, answer_of count defaults "s1" told_first) ∷ []
overtaken-mispaired_example =
    overtaken-mispaired count defaults "s1" asked_first asked_next told_first told_next no_messages
      [] tt refl
      (
        (ground arith, (ground arith, (ground arith, tt))),
        ((ground arith, (ground arith, tt)), ((ground arith, tt), (tt, tt))),
      )
      (ground arith)
