-- ===== src/Api/Turn.antt =====
-- `_memory_events` and `_run_summary_stage` of backend/app/api/ask.py: one turn of a conversation. A
-- consumer that asks for `n` frames and then closes the generator cuts it at the frame that it took
-- last; a generator that was never asked for a frame has not run. The tables are as the request's
-- session sees them; logs and the trace are left out, and the stamp that the consumer puts on `meta`,
-- which the transcript does not hold.
pub mod Ready
pub mod Written
pub mod Kept
use production_rag_system.Prelude.{
  ℕ, zero, suc, String, Bool, true, false, List, [], ◌∷◌, ◌++◌, Option, none, some, find, str_eq,
  if◌then◌else◌,
}
use Prim.Native.String.{◌++◌ as str_append}
use production_rag_system.Core.Result.{Result, ok, err, Exc}
use production_rag_system.Core.Contracts.{MemoryContext, AnswerResponse}
use production_rag_system.Core.Settings.{Settings}
use production_rag_system.Memory.Window.{Message, ChatSession, assemble}
use production_rag_system.Memory.Service.{Db, persist_user, apply_summary, load_memory}
use production_rag_system.Rag.Events.{
  SseEvent, Meta, summarizing_memory, started, skipped, stage, token, citations, meta, done, error,
  emit, emit_ms, with_answer,
}

-- `transcript` are the write-behind tasks of assistant messages, `locked` the sessions whose lock is
-- held.
pub record TurnState : Type 0 where
  pub db : Db
  pub locked : List String
  pub transcript : List (String × AnswerResponse)

-- How the generator ended: it ran to its end, it was closed at a frame, or it raised.
pub data Ending : Type 0 where
  completed cancelled : Ending
  crashed : Exc → Ending

pub record Turn : Type 0 where
  pub frames : List SseEvent
  pub ending : Ending
  pub state : TurnState

-- The generator from some point on: the number of frames that will be asked for after the next.
abbrev pub Body : Type 0
Body = ℕ → TurnState → Turn

abbrev pub yield_frame : SseEvent → Body → Body
yield_frame ev rest zero st = record { frames = ev ∷ []; ending = cancelled; state = st }
yield_frame ev rest (suc n) st =
    let r = rest n st in record { frames = ev ∷ r.frames; ending = r.ending; state = r.state }

-- `lock.release()`
abbrev pub release : String → List String → List String
release id [] = []
release id (s ∷ ss) = let rest = release id ss in if str_eq s id then ss else s ∷ rest

-- The session's row, which the object in memory mirrors.
abbrev pub current : ChatSession → Db → ChatSession
current session db = elim (find (λ s. str_eq s.id session.id) db.sessions) [
  | none ↦ session
  | some s ↦ s
]

abbrev pub last_id : List Message → Option String
last_id [] = none
last_id (m ∷ []) = some m.id
last_id (m ∷ n ∷ ms) = last_id (n ∷ ms)

-- `if clean_done and meta is not None`
abbrev pub written : String → String → Option Meta → Bool → List (String × AnswerResponse)
written session_id text payload false = []
written session_id text none true = []
written session_id text (some m) true = (session_id, with_answer text m) ∷ []

-- What the loop over the pipeline's frames accumulates.
abbrev pub text_after : String → SseEvent → String
text_after text (token t) = str_append text t
text_after text _ = text

abbrev pub meta_after : Option Meta → SseEvent → Option Meta
meta_after payload (meta m) = some m
meta_after payload _ = payload

abbrev pub clean_after : Bool → SseEvent → Bool
clean_after clean done = true
clean_after clean _ = clean

module _ {F : Type 0} (count : String → ℕ) (settings : Settings F)
    (summarize : Option String → List Message → Result Exc String)
    (pipeline : MemoryContext → List SseEvent × Option Exc) (session : ChatSession) where
  unfoldable pub relay : List SseEvent → Option Exc → String → Option Meta → Bool → Body
  relay [] (some e) text payload clean n st = record { frames = []; ending = crashed e; state = st }
  relay [] none text payload clean n st = record {
    frames = [];
    ending = completed;
    state = record st { transcript = st.transcript ++ written session.id text payload clean };
  }
  relay (ev ∷ evs) raised text payload clean n st =
      yield_frame ev
        (relay evs raised (text_after text ev) (meta_after payload ev) (clean_after clean ev)) n st

  -- The pipeline with the memory that was loaded.
  unfoldable pub answer_turn : List Message → Body
  unfolding relay assemble
  answer_turn recent n st =
      let (events, raised) = pipeline (assemble settings (current session st.db) recent) in
      relay events raised "" none false n st

  -- A summary that fails is left for a later turn.
  unfoldable pub run_summary_stage : List Message → Db → Db
  unfolding apply_summary
  run_summary_stage pending db = elim (summarize (current session db).summary pending) [
    | err e ↦ db
    | ok new_summary ↦ elim (last_id pending) [
      | none ↦ db
      | some upto_id ↦ apply_summary count settings session.id new_summary upto_id db
    ]
  ]

  unfoldable pub after_load : ℕ → List Message → Option (List Message) → Body
  unfolding answer_turn run_summary_stage
  after_load summary_ms recent none =
      yield_frame (emit summarizing_memory skipped) (answer_turn recent)
  after_load summary_ms recent (some pending) =
      yield_frame (emit summarizing_memory started) (λ n st.
        yield_frame (emit_ms summarizing_memory (some summary_ms)) (answer_turn recent) n
          (record st { db = run_summary_stage pending st.db }))

  -- The question first, then the memory.
  unfoldable pub turn : String → ℕ → ℕ → String → Body
  unfolding persist_user load_memory after_load
  turn message_id now summary_ms question n st =
      let (msg, db) = persist_user count settings message_id session.id question now st.db in
      let (recent, pending) = load_memory settings (current session db) db in
      after_load summary_ms recent pending n (record st { db = db })

  -- `finally: lock.release()`
  unfoldable pub memory_events : String → ℕ → ℕ → String → Body
  unfolding turn
  memory_events message_id now summary_ms question zero st = record {
    frames = [];
    ending = cancelled;
    state = st;
  }
  memory_events message_id now summary_ms question (suc n) st =
      let r = turn message_id now summary_ms question n st in
      record {
        frames = r.frames;
        ending = r.ending;
        state = record r.state { locked = release session.id r.state.locked };
      }
