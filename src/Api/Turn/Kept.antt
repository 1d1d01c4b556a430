-- ===== src/Api/Turn/Kept.antt =====
-- What a turn does however it ends: the lock of its session and the message of its question.
use production_rag_system.Prelude.{
  ℕ, zero, suc, String, ◌≡◌, refl, ap, Bool, false, ◌∙◌, List, [], ◌∷◌, Option, none, some, arith,
}
use production_rag_system.Core.Result.{Result, Exc}
use production_rag_system.Core.Contracts.{MemoryContext, AnswerResponse}
use production_rag_system.Core.Settings.{Settings}
use production_rag_system.Memory.Window.{Message, ChatSession, assemble}
use production_rag_system.Memory.Service.{Db, persist_user, load_memory, apply_summary}
use production_rag_system.Rag.Events.{
  SseEvent, Meta, emit, emit_ms, summarizing_memory, skipped, started,
}
use production_rag_system.Api.Turn.{
  TurnState, Body, yield_frame, release, current, text_after, meta_after, clean_after, relay,
  answer_turn, run_summary_stage, after_load, turn, memory_events,
}

-- A part of the state that the frames and what is between them leave alone.
abbrev Keeps {ℓ} : {A : Type ℓ} → (TurnState → A) → Body → Type ℓ
Keeps part body = (n : ℕ) (st : TurnState) → part (body n st).state ≡ part st

Keeps-yield {ℓ} :
    {A : Type ℓ} (part : TurnState → A) (ev : SseEvent) (rest : Body)
    → Keeps part rest
    → Keeps part (yield_frame ev rest)
Keeps-yield part ev rest h zero st = refl
Keeps-yield part ev rest h (suc n) st = h n st

abbrev pub messages : TurnState → List Message
messages st = st.db.messages

abbrev pub locked : TurnState → List String
locked st = st.locked

module _ {F : Type 0} (count : String → ℕ) (settings : Settings F)
    (summarize : Option String → List Message → Result Exc String)
    (pipeline : MemoryContext → List SseEvent × Option Exc) (session : ChatSession) where
  run_summary_stage-messages :
      (pending : List Message) (db : Db)
      → (run_summary_stage count settings summarize pipeline session pending db).messages
        ≡ db.messages
  unfolding run_summary_stage apply_summary
  run_summary_stage-messages pending db = ground arith

  module _ {ℓ} {A : Type ℓ} (part : TurnState → A)
      (scheduled : (st : TurnState) (w : List (String × AnswerResponse))
        → part (record st { transcript = w }) ≡ part st) where
    relay-Keeps :
        (evs : List SseEvent) (raised : Option Exc) (text : String) (payload : Option Meta)
        (clean : Bool)
        → Keeps part (relay count settings summarize pipeline session evs raised text payload clean)
    unfolding relay
    relay-Keeps [] none text payload clean n st = scheduled st _
    relay-Keeps [] (some e) text payload clean n st = refl
    relay-Keeps (ev ∷ evs) raised text payload clean n st =
        Keeps-yield part ev
          (relay count settings summarize pipeline session evs raised (text_after text ev)
            (meta_after payload ev) (clean_after clean ev))
          (relay-Keeps evs raised (text_after text ev) (meta_after payload ev)
            (clean_after clean ev))
          n st

    module _
        (summed : (st : TurnState) (pending : List Message)
          → part (record st {
            db = run_summary_stage count settings summarize pipeline session pending st.db;
          })
            ≡ part st) where
      answer_turn-Keeps :
          (recent : List Message)
          → Keeps part (answer_turn count settings summarize pipeline session recent)
      unfolding answer_turn
      answer_turn-Keeps recent n st =
          let c = assemble settings (current session st.db) recent in
          relay-Keeps (pipeline c).0 (pipeline c).1 "" none false n st

      after_load-Keeps :
          (summary_ms : ℕ) (recent : List Message) (pending : Option (List Message))
          → Keeps part
              (after_load count settings summarize pipeline session summary_ms recent pending)
      unfolding after_load
      after_load-Keeps summary_ms recent none n st =
          Keeps-yield part (emit summarizing_memory skipped)
            (answer_turn count settings summarize pipeline session recent)
            (answer_turn-Keeps recent) n st
      after_load-Keeps summary_ms recent (some pending) n st =
          let last = answer_turn count settings summarize pipeline session recent in
          let later = λ (m : ℕ) (s : TurnState).
            yield_frame (emit_ms summarizing_memory (some summary_ms)) last m (record s {
              db = run_summary_stage count settings summarize pipeline session pending s.db;
            }) in
          Keeps-yield part (emit summarizing_memory started) later
            (λ m s.
              Keeps-yield part (emit_ms summarizing_memory (some summary_ms)) last
                (answer_turn-Keeps recent) m
                (record s {
                  db = run_summary_stage count settings summarize pipeline session pending s.db;
                })
              ∙ summed s pending)
            n st

  -- A turn that was asked for a frame gives its session's lock back, whether it ends, is cut or
  -- raises; one that was never asked for a frame keeps it.
  pub memory_events-lock :
      (message_id : String) (now summary_ms : ℕ) (question : String) (st : TurnState)
      → ((memory_events count settings summarize pipeline session message_id now summary_ms question
            0 st).state.locked
          ≡ st.locked)
        × ((n : ℕ)
            → (memory_events count settings summarize pipeline session message_id now summary_ms
                question
                (suc n)
                st).state.locked
              ≡ release session.id st.locked)
  unfolding memory_events turn
  memory_events-lock message_id now summary_ms question st =
      let (msg, db) = persist_user count settings message_id session.id question now st.db in
      let loaded = load_memory settings (current session db) db in
      (
        refl,
        λ n. ap (release session.id) (
            after_load-Keeps locked (λ s w. refl) (λ s pending. refl) summary_ms loaded.0 loaded.1 n
              (record st { db = db })),
      )

  -- The question of a turn that was asked for a frame is in the transcript, and nothing else is new
  -- there before the write-behind, whether the turn ends, is cut or raises.
  pub memory_events-question :
      (message_id : String) (now summary_ms : ℕ) (question : String) (n : ℕ) (st : TurnState)
      → (memory_events count settings summarize pipeline session message_id now summary_ms question
          (suc n)
          st).state.db.messages
        ≡ (persist_user count settings message_id session.id question now st.db).1.messages
  unfolding memory_events turn
  memory_events-question message_id now summary_ms question n st =
      let (msg, db) = persist_user count settings message_id session.id question now st.db in
      let loaded = load_memory settings (current session db) db in
      after_load-Keeps messages (λ s w. refl) (λ s pending. run_summary_stage-messages pending s.db)
        summary_ms loaded.0 loaded.1 n (record st { db = db })
