-- ===== src/Api/Turn/Written.antt =====
-- What a turn leaves behind: the lock, and the assistant's message.
use production_rag_system.Prelude.{
  ℕ, zero, suc, String, ◌≡◌, ◌≢◌, refl, ap, Bool, true, false, List, [], ◌∷◌, ◌++◌, Option, none,
  some, arith,
}
use Prim.Native.String.{◌++◌ as str_append}
use production_rag_system.Core.Result.{Result, ok, err, Exc, provider_error}
use production_rag_system.Core.Contracts.{MemoryContext, AnswerResponse}
use production_rag_system.Core.Settings.{Settings}
use production_rag_system.Memory.Window.{Message, ChatSession, assemble}
use production_rag_system.Memory.Service.{persist_user, load_memory}
use production_rag_system.Rag.Events.{
  SseEvent, Meta, stage, token, citations, meta, done, error, with_answer, emit, emit_ms,
  summarizing_memory, skipped, started,
}
use production_rag_system.Rag.Events.Protocol.{
  Phase, open_stream, cited, described, closed, broken, advance, follow,
}
use production_rag_system.Rag.Baseline.Answer.{collected}
use production_rag_system.Api.Turn.{
  TurnState, completed, Turn, Body, yield_frame, current, written, text_after, meta_after,
  clean_after, relay, answer_turn, run_summary_stage, after_load, turn, memory_events,
}
use production_rag_system.Api.Turn.Ready.{
  follow-broken, follow-closed, IsReady, never, not_ready, IsReady-token, IsReady-stage,
  IsReady-citations, IsReady-meta,
}

-- The write-behind of an answer that was collected.
abbrev pub due : String → Result Exc AnswerResponse → List (String × AnswerResponse)
due session_id (ok a) = (session_id, a) ∷ []
due session_id (err e) = []

-- A turn that ran to its end scheduled what the frames come to, any other nothing.
abbrev pub Exact : String → TurnState → Result Exc AnswerResponse → Turn → Type 0
Exact session_id st answered r =
    (r.ending ≡ completed → r.state.transcript ≡ st.transcript ++ due session_id answered)
    × (r.ending ≢ completed → r.state.transcript ≡ st.transcript)

Exact-yield :
    (session_id : String) (ev : SseEvent) (rest : Body) (answered : Result Exc AnswerResponse)
    (n : ℕ) (st : TurnState)
    → ((m : ℕ) → Exact session_id st answered (rest m st))
    → Exact session_id st answered (yield_frame ev rest n st)
Exact-yield session_id ev rest answered zero st h = (λ c. absurd (ground arith), λ c. refl)
Exact-yield session_id ev rest answered (suc n) st h = h n

module _ {F : Type 0} (count : String → ℕ) (settings : Settings F)
    (summarize : Option String → List Message → Result Exc String)
    (pipeline : MemoryContext → List SseEvent × Option Exc) (session : ChatSession) where
  -- A run that raises schedules nothing.
  relay-raised :
      (evs : List SseEvent) (e : Exc) (text : String) (payload : Option Meta) (clean : Bool) (n : ℕ)
      (st : TurnState) (answered : Result Exc AnswerResponse)
      → Exact session.id st answered
          (relay count settings summarize pipeline session evs (some e) text payload clean n st)
  unfolding relay
  relay-raised [] e text payload clean n st answered = (λ c. absurd (ground arith), λ c. refl)
  relay-raised (ev ∷ evs) e text payload clean n st answered =
      Exact-yield session.id ev
        (relay count settings summarize pipeline session evs (some e) (text_after text ev)
          (meta_after payload ev) (clean_after clean ev))
        answered n st
        (λ m.
          relay-raised evs e (text_after text ev) (meta_after payload ev) (clean_after clean ev) m
            st answered)

  -- The end of the stream, after its last frame.
  relay-end :
      (answered : Result Exc AnswerResponse) (text : String) (payload : Option Meta) (clean : Bool)
      → written session.id text payload clean ≡ due session.id answered
      → (n : ℕ) (st : TurnState)
      → Exact session.id st answered
          (relay count settings summarize pipeline session [] none text payload clean n st)
  unfolding relay
  relay-end answered text payload clean h n st =
      (λ c. ap (λ w. st.transcript ++ w) h, λ c. absurd (c refl))

  relay-done :
      (evs : List SseEvent) (p : Phase) (text : String) (payload : Option Meta) (n : ℕ)
      (st : TurnState)
      → IsReady p payload
      → follow p (done ∷ evs) ≡ closed
      → Exact session.id st (collected text payload (done ∷ evs) none) (
          relay count settings summarize pipeline session (done ∷ evs) none text payload false n st)
  unfolding relay collected
  relay-done [] described text (some m) n st r h =
      Exact-yield session.id done
        (relay count settings summarize pipeline session [] none text (some m) true)
        (ok (with_answer text m)) n st
        (λ k. relay-end (ok (with_answer text m)) text (some m) true refl k st)
  relay-done (e ∷ es) described text (some m) n st r h = absurd (never (follow-closed e es) h)
  relay-done evs described text none n st r h = absurd r
  relay-done evs open_stream text payload n st r h = absurd (never (follow-broken evs) h)
  relay-done evs cited text payload n st r h = absurd (never (follow-broken evs) h)
  relay-done evs closed text payload n st r h = absurd r
  relay-done evs broken text payload n st r h = absurd r

  relay-error :
      (message : String) (evs : List SseEvent) (p : Phase) (text : String) (payload : Option Meta)
      (n : ℕ) (st : TurnState)
      → IsReady p payload
      → follow p (error message ∷ evs) ≡ closed
      → Exact session.id st (collected text payload (error message ∷ evs) none) (
          relay count settings summarize pipeline session
            (error message ∷ evs)
            none
            text
            payload
            false
            n
            st)
  unfolding relay collected
  relay-error message [] open_stream text payload n st r h =
      Exact-yield session.id (error message)
        (relay count settings summarize pipeline session [] none text payload false)
        (err (provider_error message)) n st
        (λ k. relay-end (err (provider_error message)) text payload false refl k st)
  relay-error message (e ∷ es) open_stream text payload n st r h =
      absurd (never (follow-closed e es) h)
  relay-error message evs described text payload n st r h = absurd (never (follow-broken evs) h)
  relay-error message evs cited text payload n st r h = absurd (never (follow-broken evs) h)
  relay-error message evs closed text payload n st r h = absurd r
  relay-error message evs broken text payload n st r h = absurd r

  relay-Exact :
      (evs : List SseEvent) (p : Phase) (text : String) (payload : Option Meta) (n : ℕ)
      (st : TurnState)
      → IsReady p payload
      → follow p evs ≡ closed
      → Exact session.id st
          (collected text payload evs none)
          (relay count settings summarize pipeline session evs none text payload false n st)
  unfolding relay collected
  relay-Exact [] p text payload n st ready h = absurd (not_ready p payload ready h)
  relay-Exact (done ∷ evs) p text payload n st ready h = relay-done evs p text payload n st ready h
  relay-Exact (error message ∷ evs) p text payload n st ready h =
      relay-error message evs p text payload n st ready h
  relay-Exact (token t ∷ evs) p text payload n st ready h =
      Exact-yield session.id (token t)
        (relay count settings summarize pipeline session evs none (str_append text t) payload false)
        (collected (str_append text t) payload evs none) n st
        (λ k.
          relay-Exact evs (advance p (token t)) (str_append text t) payload k st
            (IsReady-token p t evs payload ready h) h)
  relay-Exact (stage s status ms ∷ evs) p text payload n st ready h =
      Exact-yield session.id (stage s status ms)
        (relay count settings summarize pipeline session evs none text payload false)
        (collected text payload evs none) n st
        (λ k.
          relay-Exact evs (advance p (stage s status ms)) text payload k st
            (IsReady-stage p s status ms evs payload ready h) h)
  relay-Exact (citations cs ∷ evs) p text payload n st ready h =
      Exact-yield session.id (citations cs)
        (relay count settings summarize pipeline session evs none text payload false)
        (collected text payload evs none) n st
        (λ k.
          relay-Exact evs (advance p (citations cs)) text payload k st
            (IsReady-citations p cs evs payload ready h) h)
  relay-Exact (meta m ∷ evs) p text payload n st ready h =
      Exact-yield session.id (meta m)
        (relay count settings summarize pipeline session evs none text (some m) false)
        (collected text (some m) evs none) n st
        (λ k.
          relay-Exact evs (advance p (meta m)) text (some m) k st
            (IsReady-meta p m evs payload ready h) h)

  -- What the consumer of a run would collect, and that the run is in order.
  abbrev pub answered : MemoryContext → Result Exc AnswerResponse
  answered c = collected "" none (pipeline c).0 (pipeline c).1

  relay-ends :
      (evs : List SseEvent) (raised : Option Exc)
      → (raised ≡ none → follow open_stream evs ≡ closed)
      → (n : ℕ) (st : TurnState)
      → Exact session.id st
          (collected "" none evs raised)
          (relay count settings summarize pipeline session evs raised "" none false n st)
  relay-ends evs none h n st = relay-Exact evs open_stream "" none n st refl (h refl)
  relay-ends evs (some e) h n st =
      relay-raised evs e "" none false n st (collected "" none evs (some e))

  module _
      (closes : (c : MemoryContext)
        → (pipeline c).1 ≡ none
        → follow open_stream (pipeline c).0 ≡ closed) where
    abbrev Comes : TurnState → Turn → Type 0
    Comes st r = (c : MemoryContext) × Exact session.id st (answered c) r

    answer_turn-Comes :
        (recent : List Message) (st : TurnState)
        → (c : MemoryContext) × ((n : ℕ)
            → Exact session.id st
                (answered c)
                (answer_turn count settings summarize pipeline session recent n st))
    unfolding answer_turn
    answer_turn-Comes recent st =
        let c = assemble settings (current session st.db) recent in
        (c, λ n. relay-ends (pipeline c).0 (pipeline c).1 (closes c) n st)

    after_load-Comes :
        (summary_ms : ℕ) (recent : List Message) (pending : Option (List Message)) (n : ℕ)
        (st : TurnState)
        → Comes st
            (after_load count settings summarize pipeline session summary_ms recent pending n st)
    unfolding after_load
    after_load-Comes summary_ms recent none n st =
        let (c, each) = answer_turn-Comes recent st in
        (
          c,
          Exact-yield session.id (emit summarizing_memory skipped)
              (answer_turn count settings summarize pipeline session recent) (answered c) n st each,
        )
    after_load-Comes summary_ms recent (some pending) n st =
        let st' : TurnState = record st {
          db = run_summary_stage count settings summarize pipeline session pending st.db;
        } in
        let (c, each) = answer_turn-Comes recent st' in
        let later = λ (m : ℕ) (s : TurnState).
          yield_frame (emit_ms summarizing_memory (some summary_ms))
            (answer_turn count settings summarize pipeline session recent) m
            (record s {
              db = run_summary_stage count settings summarize pipeline session pending s.db;
            }) in
        (
          c,
          Exact-yield session.id (emit summarizing_memory started) later (answered c) n st (λ m.
              Exact-yield session.id (emit_ms summarizing_memory (some summary_ms))
                (answer_turn count settings summarize pipeline session recent) (answered c) m st'
                each),
        )

    -- With a pipeline whose runs that do not raise are in order: a turn that ran to its end has
    -- scheduled the assistant's message exactly where the pipeline's frames, for some memory
    -- context, come to an answer, and with that answer; a turn that was cut or that raised has
    -- scheduled nothing.
    pub memory_events-Exact :
        (message_id : String) (now summary_ms : ℕ) (question : String) (n : ℕ) (st : TurnState)
        → (c : MemoryContext) × Exact session.id st (answered c) (
            memory_events count settings summarize pipeline session message_id now summary_ms
              question n st)
    unfolding memory_events turn
    memory_events-Exact message_id now summary_ms question zero st =
        let (c, each) = answer_turn-Comes [] st in (c, (λ h. absurd (ground arith), λ h. refl))
    memory_events-Exact message_id now summary_ms question (suc n) st =
        let (msg, db) = persist_user count settings message_id session.id question now st.db in
        let loaded = load_memory settings (current session db) db in
        after_load-Comes summary_ms loaded.0 loaded.1 n (record st { db = db })
