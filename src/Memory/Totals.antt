-- ===== src/Memory/Totals.antt =====
-- The running total of a session's tokens.
use production_rag_system.Prelude.{
  ℕ, ◌+◌, String, ◌≡◌, refl, ◌∙◌, inl, inr, true, List, [], ◌∷◌, ◌++◌, arith, All, str_eq, eq_iff,
  Bool-cases, Option-cases, if◌then◌else◌,
}
use production_rag_system.Core.Contracts.{Role, AnswerResponse}
use production_rag_system.Core.Settings.{Settings}
use production_rag_system.Memory.Window.{Message, ChatSession, sum_tokens}
use production_rag_system.Memory.Service.{
  Db, of_session, on_session, add_tokens, with_title, persist_user, persist_assistant,
  apply_summary, archive,
}

-- The total of every session is the sum over its messages.
abbrev pub TotalsMatch : Db → Type 0
TotalsMatch db = All (λ s. s.total_tokens ≡ sum_tokens (of_session s.id db.messages)) db.sessions

sum_tokens-snoc :
    (session_id : String) (ms : List Message) (m : Message)
    → sum_tokens (of_session session_id (ms ++ m ∷ []))
      ≡ sum_tokens (of_session session_id ms)
        + (if str_eq m.session_id session_id then m.token_count else 0)
sum_tokens-snoc session_id [] m = ground arith
sum_tokens-snoc session_id (n ∷ ms) m = ground (arith, sum_tokens-snoc session_id ms m)

-- One message more, and its tokens on its session.
added-TotalsMatch :
    (m : Message) (f : ChatSession → ChatSession)
    → ((s : ChatSession) → (f s).total_tokens ≡ s.total_tokens + m.token_count)
    → ((s : ChatSession) → (f s).id ≡ s.id)
    → (ms : List Message) (ss : List ChatSession)
    → All (λ s. s.total_tokens ≡ sum_tokens (of_session s.id ms)) ss
    → All
        (λ s. s.total_tokens ≡ sum_tokens (of_session s.id (ms ++ m ∷ [])))
        (on_session m.session_id f ss)
added-TotalsMatch m f adds same ms [] h = tt
added-TotalsMatch m f adds same ms (s ∷ ss) h = elim (Bool-cases (str_eq s.id m.session_id)) [
  | inl mine ↦ rw mine (
    (adds s
        ∙ rw (same s) (
            ground (
              arith,
              sum_tokens-snoc s.id ms m,
              h.0,
              eq_iff s.id m.session_id,
              eq_iff m.session_id s.id,
            ))),
    added-TotalsMatch m f adds same ms ss h.1,
  )
  | inr other ↦ rw other (
    ground
        (arith, sum_tokens-snoc s.id ms m, h.0, eq_iff s.id m.session_id, eq_iff m.session_id s.id),
    added-TotalsMatch m f adds same ms ss h.1,
  )
]

-- A change of the sessions that leaves their ids and totals.
kept-TotalsMatch :
    (k : String) (f : ChatSession → ChatSession)
    → ((s : ChatSession) → (f s).total_tokens ≡ s.total_tokens)
    → ((s : ChatSession) → (f s).id ≡ s.id)
    → (ms : List Message) (ss : List ChatSession)
    → All (λ s. s.total_tokens ≡ sum_tokens (of_session s.id ms)) ss
    → All (λ s. s.total_tokens ≡ sum_tokens (of_session s.id ms)) (on_session k f ss)
kept-TotalsMatch k f totals same ms [] h = tt
kept-TotalsMatch k f totals same ms (s ∷ ss) h = elim (Bool-cases (str_eq s.id k)) [
  | inl mine ↦ rw mine (totals s ∙ rw (same s) h.0, kept-TotalsMatch k f totals same ms ss h.1)
  | inr other ↦ rw other (h.0, kept-TotalsMatch k f totals same ms ss h.1)
]

with_title-total :
    (title : String) (s : ChatSession) → (with_title title s).total_tokens ≡ s.total_tokens
with_title-total title s = elim (Option-cases s.title) [
  | inl unset ↦ rw (unset, with_title) refl
  | inr (t, set) ↦ rw (set, with_title) refl
]

with_title-id : (title : String) (s : ChatSession) → (with_title title s).id ≡ s.id
with_title-id title s = elim (Option-cases s.title) [
  | inl unset ↦ rw (unset, with_title) refl
  | inr (t, set) ↦ rw (set, with_title) refl
]

-- One write to the two tables.
pub data Write {F : Type 0} (count : String → ℕ) (settings : Settings F) : Db → Db → Type 0 where
  asked :
      (id session_id question : String) (now : ℕ) {db : Db}
      → Write count settings db (persist_user count settings id session_id question now db).1
  answered :
      (id session_id : String) (response : AnswerResponse) (now : ℕ) {db : Db}
      → Write count settings db (persist_assistant count settings id session_id response now db)
  summarized :
      (session_id summary upto_id : String) {db : Db}
      → Write count settings db (apply_summary count settings session_id summary upto_id db)
  archived : (session_id : String) {db : Db} → Write count settings db (archive session_id db)

module _ {F : Type 0} (count : String → ℕ) (settings : Settings F) where
  -- A question, an answer, a summary and an archiving each keep every session's total_tokens the sum
  -- of the tokens of its messages, whichever session they are for.
  pub Write-TotalsMatch : {a b : Db} → TotalsMatch a → Write count settings a b → TotalsMatch b
  unfolding persist_user persist_assistant apply_summary archive
  Write-TotalsMatch h (asked id session_id question now {db}) =
      added-TotalsMatch (persist_user count settings id session_id question now db).0 _
        (λ s. with_title-total _ (add_tokens (count question) now s))
        (λ s. with_title-id _ (add_tokens (count question) now s)) db.messages db.sessions h
  Write-TotalsMatch h (answered id session_id response now {db}) =
      added-TotalsMatch
        (record {
          id = id;
          session_id = session_id;
          role = Role.assistant;
          content = response.answer;
          token_count = count response.answer;
          created_at = now;
          refused = response.refused;
        })
        (add_tokens (count response.answer) now) (λ s. refl) (λ s. refl) db.messages db.sessions h
  Write-TotalsMatch h (summarized session_id summary upto_id {db}) =
      kept-TotalsMatch session_id _ (λ s. refl) (λ s. refl) db.messages db.sessions h
  Write-TotalsMatch h (archived session_id {db}) =
      kept-TotalsMatch session_id (λ s. record s { is_archived = true }) (λ s. refl) (λ s. refl)
        db.messages db.sessions h
