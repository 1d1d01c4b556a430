-- ===== src/Memory/Overtaken.antt =====
-- The write-behind of an answer that the next question overtakes: `ask` releases the session's lock
-- when the frames end, and the assistant's message is written by a task of its own.
use production_rag_system.Prelude.{
  ℕ, ◌+◌, ◌-◌, ◌*◌, ◌≤◌, sym, subst, length, length-append, last_n, drop, String, ◌≡◌, refl, ap,
  ◌∙◌, false, List, [], ◌∷◌, ◌++◌, arith, All, str_eq, eq_iff, filterb-append,
}
use production_rag_system.Core.Contracts.{Role, AnswerResponse}
use production_rag_system.Core.Settings.{Settings}
use production_rag_system.Memory.Window.{Message, pairs, flatten}
use production_rag_system.Memory.Service.{
  Db, of_session, load_window, persist_user, persist_assistant,
}
use production_rag_system.Memory.Pairs.{
  IsPair, IsChronological, pairs_from-flatten, length-flatten, load_window-last,
}

-- A question or an answer with the id and the time of its message.
pub record Written (A : Type 0) : Type 0 where
  pub id : String
  pub content : A
  pub at : ℕ

four :
    (ms : List Message) (a b c d : Message)
    → (((ms ++ a ∷ []) ++ b ∷ []) ++ c ∷ []) ++ d ∷ [] ≡ ms ++ a ∷ b ∷ c ∷ d ∷ []
four [] a b c d = refl
four (m ∷ ms) a b c d = ap (◌∷◌ m) (four ms a b c d)

module _ {F : Type 0} (count : String → ℕ) (settings : Settings F) (session_id : String) where
  -- Two questions, and then the answers to them.
  abbrev pub overtaken :
      Written String → Written String → Written AnswerResponse → Written AnswerResponse → Db → Db
  unfolding persist_user persist_assistant
  overtaken q1 q2 a1 a2 db =
      let db1 = (persist_user count settings q1.id session_id q1.content q1.at db).1 in
      let db2 = (persist_user count settings q2.id session_id q2.content q2.at db1).1 in
      let db3 = persist_assistant count settings a1.id session_id a1.content a1.at db2 in
      persist_assistant count settings a2.id session_id a2.content a2.at db3

  abbrev pub question_of : Written String → Message
  question_of q = record {
    id = q.id;
    session_id = session_id;
    role = Role.user;
    content = q.content;
    token_count = count q.content;
    created_at = q.at;
    refused = false;
  }

  abbrev pub answer_of : Written AnswerResponse → Message
  answer_of a = record {
    id = a.id;
    session_id = session_id;
    role = Role.assistant;
    content = a.content.answer;
    token_count = count a.content.answer;
    created_at = a.at;
    refused = a.content.refused;
  }

  own-kept :
      (m : Message) (ms : List Message)
      → m.session_id ≡ session_id
      → of_session session_id (ms ++ m ∷ []) ≡ of_session session_id ms ++ m ∷ []
  own-kept m ms h =
      filterb-append (λ n. str_eq n.session_id session_id) ms (m ∷ [])
      ∙ ap (λ l. of_session session_id ms ++ l) (ground (arith, h, eq_iff m.session_id session_id))

  -- The four messages come after those that were there.
  overtaken-appended :
      (q1 q2 : Written String) (a1 a2 : Written AnswerResponse) (db : Db)
      → of_session session_id (overtaken q1 q2 a1 a2 db).messages
        ≡ of_session session_id db.messages
          ++ question_of q1 ∷ question_of q2 ∷ answer_of a1 ∷ answer_of a2 ∷ []
  unfolding persist_user persist_assistant
  overtaken-appended q1 q2 a1 a2 db =
      let m0 = db.messages in
      let m1 = m0 ++ question_of q1 ∷ [] in
      let m2 = m1 ++ question_of q2 ∷ [] in
      let m3 = m2 ++ answer_of a1 ∷ [] in
      let own = of_session session_id in
      own-kept (answer_of a2) m3 refl
      ∙ ap (λ l. l ++ answer_of a2 ∷ []) (own-kept (answer_of a1) m2 refl)
      ∙ ap (λ l. (l ++ answer_of a1 ∷ []) ++ answer_of a2 ∷ []) (own-kept (question_of q2) m1 refl)
      ∙ ap (λ l. ((l ++ question_of q2 ∷ []) ++ answer_of a1 ∷ []) ++ answer_of a2 ∷ [])
          (own-kept (question_of q1) m0 refl)
      ∙ four (own m0) (question_of q1) (question_of q2) (answer_of a1) (answer_of a2)

  last_n-all : (k : ℕ) (ms : List Message) → length ms ≤ k → last_n k ms ≡ ms
  last_n-all k ms h =
      let nothing : length ms - k ≡ 0 = omega (arith, h) in ap (λ n. drop n ms) nothing

  -- In a session of whole pairs, where a second question is written before the answer to the first,
  -- each message at a later time than the one before it, and where all of them fit into the window:
  -- the history that is loaded for the next prompt pairs the second question with the first answer,
  -- and the first question and the second answer are in no pair.
  pub overtaken-mispaired :
      (q1 q2 : Written String) (a1 a2 : Written AnswerResponse) (db : Db)
      (ps : List (Message × Message))
      → All IsPair ps
      → of_session session_id db.messages ≡ flatten ps
      → IsChronological
          (flatten ps ++ question_of q1 ∷ question_of q2 ∷ answer_of a1 ∷ answer_of a2 ∷ [])
      → length ps + 2 ≤ settings.memory_window_pairs
      → pairs (load_window settings session_id (overtaken q1 q2 a1 a2 db))
        ≡ ps ++ (question_of q2, answer_of a1) ∷ []
  unfolding pairs persist_user persist_assistant
  overtaken-mispaired q1 q2 a1 a2 db ps each h times fits =
      let tail = question_of q1 ∷ question_of q2 ∷ answer_of a1 ∷ answer_of a2 ∷ [] in
      let k = settings.memory_window_pairs * 2 + 1 in
      let written : of_session session_id (overtaken q1 q2 a1 a2 db).messages ≡ flatten ps ++ tail =
        overtaken-appended q1 q2 a1 a2 db ∙ ap (λ l. l ++ tail) h in
      let loaded : load_window settings session_id (overtaken q1 q2 a1 a2 db) ≡ flatten ps ++ tail =
        load_window-last settings session_id (overtaken q1 q2 a1 a2 db)
          (subst IsChronological (sym written) times)
        ∙ (ap (last_n k) written
            ∙ last_n-all k (flatten ps ++ tail)
                (omega (arith, length-append (flatten ps) tail, length-flatten ps, fits))) in
      ap pairs loaded ∙ pairs_from-flatten ps tail each
