-- ===== src/Memory/Service.antt =====
-- backend/app/memory/service.py: sessions and transcripts as two tables. The tokenizer's count is a
-- parameter; ids and times are arguments. `ORDER BY created_at` is a stable sort of the rows, which
-- stand in the order of their insertion.
use production_rag_system.Prelude.{
  ℕ, ◌+◌, ◌-◌, ◌*◌, String, Bool, true, false, ◌&&◌, not, List, [], ◌∷◌, ◌++◌, Option, none, some,
  leb, ltb, length, take, filterb, find, reverse, sort_desc, str_eq, if◌then◌else◌,
}
use production_rag_system.Prelude.Text.{take_chars}
use production_rag_system.Core.Contracts.{Role, AnswerResponse}
use production_rag_system.Core.Settings.{Settings}
use production_rag_system.Memory.Window.{
  Message, ChatSession, is_assistant, over_budget, window_pairs,
}

pub record Db : Type 0 where
  pub sessions : List ChatSession
  pub messages : List Message

abbrev pub new_session : String → Option String → ℕ → ChatSession
new_session id user_id now = record {
  id = id;
  user_id = user_id;
  title = none;
  is_archived = false;
  total_tokens = 0;
  summary = none;
  summary_token_count = none;
  summarized_upto_message_id = none;
  last_active_at = now;
}

unfoldable pub create_session : String → Option String → ℕ → Db → ChatSession × Db
create_session id user_id now db = (
  new_session id user_id now,
  record db { sessions = db.sessions ++ new_session id user_id now ∷ [] },
)

-- `Session.user_id == user_id` of a caller who is known.
abbrev pub is_owner : String → ChatSession → Bool
is_owner user_id s = elim s.user_id [ none ↦ false | some owner ↦ str_eq owner user_id ]

abbrev newer : ChatSession → ChatSession → Bool
newer a b = leb a.last_active_at b.last_active_at

unfoldable pub list_sessions : String → Db → List ChatSession
unfolding sort_desc
list_sessions user_id db =
    sort_desc newer (filterb (λ s. is_owner user_id s && not s.is_archived) db.sessions)

abbrev pub owned_by : Option String → ChatSession → Bool
owned_by (some user_id) s = is_owner user_id s
owned_by none s = elim s.user_id [ none ↦ true | some owner ↦ false ]

unfoldable pub get_owned : String → Option String → Db → Option ChatSession
get_owned session_id user_id db = elim (find (λ s. str_eq s.id session_id) db.sessions) [
  | none ↦ none
  | some s ↦ if s.is_archived then none else (if owned_by user_id s then some s else none)
]

abbrev pub of_session : String → List Message → List Message
of_session session_id = filterb (λ m. str_eq m.session_id session_id)

-- Oldest first, and newest first.
abbrev pub older : Message → Message → Bool
older a b = leb b.created_at a.created_at

abbrev pub newest : Message → Message → Bool
newest a b = leb a.created_at b.created_at

unfoldable pub get_messages : String → Db → List Message
unfolding sort_desc
get_messages session_id db = sort_desc older (of_session session_id db.messages)

abbrev pub on_session : String → (ChatSession → ChatSession) → List ChatSession → List ChatSession
on_session session_id f [] = []
on_session session_id f (s ∷ ss) =
    (if str_eq s.id session_id then f s else s) ∷ on_session session_id f ss

unfoldable pub archive : String → Db → Db
archive session_id db = record db {
  sessions = on_session session_id (λ s. record s { is_archived = true }) db.sessions;
}

unfoldable pub count_messages : String → Db → ℕ
count_messages session_id db = length (of_session session_id db.messages)

abbrev pub add_tokens : ℕ → ℕ → ChatSession → ChatSession
add_tokens tok now s = record s { total_tokens = s.total_tokens + tok; last_active_at = now }

-- `coalesce(title, …)`
abbrev pub with_title : String → ChatSession → ChatSession
with_title title s = elim s.title [ none ↦ record s { title = some title } | some t ↦ s ]

module _ {F : Type 0} (count : String → ℕ) (settings : Settings F) where
  unfoldable pub persist_user : String → String → String → ℕ → Db → Message × Db
  unfolding take_chars
  persist_user id session_id question now db =
      let msg : Message = record {
        id = id;
        session_id = session_id;
        role = Role.user;
        content = question;
        token_count = count question;
        created_at = now;
        refused = false;
      } in
      let title = take_chars settings.memory_session_title_max_chars question in
      (
        msg,
        record {
          sessions =
              on_session session_id (λ s. with_title title (add_tokens (count question) now s))
                db.sessions;
          messages = db.messages ++ msg ∷ [];
        },
      )

  unfoldable pub apply_summary : String → String → String → Db → Db
  apply_summary session_id new_summary upto_id db = record db {
    sessions =
        on_session session_id
          (λ s. record s {
            summary = some new_summary;
            summary_token_count = some (count new_summary);
            summarized_upto_message_id = some upto_id;
          })
          db.sessions;
  }

  -- The write behind the answer, where it does not fail.
  unfoldable pub persist_assistant : String → String → AnswerResponse → ℕ → Db → Db
  persist_assistant id session_id response now db = record {
    sessions = on_session session_id (add_tokens (count response.answer) now) db.sessions;
    messages =
        db.messages
        ++ record {
          id = id;
          session_id = session_id;
          role = Role.assistant;
          content = response.answer;
          token_count = count response.answer;
          created_at = now;
          refused = response.refused;
        }
          ∷ [];
  }

unfoldable pub completed_pairs : String → Db → ℕ
completed_pairs session_id db = length (filterb is_assistant (of_session session_id db.messages))

-- The time of the last message that is folded; an id that is not there compares with nothing.
abbrev pub boundary : Db → String → Option ℕ
boundary db upto_id = elim (find (λ m. str_eq m.id upto_id) db.messages) [
  | none ↦ none
  | some m ↦ some m.created_at
]

abbrev pub at_or_before : Option ℕ → Message → Bool
at_or_before none m = false
at_or_before (some t) m = leb m.created_at t

abbrev pub after : Option ℕ → Message → Bool
after none m = false
after (some t) m = ltb t m.created_at

unfoldable pub summarized_pairs : ChatSession → Db → ℕ
summarized_pairs session db = elim session.summarized_upto_message_id [
  | none ↦ 0
  | some upto_id ↦ length (
      filterb (λ m. is_assistant m && at_or_before (boundary db upto_id) m)
        (of_session session.id db.messages))
]

module _ {F : Type 0} (settings : Settings F) where
  unfoldable pub load_window : String → Db → List Message
  unfolding sort_desc
  load_window session_id db = reverse (
      take (settings.memory_window_pairs * 2 + 1)
        (sort_desc newest (of_session session_id db.messages)))

abbrev pub unsummarized : ChatSession → Db → List Message
unsummarized session db = elim session.summarized_upto_message_id [
  | none ↦ of_session session.id db.messages
  | some upto_id ↦ filterb (after (boundary db upto_id)) (of_session session.id db.messages)
]

unfoldable pub load_pending : ChatSession → ℕ → Db → List Message
unfolding sort_desc
load_pending session n_pairs db = take (n_pairs * 2) (sort_desc older (unsummarized session db))

-- `pending or None`
abbrev pub some_if_any : List Message → Option (List Message)
some_if_any [] = none
some_if_any (m ∷ ms) = some (m ∷ ms)

module _ {F : Type 0} (settings : Settings F) where
  abbrev pub pending_pairs : ChatSession → Db → ℕ
  pending_pairs session db =
      completed_pairs session.id db - window_pairs settings session - summarized_pairs session db

  abbrev pub threshold : ChatSession → ℕ
  threshold session =
      if over_budget settings session then 1 else settings.memory_summarize_every_pairs

  unfoldable pub load_memory : ChatSession → Db → List Message × Option (List Message)
  unfolding load_window completed_pairs summarized_pairs load_pending
  load_memory session db = (
    load_window settings session.id db,
    (if leb (threshold session) (pending_pairs session db)
        then some_if_any (load_pending session (pending_pairs session db) db)
        else none),
  )
