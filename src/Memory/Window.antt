-- ===== src/Memory/Window.antt =====
-- backend/app/memory/window.py with the rows of backend/app/db/models/chat.py: which messages of a
-- session stand in a prompt.
use production_rag_system.Prelude.{
  ℕ, ◌+◌, String, Bool, true, false, ◌&&◌, List, [], ◌∷◌, map, Option, none, some, leb, last_n,
  if◌then◌else◌,
}
use production_rag_system.Core.Contracts.{Role, MemoryContext}
use production_rag_system.Core.Settings.{Settings}

pub record Message : Type 0 where
  pub id : String
  pub session_id : String
  pub role : Role
  pub content : String
  pub token_count : ℕ
  pub created_at : ℕ
  pub refused : Bool

pub record ChatSession : Type 0 where
  pub id : String
  pub user_id : Option String
  pub title : Option String
  pub is_archived : Bool
  pub total_tokens : ℕ
  pub summary : Option String
  pub summary_token_count : Option ℕ
  pub summarized_upto_message_id : Option String
  pub last_active_at : ℕ

abbrev pub is_user : Message → Bool
is_user m = elim m.role [ Role.user ↦ true | _ ↦ false ]

abbrev pub is_assistant : Message → Bool
is_assistant m = elim m.role [ Role.assistant ↦ true | _ ↦ false ]

-- The walk of `_pairs`: the message at `i`, if any, waits for the one at `i + 1`.
abbrev pub pairs_from : Option Message → List Message → List (Message × Message)
pairs_from waiting [] = []
pairs_from none (m ∷ ms) = pairs_from (some m) ms
pairs_from (some a) (b ∷ ms) =
    let taken = (a, b) ∷ pairs_from none ms in
    let skipped = pairs_from (some b) ms in if is_user a && is_assistant b then taken else skipped

unfoldable pub pairs : List Message → List (Message × Message)
pairs messages = pairs_from none messages

abbrev pub flatten : List (Message × Message) → List Message
flatten [] = []
flatten ((a, b) ∷ ps) = a ∷ b ∷ flatten ps

unfoldable pub last_whole_pairs : List Message → ℕ → List Message
unfolding pairs
last_whole_pairs messages n = if leb 1 n then flatten (last_n n (pairs messages)) else []

abbrev pub sum_tokens : List Message → ℕ
sum_tokens [] = 0
sum_tokens (m ∷ ms) = m.token_count + sum_tokens ms

module _ {F : Type 0} (settings : Settings F) where
  abbrev pub over_budget : ChatSession → Bool
  over_budget session = leb settings.memory_token_budget session.total_tokens

  abbrev pub window_pairs : ChatSession → ℕ
  window_pairs session =
      if over_budget session then settings.memory_keep_last_pairs else settings.memory_window_pairs

  -- `session.summary_token_count or 0`
  abbrev pub summary_tokens : ChatSession → ℕ
  summary_tokens session = elim session.summary_token_count [ none ↦ 0 | some n ↦ n ]

  unfoldable pub assemble : ChatSession → List Message → MemoryContext
  unfolding last_whole_pairs
  assemble session recent =
      let kept = last_whole_pairs recent (window_pairs session) in
      record {
        summary = session.summary;
        pairs = map (λ m. record { role = m.role; content = m.content }) kept;
        summarized = over_budget session;
        window_pairs = window_pairs session;
        effective_tokens = summary_tokens session + sum_tokens kept;
      }
