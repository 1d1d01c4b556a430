-- ===== src/Tests/MemoryTests.antt =====
-- The theorems on backend/app/memory at concrete inputs.
use production_rag_system.Prelude.{
  ℕ, List, ◌++◌, leb, length, if◌then◌else◌, ◌+◌, ◌≡◌, refl, false, [], ◌∷◌, map, none, some, arith,
  last_n,
}
use production_rag_system.Core.Contracts.{Role}
use production_rag_system.Memory.Window.{
  Message, ChatSession, flatten, window_pairs, summary_tokens, sum_tokens, assemble,
}
use production_rag_system.Memory.Service.{
  Db, load_window, persist_user, load_memory, threshold, some_if_any,
}
use production_rag_system.Memory.Pairs.{assemble-load_window}
use production_rag_system.Memory.Folding.{IsFoldedUpTo, load_memory-no_gap}
use production_rag_system.Core.Settings.{Settings}
use production_rag_system.Memory.Totals.{Write, TotalsMatch, Write-TotalsMatch}
use production_rag_system.Samples.{defaults}

abbrev question : Message
question = record {
  id = "m1";
  session_id = "s1";
  role = Role.user;
  content = "When?";
  token_count = 2;
  created_at = 1;
  refused = false;
}

abbrev reply : Message
reply = record question {
  id = "m2";
  role = Role.assistant;
  content = "In May.";
  token_count = 3;
  created_at = 2;
}

abbrev follow_up : Message
follow_up = record question { id = "m3"; content = "Where?"; created_at = 3 }

abbrev session : ChatSession
session = record {
  id = "s1";
  user_id = some "u1";
  title = some "When?";
  is_archived = false;
  total_tokens = 7;
  summary = none;
  summary_token_count = none;
  summarized_upto_message_id = none;
  last_active_at = 3;
}

abbrev db : Db
db = record { sessions = session ∷ []; messages = question ∷ reply ∷ follow_up ∷ [] }

assemble-load_window_example :
    ((assemble defaults session (load_window defaults session.id db)).pairs
      ≡ map
          (λ m. record { role = m.role; content = m.content })
          (flatten (last_n (window_pairs defaults session) ((question, reply) ∷ []))))
    × ((assemble defaults session (load_window defaults session.id db)).effective_tokens
        ≡ summary_tokens defaults session
          + sum_tokens (flatten (last_n (window_pairs defaults session) ((question, reply) ∷ []))))
assemble-load_window_example =
    assemble-load_window defaults session db ((question, reply) ∷ []) follow_up (ground arith) refl
      ((ground arith, (ground arith, tt)), ((ground arith, tt), (tt, tt))) ((refl, refl), tt)

Write-TotalsMatch_example :
    TotalsMatch (persist_user (λ s. 4) defaults "m4" "s1" "How much?" 4 db).1
Write-TotalsMatch_example =
    Write-TotalsMatch (λ s. 4) defaults {a = db} (refl, tt) (Write.asked "m4" "s1" "How much?" 4)

-- A summary that ends with the first pair, a window of one pair, and two pairs since.
abbrev narrow : Settings ℕ
narrow = record defaults {
  memory_window_pairs = 1;
  memory_keep_last_pairs = 1;
  memory_summarize_every_pairs = 1;
}

abbrev summarized : ChatSession
summarized = record session { summary = some "Dates."; summarized_upto_message_id = some "m2" }

abbrev second : Message × Message
second = (record question { id = "m3"; created_at = 3 }, record reply { id = "m4"; created_at = 4 })

abbrev third : Message × Message
third = (record question { id = "m5"; created_at = 5 }, record reply { id = "m6"; created_at = 6 })

abbrev now_asked : Message
now_asked = record question { id = "m7"; created_at = 7 }

abbrev longer : Db
longer = record {
  sessions = summarized ∷ [];
  messages = question ∷ reply ∷ second.0 ∷ second.1 ∷ third.0 ∷ third.1 ∷ now_asked ∷ [];
}

longer-IsFoldedUpTo :
    IsFoldedUpTo narrow summarized longer [] (second ∷ third ∷ []) question reply now_asked "m2"
longer-IsFoldedUpTo = record {
  transcript = refl;
  chronological = ground arith;
  folded_pairs = ((refl, refl), tt);
  other_pairs = ((refl, refl), ((refl, refl), tt));
  asked = refl;
  pointer = refl;
  found = refl;
}

load_memory-no_gap_example :
    (pending : List (Message × Message)) × (pending
        ++ last_n (window_pairs narrow summarized) (second ∷ third ∷ [])
      ≡ second ∷ third ∷ [])
    × ((load_memory narrow summarized longer).1 ≡ (
        if leb (threshold narrow summarized) (length pending)
        then some_if_any (flatten pending)
        else none))
load_memory-no_gap_example =
    load_memory-no_gap narrow summarized longer [] (second ∷ third ∷ []) question reply now_asked
      "m2" longer-IsFoldedUpTo
