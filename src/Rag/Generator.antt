-- ===== src/Rag/Generator.antt =====
-- The world that a generator of frames runs in, and how its parts follow one another.
use production_rag_system.Prelude.{String, List, [], ◌++◌, Option, none, some}
use production_rag_system.Core.Result.{Result, ok, err, Exc}
use production_rag_system.Core.Contracts.{AnswerResponse}
use production_rag_system.Caching.Entries.{Store}
use production_rag_system.Rag.State.{RagState, Seam}
use production_rag_system.Rag.Events.{SseEvent}

-- The arguments of a `schedule_write`.
pub record CacheWrite (V : Type 0) : Type 0 where
  pub normalized : String
  pub vec : V
  pub response : AnswerResponse

-- `scheduled` are the write-behind tasks, in the order of their creation.
pub record World (F V : Type 0) : Type 0 where
  pub rag : RagState F
  pub store : Store V
  pub scheduled : List (CacheWrite V)

pub record Run (F V : Type 0) : Type 0 where
  pub events : List SseEvent
  pub raised : Option Exc
  pub world : World F V

abbrev pub Gen : Type 0 → Type 0 → Type 0
Gen F V = World F V → Run F V

-- An awaited call: it may raise.
abbrev pub Call : Type 0 → Type 0 → Type 0 → Type 0
Call F V A = World F V → Result Exc A × World F V

module _ {F V : Type 0} where
  -- `return`
  abbrev pub stop : Gen F V
  stop w = record { events = []; raised = none; world = w }

  abbrev pub fail : Exc → Gen F V
  fail e w = record { events = []; raised = some e; world = w }

  abbrev pub yields : List SseEvent → Run F V → Run F V
  yields es r = record { events = es ++ r.events; raised = r.raised; world = r.world }

  -- `yield`s, and what follows them.
  infixr 5 ◌>>◌
  abbrev pub ◌>>◌ : List SseEvent → Gen F V → Gen F V
  ◌>>◌ es rest w = yields es (rest w)

module _ {F V A : Type 0} where
  abbrev pub resume : Result Exc A → (A → Gen F V) → Gen F V
  resume (ok a) rest w = rest a w
  resume (err e) rest w = fail e w

  infixl 5 ◌>>=◌
  abbrev pub ◌>>=◌ : Call F V A → (A → Gen F V) → Gen F V
  ◌>>=◌ call rest w = let (r, w') = call w in resume r rest w'

  -- A call that reads and writes the context variables, or the cache.
  abbrev pub in_rag : Seam F A → Call F V A
  in_rag m w = let (r, s) = m w.rag in (r, record w { rag = s })

  abbrev pub in_store : (Store V → Result Exc A × Store V) → Call F V A
  in_store m w = let (r, s) = m w.store in (r, record w { store = s })

  -- `try`: the exception of the call goes to a branch of its own.
  abbrev pub handled : Call F V A → (Exc → Gen F V) → (A → Gen F V) → Gen F V
  handled call on_error rest w =
      let (r, w') = call w in elim r [ err e ↦ on_error e w' | ok a ↦ rest a w' ]
