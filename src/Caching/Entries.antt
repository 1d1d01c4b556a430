-- ===== src/Caching/Entries.antt =====
-- The state of backend/app/caching/store.py: the table `cache_entries`, the matrix that is loaded from
-- it, and the exact tier in Redis. The arrays that are parallel to the matrix's rows are one list of
-- rows. A payload that is dumped and validated is itself.
use production_rag_system.Prelude.{
  ℕ, ◌+◌, String, Bool, true, false, ◌&&◌, List, [], ◌∷◌, map, Option, none, some, leb, ltb, str_eq,
  if◌then◌else◌,
}
use production_rag_system.Prelude.Text.{Unicode}
use production_rag_system.Caching.RedisHot.{Hot}
use production_rag_system.Core.Contracts.{AnswerResponse}

pub record CacheEntry (V : Type 0) : Type 0 where
  pub id : String
  pub query_hash : String
  pub query_text : String
  pub embedding : V
  pub answer : AnswerResponse
  pub index_manifest_id : Option String
  pub hits : ℕ
  pub created_at : ℕ
  pub last_hit_at : Option ℕ

pub record Row (V : Type 0) : Type 0 where
  pub id : String
  pub query_text : String
  pub row_discriminators : List String
  pub manifest : Option String
  pub vector : V

pub record Store (V : Type 0) : Type 0 where
  pub matrix : Option (List (Row V))
  pub current_manifest : Option String
  pub entries : List (CacheEntry V)
  pub redis : Hot

-- NumPy's part, SHA-256 and the manifest of the index that is being served.
pub record Backend (F V : Type 0) : Type 0 where
  pub l2_normalize : V → V
  pub is_zero : V → Bool
  pub dot : V → V → F
  pub sha256 : String → String
  pub manifest_id : Option String
  pub unicode : Unicode

abbrev pub entry_ids : {V : Type 0} → List (CacheEntry V) → List String
entry_ids = map (λ e. e.id)

abbrev pub row_ids : {V : Type 0} → List (Row V) → List String
row_ids = map (λ r. r.id)

-- Never hit first, then the longest ago; the older one of two alike.
abbrev pub colder_hit : Option ℕ → Option ℕ → ℕ → ℕ → Bool
colder_hit none none a b = ltb a b
colder_hit none (some h) a b = true
colder_hit (some h) none a b = false
colder_hit (some h) (some g) a b = if ltb h g then true else (leb h g && ltb a b)

abbrev pub same_manifest : Option String → Option String → Bool
same_manifest none none = true
same_manifest (some a) (some b) = str_eq a b
same_manifest _ _ = false

module _ {V : Type 0} where
  -- `del` at the index of the id; nothing if it is not there.
  unfoldable pub drop_row : String → List (Row V) → List (Row V)
  drop_row entry_id [] = []
  drop_row entry_id (r ∷ rs) =
      let rest = drop_row entry_id rs in if str_eq r.id entry_id then rs else r ∷ rest

  -- `session.delete(row)`
  unfoldable pub delete_entry : String → List (CacheEntry V) → List (CacheEntry V)
  delete_entry entry_id [] = []
  delete_entry entry_id (e ∷ es) =
      let rest = delete_entry entry_id es in if str_eq e.id entry_id then es else e ∷ rest

  abbrev pub on_rows : (List (Row V) → List (Row V)) → Store V → Store V
  on_rows f st = elim st.matrix [ none ↦ st | some rows ↦ record st { matrix = some (f rows) } ]

  abbrev pub loaded_rows : Store V → List (Row V)
  loaded_rows st = elim st.matrix [ none ↦ [] | some rows ↦ rows ]

  abbrev pub colder : CacheEntry V → CacheEntry V → Bool
  colder e d = colder_hit e.last_hit_at d.last_hit_at e.created_at d.created_at

  unfoldable pub coldest : CacheEntry V → List (CacheEntry V) → CacheEntry V
  coldest e [] = e
  coldest e (d ∷ ds) = coldest (if colder d e then d else e) ds

  abbrev pub hit_entry : String → ℕ → CacheEntry V → CacheEntry V
  hit_entry entry_id now e =
      if str_eq e.id entry_id then record e { hits = e.hits + 1; last_hit_at = some now } else e
