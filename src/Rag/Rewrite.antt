-- ===== src/Rag/Rewrite.antt =====
-- backend/app/rag/rewrite.py and `RewriteResult.fanout_queries` of core/contracts.py: the coercion of
-- the model's reply, the fan-out over its queries and the outer retrieval seam. The call of the model
-- is a parameter: its reply as parsed JSON, or the exception that it ends in.
pub mod Context
pub mod Fanout
use production_rag_system.Prelude.{
  ℕ, String, Bool, true, false, List, [], ◌∷◌, Option, none, some, take, contains, str_eq, Floats,
  if◌then◌else◌,
}
use production_rag_system.Prelude.Text.{strip, is_empty}
use production_rag_system.Core.Result.{Result, ok, err, Exc}
use production_rag_system.Core.Contracts.{RetrievedChunk, RewriteResult, Language, en, ur_mix}
use production_rag_system.Core.Settings.{Settings}
use production_rag_system.Rag.State.{Services, RagState, Seam, pure, lift, ◌>>=◌}
use production_rag_system.Rag.Fusion.{rrf_merge}
use production_rag_system.Rag.Rerank.{rerank_or_cut}
use production_rag_system.Rag.Retriever as Retriever
use production_rag_system.Rag.Retriever.{gather_candidate_pool}

-- A field of the reply: a string, or some other JSON value.
pub data Json : Type 0 where
  str : String → Json
  other : Json

-- The three fields that are read; `variants` is a list, or no list.
pub record Reply : Type 0 where
  pub normalized : Option Json
  pub variants : Option (List Json)
  pub language : Option Json

-- `isinstance(v, str) and v.strip()`
abbrev pub stripped : Json → Option String
stripped other = none
stripped (str v) = let w = strip v in if is_empty w then none else some w

abbrev pub kept_variants : List Json → List String
kept_variants [] = []
kept_variants (v ∷ vs) = elim (stripped v) [
  | none ↦ kept_variants vs
  | some w ↦ w ∷ kept_variants vs
]

abbrev pub language_of : Option Json → Option Language
language_of none = none
language_of (some other) = none
language_of (some (str l)) =
    if str_eq l "en" then some en else if str_eq l "ur-mix" then some ur_mix else none

-- The stripped text of the reply, or the raw query's.
abbrev pub normalized_of : Option Json → String → String
normalized_of none raw_query = strip raw_query
normalized_of (some v) raw_query = elim (stripped v) [ none ↦ strip raw_query | some w ↦ w ]

abbrev pub list_or_nil : Option (List Json) → List Json
list_or_nil none = []
list_or_nil (some vs) = vs

unfoldable pub coerce : Reply → String → ℕ → RewriteResult
unfolding strip
coerce reply raw_query num_variants = record {
  normalized = normalized_of reply.normalized raw_query;
  variants = take num_variants (kept_variants (list_or_nil reply.variants));
  language = language_of reply.language;
  failed = false;
}

-- Any failure falls back to the raw query.
unfoldable pub rewrite_query : Result Exc Reply → String → ℕ → RewriteResult
unfolding coerce
rewrite_query (ok reply) query num_variants = coerce reply query num_variants
rewrite_query (err e) query num_variants = record {
  normalized = query;
  variants = [];
  language = none;
  failed = true;
}

-- `rr if rr is not None else await rewrite_query(…)`
abbrev pub known_or_rewritten : Option RewriteResult → RewriteResult → RewriteResult
known_or_rewritten none r = r
known_or_rewritten (some r) _ = r

-- The loop of `fanout_queries`: `seen` holds what `out` holds.
unfoldable pub fanout : List String → List String → List String
unfolding strip
fanout seen [] = []
fanout seen (q ∷ qs) =
    let q' = strip q in
    let rest = fanout seen qs in
    let more = q' ∷ fanout (q' ∷ seen) qs in
    if is_empty q' then rest else if contains seen q' then rest else more

unfoldable pub fanout_queries : RewriteResult → List String
unfolding fanout
fanout_queries rr = fanout [] (rr.normalized ∷ rr.variants)

module _ {F : Type 0} ⦃fl : Floats F⦄ {V : Type 0} (services : Services F V)
    (settings : Settings F) where
  -- `asyncio.gather` runs each query as a task over a copy of the context: what a task writes to a
  -- context variable is lost, what it writes to a module global stays.
  abbrev pub keep_globals : RagState F → RagState F → RagState F
  keep_globals before after = record before { bm25_cache = after.bm25_cache }

  -- One task. The vector belongs to the normalized query alone.
  unfoldable pub gather_one :
      ℕ → RewriteResult → ℕ → Option String → Option V → String → Seam F (List (RetrievedChunk F))
  unfolding gather_candidate_pool
  gather_one attempt rr k namespace query_vec q s =
      let vec = if str_eq q rr.normalized then query_vec else none in
      let (pool, s') = gather_candidate_pool services settings attempt q k namespace vec s in
      (pool, keep_globals s s')

  unfoldable pub gather_pools :
      ℕ
      → RewriteResult
      → ℕ
      → Option String
      → Option V
      → List String
      → Seam F (List (List (RetrievedChunk F)))
  unfolding gather_one
  gather_pools attempt rr k namespace query_vec [] = pure []
  gather_pools attempt rr k namespace query_vec (q ∷ qs) = do
    pool ← gather_one attempt rr k namespace query_vec q
    pools ← gather_pools attempt rr k namespace query_vec qs
    pure (pool ∷ pools)

  unfoldable pub multi_query_retrieve :
      ℕ → RewriteResult → ℕ → Option String → Option V → Seam F (List (RetrievedChunk F))
  unfolding gather_pools fanout_queries rrf_merge rerank_or_cut
  multi_query_retrieve attempt rr k namespace query_vec = do
    pools ← gather_pools attempt rr k namespace query_vec (fanout_queries rr)
    merged ← lift (rrf_merge pools settings)
    rerank_or_cut services settings rr.normalized k merged

  -- `rr` is the result that the caller has already, if it has one; `reply` is what the model would
  -- say otherwise.
  unfoldable pub retrieve :
      ℕ
      → Result Exc Reply
      → String
      → ℕ
      → Option String
      → Option RewriteResult
      → Option V
      → Seam F (List (RetrievedChunk F))
  unfolding multi_query_retrieve rewrite_query Retriever.retrieve
  retrieve attempt reply query k namespace rr query_vec s =
      if settings.enable_query_rewrite
      then (let rr' =
            known_or_rewritten rr (rewrite_query reply query settings.rewrite_num_variants) in
          multi_query_retrieve attempt rr' k namespace query_vec
            (record s { rewrite_result = some rr' }))
      else Retriever.retrieve services settings attempt query k namespace query_vec
          (record s { rewrite_result = none })

-- Reads the result and resets it.
unfoldable pub last_rewrite : {F : Type 0} → Seam F (Option RewriteResult)
last_rewrite s = (ok s.rewrite_result, record s { rewrite_result = none })
