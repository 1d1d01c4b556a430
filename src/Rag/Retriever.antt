-- ===== src/Rag/Retriever.antt =====
-- The mode of backend/app/rag/retriever.py: which half, or both, fills the candidate pool, and the
-- seam that reranks or cuts it.
use production_rag_system.Prelude.{ℕ, String, List, Option, none, some, Floats, if◌then◌else◌}
use production_rag_system.Core.Contracts.{RetrievedChunk}
use production_rag_system.Core.Settings.{Settings, RetrievalMode, dense_only, bm25_only, hybrid}
use production_rag_system.Rag.State.{Services, Seam, lift, ◌>>=◌}
use production_rag_system.Rag.Dense.{dense_retrieve}
use production_rag_system.Rag.Hybrid.{hybrid_retrieve, sparse_only}
use production_rag_system.Rag.Rerank.{rerank_or_cut}

module _ {F : Type 0} (settings : Settings F) where
  -- `RETRIEVAL_MODE` wins over `ENABLE_HYBRID`.
  unfoldable pub resolve_mode : RetrievalMode
  resolve_mode = elim settings.retrieval_mode [
    | some mode ↦ mode
    | none ↦ if settings.enable_hybrid then hybrid else dense_only
  ]

  abbrev pub pool_k : ℕ → ℕ
  pool_k k = if settings.enable_rerank then settings.rerank_candidate_k else k

module _ {F : Type 0} ⦃fl : Floats F⦄ {V : Type 0} (services : Services F V)
    (settings : Settings F) where
  unfoldable pub pool_in :
      RetrievalMode → ℕ → String → ℕ → Option String → Option V → Seam F (List (RetrievedChunk F))
  unfolding dense_retrieve sparse_only hybrid_retrieve
  pool_in dense_only attempt query k namespace query_vec =
      lift (dense_retrieve services settings attempt query (pool_k settings k) namespace query_vec)
  pool_in bm25_only attempt query k namespace query_vec =
      sparse_only services settings query (pool_k settings k) namespace
  pool_in hybrid attempt query k namespace query_vec =
      hybrid_retrieve services settings query namespace query_vec

  unfoldable pub gather_candidate_pool :
      ℕ → String → ℕ → Option String → Option V → Seam F (List (RetrievedChunk F))
  unfolding pool_in resolve_mode
  gather_candidate_pool attempt query k namespace query_vec =
      pool_in (resolve_mode settings) attempt query k namespace query_vec

  unfoldable pub retrieve :
      ℕ → String → ℕ → Option String → Option V → Seam F (List (RetrievedChunk F))
  unfolding gather_candidate_pool rerank_or_cut
  retrieve attempt query k namespace query_vec = do
    pool ← gather_candidate_pool attempt query k namespace query_vec
    rerank_or_cut services settings query k pool
