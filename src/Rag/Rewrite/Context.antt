-- ===== src/Rag/Rewrite/Context.antt =====
-- What the fan-out leaves of the context variable `hybrid._DEGRADED`.
use production_rag_system.Prelude.{
  ℕ, String, ◌≡◌, refl, ap, Bool, true, List, [], ◌∷◌, Option, some, arith, Floats,
}
use production_rag_system.Core.Result.{Result, ok, Exc}
use production_rag_system.Core.Contracts.{RetrievedChunk, RewriteResult}
use production_rag_system.Core.Settings.{Settings}
use production_rag_system.Rag.State.{
  Services, RagState, pure, lift, Preserves, Preserves-bind, ◌>>=◌,
}
use production_rag_system.Rag.Fusion.{rrf_merge}
use production_rag_system.Rag.Rerank.{rerank_chunks, rerank_or_cut}
use production_rag_system.Rag.Hybrid.{was_degraded}
use production_rag_system.Rag.Rewrite.{
  Reply, gather_one, gather_pools, multi_query_retrieve, retrieve, fanout_queries,
  known_or_rewritten, rewrite_query,
}

module _ {F : Type 0} ⦃fl : Floats F⦄ {V : Type 0} (services : Services F V)
    (settings : Settings F) where
  abbrev pub flag : RagState F → Bool
  flag s = s.degraded

  rerank_chunks-flag :
      (query : String) (pool : List (RetrievedChunk F))
      → Preserves flag (rerank_chunks services settings query pool)
  unfolding rerank_chunks
  rerank_chunks-flag query [] s = refl
  rerank_chunks-flag query (c ∷ pool) s = ground arith

  rerank_or_cut-flag :
      (query : String) (k : ℕ) (pool : List (RetrievedChunk F))
      → Preserves flag (rerank_or_cut services settings query k pool)
  unfolding rerank_or_cut
  rerank_or_cut-flag query k pool s = ground (arith, rerank_chunks-flag query pool s)

  gather_one-flag :
      (attempt : ℕ) (rr : RewriteResult) (k : ℕ) (namespace : Option String) (query_vec : Option V)
      (q : String)
      → Preserves flag (gather_one services settings attempt rr k namespace query_vec q)
  unfolding gather_one
  gather_one-flag attempt rr k namespace query_vec q s = refl

  module _ (attempt : ℕ) (rr : RewriteResult) (k : ℕ) (namespace : Option String)
      (query_vec : Option V) where
    gather_pools-flag :
        (qs : List String)
        → Preserves flag (gather_pools services settings attempt rr k namespace query_vec qs)
    unfolding gather_pools
    gather_pools-flag [] = λ s. refl
    gather_pools-flag (q ∷ qs) =
        Preserves-bind flag (gather_one services settings attempt rr k namespace query_vec q)
          (λ pool. do
            pools ← gather_pools services settings attempt rr k namespace query_vec qs
            pure (pool ∷ pools))
          (gather_one-flag attempt rr k namespace query_vec q)
          (λ pool.
            Preserves-bind flag (gather_pools services settings attempt rr k namespace query_vec qs)
              (λ pools. pure (pool ∷ pools)) (gather_pools-flag qs) (λ pools s. refl))

    multi_query_retrieve-flag :
        Preserves flag (multi_query_retrieve services settings attempt rr k namespace query_vec)
    unfolding multi_query_retrieve
    multi_query_retrieve-flag =
        Preserves-bind flag
          (gather_pools services settings attempt rr k namespace query_vec (fanout_queries rr))
          (λ pools. do
            merged ← lift (rrf_merge pools settings)
            rerank_or_cut services settings rr.normalized k merged)
          (gather_pools-flag (fanout_queries rr))
          (λ pools.
            Preserves-bind flag (lift (rrf_merge pools settings))
              (rerank_or_cut services settings rr.normalized k) (λ s. refl)
              (rerank_or_cut-flag rr.normalized k))

  pub retrieve-flag :
      (attempt : ℕ) (reply : Result Exc Reply) (query : String) (k : ℕ) (namespace : Option String)
      (rr : Option RewriteResult) (query_vec : Option V)
      → settings.enable_query_rewrite ≡ true
      → Preserves flag (retrieve services settings attempt reply query k namespace rr query_vec)
  unfolding retrieve
  retrieve-flag attempt reply query k namespace rr query_vec on s = ground (
    arith,
    multi_query_retrieve-flag attempt
        (known_or_rewritten rr (rewrite_query reply query settings.rewrite_num_variants)) k
        namespace query_vec
        (record s {
          rewrite_result =
              some
                (known_or_rewritten rr (rewrite_query reply query settings.rewrite_num_variants));
        }),
  )

  -- With the rewrite on, `was_degraded` after the seam answers what it would have answered before,
  -- whichever half of the retrieval failed.
  pub degraded-lost :
      (attempt : ℕ) (reply : Result Exc Reply) (query : String) (k : ℕ) (namespace : Option String)
      (rr : Option RewriteResult) (query_vec : Option V) (s : RagState F)
      → settings.enable_query_rewrite ≡ true
      → (was_degraded
          (retrieve services settings attempt reply query k namespace rr query_vec s).1).0
        ≡ ok s.degraded
  unfolding was_degraded
  degraded-lost attempt reply query k namespace rr query_vec s on =
      ap ok (retrieve-flag attempt reply query k namespace rr query_vec on s)
