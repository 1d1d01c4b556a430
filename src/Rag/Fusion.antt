-- ===== src/Rag/Fusion.antt =====
-- `rrf_fuse` of backend/app/rag/hybrid.py and `rrf_merge` of backend/app/rag/rewrite.py: Reciprocal
-- Rank Fusion over dictionaries in insertion order.
pub mod Scores
pub mod Sparse
pub mod Fused
pub mod Merged
pub mod Union
use production_rag_system.Prelude.{
  ℕ, zero, suc, ◌+◌, String, Bool, List, [], ◌∷◌, Option, none, some, Dict, take, lookup, insert,
  values, Floats, fle, fzero, fadd, fratio, sort_desc, map,
}
use production_rag_system.Core.Result.{Result, ok, err, Exc, key_error}
use production_rag_system.Core.Contracts.{RetrievedChunk}
use production_rag_system.Core.Settings.{Settings}

-- One hit of the sparse half: `(chunk_id, sparse_score, rank)`.
pub record SparseHit (F : Type 0) : Type 0 where
  pub cid : String
  pub score : F
  pub rank : ℕ

-- The two dictionaries that the fusion fills: the chunks and their scores.
pub record Pools (F : Type 0) : Type 0 where
  pub chunks : Dict (RetrievedChunk F)
  pub scores : Dict F

module _ {F : Type 0} ⦃fl : Floats F⦄ where
  abbrev pub empty_pools : Pools F
  empty_pools = record { chunks = []; scores = [] }

  -- `o or 0.0`
  abbrev pub or_zero : Option F → F
  or_zero none = fzero
  or_zero (some s) = s

  -- `score[cid] = score.get(cid, 0.0) + 1.0 / (rrf_k + rank)`
  unfoldable pub bump_score : ℕ → String → ℕ → Dict F → Dict F
  bump_score k cid rank scores =
      insert cid (fadd (or_zero (lookup cid scores)) (fratio 1 (k + rank))) scores

  -- The loop over the dense list, `rank` counting from 1: a later chunk of the same id replaces the
  -- earlier one and keeps its place.
  unfoldable pub fuse_dense : ℕ → ℕ → List (RetrievedChunk F) → Pools F → Pools F
  unfolding bump_score
  fuse_dense k rank [] p = p
  fuse_dense k rank (c ∷ rest) p = fuse_dense k (rank + 1) rest (record {
    chunks = insert c.chunk_id c p.chunks;
    scores = bump_score k c.chunk_id rank p.scores;
  })

  -- One turn of the loop over the sparse list. A hit that is in neither half's chunks is skipped.
  unfoldable pub fuse_hit : ℕ → Dict (RetrievedChunk F) → SparseHit F → Pools F → Pools F
  unfolding bump_score
  fuse_hit k sparse_chunks h p = elim (lookup h.cid p.chunks) [
    | some c ↦ record {
      chunks = insert h.cid (record c { sparse_score = some h.score }) p.chunks;
      scores = bump_score k h.cid h.rank p.scores;
    }
    | none ↦ elim (lookup h.cid sparse_chunks) [
      | some c ↦ record {
        chunks = insert h.cid (record c { sparse_score = some h.score }) p.chunks;
        scores = bump_score k h.cid h.rank p.scores;
      }
      | none ↦ p
    ]
  ]

  unfoldable pub fuse_sparse : ℕ → Dict (RetrievedChunk F) → List (SparseHit F) → Pools F → Pools F
  unfolding fuse_hit
  fuse_sparse k sparse_chunks [] p = p
  fuse_sparse k sparse_chunks (h ∷ rest) p =
      fuse_sparse k sparse_chunks rest (fuse_hit k sparse_chunks h p)

  -- `for cid, chunk in fused.items(): chunk.fused_score = fused_score[cid]`
  unfoldable pub stamp_scores :
      Dict (RetrievedChunk F) → Dict F → Result Exc (List (RetrievedChunk F))
  stamp_scores [] scores = ok []
  stamp_scores ((cid, c) ∷ rest) scores = elim (lookup cid scores) [
    | none ↦ err (key_error cid)
    | some s ↦ elim (stamp_scores rest scores) [
      | ok cs ↦ ok ((record c { fused_score = some s }) ∷ cs)
      | err e ↦ err e
    ]
  ]

  abbrev pub le_fused : RetrievedChunk F → RetrievedChunk F → Bool
  le_fused a b = fle (or_zero a.fused_score) (or_zero b.fused_score)

  abbrev pub fuse_pools :
      ℕ → List (RetrievedChunk F) → List (SparseHit F) → Dict (RetrievedChunk F) → Pools F
  fuse_pools k dense sparse sparse_chunks =
      fuse_sparse k sparse_chunks sparse (fuse_dense k 1 dense empty_pools)

  unfoldable pub rrf_fuse :
      List (RetrievedChunk F)
      → List (SparseHit F)
      → Dict (RetrievedChunk F)
      → Settings F
      → Result Exc (List (RetrievedChunk F))
  unfolding fuse_dense fuse_sparse stamp_scores sort_desc
  rrf_fuse dense sparse sparse_chunks settings =
      let p = fuse_pools settings.hybrid_rrf_k dense sparse sparse_chunks in
      elim (stamp_scores p.chunks p.scores) [
        | ok fused ↦ ok (take settings.hybrid_fused_top_k (sort_desc le_fused fused))
        | err e ↦ err e
      ]

  -- The inner loop of `rrf_merge`: the first chunk of an id is kept.
  unfoldable pub merge_pool : ℕ → ℕ → List (RetrievedChunk F) → Pools F → Pools F
  unfolding bump_score
  merge_pool k rank [] p = p
  merge_pool k rank (c ∷ rest) p = merge_pool k (rank + 1) rest (record {
    chunks = elim (lookup c.chunk_id p.chunks) [
      | none ↦ insert c.chunk_id c p.chunks
      | some _ ↦ p.chunks
    ];
    scores = bump_score k c.chunk_id rank p.scores;
  })

  unfoldable pub merge_pools : ℕ → List (List (RetrievedChunk F)) → Pools F → Pools F
  unfolding merge_pool
  merge_pools k [] p = p
  merge_pools k (pool ∷ pools) p = merge_pools k pools (merge_pool k 1 pool p)

  -- `key=lambda c: score[c.chunk_id]`
  unfoldable pub keyed_scores :
      List (RetrievedChunk F) → Dict F → Result Exc (List (RetrievedChunk F × F))
  keyed_scores [] scores = ok []
  keyed_scores (c ∷ rest) scores = elim (lookup c.chunk_id scores) [
    | none ↦ err (key_error c.chunk_id)
    | some s ↦ elim (keyed_scores rest scores) [ ok cs ↦ ok ((c, s) ∷ cs) | err e ↦ err e ]
  ]

  unfoldable pub rrf_merge :
      List (List (RetrievedChunk F)) → Settings F → Result Exc (List (RetrievedChunk F))
  unfolding merge_pools keyed_scores sort_desc
  rrf_merge pools settings =
      let p = merge_pools settings.rewrite_rrf_k pools empty_pools in
      elim (keyed_scores (values p.chunks) p.scores) [
        | ok keyed ↦ ok (
            take settings.rewrite_merged_top_k
              (map (λ e. e.0) (sort_desc (λ a b. fle a.1 b.1) keyed)))
        | err e ↦ err e
      ]
