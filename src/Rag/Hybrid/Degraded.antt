-- ===== src/Rag/Hybrid/Degraded.antt =====
-- The hybrid retrieval, whichever of its halves fails.
use production_rag_system.Prelude.{
  String, ◌≡◌, Bool, true, false, not, List, [], Option, Dict, contains, filterb, Floats,
}
use production_rag_system.Core.Result.{Result, ok, err, Exc}
use production_rag_system.Core.Contracts.{RetrievedChunk}
use production_rag_system.Core.Settings.{Settings}
use production_rag_system.Rag.State.{Services}
use production_rag_system.Rag.Errors.{call_with_retry}
use production_rag_system.Rag.Dense.{dense_retrieve}
use production_rag_system.Rag.Fusion.{SparseHit}
use production_rag_system.Rag.Fusion.Fused.{IsFused}
use production_rag_system.Rag.Hybrid.{hydrate_sparse_only, chunk_ids, hit_ids}

-- What the dense half contributes, and whether it failed.
abbrev pub or_nothing : {A : Type 0} → Result Exc (List A) → List A
or_nothing (ok dense) = dense
or_nothing (err e) = []

abbrev pub has_failed : {A : Type 0} → Result Exc A → Bool
has_failed (ok a) = false
has_failed (err e) = true

module _ {F : Type 0} ⦃fl : Floats F⦄ {V : Type 0} (services : Services F V)
    (settings : Settings F) where
  -- The hits that are fetched, those that the dense half did not find, or what `get_index` raises.
  abbrev pub fetched :
      List (SparseHit F)
      → Option String
      → List (RetrievedChunk F)
      → Result Exc (Dict (RetrievedChunk F))
  fetched sparse namespace dense =
      hydrate_sparse_only services settings
        (filterb (λ cid. not (contains (chunk_ids dense) cid)) (hit_ids sparse)) namespace

  -- The fusion with what was fetched, or the exception of the fetching.
  abbrev pub IsFusedWith :
      Result Exc (Dict (RetrievedChunk F))
      → List (RetrievedChunk F)
      → List (SparseHit F)
      → Result Exc (List (RetrievedChunk F))
      → Type 0
  IsFusedWith (ok hydrated) dense sparse r =
      (out : List (RetrievedChunk F)) × (r ≡ ok out) × IsFused dense sparse hydrated settings out
  IsFusedWith (err e) dense sparse r = r ≡ err e

  -- The dense half, with its retries.
  abbrev pub dense_half : String → Option String → Option V → Result Exc (List (RetrievedChunk F))
  dense_half query namespace query_vec =
      call_with_retry services.is_retryable services.message
        (λ attempt.
          dense_retrieve services settings attempt query settings.hybrid_dense_top_k namespace
            query_vec)
        settings.llm_max_retries
