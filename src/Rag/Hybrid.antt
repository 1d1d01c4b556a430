-- ===== src/Rag/Hybrid.antt =====
-- backend/app/rag/hybrid.py: sparse scoring, hydration of sparse hits from the vectors' metadata,
-- and the orchestration with its fall-back to sparse results alone. The fusion itself is in
-- Rag/Fusion. Logging and the trace are left out.
pub mod Degraded
use Prim.Native.Char.{code}
use production_rag_system.Prelude.{
  ℕ, ◌+◌, String, Bool, true, false, not, ◌&&◌, ◌||◌, leb, List, [], ◌∷◌, map, Option, none, some,
  Dict, take, filterb, contains, lookup, insert, keys, Floats, fle, flt, fzero, sort_desc,
  if◌then◌else◌,
}
use production_rag_system.Prelude.Text.{Unicode, runs}
use production_rag_system.Core.Result.{Result, ok, err, Exc, hybrid_index_error}
use production_rag_system.Core.Contracts.{RetrievedChunk}
use production_rag_system.Core.Settings.{Settings}
use production_rag_system.Rag.State.{
  Bm25Index, Metadata, Services, Seam, pure, lift, ◌>>=◌, zip_strict,
}
use production_rag_system.Rag.Errors.{call_with_retry}
use production_rag_system.Rag.Dense.{dense_retrieve, or_none, none_if_sentinel}
use production_rag_system.Rag.Fusion.{SparseHit, rrf_fuse}

-- `indexing/bm25.py`: runs of word characters and of the Arabic block, lower-cased.
unfoldable pub urdu_safe_tokenize : Unicode → String → List String
urdu_safe_tokenize u text =
    map u.lower (runs (λ c. u.is_word c || (leb 1536 (code c) && leb (code c) 1791)) text)

abbrev pub or_blank : Option String → String
or_blank none = ""
or_blank (some t) = t

module _ {F : Type 0} where
  abbrev pub chunk_from_metadata : String → Metadata → RetrievedChunk F
  chunk_from_metadata chunk_id md = record {
    chunk_id = chunk_id;
    doc_id = md.doc_id;
    title = md.title;
    text = or_blank md.text;
    section_heading = or_none md.section_heading;
    page_start = none_if_sentinel md.page_start;
    page_end = none_if_sentinel md.page_end;
    anchor = or_none md.anchor;
    dense_score = none;
    sparse_score = none;
    fused_score = none;
    rerank_score = none;
  }

  -- `for cid, vector in resp.vectors.items(): if cid in hydrated: continue; hydrated[cid] = …`
  unfoldable pub merge_response : Dict Metadata → Dict (RetrievedChunk F) → Dict (RetrievedChunk F)
  merge_response [] hydrated = hydrated
  merge_response ((cid, md) ∷ rest) hydrated = merge_response rest (
      if contains (keys hydrated) cid
      then hydrated
      else insert cid (chunk_from_metadata cid md) hydrated)

  -- A namespace whose `fetch` failed is passed over.
  unfoldable pub hydrate_from :
      (String → Result Exc (Dict Metadata))
      → List String
      → Dict (RetrievedChunk F)
      → Dict (RetrievedChunk F)
  unfolding merge_response
  hydrate_from fetch [] hydrated = hydrated
  hydrate_from fetch (ns ∷ rest) hydrated =
      hydrate_from fetch rest
        (elim (fetch ns) [ ok resp ↦ merge_response resp hydrated | err e ↦ hydrated ])

module _ {F V : Type 0} (services : Services F V) (settings : Settings F) where
  abbrev pub namespaces_of : Option String → List String
  namespaces_of none = settings.retrieval_namespaces
  namespaces_of (some ns) = ns ∷ []

  unfoldable pub hydrate_sparse_only :
      List String → Option String → Result Exc (Dict (RetrievedChunk F))
  unfolding hydrate_from
  hydrate_sparse_only [] namespace = ok []
  hydrate_sparse_only (i ∷ ids) namespace = elim services.index_error [
    | some e ↦ err e
    | none ↦ ok (hydrate_from (services.fetch (i ∷ ids)) (namespaces_of namespace) [])
  ]

  -- Loaded once; a missing or unreadable file is a `HybridIndexError`.
  unfoldable pub load_bm25 : Seam F (Bm25Index F)
  load_bm25 s = elim s.bm25_cache [
    | some cache ↦ (ok cache, s)
    | none ↦ elim services.load_pickle [
      | ok cache ↦ (ok cache, record s { bm25_cache = some cache })
      | err e ↦ (err (hybrid_index_error (services.message e)), s)
    ]
  ]

module _ {F : Type 0} ⦃fl : Floats F⦄ where
  unfoldable pub enumerate_hits : ℕ → List (String × F) → List (SparseHit F)
  enumerate_hits rank [] = []
  enumerate_hits rank ((cid, s) ∷ rest) =
      (record { cid = cid; score = s; rank = rank }) ∷ enumerate_hits (rank + 1) rest

  -- Positive scores, best first, at most `top_k`, ranked from 1.
  unfoldable pub rank_hits : ℕ → List (String × F) → List (SparseHit F)
  unfolding enumerate_hits sort_desc
  rank_hits top_k pairs =
      enumerate_hits 1
        (take top_k (sort_desc (λ p q. fle p.1 q.1) (filterb (λ p. flt fzero p.1) pairs)))

  unfoldable pub sparse_scores :
      Unicode → String → Bm25Index F → ℕ → Result Exc (List (SparseHit F))
  unfolding rank_hits urdu_safe_tokenize
  sparse_scores u query cache top_k = elim cache.bm25 [
    | none ↦ ok []
    | some get_scores ↦ elim cache.chunk_ids [
      | [] ↦ ok []
      | c ∷ cs ↦ elim (zip_strict (c ∷ cs) (get_scores (urdu_safe_tokenize u query))) [
        | ok pairs ↦ ok (rank_hits top_k pairs)
        | err e ↦ err e
      ]
    ]
  ]

  abbrev pub chunk_ids : List (RetrievedChunk F) → List String
  chunk_ids = map (λ c. c.chunk_id)

  abbrev pub hit_ids : List (SparseHit F) → List String
  hit_ids = map (λ h. h.cid)

  module _ {V : Type 0} (services : Services F V) (settings : Settings F) where
    -- The fusion needs the hydrated hits.
    abbrev pub fuse_hydrated :
        List (RetrievedChunk F)
        → List (SparseHit F)
        → Result Exc (Dict (RetrievedChunk F))
        → Result Exc (List (RetrievedChunk F))
    fuse_hydrated dense sparse (ok hydrated) = rrf_fuse dense sparse hydrated settings
    fuse_hydrated dense sparse (err e) = err e

    -- Fusion of what the two halves found; `dense` is an error once the retries are used up.
    unfoldable pub fuse_halves :
        List (SparseHit F)
        → Option String
        → Result Exc (List (RetrievedChunk F))
        → Seam F (List (RetrievedChunk F))
    unfolding hydrate_sparse_only rrf_fuse
    fuse_halves sparse namespace (ok dense) s =
        let ids = filterb (λ cid. not (contains (chunk_ids dense) cid)) (hit_ids sparse) in
        (fuse_hydrated dense sparse (hydrate_sparse_only services settings ids namespace), s)
    fuse_halves sparse namespace (err e) s = (
      fuse_hydrated [] sparse (hydrate_sparse_only services settings (hit_ids sparse) namespace),
      record s { degraded = true },
    )

    unfoldable pub hybrid_retrieve :
        String → Option String → Option V → Seam F (List (RetrievedChunk F))
    unfolding load_bm25 sparse_scores fuse_halves call_with_retry dense_retrieve
    hybrid_retrieve query namespace query_vec s =
        (do
          cache ← load_bm25 services settings
          sparse ← lift (sparse_scores services.unicode query cache settings.hybrid_sparse_top_k)
          fuse_halves sparse namespace (
              call_with_retry services.is_retryable services.message
                (λ attempt.
                  dense_retrieve services settings attempt query settings.hybrid_dense_top_k
                    namespace query_vec)
                settings.llm_max_retries))
          (record s { degraded = false })

    -- `out`: the hydrated hits, in rank order.
    unfoldable pub show_hits :
        Dict (RetrievedChunk F) → List (SparseHit F) → List (RetrievedChunk F)
    show_hits hydrated [] = []
    show_hits hydrated (h ∷ rest) = elim (lookup h.cid hydrated) [
      | none ↦ show_hits hydrated rest
      | some c ↦ (record c { sparse_score = some h.score }) ∷ show_hits hydrated rest
    ]

    unfoldable pub sparse_only : String → ℕ → Option String → Seam F (List (RetrievedChunk F))
    unfolding load_bm25 sparse_scores show_hits hydrate_sparse_only
    sparse_only query k namespace = do
      cache ← load_bm25 services settings
      sparse ← lift (sparse_scores services.unicode query cache settings.hybrid_sparse_top_k)
      hydrated ← lift (hydrate_sparse_only services settings (hit_ids sparse) namespace)
      pure (take k (show_hits hydrated sparse))

  -- Reads the flag and resets it.
  unfoldable pub was_degraded : Seam F Bool
  was_degraded s = (ok s.degraded, record s { degraded = false })
