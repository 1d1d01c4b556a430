-- ===== src/Rag/Rerank.antt =====
-- backend/app/rag/rerank.py: the cross-encoder's scores, calibrated, sort the pool. The loading of
-- the model and the LangChain adapter are left out; `services.score` is the loaded model.
pub mod Order
use production_rag_system.Prelude.{
  ℕ, String, Bool, true, false, List, [], ◌∷◌, map, Option, none, some, take, Floats, fle, fzero,
  fadd, sort_desc, if◌then◌else◌,
}
use production_rag_system.Prelude.Text.{strip, is_empty}
use production_rag_system.Core.Result.{Result, ok, err, Exc}
use production_rag_system.Core.Contracts.{RetrievedChunk}
use production_rag_system.Core.Settings.{Settings}
use production_rag_system.Rag.State.{Services, RagState, Seam, pure, zip_strict}
use production_rag_system.Rag.Fusion.{or_zero}

module _ {F : Type 0} where
  -- `chunk.section_heading or chunk.title or ""`
  abbrev heading_or_title : RetrievedChunk F → String
  heading_or_title c = elim c.section_heading [
    | none ↦ c.title
    | some h ↦ if is_empty h then c.title else h
  ]

  -- Never an empty text where the chunk has a heading or a title.
  unfoldable pub safe_text : RetrievedChunk F → String
  unfolding strip
  safe_text c =
      let text = strip c.text in if is_empty text then strip (heading_or_title c) else text

  -- `[c.rerank_score for c in chunks if c.rerank_score is not None]`
  abbrev pub rerank_scores : List (RetrievedChunk F) → List F
  rerank_scores [] = []
  rerank_scores (c ∷ cs) = elim c.rerank_score [
    | none ↦ rerank_scores cs
    | some s ↦ s ∷ rerank_scores cs
  ]

module _ {F : Type 0} ⦃fl : Floats F⦄ where
  -- Numerically stable both ways.
  unfoldable pub sigmoid : F → F
  sigmoid x =
      if fle fzero x
      then fl.div fl.one (fadd fl.one (fl.exp (fl.neg x)))
      else fl.div (fl.exp x) (fadd fl.one (fl.exp x))

  unfoldable pub calibrate : List F → Settings F → List F
  unfolding sigmoid
  calibrate logits settings = if settings.rerank_apply_sigmoid then map sigmoid logits else logits

  -- `max(scores)`: the first of the largest.
  abbrev pub max_from : F → List F → F
  max_from best [] = best
  max_from best (s ∷ rest) = max_from (if fle s best then best else s) rest

  abbrev pub max_or_zero : List F → F
  max_or_zero [] = fzero
  max_or_zero (s ∷ rest) = max_from s rest

  unfoldable pub max_rerank_score : List (RetrievedChunk F) → F
  max_rerank_score chunks = max_or_zero (rerank_scores chunks)

  abbrev pub with_score : RetrievedChunk F × F → RetrievedChunk F
  with_score (c, s) = record c { rerank_score = some s }

  abbrev pub le_rerank : RetrievedChunk F → RetrievedChunk F → Bool
  le_rerank a b = fle (or_zero a.rerank_score) (or_zero b.rerank_score)

  module _ {V : Type 0} (services : Services F V) (settings : Settings F) where
    -- The sort and the cut, on a pool with its calibrated scores.
    unfoldable pub top_reranked : List (RetrievedChunk F × F) → List (RetrievedChunk F)
    unfolding sort_desc
    top_reranked scored = take settings.rerank_top_n (sort_desc le_rerank (map with_score scored))

    unfoldable pub rerank_chunks :
        String → List (RetrievedChunk F) → Seam F (List (RetrievedChunk F))
    unfolding safe_text calibrate top_reranked
    rerank_chunks query [] s = (ok [], record s { rerank_ms = some 0 })
    rerank_chunks query (c ∷ pool) s =
        elim (services.score (map (λ d. (query, safe_text d)) (c ∷ pool))) [
          | err e ↦ (err e, s)
          | ok logits ↦ elim (zip_strict (c ∷ pool) (calibrate logits settings)) [
            | err e ↦ (err e, s)
            | ok scored ↦
                (ok (top_reranked scored), record s { rerank_ms = some services.elapsed_ms })
          ]
        ]

    -- How both retrieval seams end: `if settings.ENABLE_RERANK: … return pool[:k]`.
    unfoldable pub rerank_or_cut :
        String → ℕ → List (RetrievedChunk F) → Seam F (List (RetrievedChunk F))
    unfolding rerank_chunks
    rerank_or_cut query k pool =
        if settings.enable_rerank then rerank_chunks query pool else pure (take k pool)

  -- Reads the duration and resets it.
  unfoldable pub last_rerank_ms : Seam F (Option ℕ)
  last_rerank_ms s = (ok s.rerank_ms, record s { rerank_ms = none })
