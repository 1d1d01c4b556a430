-- ===== src/Rag/Compression/Stages.antt =====
-- The first two stages of compression: what they pick, and how much at least.
use production_rag_system.Prelude.{
  ℕ, suc, ◌+◌, ◌-◌, ◌≤◌, min, ◌≡◌, subst, inl, inr, List, [], ◌∷◌, ◌++◌, arith, String, length,
  anyb, Sub, Sub-refl, Bool-cases, ltb, leb, Floats, flt, IsAscending, IsAscending-lower,
}
use production_rag_system.Prelude.Text.{Unicode}
use production_rag_system.Core.Result.{ok}
use production_rag_system.Core.Contracts.{RetrievedChunk}
use production_rag_system.Core.Settings.{Settings}
use production_rag_system.Rag.Compression.{
  ngrams, jaccard, le_score_at, dedupe_loop, top_up, dedupe, above_floor, floor_loop, best_of,
  relevance_floor,
}
use production_rag_system.Rag.Compression.Picked.{pick-total, topped_up, first_sorted}

module _ {F : Type 0} ⦃fl : Floats F⦄ where
  dedupe_loop-IsAscending :
      (u : Unicode) (settings : Settings F) (i : ℕ) (grams : List (List (List String)))
      (cs : List (RetrievedChunk F))
      → IsAscending i (i + length cs) (dedupe_loop u settings i grams cs)
  unfolding dedupe_loop
  dedupe_loop-IsAscending u settings i grams [] = tt
  dedupe_loop-IsAscending u settings i grams (c ∷ cs) =
      let gs = ngrams u c.text settings.compression_dedupe_ngram in
      let near = anyb (λ kg. flt settings.compression_dedupe_jaccard (jaccard gs kg)) grams in
      elim (Bool-cases near) [
        | inl dup ↦ rw dup (
            IsAscending-lower (suc i) i (i + suc (length cs))
              (dedupe_loop u settings (suc i) grams cs) (omega arith)
              (subst (λ hi. IsAscending (suc i) hi (dedupe_loop u settings (suc i) grams cs))
                (omega arith) (dedupe_loop-IsAscending u settings (suc i) grams cs)))
        | inr new ↦ rw new (
          omega arith,
          omega arith,
          subst
              (λ hi. IsAscending (suc i) hi (dedupe_loop u settings (suc i) (grams ++ gs ∷ []) cs))
              (omega arith) (dedupe_loop-IsAscending u settings (suc i) (grams ++ gs ∷ []) cs),
        )
      ]

  floor_loop-IsAscending :
      (floor : F) (i : ℕ) (cs : List (RetrievedChunk F))
      → IsAscending i (i + length cs) (floor_loop floor i cs)
  floor_loop-IsAscending floor i [] = tt
  floor_loop-IsAscending floor i (c ∷ cs) =
      let more : IsAscending (suc i) (i + suc (length cs)) (floor_loop floor (suc i) cs) =
        subst (λ hi. IsAscending (suc i) hi (floor_loop floor (suc i) cs)) (omega arith)
          (floor_loop-IsAscending floor (suc i) cs) in
      elim (Bool-cases (above_floor floor c.rerank_score)) [
        | inl high ↦ rw high (omega arith, omega arith, more)
        | inr low ↦ rw low (
            IsAscending-lower (suc i) i (i + suc (length cs)) (floor_loop floor (suc i) cs)
              (omega arith) more)
      ]

  top_up-valid :
      (m : ℕ) (chunks : List (RetrievedChunk F)) (kept : List ℕ)
      → IsAscending 0 (length chunks) kept
      → IsAscending 0 (length chunks) (top_up m chunks kept)
        × (min m (length chunks) ≤ length (top_up m chunks kept))
  top_up-valid m chunks kept a = elim (Bool-cases (ltb (length kept) m)) [
    | inl few ↦
        let (asc, long) = topped_up (le_score_at chunks) (length chunks) kept (m - length kept) a in
        rw few (asc, ground arith)
    | inr enough ↦ rw enough (a, ground arith)
  ]

  best_of-valid :
      (m : ℕ) (chunks : List (RetrievedChunk F)) (kept : List ℕ)
      → IsAscending 0 (length chunks) kept
      → IsAscending 0 (length chunks) (best_of m chunks kept)
        × (min m (length chunks) ≤ length (best_of m chunks kept))
  best_of-valid m chunks kept a = elim (Bool-cases (ltb (length kept) m)) [
    | inl few ↦ rw few (first_sorted (le_score_at chunks) (length chunks) m)
    | inr enough ↦ rw enough (a, ground arith)
  ]

  pub dedupe-valid :
      (u : Unicode) (chunks : List (RetrievedChunk F)) (settings : Settings F)
      → (out : List (RetrievedChunk F) × ℕ) × (dedupe u chunks settings ≡ ok out)
        × Sub out.0 chunks
        × (min settings.compression_min_chunks (length chunks) ≤ length out.0)
  unfolding dedupe
  dedupe-valid u chunks settings =
      let kept = dedupe_loop u settings 0 [] chunks in
      let m = settings.compression_min_chunks in
      let (asc, long) = top_up-valid m chunks kept (
        subst (λ hi. IsAscending 0 hi kept) (omega arith)
          (dedupe_loop-IsAscending u settings 0 [] chunks)) in
      let (out, picked, sub, size) = pick-total 0 chunks (top_up m chunks kept) asc in
      ((out, length chunks - length out), rw (picked, dedupe), sub, omega (arith, long, size))

  pub relevance_floor-valid :
      (chunks : List (RetrievedChunk F)) (settings : Settings F)
      → (out : List (RetrievedChunk F) × ℕ) × (relevance_floor chunks settings ≡ ok out)
        × Sub out.0 chunks
        × (min settings.compression_min_chunks (length chunks) ≤ length out.0)
  unfolding relevance_floor
  relevance_floor-valid chunks settings =
      let m = settings.compression_min_chunks in
      let kept = floor_loop settings.compression_score_floor 0 chunks in
      elim (Bool-cases (leb (length chunks) m)) [
        | inl few ↦ ((chunks, 0), rw (few, relevance_floor), Sub-refl chunks, omega arith)
        | inr many ↦
            let (asc, long) = best_of-valid m chunks kept (
              subst (λ hi. IsAscending 0 hi kept) (omega arith)
                (floor_loop-IsAscending settings.compression_score_floor 0 chunks)) in
            let (out, picked, sub, size) = pick-total 0 chunks (best_of m chunks kept) asc in
            (
              (out, length chunks - length out),
              rw (many, picked, relevance_floor),
              sub,
              omega (arith, long, size),
            )
      ]
