-- ===== src/Rag/Rerank/Order.antt =====
-- What the reranking returns, and the confidence that the refusal gate reads off it.
use mathlib.Core.List.{Perm}
use production_rag_system.Prelude.{
  ℕ, zero, suc, ◌<◌, ◌≡◌, refl, sym, ◌∙◌, subst, inl, inr, true, List, [], ◌∷◌, ◌++◌, map, String,
  arith, length, take, drop, min, is_some, All, All-of-map, take-append-drop, length-map,
  length-take, length-sort_desc, sort_desc, sort_desc-All, All-sort_desc, sort_desc-IsDesc,
  sort_desc-perm, IsDesc, take-IsDesc, Floats, fle, Option-cases,
}
use production_rag_system.Core.Result.{ok}
use production_rag_system.Core.Contracts.{RetrievedChunk}
use production_rag_system.Core.Settings.{Settings}
use production_rag_system.Rag.State.{Services, RagState, zip_strict}
use production_rag_system.Rag.Fusion.{or_zero}
use production_rag_system.Rag.Rerank.{
  safe_text, sigmoid, calibrate, rerank_scores, max_from, max_rerank_score, with_score, le_rerank,
  top_reranked, rerank_chunks,
}

module _ {F : Type 0} ⦃fl : Floats F⦄ where
  fle_refl : (a : F) → fle a a ≡ true
  fle_refl a = elim (fl.le_total a a) [ inl h ↦ h | inr h ↦ h ]

  max_from-top :
      (s : F) (cs : List (RetrievedChunk F))
      → All (λ c. fle (or_zero c.rerank_score) s ≡ true) cs
      → max_from s (rerank_scores cs) ≡ s
  max_from-top s [] h = refl
  max_from-top s (c ∷ cs) h = ground (arith, max_from-top s cs h.1)

  -- The best of a non-empty, sorted and scored list is the score of its head.
  head_confidence :
      (c : RetrievedChunk F) (cs : List (RetrievedChunk F))
      → is_some c.rerank_score ≡ true
      → All (λ d. le_rerank d c ≡ true) cs
      → max_rerank_score (c ∷ cs) ≡ or_zero c.rerank_score
  unfolding max_rerank_score
  head_confidence c cs known below = elim (Option-cases c.rerank_score) [
    | inl e ↦ absurd (ground arith)
    | inr (s, e) ↦ ground (arith, max_from-top (or_zero c.rerank_score) cs below)
  ]

  -- Whatever the cut leaves out scores no more than the confidence.
  confidence_of_sorted :
      (n : ℕ) (sorted : List (RetrievedChunk F))
      → All (λ c. is_some c.rerank_score ≡ true) sorted
      → IsDesc le_rerank sorted
      → All
          (λ c. fle (or_zero c.rerank_score) (max_rerank_score (take (suc n) sorted)) ≡ true)
          sorted
  confidence_of_sorted n [] known d = tt
  confidence_of_sorted n (c ∷ cs) known d =
      subst (λ m. All (λ x. fle (or_zero x.rerank_score) m ≡ true) (c ∷ cs))
        (sym (head_confidence c (take n cs) known.0 (take-IsDesc le_rerank (suc n) (c ∷ cs) d).0))
        (fle_refl (or_zero c.rerank_score), d.0)

module _ {F : Type 0} ⦃fl : Floats F⦄ {V : Type 0} (services : Services F V)
    (settings : Settings F) where
  pub record IsReranked (scored : List (RetrievedChunk F × F)) (out : List (RetrievedChunk F))
      : Type 0 where
    pub size : length out ≡ min settings.rerank_top_n (length scored)
    -- What is cut off.
    pub rest : List (RetrievedChunk F)
    pub whole : Perm (out ++ rest) (map with_score scored)
    -- No chunk that is cut off has a greater score than one that is kept.
    pub ordered : IsDesc le_rerank (out ++ rest)
    -- The confidence is at least every calibrated score, kept or cut.
    pub confidence :
        0 < settings.rerank_top_n → All (λ e. fle e.1 (max_rerank_score out) ≡ true) scored

  top_reranked-IsReranked :
      (scored : List (RetrievedChunk F × F))
      → IsReranked scored (top_reranked services settings scored)
  unfolding top_reranked
  top_reranked-IsReranked scored = record {
    size = omega (
      arith,
      length-take n sorted,
      length-sort_desc le_rerank chunks,
      length-map with_score scored,
    );
    rest = drop n sorted;
    whole =
        subst (λ l. Perm l chunks) (sym (take-append-drop n sorted))
          (sort_desc-perm le_rerank chunks);
    ordered = subst (IsDesc le_rerank) (sym (take-append-drop n sorted)) in_order;
    confidence = above n;
  }
    where
      n : ℕ
      n = settings.rerank_top_n

      chunks : List (RetrievedChunk F)
      chunks = map with_score scored

      sorted : List (RetrievedChunk F)
      sorted = sort_desc le_rerank chunks

      in_order : IsDesc le_rerank sorted
      in_order =
          sort_desc-IsDesc le_rerank
            (λ a b. fl.le_total (or_zero a.rerank_score) (or_zero b.rerank_score))
            (λ a b c.
              fl.le_trans (or_zero a.rerank_score) (or_zero b.rerank_score)
                (or_zero c.rerank_score))
            chunks

      all_scored :
          (l : List (RetrievedChunk F × F))
          → All (λ c. is_some c.rerank_score ≡ true) (map with_score l)
      all_scored [] = tt
      all_scored (e ∷ l) = (refl, all_scored l)

      above : (m : ℕ) → 0 < m → All (λ e. fle e.1 (max_rerank_score (take m sorted)) ≡ true) scored
      above zero h = absurd (omega arith)
      above (suc m) h =
          All-of-map
            (λ c. fle (or_zero c.rerank_score) (max_rerank_score (take (suc m) sorted)) ≡ true)
            with_score scored
            (All-sort_desc le_rerank _ chunks (
              confidence_of_sorted m sorted (sort_desc-All le_rerank _ chunks (all_scored scored))
                in_order))

  length-zip_strict :
      (xs : List (RetrievedChunk F)) (ys : List F)
      → length ys ≡ length xs
      → (pairs : List (RetrievedChunk F × F)) × (zip_strict xs ys ≡ ok pairs)
        × (map (λ e. e.0) pairs ≡ xs)
        × (map (λ e. e.1) pairs ≡ ys)
  length-zip_strict [] [] h = ([], refl, refl, refl)
  length-zip_strict [] (y ∷ ys) h = absurd (omega arith)
  length-zip_strict (x ∷ xs) [] h = absurd (omega arith)
  length-zip_strict (x ∷ xs) (y ∷ ys) h =
      let (pairs, e, l, r) = length-zip_strict xs ys (omega arith) in
      ((x, y) ∷ pairs, rw e, rw l, rw r)

  length-calibrate : (logits : List F) → length (calibrate logits settings) ≡ length logits
  unfolding calibrate
  length-calibrate logits = ground (arith, length-map sigmoid logits)

  -- If the model scores each pair of a non-empty pool, rerank_chunks returns RERANK_TOP_N whole
  -- chunks, or all, with their calibrated scores, in falling order of them, and none that is cut
  -- off scores more than one that is kept; max_rerank_score of them bounds every score.
  pub rerank_chunks-IsReranked :
      (query : String) (c : RetrievedChunk F) (pool : List (RetrievedChunk F)) (logits : List F)
      (s : RagState F)
      → services.score (map (λ d. (query, safe_text d)) (c ∷ pool)) ≡ ok logits
      → length logits ≡ length (c ∷ pool)
      → (scored : List (RetrievedChunk F × F)) × (out : List (RetrievedChunk F)) × ((rerank_chunks
            services settings query
            (c ∷ pool)
            s).0
          ≡ ok out)
        × (map (λ e. e.0) scored ≡ c ∷ pool)
        × (map (λ e. e.1) scored ≡ calibrate logits settings)
        × IsReranked scored out
  unfolding rerank_chunks
  rerank_chunks-IsReranked query c pool logits s replied fits =
      let (scored, e, l, r) =
        length-zip_strict (c ∷ pool) (calibrate logits settings) (length-calibrate logits ∙ fits) in
      (
        scored,
        top_reranked services settings scored,
        rw (replied, e, rerank_chunks),
        l,
        r,
        top_reranked-IsReranked scored,
      )
