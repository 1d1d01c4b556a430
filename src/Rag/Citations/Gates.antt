-- ===== src/Rag/Citations/Gates.antt =====
-- The refusal gate before generation, and the suggestions of a refusal.
use production_rag_system.Prelude.{
  ℕ, ◌-◌, ◌≤◌, ◌≡◌, refl, ap, ◌∙◌, ◌⊎◌, inl, inr, Bool, true, false, not, List, [], ◌∷◌, map,
  String, arith, length, max, contains, All, All-contains, Distinct, eq_iff, anyb, Bool-cases,
  if◌then◌else◌, Floats, fle, fzero,
}
use production_rag_system.Core.Contracts.{RetrievedChunk, Citation}
use production_rag_system.Core.Settings.{Settings}
use production_rag_system.Rag.Rerank.{rerank_scores, max_from, max_or_zero, max_rerank_score}
use production_rag_system.Rag.Citations.{
  dense_scores, below_best, pre_llm_gate, suggest, suggestion_citations,
}

module _ {F : Type 0} ⦃fl : Floats F⦄ where
  fle_trans : (a b c : F) → fle a b ≡ true → fle b c ≡ true → fle a c ≡ true
  fle_trans = fl.le_trans

  fle_total : (a b : F) → (fle a b ≡ true) ⊎ (fle b a ≡ true)
  fle_total = fl.le_total

  -- A threshold is reached by the maximum exactly if some score reaches it.
  le-max_from : (t s : F) (rest : List F) → fle t (max_from s rest) ≡ anyb (λ x. fle t x) (s ∷ rest)
  le-max_from t s [] = ground arith
  le-max_from t s (x ∷ rest) = elim (Bool-cases (fle x s)) [
    | inl h ↦ rw h (le-max_from t s rest ∙ ground (arith, fle_trans t x s))
    | inr h ↦ rw h (le-max_from t x rest ∙ ground (arith, fle_trans t s x, fle_total x s))
  ]

  abbrev pub reached : F → List F → Bool
  reached t scores = anyb (λ x. fle t x) scores

  -- `0.0` stands in where no chunk was reranked.
  abbrev pub or_only_zero : List F → List F
  or_only_zero [] = fzero ∷ []
  or_only_zero (s ∷ rest) = s ∷ rest

  confident :
      (t : F) (scores : List F) → fle t (max_or_zero scores) ≡ reached t (or_only_zero scores)
  confident t [] = ground arith
  confident t (s ∷ rest) = le-max_from t s rest

  below_best-reached : (t : F) (scores : List F) → below_best scores t ≡ not (reached t scores)
  below_best-reached t [] = refl
  below_best-reached t (s ∷ rest) = ap not (le-max_from t s rest)

  -- An empty retrieval is refused. With reranking on, any other is refused exactly if no reranked
  -- score reaches the threshold (0.0, where no chunk has one); with it off, exactly if no dense score
  -- does.
  pub pre_llm_gate-exact :
      (c : RetrievedChunk F) (cs : List (RetrievedChunk F)) (settings : Settings F)
      → (pre_llm_gate [] settings ≡ true)
        × (pre_llm_gate (c ∷ cs) settings ≡ (
            if settings.enable_rerank
            then not
                (reached settings.refusal_rerank_threshold (or_only_zero (rerank_scores (c ∷ cs))))
            else not (reached settings.refusal_dense_threshold (dense_scores (c ∷ cs)))))
  unfolding pre_llm_gate max_rerank_score
  pre_llm_gate-exact c cs settings = (
    refl,
    ground (
      arith,
      confident settings.refusal_rerank_threshold (rerank_scores (c ∷ cs)),
      below_best-reached settings.refusal_dense_threshold (dense_scores (c ∷ cs)),
    ),
  )

abbrev pub doc_ids : List Citation → List String
doc_ids = map (λ c. c.doc_id)

abbrev pub chunk_doc_ids : {F : Type 0} → List (RetrievedChunk F) → List String
chunk_doc_ids = map (λ c. c.doc_id)

module _ {F : Type 0} (max_words : ℕ) where
  suggest-bounded :
      (left : ℕ) (seen : List String) (chunks : List (RetrievedChunk F))
      → length (suggest max_words left seen chunks) ≤ max left 1
  unfolding suggest
  suggest-bounded left seen [] = omega arith
  suggest-bounded left seen (c ∷ cs) =
      ground (arith, suggest-bounded left seen cs, suggest-bounded (left - 1) (c.doc_id ∷ seen) cs)

  -- A suggested document is new, and comes from the chunks.
  contains-suggest :
      (left : ℕ) (seen : List String) (chunks : List (RetrievedChunk F)) (j : String)
      → contains (doc_ids (suggest max_words left seen chunks)) j ≡ true
      → (contains seen j ≡ false) × (contains (chunk_doc_ids chunks) j ≡ true)
  unfolding suggest
  contains-suggest left seen [] j h = absurd (ground arith)
  contains-suggest left seen (c ∷ cs) j h = ground (
    arith,
    eq_iff c.doc_id j,
    contains-suggest left seen cs j,
    contains-suggest (left - 1) (c.doc_id ∷ seen) cs j,
  )

  suggest-Distinct :
      (left : ℕ) (seen : List String) (chunks : List (RetrievedChunk F))
      → Distinct (doc_ids (suggest max_words left seen chunks))
  unfolding suggest
  suggest-Distinct left seen [] = tt
  suggest-Distinct left seen (c ∷ cs) = ground (
    arith,
    suggest-Distinct left seen cs,
    suggest-Distinct (left - 1) (c.doc_id ∷ seen) cs,
    contains-suggest (left - 1) (c.doc_id ∷ seen) cs c.doc_id,
    eq_iff c.doc_id c.doc_id,
  )

  -- A refusal suggests at most `n` documents (one, if `n` is 0), each of them once and each the
  -- document of a retrieved chunk.
  pub suggestion_citations-valid :
      (chunks : List (RetrievedChunk F)) (n : ℕ)
      → (length (suggestion_citations max_words chunks n) ≤ max n 1)
        × Distinct (doc_ids (suggestion_citations max_words chunks n))
        × All
            (λ j. contains (chunk_doc_ids chunks) j ≡ true)
            (doc_ids (suggestion_citations max_words chunks n))
  unfolding suggestion_citations
  suggestion_citations-valid chunks n = (
    suggest-bounded n [] chunks,
    suggest-Distinct n [] chunks,
    All-contains (λ j. contains (chunk_doc_ids chunks) j ≡ true)
        (doc_ids (suggestion_citations max_words chunks n))
        (λ j h. (contains-suggest n [] chunks j h).1),
  )
