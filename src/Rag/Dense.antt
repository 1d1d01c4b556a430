-- ===== src/Rag/Dense.antt =====
-- The dense half of backend/app/rag/retriever.py: one similarity search for each namespace, merged
-- by score. `attempt` is the number of the try under `call_with_retry`.
use production_rag_system.Prelude.{
  ℕ, String, Bool, true, false, List, [], ◌∷◌, ◌++◌, map, Option, none, some, take, Floats, fle,
  sort_desc,
}
use production_rag_system.Core.Result.{Result, ok, Exc, ◌>>=◌}
use production_rag_system.Core.Contracts.{RetrievedChunk}
use production_rag_system.Core.Settings.{Settings}
use production_rag_system.Rag.State.{MetaPage, minus_one, page, Document, Services}

-- `value or None` on a text.
abbrev pub or_none : Option String → Option String
or_none none = none
or_none (some String.[]) = none
or_none (some (String.◌∷◌ c s)) = some (String.◌∷◌ c s)

abbrev pub none_if_sentinel : Option MetaPage → Option ℕ
none_if_sentinel none = none
none_if_sentinel (some minus_one) = none
none_if_sentinel (some (page n)) = some n

module _ {F : Type 0} where
  abbrev pub to_retrieved_chunk : Document × F → RetrievedChunk F
  to_retrieved_chunk (doc, score) = record {
    chunk_id = doc.id;
    doc_id = doc.metadata.doc_id;
    title = doc.metadata.title;
    text = doc.page_content;
    section_heading = or_none doc.metadata.section_heading;
    page_start = none_if_sentinel doc.metadata.page_start;
    page_end = none_if_sentinel doc.metadata.page_end;
    anchor = or_none doc.metadata.anchor;
    dense_score = some score;
    sparse_score = none;
    fused_score = none;
    rerank_score = none;
  }

module _ {F : Type 0} ⦃fl : Floats F⦄ where
  -- `None` is minus infinity: below every score.
  abbrev pub le_opt : Option F → Option F → Bool
  le_opt none b = true
  le_opt (some a) none = false
  le_opt (some a) (some b) = fle a b

  abbrev pub le_dense : RetrievedChunk F → RetrievedChunk F → Bool
  le_dense a b = le_opt a.dense_score b.dense_score

  abbrev pub concat : List (List (RetrievedChunk F)) → List (RetrievedChunk F)
  concat [] = []
  concat (g ∷ gs) = g ++ concat gs

  unfoldable pub merge_top_k : List (List (RetrievedChunk F)) → ℕ → List (RetrievedChunk F)
  unfolding sort_desc
  merge_top_k groups k = take k (sort_desc le_dense (concat groups))

  module _ {V : Type 0} (services : Services F V) (settings : Settings F) where
    unfoldable pub retrieve_namespace :
        ℕ → String → ℕ → Option V → String → Result Exc (List (RetrievedChunk F))
    retrieve_namespace attempt query k query_vec namespace = do
      pairs ← services.search attempt query k namespace query_vec
      ok (map to_retrieved_chunk pairs)

    -- `asyncio.gather` with no `return_exceptions`: one failure is the failure of the whole.
    unfoldable pub gather_namespaces :
        ℕ → String → ℕ → Option V → List String → Result Exc (List (List (RetrievedChunk F)))
    unfolding retrieve_namespace
    gather_namespaces attempt query k query_vec [] = ok []
    gather_namespaces attempt query k query_vec (ns ∷ rest) = do
      chunks ← retrieve_namespace attempt query k query_vec ns
      others ← gather_namespaces attempt query k query_vec rest
      ok (chunks ∷ others)

    unfoldable pub dense_retrieve :
        ℕ → String → ℕ → Option String → Option V → Result Exc (List (RetrievedChunk F))
    unfolding gather_namespaces merge_top_k
    dense_retrieve attempt query k (some namespace) query_vec =
        retrieve_namespace attempt query k query_vec namespace
    dense_retrieve attempt query k none query_vec = do
      results ← gather_namespaces attempt query k query_vec settings.retrieval_namespaces
      ok (merge_top_k results k)
