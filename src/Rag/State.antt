-- ===== src/Rag/State.antt =====
-- What the retrieval seam keeps outside its arguments: the module globals and context variables of
-- rag/hybrid.py, rag/rewrite.py and rag/rerank.py, and the clients that it calls.
use production_rag_system.Prelude.{ℕ, String, ◌≡◌, ◌∙◌, Bool, List, [], ◌∷◌, Option, Dict}
use production_rag_system.Prelude.Text.{Unicode}
use production_rag_system.Core.Result.{Result, ok, err, Exc, value_error}
use production_rag_system.Core.Contracts.{RewriteResult}

-- The pickled `{"bm25": …, "chunk_ids": …}`; `bm25` is the `BM25Okapi` object, here its
-- `get_scores` on query tokens, or `None` for an empty corpus.
pub record Bm25Index (F : Type 0) : Type 0 where
  pub bm25 : Option (List String → List F)
  pub chunk_ids : List String

-- A page number in the vector's metadata: -1 stands for none.
pub data MetaPage : Type 0 where
  minus_one : MetaPage
  page : ℕ → MetaPage

-- The metadata of a Pinecone vector, with the keys that the indexing always writes.
pub record Metadata : Type 0 where
  pub doc_id : String
  pub title : String
  pub text : Option String
  pub section_heading : Option String
  pub page_start : Option MetaPage
  pub page_end : Option MetaPage
  pub anchor : Option String

-- A LangChain `Document` that a vector search returns.
pub record Document : Type 0 where
  pub id : String
  pub page_content : String
  pub metadata : Metadata

-- The third-party clients. `search` is the vector store's similarity search in one namespace, by
-- the query or by a vector, and may differ from attempt to attempt; `fetch` is the index's `fetch`;
-- `score` is the cross-encoder; `rewrite_llm` is the rewrite model's reply as parsed JSON.
pub record Services (F V : Type 0) : Type 0 where
  pub unicode : Unicode
  pub load_pickle : Result Exc (Bm25Index F)
  pub search : ℕ → String → ℕ → String → Option V → Result Exc (List (Document × F))
  -- What `get_index` raises, if it does: it asks Pinecone for the index over the network.
  pub index_error : Option Exc
  pub fetch : List String → String → Result Exc (Dict Metadata)
  pub score : List (String × String) → Result Exc (List F)
  pub is_retryable : Exc → Bool
  pub message : Exc → String
  pub elapsed_ms : ℕ

-- `_BM25_CACHE` is a global of the process; the others are context variables of the request.
pub record RagState (F : Type 0) : Type 0 where
  pub bm25_cache : Option (Bm25Index F)
  pub degraded : Bool
  pub rewrite_result : Option RewriteResult
  pub rerank_ms : Option ℕ

-- A seam function: it may raise, and what it wrote to the state before that stays.
abbrev pub Seam : Type 0 → Type 0 → Type 0
Seam F A = RagState F → Result Exc A × RagState F

module _ {F A : Type 0} where
  abbrev pub pure : A → Seam F A
  pure a s = (ok a, s)

  abbrev pub raise : Exc → Seam F A
  raise e s = (err e, s)

  abbrev pub lift : Result Exc A → Seam F A
  lift r s = (r, s)

module _ {F A B : Type 0} where
  abbrev pub continue : Result Exc A → (A → Seam F B) → Seam F B
  continue (ok a) f s = f a s
  continue (err e) f s = (err e, s)

  infixl 5 ◌>>=◌ ◌>>◌
  abbrev pub ◌>>=◌ : Seam F A → (A → Seam F B) → Seam F B
  ◌>>=◌ m f s = let (r, s') = m s in continue r f s'

  abbrev pub ◌>>◌ : Seam F A → Seam F B → Seam F B
  m >> n = m >>= λ _. n

-- `zip(xs, ys, strict=True)`
abbrev pub zip_strict {ℓ κ} :
    {A : Type ℓ} {B : Type κ} → List A → List B → Result Exc (List (A × B))
zip_strict [] [] = ok []
zip_strict (x ∷ xs) (y ∷ ys) = elim (zip_strict xs ys) [
  | ok pairs ↦ ok ((x, y) ∷ pairs)
  | err e ↦ err e
]
zip_strict _ _ = err value_error

-- A seam function leaves a part of the state as it was, whether it returns or raises.
abbrev pub Preserves : {F A B : Type 0} → (RagState F → B) → Seam F A → Type 0
Preserves {F} part m = (s : RagState F) → part (m s).1 ≡ part s

module _ {F A B C : Type 0} (part : RagState F → C) where
  pub Preserves-bind :
      (m : Seam F A) (f : A → Seam F B)
      → Preserves part m
      → ((a : A) → Preserves part (f a))
      → Preserves part (m >>= f)
  Preserves-bind m f pm pf s = after (m s).0 (m s).1 (pm s)
    where
      after :
          (r : Result Exc A) (s' : RagState F)
          → part s' ≡ part s
          → part (continue r f s').1 ≡ part s
      after (ok a) s' h = pf a s' ∙ h
      after (err e) s' h = h
