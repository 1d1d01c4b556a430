-- ===== src/Rag/Citations.antt =====
-- backend/app/rag/citations.py with `extract_quote` of rag/context.py, and rag/refusal.py: the
-- `[n]` markers of an answer, the citations that they resolve to, and the two refusal gates. The
-- query over `chunks JOIN documents` is a parameter: the rows that it returns.
pub mod Gates
pub mod Markers
pub mod Resolved
use Prim.Native.Char.{Char, code}
use production_rag_system.Prelude.{
  ℕ, contains_n, zero, suc, ◌+◌, ◌-◌, ◌*◌, String, Bool, true, false, not, ◌&&◌, List, [], ◌∷◌,
  ◌++◌, map, Option, none, some, Dict, length, take, get_elem?, contains, lookup, insert, leb, ltb,
  ◌==◌, Floats, fle, flt, fzero, if◌then◌else◌,
}
use production_rag_system.Prelude.Text.{Unicode, strip, split, join}
use production_rag_system.Core.Contracts.{RetrievedChunk, Citation}
use production_rag_system.Core.Settings.{Settings}
use production_rag_system.Rag.Rerank.{max_rerank_score, max_from}

-- At most `max_words` words of the text, cut at a word.
unfoldable pub extract_quote : String → ℕ → String
unfolding strip split join
extract_quote text max_words =
    let words = split text in
    if leb (length words) max_words then strip text else join " " (take max_words words)

-- Where the scan of `\[(\d+)\]` stands: outside a marker, behind its bracket, or in its digits.
pub data Scan : Type 0 where
  outside : Scan
  opened : Scan
  digits : ℕ → Scan

abbrev restart : Char → Scan
restart c = if code c == b'[' then opened else outside

-- The numbers of `_MARKER_RE.finditer(text)`, in order.
unfoldable pub markers : Unicode → Scan → String → List ℕ
markers u state String.[] = []
markers u outside (String.◌∷◌ c s) = markers u (restart c) s
markers u opened (String.◌∷◌ c s) = elim (u.digit c) [
  | some d ↦ markers u (digits d) s
  | none ↦ markers u (restart c) s
]
markers u (digits n) (String.◌∷◌ c s) = elim (u.digit c) [
  | some d ↦ markers u (digits (n * 10 + d)) s
  | none ↦ if code c == b']' then n ∷ markers u outside s else markers u (restart c) s
]

-- Distinct numbers in `1..n_chunks`, in order of first appearance.
unfoldable pub collect : ℕ → List ℕ → List ℕ → List ℕ
collect n_chunks seen [] = seen
collect n_chunks seen (n ∷ ns) =
    collect n_chunks
      (if leb 1 n && (leb n n_chunks && not (contains_n seen n)) then seen ++ n ∷ [] else seen) ns

unfoldable pub extract_marker_numbers : Unicode → String → ℕ → List ℕ
unfolding markers collect
extract_marker_numbers u text n_chunks = collect n_chunks [] (markers u outside text)

-- A row of `chunks` with its row of `documents`.
pub record CitedRow : Type 0 where
  pub chunk_id : String
  pub text : String
  pub section_heading : Option String
  pub page_start : Option ℕ
  pub page_end : Option ℕ
  pub doc_id : String
  pub title : String
  pub url : String

-- `{chunk_row.chunk_id: (chunk_row, doc_row) for …}`
abbrev pub rows_into : Dict CitedRow → List CitedRow → Dict CitedRow
rows_into d [] = d
rows_into d (r ∷ rs) = rows_into (insert r.chunk_id r d) rs

abbrev pub citation_of : ℕ → ℕ → CitedRow → Citation
citation_of max_words n row = record {
  chunk_id = row.chunk_id;
  doc_id = row.doc_id;
  title = row.title;
  marker = some n;
  section_heading = row.section_heading;
  page_start = row.page_start;
  page_end = row.page_end;
  url = some row.url;
  quote = extract_quote row.text max_words;
}

-- A chunk that is gone from the database is skipped.
unfoldable pub resolve : ℕ → Dict CitedRow → List (ℕ × String) → List Citation
resolve max_words rows [] = []
resolve max_words rows ((n, chunk_id) ∷ rest) = elim (lookup chunk_id rows) [
  | none ↦ resolve max_words rows rest
  | some row ↦ citation_of max_words n row ∷ resolve max_words rows rest
]

module _ {F : Type 0} where
  -- `[(n, chunks[n - 1].chunk_id) for n in marker_numbers]`; a number out of range would raise.
  unfoldable pub cited : List (RetrievedChunk F) → List ℕ → Option (List (ℕ × String))
  cited chunks [] = some []
  cited chunks (n ∷ ns) = elim (get_elem? chunks (n - 1)) [
    | none ↦ none
    | some c ↦ elim (cited chunks ns) [ none ↦ none | some rest ↦ some ((n, c.chunk_id) ∷ rest) ]
  ]

  -- `execute` is the query: the rows whose `chunk_id` is among the given ones.
  unfoldable pub parse_citations :
      Unicode
      → ℕ
      → (List String → List CitedRow)
      → String
      → List (RetrievedChunk F)
      → Option (List Citation)
  unfolding extract_marker_numbers cited resolve
  parse_citations u max_words execute answer_text chunks =
      elim (cited chunks (extract_marker_numbers u answer_text (length chunks))) [
        | none ↦ none
        | some pairs ↦
            some (resolve max_words (rows_into [] (execute (map (λ p. p.1) pairs))) pairs)
      ]

  -- rag/refusal.py: one suggestion for each document, at most `n`.
  abbrev pub suggestion_of : ℕ → RetrievedChunk F → Citation
  suggestion_of max_words c = record {
    chunk_id = c.chunk_id;
    doc_id = c.doc_id;
    title = c.title;
    marker = none;
    section_heading = c.section_heading;
    page_start = c.page_start;
    page_end = c.page_end;
    url = none;
    quote = extract_quote c.text max_words;
  }

  -- `left` is how many more may be taken before the loop breaks, at least one.
  unfoldable pub suggest : ℕ → ℕ → List String → List (RetrievedChunk F) → List Citation
  suggest max_words left seen [] = []
  suggest max_words left seen (c ∷ cs) =
      let again = suggest max_words left seen cs in
      let more = suggest max_words (left - 1) (c.doc_id ∷ seen) cs in
      if contains seen c.doc_id
      then again
      else suggestion_of max_words c ∷ (if leb left 1 then [] else more)

  unfoldable pub suggestion_citations : ℕ → List (RetrievedChunk F) → ℕ → List Citation
  unfolding suggest
  suggestion_citations max_words chunks n = suggest max_words n [] chunks

-- `len(citations) == 0`
unfoldable pub post_llm_gate : List Citation → Bool
post_llm_gate citations = length citations == 0

module _ {F : Type 0} ⦃fl : Floats F⦄ where
  abbrev pub dense_scores : List (RetrievedChunk F) → List F
  dense_scores [] = []
  dense_scores (c ∷ cs) = elim c.dense_score [
    | none ↦ dense_scores cs
    | some s ↦ s ∷ dense_scores cs
  ]

  -- `float("-inf") < threshold` where no chunk has a dense score.
  abbrev pub below_best : List F → F → Bool
  below_best [] threshold = true
  below_best (s ∷ rest) threshold = flt (max_from s rest) threshold

  unfoldable pub pre_llm_gate : List (RetrievedChunk F) → Settings F → Bool
  unfolding max_rerank_score
  pre_llm_gate [] settings = true
  pre_llm_gate (c ∷ cs) settings =
      if settings.enable_rerank
      then flt (max_rerank_score (c ∷ cs)) settings.refusal_rerank_threshold
      else below_best (dense_scores (c ∷ cs)) settings.refusal_dense_threshold
