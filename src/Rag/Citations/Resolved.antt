-- ===== src/Rag/Citations/Resolved.antt =====
-- What the resolved citations stand for.
use production_rag_system.Prelude.{
  ℕ, zero, suc, ◌-◌, ◌≤◌, ◌<◌, ◌≡◌, refl, sym, ◌∙◌, inl, inr, true, List, [], ◌∷◌, map, some, Dict,
  String, arith, length, get_elem?, lookup, insert, All, All-insert, All-lookup, Option-cases,
}
use production_rag_system.Prelude.Text.{Unicode}
use production_rag_system.Core.Contracts.{RetrievedChunk, Citation}
use production_rag_system.Rag.Citations.{
  extract_marker_numbers, CitedRow, rows_into, cited, resolve, parse_citations,
}
use production_rag_system.Rag.Citations.Markers.{in_range, extract_marker_numbers-exact}

module _ {F : Type 0} (chunks : List (RetrievedChunk F)) where
  -- A marker and the id of the chunk that it numbers, from 1.
  abbrev pub Numbers : ℕ → String → Type 0
  Numbers n chunk_id =
      (c : RetrievedChunk F) × (1 ≤ n)
      × (get_elem? chunks (n - 1) ≡ some c)
      × (c.chunk_id ≡ chunk_id)

  get_elem?-in_range :
      (xs : List (RetrievedChunk F)) (i : ℕ)
      → i < length xs
      → (c : RetrievedChunk F) × (get_elem? xs i ≡ some c)
  get_elem?-in_range [] i h = absurd (omega arith)
  get_elem?-in_range (x ∷ xs) zero h = (x, refl)
  get_elem?-in_range (x ∷ xs) (suc i) h = get_elem?-in_range xs i (omega arith)

  -- No marker in range is out of bounds.
  cited-total :
      (ns : List ℕ)
      → All (λ n. in_range (length chunks) n ≡ true) ns
      → (pairs : List (ℕ × String)) × (cited chunks ns ≡ some pairs)
        × (map (λ p. p.0) pairs ≡ ns)
        × All (λ p. Numbers p.0 p.1) pairs
  unfolding cited
  cited-total [] h = ([], refl, refl, tt)
  cited-total (n ∷ ns) h =
      let (pairs, e, firsts, each) = cited-total ns h.1 in
      let low : 1 ≤ n = ground arith in
      let high : n ≤ length chunks = ground arith in
      let (c, found) = get_elem?-in_range chunks (n - 1) (omega arith) in
      ((n, c.chunk_id) ∷ pairs, rw (found, e, cited), rw firsts, ((c, low, found, refl), each))

rows_into-keyed :
    (d : Dict CitedRow) (rs : List CitedRow)
    → All (λ e. e.1.chunk_id ≡ e.0) d
    → All (λ e. e.1.chunk_id ≡ e.0) (rows_into d rs)
rows_into-keyed d [] h = h
rows_into-keyed d (r ∷ rs) h =
    rows_into-keyed (insert r.chunk_id r d) rs
      (All-insert (λ e. e.1.chunk_id ≡ e.0) r.chunk_id r d refl h)

module _ {F : Type 0} (chunks : List (RetrievedChunk F)) (max_words : ℕ) where
  -- A citation carries the marker of the chunk that it cites.
  abbrev pub IsGrounded : Citation → Type 0
  IsGrounded c = (n : ℕ) × (c.marker ≡ some n) × Numbers chunks n c.chunk_id

  resolve-IsGrounded :
      (rows : Dict CitedRow) (pairs : List (ℕ × String))
      → All (λ e. e.1.chunk_id ≡ e.0) rows
      → All (λ p. Numbers chunks p.0 p.1) pairs
      → All IsGrounded (resolve max_words rows pairs)
  unfolding resolve
  resolve-IsGrounded rows [] keyed h = tt
  resolve-IsGrounded rows ((n, chunk_id) ∷ rest) keyed h =
      elim (Option-cases (lookup chunk_id rows)) [
        | inl e ↦ rw (e, resolve) (resolve-IsGrounded rows rest keyed h.1)
        | inr (row, e) ↦
            let same : row.chunk_id ≡ chunk_id =
              All-lookup (λ x. x.1.chunk_id ≡ x.0) chunk_id rows keyed e in
            let (c, low, found, id) = h.0 in
            rw (e, resolve)
              ((n, refl, (c, low, found, id ∙ sym same)), resolve-IsGrounded rows rest keyed h.1)
      ]

  -- Whatever the answer says and whatever the database returns, the parsing never reads past the
  -- chunks, and each citation is of the chunk that its marker numbers.
  pub parse_citations-IsGrounded :
      (u : Unicode) (execute : List String → List CitedRow) (answer_text : String)
      → (citations : List Citation) × (parse_citations u max_words execute answer_text chunks
          ≡ some citations)
        × All IsGrounded citations
  unfolding parse_citations
  parse_citations-IsGrounded u execute answer_text =
      let ns = extract_marker_numbers u answer_text (length chunks) in
      let valid = (extract_marker_numbers-exact u answer_text (length chunks)).1 in
      let (pairs, e, _, each) = cited-total chunks ns valid in
      let rows = rows_into [] (execute (map (λ p. p.1) pairs)) in
      (
        resolve max_words rows pairs,
        rw (e, parse_citations),
        resolve-IsGrounded rows pairs (rows_into-keyed [] (execute (map (λ p. p.1) pairs)) tt) each,
      )
