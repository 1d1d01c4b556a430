-- ===== src/Rag/Compression.antt =====
-- backend/app/rag/compression.py: near-duplicates out, a floor under the scores, and a budget of
-- tokens. `count_tokens` is the tokenizer's count and `score` the loaded cross-encoder. A set of
-- n-grams is a list with no repeats; `remaining` may be negative in the source, so `cost <=
-- remaining` stands here as `used + cost ≤ budget`.
pub mod Picked
pub mod Stages
pub mod Kept
use production_rag_system.Prelude.{
  ℕ, zero, suc, ◌+◌, ◌-◌, ◌/◌, min, max, String, Bool, true, false, not, ◌&&◌, ◌||◌, List, [], ◌∷◌,
  ◌++◌, map, Option, none, some, length, take, drop, filterb, anyb, get_elem?, leb, ltb, Floats,
  fle, flt, fzero, fratio, sort_desc, if◌then◌else◌, str_eq, contains_n, range_from, sorted_set,
}
use production_rag_system.Prelude.Text.{
  Unicode, strip, split, join, is_empty, is_space, split_after,
}
use production_rag_system.Core.Result.{Result, ok, err, Exc, index_error, ◌>>=◌}
use production_rag_system.Core.Contracts.{RetrievedChunk}
use production_rag_system.Core.Settings.{Settings}
use production_rag_system.Rag.Dense.{le_opt}

abbrev Gram : Type 0
Gram = List String

abbrev eq_gram : Gram → Gram → Bool
eq_gram [] [] = true
eq_gram (v ∷ vs) (w ∷ ws) = str_eq v w && eq_gram vs ws
eq_gram _ _ = false

abbrev pub to_set : List Gram → List Gram
to_set [] = []
to_set (g ∷ gs) = let rest = to_set gs in if anyb (eq_gram g) rest then rest else g ∷ rest

unfoldable pub ngrams : Unicode → String → ℕ → List Gram
unfolding split
ngrams u text n =
    let words = split (u.lower text) in
    if ltb (length words) n
    then (if leb (length words) 0 then [] else words ∷ [])
    else to_set (map (λ i. take n (drop i words)) (range_from 0 (length words - n + 1)))

-- `xs[i] for i in is`
unfoldable pub pick {ℓ} : {A : Type ℓ} → List A → List ℕ → Result Exc (List A)
pick xs [] = ok []
pick xs (i ∷ is) = elim (get_elem? xs i) [
  | none ↦ err index_error
  | some x ↦ elim (pick xs is) [ ok rest ↦ ok (x ∷ rest) | err e ↦ err e ]
]

-- `len(chunks) - len(kept)` beside the kept chunks.
abbrev pub with_dropped {ℓ} : {A : Type ℓ} → List A → Result Exc (List A) → Result Exc (List A × ℕ)
with_dropped xs (ok kept) = ok (kept, length xs - length kept)
with_dropped xs (err e) = err e

module _ {F : Type 0} ⦃fl : Floats F⦄ where
  unfoldable pub jaccard : List Gram → List Gram → F
  jaccard a b =
      if leb (length a) 0 || leb (length b) 0
      then fzero
      else fratio (length (filterb (λ g. anyb (eq_gram g) b) a))
          (length (a ++ filterb (λ g. not (anyb (eq_gram g) a)) b))

  -- `_score_of(chunks[i])`: no score stands below every score.
  abbrev pub score_at : List (RetrievedChunk F) → ℕ → Option F
  score_at chunks i = elim (get_elem? chunks i) [ none ↦ none | some c ↦ c.rerank_score ]

  abbrev pub le_score_at : List (RetrievedChunk F) → ℕ → ℕ → Bool
  le_score_at chunks i j = le_opt (score_at chunks i) (score_at chunks j)

  -- The loop of `dedupe` from index `i` on: the indices that are kept.
  unfoldable pub dedupe_loop :
      Unicode → Settings F → ℕ → List (List Gram) → List (RetrievedChunk F) → List ℕ
  unfolding ngrams jaccard
  dedupe_loop u settings i kept_grams [] = []
  dedupe_loop u settings i kept_grams (c ∷ cs) =
      let grams = ngrams u c.text settings.compression_dedupe_ngram in
      let without = dedupe_loop u settings (suc i) kept_grams cs in
      let with_it = i ∷ dedupe_loop u settings (suc i) (kept_grams ++ grams ∷ []) cs in
      if anyb (λ kg. flt settings.compression_dedupe_jaccard (jaccard grams kg)) kept_grams
      then without
      else with_it

  -- The indices that are not kept, best score first.
  abbrev pub dropped_of : List (RetrievedChunk F) → List ℕ → List ℕ
  dropped_of chunks kept =
      sort_desc (le_score_at chunks)
        (filterb (λ i. not (contains_n kept i)) (range_from 0 (length chunks)))

  -- Never below the minimum: topped up with the best of the dropped.
  abbrev pub top_up : ℕ → List (RetrievedChunk F) → List ℕ → List ℕ
  top_up min_chunks chunks kept =
      if ltb (length kept) min_chunks
      then sorted_set (kept ++ take (min_chunks - length kept) (dropped_of chunks kept))
      else kept

  unfoldable pub dedupe :
      Unicode → List (RetrievedChunk F) → Settings F → Result Exc (List (RetrievedChunk F) × ℕ)
  unfolding dedupe_loop pick sorted_set
  dedupe u chunks settings = with_dropped chunks (
      pick chunks
        (top_up settings.compression_min_chunks chunks (dedupe_loop u settings 0 [] chunks)))

  abbrev pub above_floor : F → Option F → Bool
  above_floor floor none = true
  above_floor floor (some s) = fle floor s

  abbrev pub floor_loop : F → ℕ → List (RetrievedChunk F) → List ℕ
  floor_loop floor i [] = []
  floor_loop floor i (c ∷ cs) =
      let rest = floor_loop floor (suc i) cs in
      if above_floor floor c.rerank_score then i ∷ rest else rest

  -- Too few above the floor: the best by score instead, in the original order.
  abbrev pub best_of : ℕ → List (RetrievedChunk F) → List ℕ → List ℕ
  best_of min_chunks chunks kept =
      if ltb (length kept) min_chunks
      then sorted_set
          (take min_chunks (sort_desc (le_score_at chunks) (range_from 0 (length chunks))))
      else kept

  unfoldable pub relevance_floor :
      List (RetrievedChunk F) → Settings F → Result Exc (List (RetrievedChunk F) × ℕ)
  unfolding pick sorted_set sort_desc
  relevance_floor chunks settings =
      if leb (length chunks) settings.compression_min_chunks
      then ok (chunks, 0)
      else with_dropped chunks (
          pick chunks (
            best_of settings.compression_min_chunks chunks
              (floor_loop settings.compression_score_floor 0 chunks)))

-- `[s.strip() for s in _SENTENCE_SPLIT.split(text.strip()) if s.strip()]`
unfoldable pub split_sentences : String → List String
unfolding strip split_after
split_sentences text = filterb (λ s. not (is_empty s)) (map strip (split_after (strip text)))

-- `float(logits[i])` of each sentence: the model's reply must be as long.
abbrev pub zip_logits {ℓ κ} :
    {A : Type ℓ} {B : Type κ} → List A → List B → Result Exc (List (A × B))
zip_logits [] logits = ok []
zip_logits (x ∷ xs) [] = err index_error
zip_logits (x ∷ xs) (l ∷ logits) = elim (zip_logits xs logits) [
  | ok rest ↦ ok ((x, l) ∷ rest)
  | err e ↦ err e
]

abbrev pub enumerate {ℓ} : {A : Type ℓ} → ℕ → List A → List (ℕ × A)
enumerate i [] = []
enumerate i (x ∷ xs) = (i, x) ∷ enumerate (suc i) xs

module _ {F : Type 0} where
  -- The trimmed chunk, from the sentences that are kept.
  abbrev pub rejoined :
      RetrievedChunk F → ℕ → Result Exc (List String) → Result Exc (RetrievedChunk F × ℕ)
  rejoined chunk dropped (ok kept) = ok (record chunk { text = join " " kept }, dropped)
  rejoined chunk dropped (err e) = err e

  abbrev pub retext : RetrievedChunk F → List String → List ℕ → Result Exc (RetrievedChunk F × ℕ)
  retext chunk sentences keep_idx =
      rejoined chunk (length sentences - length (sorted_set keep_idx))
        (pick sentences (sorted_set keep_idx))

  abbrev pub kept_before :
      RetrievedChunk F
      → ℕ
      → Result Exc (List (RetrievedChunk F) × ℕ)
      → Result Exc (List (RetrievedChunk F) × ℕ)
  kept_before c dropped (ok (kept, n)) = ok (c ∷ kept, dropped + n)
  kept_before c dropped (err e) = err e

  abbrev pub first_error :
      Result Exc (RetrievedChunk F × ℕ)
      → (RetrievedChunk F → ℕ → Result Exc (List (RetrievedChunk F) × ℕ))
      → Result Exc (List (RetrievedChunk F) × ℕ)
  first_error (ok (c, n)) go = go c n
  first_error (err e) go = err e

  -- Any exception falls back to the uncompressed chunks.
  abbrev pub or_uncompressed :
      List (RetrievedChunk F) → Result Exc (List (RetrievedChunk F)) → List (RetrievedChunk F)
  or_uncompressed chunks (ok kept) = kept
  or_uncompressed chunks (err e) = chunks

module _ {F : Type 0} ⦃fl : Floats F⦄ (count_tokens : String → ℕ)
    (score : List (String × String) → Result Exc (List F)) where
  -- The sentences by falling score, each with its index; those that fit are kept, the first always.
  unfoldable pub trim_loop : ℕ → List ((ℕ × String) × F) → List ℕ → ℕ → List ℕ
  trim_loop budget [] keep_idx used = keep_idx
  trim_loop budget (((i, s), l) ∷ order) keep_idx used =
      let cost = count_tokens s in
      let fits = leb (length keep_idx) 0 || leb (used + cost) budget in
      let more = trim_loop budget order (i ∷ keep_idx) (used + cost) in
      let less = trim_loop budget order keep_idx used in
      if fits
      then (if leb budget (used + cost) then i ∷ keep_idx else more)
      else (if leb budget used then keep_idx else less)

  unfoldable pub trim_chunk : String → RetrievedChunk F → ℕ → Result Exc (RetrievedChunk F × ℕ)
  unfolding split_sentences trim_loop sort_desc pick join sorted_set
  trim_chunk query chunk budget =
      let sentences = split_sentences chunk.text in
      if leb (count_tokens chunk.text) budget
      then ok (chunk, 0)
      else (if leb (length sentences) 1
          then ok (chunk, 0)
          else score (map (λ s. (query, s)) sentences) >>= λ logits.
              zip_logits (enumerate 0 sentences) logits >>= λ scored.
              retext chunk sentences
                (trim_loop budget (sort_desc (λ a b. fle a.1 b.1) scored) [] 0))

  -- The loop of `token_budget_fill`, with `len(kept)` and `used` so far.
  unfoldable pub fill_loop :
      String → ℕ → ℕ → ℕ → ℕ → List (RetrievedChunk F) → Result Exc (List (RetrievedChunk F) × ℕ)
  unfolding trim_chunk
  fill_loop query budget min_chunks n_kept used [] = ok ([], 0)
  fill_loop query budget min_chunks n_kept used (c ∷ cs) =
      let cost = count_tokens c.text in
      let whole =
        kept_before c 0 (fill_loop query budget min_chunks (suc n_kept) (used + cost) cs) in
      let must_keep = ltb n_kept min_chunks in
      let trim_budget = max ((budget - used) / max (min_chunks - n_kept) 1) 1 in
      let trimmed = first_error (trim_chunk query c trim_budget) (λ t n.
        let rest = fill_loop query budget min_chunks (suc n_kept) (used + count_tokens t.text) cs in
        if must_keep then kept_before t n rest else ok (t ∷ [], n)) in
      if leb (used + cost) budget
      then whole
      else (if leb budget used && not must_keep then ok ([], 0) else trimmed)

  module _ (settings : Settings F) where
    unfoldable pub token_budget_fill :
        String → List (RetrievedChunk F) → Result Exc (List (RetrievedChunk F) × ℕ)
    unfolding fill_loop
    token_budget_fill query chunks =
        fill_loop query settings.compression_token_budget
          (min settings.compression_min_chunks (length chunks)) 0 0 chunks

    -- The `try` block.
    unfoldable pub compressed :
        Unicode → String → List (RetrievedChunk F) → Result Exc (List (RetrievedChunk F))
    unfolding dedupe relevance_floor token_budget_fill
    compressed u query chunks = dedupe u chunks settings >>= λ distinct.
        relevance_floor distinct.0 settings >>= λ relevant.
        token_budget_fill query relevant.0 >>= λ filled. ok filled.0

    unfoldable pub compress_chunks :
        Unicode → String → List (RetrievedChunk F) → List (RetrievedChunk F)
    unfolding compressed
    compress_chunks u query chunks = or_uncompressed chunks (compressed u query chunks)
