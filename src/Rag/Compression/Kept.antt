-- ===== src/Rag/Compression/Kept.antt =====
-- The chunks that compression keeps.
use production_rag_system.Prelude.{
  ◌<◌, ◌||◌, sym, subst, All, All-map, Bool, true, false, fle, if◌then◌else◌, sort_desc,
  sort_desc-All, length-sort_desc, sorted_set, sorted_set-IsAscending, sorted_set-nonempty, ℕ, suc,
  ◌+◌, ◌-◌, ◌≤◌, min, ◌≡◌, refl, inl, inr, List, [], ◌∷◌, arith, String, length, map, Sub,
  Sub-trans, Bool-cases, ltb, leb, Floats, max, not, ◌&&◌, ◌/◌,
}
use production_rag_system.Prelude.Text.{Unicode, join}
use production_rag_system.Core.Result.{Result, ok, err, Exc, ◌>>=◌}
use production_rag_system.Core.Contracts.{RetrievedChunk}
use production_rag_system.Core.Settings.{Settings}
use production_rag_system.Rag.Compression.{
  rejoined, retext, trim_loop, trim_chunk, split_sentences, zip_logits, enumerate, fill_loop,
  token_budget_fill, or_uncompressed, compressed, compress_chunks, first_error, kept_before,
}
use production_rag_system.Rag.Compression.Picked.{pick-total}
use production_rag_system.Rag.Compression.Stages.{dedupe-valid, relevance_floor-valid}

-- Every result that is returned has the property.
abbrev Returns : {A : Type 0} → (A → Type 0) → Result Exc A → Type 0
Returns P (ok a) = P a
Returns P (err e) = Unit

>>=-Returns :
    {A B : Type 0} (P : A → Type 0) (Q : B → Type 0) (r : Result Exc A) (go : A → Result Exc B)
    → Returns P r
    → ((a : A) → P a → Returns Q (go a))
    → Returns Q (r >>= go)
>>=-Returns P Q (ok a) go h step = step a h
>>=-Returns P Q (err e) go h step = tt

module _ {F : Type 0} where
  -- The chunk itself, or the chunk with some of its sentences, at least one, in their order.
  pub data IsShortened (c : RetrievedChunk F) : RetrievedChunk F → Type 0 where
    whole : IsShortened c c
    trimmed :
        (kept : List String)
        → Sub kept (split_sentences c.text)
        → 1 ≤ length kept
        → IsShortened c (record c { text = join " " kept })

  -- The chunks of the second list come from those of the first, in order, by leaving some out and
  -- shortening others.
  pub data IsCompressed : List (RetrievedChunk F) → List (RetrievedChunk F) → Type 0 where
    nil : IsCompressed [] []
    keep :
        (c t : RetrievedChunk F) {cs ts : List (RetrievedChunk F)}
        → IsShortened c t
        → IsCompressed cs ts
        → IsCompressed (c ∷ cs) (t ∷ ts)
    skip :
        (c : RetrievedChunk F) {cs ts : List (RetrievedChunk F)}
        → IsCompressed cs ts
        → IsCompressed (c ∷ cs) ts

  IsCompressed-nil : (cs : List (RetrievedChunk F)) → IsCompressed cs []
  IsCompressed-nil [] = nil
  IsCompressed-nil (c ∷ cs) = skip c (IsCompressed-nil cs)

  IsCompressed-refl : (cs : List (RetrievedChunk F)) → IsCompressed cs cs
  IsCompressed-refl [] = nil
  IsCompressed-refl (c ∷ cs) = keep c c whole (IsCompressed-refl cs)

  Sub-IsCompressed :
      {bs cs : List (RetrievedChunk F)}
      → Sub bs cs
      → {ts : List (RetrievedChunk F)} → IsCompressed bs ts
      → IsCompressed cs ts
  Sub-IsCompressed Sub.nil h = h
  Sub-IsCompressed (Sub.skip c p) h = skip c (Sub-IsCompressed p h)
  Sub-IsCompressed (Sub.keep c p) (keep b t short h) = keep c t short (Sub-IsCompressed p h)
  Sub-IsCompressed (Sub.keep c p) (skip b h) = skip c (Sub-IsCompressed p h)

module _ {F : Type 0} where
  kept_before-Returns :
      (P Q : List (RetrievedChunk F) × ℕ → Type 0) (c : RetrievedChunk F) (d : ℕ)
      (r : Result Exc (List (RetrievedChunk F) × ℕ))
      → Returns P r
      → ((out : List (RetrievedChunk F) × ℕ) → P out → Q (c ∷ out.0, d + out.1))
      → Returns Q (kept_before c d r)
  kept_before-Returns P Q c d (ok out) h step = step out h
  kept_before-Returns P Q c d (err e) h step = tt

  first_error-Returns :
      (P : RetrievedChunk F × ℕ → Type 0) (Q : List (RetrievedChunk F) × ℕ → Type 0)
      (r : Result Exc (RetrievedChunk F × ℕ))
      (go : RetrievedChunk F → ℕ → Result Exc (List (RetrievedChunk F) × ℕ))
      → Returns P r
      → ((t : RetrievedChunk F) (n : ℕ) → P (t, n) → Returns Q (go t n))
      → Returns Q (first_error r go)
  first_error-Returns P Q (ok (t, n)) go h step = step t n h
  first_error-Returns P Q (err e) go h step = tt

  retext-Returns :
      (chunk : RetrievedChunk F) (keep_idx : List ℕ)
      → All (λ i. i < length (split_sentences chunk.text)) keep_idx
      → 1 ≤ length keep_idx
      → Returns (λ t. IsShortened chunk t.0) (retext chunk (split_sentences chunk.text) keep_idx)
  retext-Returns chunk keep_idx inside some_one =
      let sentences = split_sentences chunk.text in
      let (kept, picked, sub, size) =
        pick-total 0 sentences (sorted_set keep_idx)
          (sorted_set-IsAscending (length sentences) keep_idx inside) in
      subst
        (λ r.
          Returns (λ t. IsShortened chunk t.0)
            (rejoined chunk (length sentences - length (sorted_set keep_idx)) r))
        (sym picked) (trimmed kept sub (omega (arith, size, sorted_set-nonempty keep_idx some_one)))

  -- What the loop returns: the chunks in order, whole or with a shorter text, and enough of them.
  abbrev IsFilled : ℕ → ℕ → List (RetrievedChunk F) → List (RetrievedChunk F) × ℕ → Type 0
  IsFilled min_chunks n_kept cs out =
      IsCompressed cs out.0 × (min min_chunks (n_kept + length cs) ≤ n_kept + length out.0)

  kept_before-IsFilled :
      (m k : ℕ) (c t : RetrievedChunk F)
      → IsShortened c t
      → (cs : List (RetrievedChunk F)) (n : ℕ) (r : Result Exc (List (RetrievedChunk F) × ℕ))
      → Returns (IsFilled m (suc k) cs) r
      → Returns (IsFilled m k (c ∷ cs)) (kept_before t n r)
  kept_before-IsFilled m k c t same cs n r h =
      kept_before-Returns (IsFilled m (suc k) cs) (IsFilled m k (c ∷ cs)) t n r h
        (λ out q. (keep c t same q.0, omega (arith, q.1)))

if_all :
    (P : ℕ → Type 0) (b : Bool) (xs ys : List ℕ)
    → All P xs
    → All P ys
    → All P (if b then xs else ys)
if_all P true xs ys hx hy = hx
if_all P false xs ys hx hy = hy

module _ {F : Type 0} where
  -- Each sentence with an index in range, and all of them.
  abbrev IsNumbered : ℕ → List String → List ((ℕ × String) × F) → Type 0
  IsNumbered lo sentences scored =
      All (λ e. e.0.0 < lo + length sentences) scored × (length scored ≡ length sentences)

  zip_logits-Returns :
      (lo : ℕ) (sentences : List String) (logits : List F)
      → Returns (IsNumbered lo sentences) (zip_logits (enumerate lo sentences) logits)
  zip_logits-Returns lo [] logits = (tt, refl)
  zip_logits-Returns lo (s ∷ sentences) [] = tt
  zip_logits-Returns lo (s ∷ sentences) (l ∷ logits) =
      by_rest (zip_logits (enumerate (suc lo) sentences) logits)
        (zip_logits-Returns (suc lo) sentences logits)
    where
      by_rest :
          (r : Result Exc (List ((ℕ × String) × F)))
          → Returns (IsNumbered (suc lo) sentences) r
          → Returns
              (IsNumbered lo (s ∷ sentences))
              (elim r [ ok rest ↦ ok (((lo, s), l) ∷ rest) | err e ↦ err e ])
      by_rest (ok rest) (inside, size) =
          ((omega arith, All-map (λ e h. omega (arith, h)) rest inside), omega (arith, size))
      by_rest (err e) h = tt

module _ {F : Type 0} ⦃fl : Floats F⦄ (count_tokens : String → ℕ)
    (score : List (String × String) → Result Exc (List F)) where
  -- The indices that are kept are those of the sentences.
  trim_loop-All :
      (P : ℕ → Type 0) (budget : ℕ) (order : List ((ℕ × String) × F)) (keep_idx : List ℕ) (used : ℕ)
      → All (λ e. P e.0.0) order
      → All P keep_idx
      → All P (trim_loop count_tokens score budget order keep_idx used)
  unfolding trim_loop
  trim_loop-All P budget [] keep_idx used h k = k
  trim_loop-All P budget (((i, s), l) ∷ order) keep_idx used h k =
      if_all P (leb (length keep_idx) 0 || leb (used + count_tokens s) budget) _ _
        (if_all P (leb budget (used + count_tokens s)) _ _ (h.0, k)
          (trim_loop-All P budget order (i ∷ keep_idx) (used + count_tokens s) h.1 (h.0, k)))
        (if_all P (leb budget used) _ _ k (trim_loop-All P budget order keep_idx used h.1 k))

  trim_loop-nonempty :
      (budget : ℕ) (order : List ((ℕ × String) × F)) (keep_idx : List ℕ) (used : ℕ)
      → 1 ≤ length keep_idx + length order
      → 1 ≤ length (trim_loop count_tokens score budget order keep_idx used)
  unfolding trim_loop
  trim_loop-nonempty budget [] keep_idx used h = omega (arith, h)
  trim_loop-nonempty budget (((i, s), l) ∷ order) [] used h =
      ground (arith, trim_loop-nonempty budget order (i ∷ []) (used + count_tokens s) (omega arith))
  trim_loop-nonempty budget (((i, s), l) ∷ order) (k ∷ keep_idx) used h = ground (
    arith,
    trim_loop-nonempty budget order (i ∷ k ∷ keep_idx) (used + count_tokens s) (omega arith),
    trim_loop-nonempty budget order (k ∷ keep_idx) used (omega arith),
  )

  trim_chunk-Returns :
      (query : String) (chunk : RetrievedChunk F) (budget : ℕ)
      → Returns (λ t. IsShortened chunk t.0) (trim_chunk count_tokens score query chunk budget)
  unfolding trim_chunk
  trim_chunk-Returns query chunk budget =
      let sentences = split_sentences chunk.text in
      elim (Bool-cases (leb (count_tokens chunk.text) budget)) [
        | inl fits ↦ rw (fits, trim_chunk) whole
        | inr over ↦ elim (Bool-cases (leb (length sentences) 1)) [
          | inl one ↦ rw (over, one, trim_chunk) whole
          | inr several ↦
              rw (over, several, trim_chunk)
                (>>=-Returns (λ l. Unit) _ (score (map (λ s. (query, s)) sentences)) _ (true_of _)
                  (λ logits h.
                    >>=-Returns (IsNumbered 0 sentences) _
                      (zip_logits (enumerate 0 sentences) logits) _
                      (zip_logits-Returns 0 sentences logits)
                      (λ scored numbered.
                        let order = sort_desc (λ a b. fle a.1 b.1) scored in
                        retext-Returns chunk (trim_loop count_tokens score budget order [] 0)
                          (trim_loop-All (λ i. i < length sentences) budget order [] 0
                            (sort_desc-All (λ a b. fle a.1 b.1) (λ e. e.0.0 < length sentences)
                              scored (All-map (λ e h'. omega (arith, h')) scored numbered.0))
                            tt)
                          (trim_loop-nonempty budget order [] 0 (
                            ground (
                              arith,
                              numbered.1,
                              several,
                              length-sort_desc (λ (a b : (ℕ × String) × F). fle a.1 b.1) scored,
                            ))))))
        ]
      ]
    where
      true_of : {A : Type 0} (r : Result Exc A) → Returns (λ a. Unit) r
      true_of (ok a) = tt
      true_of (err e) = tt

  fill_loop-IsFilled :
      (query : String) (budget m k used : ℕ) (cs : List (RetrievedChunk F))
      → Returns (IsFilled m k cs) (fill_loop count_tokens score query budget m k used cs)
  unfolding fill_loop
  fill_loop-IsFilled query budget m k used [] = (nil, omega arith)
  fill_loop-IsFilled query budget m k used (c ∷ cs) =
      elim (Bool-cases (leb (used + count_tokens c.text) budget)) [
        | inl fits ↦
            rw (fits, fill_loop)
              (kept_before-IsFilled m k c c whole cs 0 _
                (fill_loop-IsFilled query budget m (suc k) (used + count_tokens c.text) cs))
        | inr over ↦ elim (Bool-cases (leb budget used && not (ltb k m))) [
          | inl stop ↦ rw (over, stop, fill_loop) (IsCompressed-nil (c ∷ cs), ground arith)
          | inr go ↦
              rw (over, go, fill_loop)
                (first_error-Returns (λ t. IsShortened c t.0) (IsFilled m k (c ∷ cs))
                  (trim_chunk count_tokens score query c (max ((budget - used) / max (m - k) 1) 1))
                  _ (trim_chunk-Returns query c (max ((budget - used) / max (m - k) 1) 1))
                  (λ t n same. elim (Bool-cases (ltb k m)) [
                    | inl must ↦ rw must (
                        kept_before-IsFilled m k c t same cs n _ (
                          fill_loop-IsFilled query budget m (suc k) (used + count_tokens t.text)
                            cs))
                    | inr free ↦ rw free (keep c t same (IsCompressed-nil cs), ground arith)
                  ]))
        ]
      ]

  module _ (settings : Settings F) where
    -- Compression drops and shortens only: the chunks that stay keep their order, ids, citation
    -- fields and scores, and the text of each is the one it had or some of its sentences, one at
    -- least, in their order; and at least min(COMPRESSION_MIN_CHUNKS, the number of chunks) stay,
    -- whatever the tokenizer counts and whether or not the cross-encoder fails.
    pub compress_chunks-IsKept :
        (u : Unicode) (query : String) (chunks : List (RetrievedChunk F))
        → IsCompressed chunks (compress_chunks count_tokens score settings u query chunks)
          × (min settings.compression_min_chunks (length chunks)
              ≤ length (compress_chunks count_tokens score settings u query chunks))
    unfolding compress_chunks compressed token_budget_fill
    compress_chunks-IsKept u query chunks =
        let (d, d_ok, d_sub, d_min) = dedupe-valid u chunks settings in
        let (r, r_ok, r_sub, r_min) = relevance_floor-valid d.0 settings in
        let m = min settings.compression_min_chunks (length r.0) in
        rw (d_ok, r_ok, compress_chunks, compressed)
          (fallback r.0 (token_budget_fill count_tokens score settings query r.0)
            (fill_loop-IsFilled query settings.compression_token_budget m 0 0 r.0)
            (Sub-trans d_sub r_sub) (omega (arith, d_min, r_min)))
      where
        fallback :
            (r : List (RetrievedChunk F)) (filled : Result Exc (List (RetrievedChunk F) × ℕ))
            → Returns (IsFilled (min settings.compression_min_chunks (length r)) 0 r) filled
            → Sub r chunks
            → min settings.compression_min_chunks (length chunks) ≤ length r
            → IsCompressed chunks (or_uncompressed chunks (filled >>= λ f. ok f.0))
              × (min settings.compression_min_chunks (length chunks)
                  ≤ length (or_uncompressed chunks (filled >>= λ f. ok f.0)))
        fallback r (ok f) h sub long = (Sub-IsCompressed sub h.0, omega (arith, h.1))
        fallback r (err e) h sub long = (IsCompressed-refl chunks, omega arith)
