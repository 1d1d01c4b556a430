-- ===== src/Rag/Fusion/Sparse.antt =====
-- The sparse loop of `rrf_fuse`, over hydrated chunks that are filed under their own ids.
use production_rag_system.Prelude.{
  ℕ, ◌+◌, String, ◌≡◌, refl, ap, ◌∙◌, ◌⊎◌, inl, inr, Bool, true, false, ◌||◌, List, [], ◌∷◌, some,
  Dict, arith, str_eq, eq_iff, lookup, insert, is_some, is_some-lookup-insert, All-lookup,
  Option-cases, Floats, fadd, fratio, if◌then◌else◌,
}
use production_rag_system.Core.Contracts.{RetrievedChunk}
use production_rag_system.Rag.Fusion.{SparseHit, Pools, or_zero, bump_score, fuse_hit, fuse_sparse}
use production_rag_system.Rag.Fusion.Scores.{
  hit_places, IsPools, IsKeyed, rank_total, or_zero-bump, IsPools-add,
}

module _ {F : Type 0} ⦃fl : Floats F⦄ (k : ℕ) (hydrated : Dict (RetrievedChunk F)) where
  -- A chunk that the loop may show: it is fused already, or hydrated.
  abbrev pub shown : Pools F → String → Bool
  shown p j = is_some (lookup j p.chunks) || is_some (lookup j hydrated)

  -- The pools after a hit that is shown as `c`.
  abbrev add_hit : SparseHit F → RetrievedChunk F → Pools F → Pools F
  add_hit h c p = record {
    chunks = insert h.cid (record c { sparse_score = some h.score }) p.chunks;
    scores = bump_score k h.cid h.rank p.scores;
  }

  -- A hit is skipped exactly if it is in neither dictionary.
  fuse_hit-view :
      (h : SparseHit F) (p : Pools F)
      → ((fuse_hit k hydrated h p ≡ p) × (shown p h.cid ≡ false))
        ⊎ ((c : RetrievedChunk F) × (fuse_hit k hydrated h p ≡ add_hit h c p)
            × (shown p h.cid ≡ true)
            × ((lookup h.cid p.chunks ≡ some c) ⊎ (lookup h.cid hydrated ≡ some c)))
  unfolding fuse_hit
  fuse_hit-view h p = elim (Option-cases (lookup h.cid p.chunks)) [
    | inr (c, e) ↦ inr (c, rw (e, fuse_hit), rw e, inl e)
    | inl e ↦ elim (Option-cases (lookup h.cid hydrated)) [
      | inl e' ↦ inl (rw (e, e', fuse_hit), rw (e, e'))
      | inr (c, e') ↦ inr (c, rw (e, e', fuse_hit), rw (e, e'), inr e')
    ]
  ]

  fuse_hit-IsPools :
      (h : SparseHit F) {p : Pools F}
      → IsKeyed hydrated
      → IsPools p
      → IsPools (fuse_hit k hydrated h p)
  fuse_hit-IsPools h {p} keyed w = elim (fuse_hit-view h p) [
    | inl (e, _) ↦ rw e w
    | inr (c, e, _, from) ↦ rw e (
        IsPools-add k h.cid h.rank (record c { sparse_score = some h.score })
          (elim from [
            | inl q ↦
                (All-lookup (λ x. (x.1.chunk_id ≡ x.0) × (is_some (lookup x.0 p.scores) ≡ true))
                  h.cid p.chunks w.keyed q).0
            | inr q ↦ keyed h.cid c q
          ])
          w)
  ]

  added-shown :
      (h : SparseHit F) (c : RetrievedChunk F) (p : Pools F) (j : String)
      → is_some (lookup j (add_hit h c p).chunks) ≡ str_eq h.cid j || is_some (lookup j p.chunks)
  added-shown h c p j =
      is_some-lookup-insert h.cid j (record c { sparse_score = some h.score }) p.chunks

  fuse_hit-shown :
      (h : SparseHit F) (p : Pools F) (j : String) → shown (fuse_hit k hydrated h p) j ≡ shown p j
  fuse_hit-shown h p j = elim (fuse_hit-view h p) [
    | inl (e, _) ↦ rw e
    | inr (c, e, s, _) ↦ rw e (ground (arith, eq_iff h.cid j, added-shown h c p j))
  ]

  fuse_hit-keeps :
      (h : SparseHit F) (p : Pools F) (j : String)
      → is_some (lookup j p.chunks) ≡ true
      → is_some (lookup j (fuse_hit k hydrated h p).chunks) ≡ true
  fuse_hit-keeps h p j known = elim (fuse_hit-view h p) [
    | inl (e, _) ↦ rw e known
    | inr (c, e, _, _) ↦ rw e (ground (arith, added-shown h c p j))
  ]

  fuse_hit-total :
      (h : SparseHit F) (p : Pools F) (j : String)
      → shown p j ≡ true
      → or_zero (lookup j (fuse_hit k hydrated h p).scores) ≡ (
          if str_eq h.cid j
          then fadd (or_zero (lookup j p.scores)) (fratio 1 (k + h.rank))
          else or_zero (lookup j p.scores))
  fuse_hit-total h p j known = elim (fuse_hit-view h p) [
    | inl (e, s) ↦ rw e (ground (arith, eq_iff h.cid j))
    | inr (c, e, _, _) ↦ rw e (or_zero-bump k h.cid h.rank p.scores j)
  ]

  pub fuse_sparse-IsPools :
      (sparse : List (SparseHit F)) {p : Pools F}
      → IsKeyed hydrated
      → IsPools p
      → IsPools (fuse_sparse k hydrated sparse p)
  unfolding fuse_sparse
  fuse_sparse-IsPools [] keyed w = w
  fuse_sparse-IsPools (h ∷ hs) keyed w = fuse_sparse-IsPools hs keyed (fuse_hit-IsPools h keyed w)

  pub fuse_sparse-shown :
      (sparse : List (SparseHit F)) (p : Pools F) (j : String)
      → shown (fuse_sparse k hydrated sparse p) j ≡ shown p j
  unfolding fuse_sparse
  fuse_sparse-shown [] p j = refl
  fuse_sparse-shown (h ∷ hs) p j =
      fuse_sparse-shown hs (fuse_hit k hydrated h p) j ∙ fuse_hit-shown h p j

  pub fuse_sparse-keeps :
      (sparse : List (SparseHit F)) (p : Pools F) (j : String)
      → is_some (lookup j p.chunks) ≡ true
      → is_some (lookup j (fuse_sparse k hydrated sparse p).chunks) ≡ true
  unfolding fuse_sparse
  fuse_sparse-keeps [] p j known = known
  fuse_sparse-keeps (h ∷ hs) p j known =
      fuse_sparse-keeps hs (fuse_hit k hydrated h p) j (fuse_hit-keeps h p j known)

  pub fuse_sparse-total :
      (sparse : List (SparseHit F)) (p : Pools F) (j : String)
      → shown p j ≡ true
      → or_zero (lookup j (fuse_sparse k hydrated sparse p).scores)
        ≡ rank_total k j (or_zero (lookup j p.scores)) (hit_places sparse)
  unfolding fuse_sparse
  fuse_sparse-total [] p j known = refl
  fuse_sparse-total (h ∷ hs) p j known =
      fuse_sparse-total hs (fuse_hit k hydrated h p) j (fuse_hit-shown h p j ∙ known)
      ∙ ap (λ a. rank_total k j a (hit_places hs)) (fuse_hit-total h p j known)
