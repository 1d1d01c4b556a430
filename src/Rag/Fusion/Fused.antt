-- ===== src/Rag/Fusion/Fused.antt =====
-- What `rrf_fuse` returns: the fused, ranked and capped pool.
use production_rag_system.Prelude.{
  ℕ, ◌≤◌, ◌<◌, String, ◌≡◌, refl, sym, ap, ◌∙◌, ◌⊎◌, inl, inr, Bool, true, ◌||◌, List, [], ◌∷◌,
  ◌++◌, some, Dict, arith, length, take, contains, Distinct, lookup, keys, is_some, lookup-contains,
  All-self, All, All-zip, All-of-map, All-keys, subst, All-map, All-take, length-take,
  take_of_length-le, sort_desc, sort_desc-All, sort_desc-IsDesc, take-IsDesc, IsDesc,
  Distinct-map-take, Distinct-map-sort_desc, contains-map-sort_desc, Option-cases, Floats, fzero,
}
use production_rag_system.Core.Result.{ok}
use production_rag_system.Core.Contracts.{RetrievedChunk}
use production_rag_system.Core.Settings.{Settings}
use production_rag_system.Rag.Fusion.{
  SparseHit, Pools, empty_pools, or_zero, fuse_dense, fuse_sparse, stamp_scores, le_fused, rrf_fuse,
}
use production_rag_system.Rag.Fusion.Scores.{
  chunk_ids, places, hit_places, IsPools, IsKeyed, rank_total, rank_total-append,
  fuse_dense-IsPools, fuse_dense-total, fuse_dense-shown,
}
use production_rag_system.Rag.Fusion.Sparse.{
  shown, fuse_sparse-IsPools, fuse_sparse-shown, fuse_sparse-keeps, fuse_sparse-total,
}

module _ {F : Type 0} ⦃fl : Floats F⦄ where
  -- `fused_score[cid]` is there for every chunk of well-formed pools.
  stamp_scores-ok :
      (m : Dict (RetrievedChunk F)) (scores : Dict F)
      → All (λ e. (e.1.chunk_id ≡ e.0) × (is_some (lookup e.0 scores) ≡ true)) m
      → (out : List (RetrievedChunk F)) × (stamp_scores m scores ≡ ok out)
        × (chunk_ids out ≡ keys m)
        × All (λ c. c.fused_score ≡ some (or_zero (lookup c.chunk_id scores))) out
  unfolding stamp_scores
  stamp_scores-ok [] scores h = ([], refl, refl, tt)
  stamp_scores-ok ((cid, c) ∷ rest) scores h =
      let (out, stamped, ids, scored) = stamp_scores-ok rest scores h.1 in
      elim (Option-cases (lookup cid scores)) [
        | inl e ↦ absurd (ground arith)
        | inr (s, e) ↦ (
          (record c { fused_score = some s }) ∷ out,
          rw (e, stamped, stamp_scores),
          ground arith,
          (rw (h.0.0, e) refl, scored),
        )
      ]

  le_fused_total : (a b : RetrievedChunk F) → (le_fused a b ≡ true) ⊎ (le_fused b a ≡ true)
  le_fused_total a b = fl.le_total (or_zero a.fused_score) (or_zero b.fused_score)

  le_fused_trans :
      (a b c : RetrievedChunk F) → le_fused a b ≡ true → le_fused b c ≡ true → le_fused a c ≡ true
  le_fused_trans a b c =
      fl.le_trans (or_zero a.fused_score) (or_zero b.fused_score) (or_zero c.fused_score)

module _ {F : Type 0} ⦃fl : Floats F⦄ (dense : List (RetrievedChunk F))
    (sparse : List (SparseHit F)) (hydrated : Dict (RetrievedChunk F)) (settings : Settings F) where
  abbrev pub is_candidate : String → Bool
  is_candidate j = contains (chunk_ids dense) j || is_some (lookup j hydrated)

  pub record IsFused (out : List (RetrievedChunk F)) : Type 0 where
    pub bounded : length out ≤ settings.hybrid_fused_top_k
    pub distinct : Distinct (chunk_ids out)
    pub ordered : IsDesc le_fused out
    -- The score is the sum of the reciprocal ranks over both lists.
    pub scored :
        All
          (λ c.
            c.fused_score
            ≡ some (
                rank_total settings.hybrid_rrf_k c.chunk_id fzero
                  (places 1 dense ++ hit_places sparse)))
          out
    pub known : All (λ c. is_candidate c.chunk_id ≡ true) out
    -- No dense chunk is lost while there is room.
    pub complete :
        length out < settings.hybrid_fused_top_k
        → (j : String) → contains (chunk_ids dense) j ≡ true
        → contains (chunk_ids out) j ≡ true

  abbrev k : ℕ
  k = settings.hybrid_rrf_k

  abbrev after_dense : Pools F
  after_dense = fuse_dense k 1 dense empty_pools

  abbrev pools : Pools F
  pools = fuse_sparse k hydrated sparse after_dense

  pools-IsPools : IsKeyed hydrated → IsPools pools
  pools-IsPools keyed =
      fuse_sparse-IsPools k hydrated sparse keyed
        (fuse_dense-IsPools k 1 dense (record { keyed = tt; distinct = tt }))

  shown-after_dense : (j : String) → shown k hydrated after_dense j ≡ is_candidate j
  shown-after_dense j = ground (arith, fuse_dense-shown k 1 dense empty_pools j)

  pools-candidate : (j : String) → is_some (lookup j pools.chunks) ≡ true → is_candidate j ≡ true
  pools-candidate j h =
      ground (arith, fuse_sparse-shown k hydrated sparse after_dense j, shown-after_dense j)

  pools-total :
      (j : String)
      → is_candidate j ≡ true
      → or_zero (lookup j pools.scores) ≡ rank_total k j fzero (places 1 dense ++ hit_places sparse)
  pools-total j h =
      fuse_sparse-total k hydrated sparse after_dense j (shown-after_dense j ∙ h)
      ∙ ap (λ a. rank_total k j a (hit_places sparse)) (fuse_dense-total k 1 dense empty_pools j)
      ∙ sym (rank_total-append k j fzero (places 1 dense) (hit_places sparse))

  -- Every chunk of the pools, with its score, in the order of insertion.
  ranked-IsFused :
      IsKeyed hydrated
      → (all : List (RetrievedChunk F)) → chunk_ids all ≡ keys pools.chunks
      → All (λ c. c.fused_score ≡ some (or_zero (lookup c.chunk_id pools.scores))) all
      → All (λ c. is_some (lookup c.chunk_id pools.chunks) ≡ true) all
      → IsFused (take settings.hybrid_fused_top_k (sort_desc le_fused all))
  ranked-IsFused keyed all ids scored there = record {
    bounded = omega (arith, length-take n sorted);
    distinct =
        Distinct-map-take (λ c. c.chunk_id) n sorted
          (Distinct-map-sort_desc le_fused (λ c. c.chunk_id) all
            (subst Distinct (sym ids) (pools-IsPools keyed).distinct));
    ordered =
        take-IsDesc le_fused n sorted (sort_desc-IsDesc le_fused le_fused_total le_fused_trans all);
    scored = All-take _ n sorted (
        sort_desc-All le_fused _ all (
          All-map (λ c q. q.0 ∙ ap some (pools-total c.chunk_id (pools-candidate c.chunk_id q.1)))
            all (All-zip _ _ all scored there)));
    known =
        All-take _ n sorted
          (sort_desc-All le_fused _ all (All-map (λ c q. pools-candidate c.chunk_id q) all there));
    complete = λ room j dense_j.
        rw (take_of_length-le n sorted (omega (arith, length-take n sorted))) (
          contains-map-sort_desc le_fused (λ c. c.chunk_id) all j
          ∙ ap (λ l. contains l j) ids
          ∙ sym (lookup-contains j pools.chunks)
          ∙ fuse_sparse-keeps k hydrated sparse after_dense j
              (ground (arith, fuse_dense-shown k 1 dense empty_pools j)));
  }
    where
      n : ℕ
      n = settings.hybrid_fused_top_k

      sorted : List (RetrievedChunk F)
      sorted = sort_desc le_fused all

  -- Over hydrated chunks that are filed under their own ids, the fusion never raises, and its pool
  -- is capped, free of duplicates, ordered by the fused score, scored by the sum of the reciprocal
  -- ranks of both lists, made of candidates only, and holds every dense chunk while there is room.
  pub rrf_fuse-IsFused :
      IsKeyed hydrated
      → (out : List (RetrievedChunk F)) × (rrf_fuse dense sparse hydrated settings ≡ ok out)
        × IsFused out
  unfolding rrf_fuse
  rrf_fuse-IsFused keyed =
      let (all, stamped, ids, scored) =
        stamp_scores-ok pools.chunks pools.scores (pools-IsPools keyed).keyed in
      (
        take settings.hybrid_fused_top_k (sort_desc le_fused all),
        rw (stamped, rrf_fuse),
        ranked-IsFused keyed all ids scored (
            All-of-map (λ j. is_some (lookup j pools.chunks) ≡ true) (λ c. c.chunk_id) all
              (subst (All (λ j. is_some (lookup j pools.chunks) ≡ true)) (sym ids)
                (All-keys _ pools.chunks (All-self pools.chunks)))),
      )
