-- ===== src/Rag/Fusion/Merged.antt =====
-- What `rrf_merge` returns: the union of the per-query pools, ranked and capped.
use production_rag_system.Prelude.{
  ℕ, ◌+◌, String, ◌≡◌, refl, sym, ap, ◌∙◌, subst, inl, inr, List, [], ◌∷◌, ◌++◌, Option, none, some,
  arith, str_eq, eq_iff, find, lookup, insert, lookup-insert, All-map, Option-cases, Floats,
  if◌then◌else◌,
}
use production_rag_system.Core.Contracts.{RetrievedChunk}
use production_rag_system.Rag.Fusion.{Pools, or_zero, bump_score, merge_pool, merge_pools}
use production_rag_system.Rag.Fusion.Scores.{
  places, IsPools, rank_total, rank_total-append, or_zero-bump, is_some-bump, IsPools-add,
}

module _ {F : Type 0} where
  -- All places, pool by pool.
  abbrev pub all_places : List (List (RetrievedChunk F)) → List (String × ℕ)
  all_places [] = []
  all_places (pool ∷ pools) = places 1 pool ++ all_places pools

  abbrev pub all_chunks : List (List (RetrievedChunk F)) → List (RetrievedChunk F)
  all_chunks [] = []
  all_chunks (pool ∷ pools) = pool ++ all_chunks pools

  -- The first chunk of an id.
  abbrev pub first_of : String → List (RetrievedChunk F) → Option (RetrievedChunk F)
  first_of j = find (λ c. str_eq c.chunk_id j)

  abbrev pub or_else :
      Option (RetrievedChunk F) → Option (RetrievedChunk F) → Option (RetrievedChunk F)
  or_else none o = o
  or_else (some c) o = some c

  or_else-first_of :
      (o : Option (RetrievedChunk F)) (j : String) (xs ys : List (RetrievedChunk F))
      → or_else (or_else o (first_of j xs)) (first_of j ys) ≡ or_else o (first_of j (xs ++ ys))
  or_else-first_of o j [] ys = ground arith
  or_else-first_of o j (x ∷ xs) ys = ground (arith, or_else-first_of o j xs ys)

module _ {F : Type 0} ⦃fl : Floats F⦄ (k : ℕ) where
  -- One turn of the inner loop.
  abbrev merge_one : ℕ → RetrievedChunk F → Pools F → Pools F
  merge_one rank c p = record {
    chunks = elim (lookup c.chunk_id p.chunks) [
      | none ↦ insert c.chunk_id c p.chunks
      | some _ ↦ p.chunks
    ];
    scores = bump_score k c.chunk_id rank p.scores;
  }

  merge_one-IsPools :
      (rank : ℕ) (c : RetrievedChunk F) {p : Pools F} → IsPools p → IsPools (merge_one rank c p)
  merge_one-IsPools rank c {p} w = elim (Option-cases (lookup c.chunk_id p.chunks)) [
    | inl e ↦
        subst
          (λ o. IsPools (record {
            chunks = elim o [ none ↦ insert c.chunk_id c p.chunks | some _ ↦ p.chunks ];
            scores = bump_score k c.chunk_id rank p.scores;
          }))
          (sym e) (IsPools-add k c.chunk_id rank c refl w)
    | inr (d, e) ↦
        subst
          (λ o. IsPools (record {
            chunks = elim o [ none ↦ insert c.chunk_id c p.chunks | some _ ↦ p.chunks ];
            scores = bump_score k c.chunk_id rank p.scores;
          }))
          (sym e)
          (record {
            keyed =
                All-map (λ x q. (q.0, ground (arith, is_some-bump k c.chunk_id rank p.scores x.0)))
                  p.chunks w.keyed;
            distinct = w.distinct;
          })
  ]

  merge_one-lookup :
      (rank : ℕ) (c : RetrievedChunk F) (p : Pools F) (j : String)
      → lookup j (merge_one rank c p).chunks
        ≡ or_else (lookup j p.chunks) (if str_eq c.chunk_id j then some c else none)
  merge_one-lookup rank c p j =
      ground (arith, eq_iff c.chunk_id j, lookup-insert c.chunk_id j c p.chunks)

  merge_pool-IsPools :
      (rank : ℕ) (pool : List (RetrievedChunk F)) {p : Pools F}
      → IsPools p
      → IsPools (merge_pool k rank pool p)
  unfolding merge_pool
  merge_pool-IsPools rank [] w = w
  merge_pool-IsPools rank (c ∷ cs) w = merge_pool-IsPools (rank + 1) cs (merge_one-IsPools rank c w)

  merge_pool-lookup :
      (rank : ℕ) (pool : List (RetrievedChunk F)) (p : Pools F) (j : String)
      → lookup j (merge_pool k rank pool p).chunks ≡ or_else (lookup j p.chunks) (first_of j pool)
  unfolding merge_pool
  merge_pool-lookup rank [] p j = ground arith
  merge_pool-lookup rank (c ∷ cs) p j =
      merge_pool-lookup (rank + 1) cs (merge_one rank c p) j
      ∙ ap (λ o. or_else o (first_of j cs)) (merge_one-lookup rank c p j)
      ∙ ground arith

  merge_pool-total :
      (rank : ℕ) (pool : List (RetrievedChunk F)) (p : Pools F) (j : String)
      → or_zero (lookup j (merge_pool k rank pool p).scores)
        ≡ rank_total k j (or_zero (lookup j p.scores)) (places rank pool)
  unfolding merge_pool
  merge_pool-total rank [] p j = refl
  merge_pool-total rank (c ∷ cs) p j =
      merge_pool-total (rank + 1) cs (merge_one rank c p) j
      ∙ ap (λ a. rank_total k j a (places (rank + 1) cs))
          (or_zero-bump k c.chunk_id rank p.scores j)

  pub merge_pools-IsPools :
      (pools : List (List (RetrievedChunk F))) {p : Pools F}
      → IsPools p
      → IsPools (merge_pools k pools p)
  unfolding merge_pools
  merge_pools-IsPools [] w = w
  merge_pools-IsPools (pool ∷ pools) w = merge_pools-IsPools pools (merge_pool-IsPools 1 pool w)

  pub merge_pools-lookup :
      (pools : List (List (RetrievedChunk F))) (p : Pools F) (j : String)
      → lookup j (merge_pools k pools p).chunks
        ≡ or_else (lookup j p.chunks) (first_of j (all_chunks pools))
  unfolding merge_pools
  merge_pools-lookup [] p j = ground arith
  merge_pools-lookup (pool ∷ pools) p j =
      merge_pools-lookup pools (merge_pool k 1 pool p) j
      ∙ ap (λ o. or_else o (first_of j (all_chunks pools))) (merge_pool-lookup 1 pool p j)
      ∙ or_else-first_of (lookup j p.chunks) j pool (all_chunks pools)

  pub merge_pools-total :
      (pools : List (List (RetrievedChunk F))) (p : Pools F) (j : String)
      → or_zero (lookup j (merge_pools k pools p).scores)
        ≡ rank_total k j (or_zero (lookup j p.scores)) (all_places pools)
  unfolding merge_pools
  merge_pools-total [] p j = refl
  merge_pools-total (pool ∷ pools) p j =
      merge_pools-total pools (merge_pool k 1 pool p) j
      ∙ ap (λ a. rank_total k j a (all_places pools)) (merge_pool-total 1 pool p j)
      ∙ sym (rank_total-append k j (or_zero (lookup j p.scores)) (places 1 pool) (all_places pools))
