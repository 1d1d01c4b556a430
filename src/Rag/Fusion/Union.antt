-- ===== src/Rag/Fusion/Union.antt =====
-- The theorem about `rrf_merge`.
use production_rag_system.Prelude.{
  ℕ, ◌≡◌, refl, sym, ap, ◌∙◌, subst, inl, inr, Bool, true, List, [], ◌∷◌, map, some, Dict, arith,
  String, ◌++◌, min, drop, contains, lookup-contains, contains-map-sort_desc, take-append-drop,
  length, take, Distinct, lookup, keys, values, is_some, All, All-map, All-zip, All-Distinct,
  All-into-map, map-map, ap₂, Distinct-map-sort_desc, length-take, sort_desc, sort_desc-All,
  sort_desc-IsDesc, IsDesc, Option-cases, Floats, fle, fzero,
}
use production_rag_system.Core.Result.{ok}
use production_rag_system.Core.Contracts.{RetrievedChunk}
use production_rag_system.Core.Settings.{Settings}
use production_rag_system.Rag.Fusion.{
  Pools, empty_pools, or_zero, merge_pools, keyed_scores, rrf_merge,
}
use production_rag_system.Rag.Fusion.Scores.{chunk_ids, IsPools, rank_total}
use production_rag_system.Rag.Fusion.Merged.{
  all_places, all_chunks, first_of, merge_pools-IsPools, merge_pools-lookup, merge_pools-total,
}

module _ {F : Type 0} ⦃fl : Floats F⦄ where
  abbrev le_keyed : RetrievedChunk F × F → RetrievedChunk F × F → Bool
  le_keyed a b = fle a.1 b.1

  -- Every chunk of the union has a score: `score[c.chunk_id]` never raises.
  keyed_scores-ok :
      (Q : RetrievedChunk F → Type 0) (m : Dict (RetrievedChunk F)) (scores : Dict F)
      → All (λ e. (e.1.chunk_id ≡ e.0) × (is_some (lookup e.0 scores) ≡ true)) m
      → All (λ e. Q e.1) m
      → (out : List (RetrievedChunk F × F)) × (keyed_scores (values m) scores ≡ ok out)
        × (map (λ e. e.0.chunk_id) out ≡ keys m)
        × All (λ e. (e.1 ≡ or_zero (lookup e.0.chunk_id scores)) × Q e.0) out
  unfolding keyed_scores
  keyed_scores-ok Q [] scores h q = ([], refl, refl, tt)
  keyed_scores-ok Q ((cid, c) ∷ m) scores h q =
      let (out, done, ids, each) = keyed_scores-ok Q m scores h.1 q.1 in
      elim (Option-cases (lookup cid scores)) [
        | inl e ↦ absurd (ground arith)
        | inr (s, e) ↦
            let e' : lookup c.chunk_id scores ≡ some s = ap (λ j. lookup j scores) h.0.0 ∙ e in
            ((c, s) ∷ out, rw (e', done, keyed_scores), ap₂ (◌∷◌) h.0.0 ids, ((rw e', q.0), each))
      ]

  is_some-first_of :
      (j : String) (cs : List (RetrievedChunk F))
      → is_some (first_of j cs) ≡ contains (chunk_ids cs) j
  is_some-first_of j [] = refl
  is_some-first_of j (c ∷ cs) = ground (arith, is_some-first_of j cs)

  pub IsDesc-map :
      (g : RetrievedChunk F → F) (l : List (RetrievedChunk F × F))
      → All (λ e. e.1 ≡ g e.0) l
      → IsDesc le_keyed l
      → IsDesc (λ a b. fle (g a) (g b)) (map (λ e. e.0) l)
  IsDesc-map g [] h d = tt
  IsDesc-map g (e ∷ l) h d = (below l h.1 d.0, IsDesc-map g l h.1 d.1)
    where
      below :
          (xs : List (RetrievedChunk F × F))
          → All (λ e. e.1 ≡ g e.0) xs
          → All (λ y. le_keyed y e ≡ true) xs
          → All (λ y. fle (g y) (g e.0) ≡ true) (map (λ e. e.0) xs)
      below [] _ _ = tt
      below (x ∷ xs) q b = (rw (← q.0, ← h.0) b.0, below xs q.1 b.1)

module _ {F : Type 0} ⦃fl : Floats F⦄ (pools : List (List (RetrievedChunk F)))
    (settings : Settings F) where
  -- The score of a chunk: the sum of its reciprocal ranks over all pools.
  abbrev pub merged_score : RetrievedChunk F → F
  merged_score c = rank_total settings.rewrite_rrf_k c.chunk_id fzero (all_places pools)

  pub record IsMerged (out : List (RetrievedChunk F)) : Type 0 where
    -- The chunks that the cap cuts off.
    pub rest : List (RetrievedChunk F)
    pub size : length out ≡ min settings.rewrite_merged_top_k (length (out ++ rest))
    -- Just the ids of the pools, each once.
    pub complete :
        (j : String)
        → contains (chunk_ids (out ++ rest)) j ≡ contains (chunk_ids (all_chunks pools)) j
    pub distinct : Distinct (chunk_ids (out ++ rest))
    pub ordered : IsDesc (λ a b. fle (merged_score a) (merged_score b)) (out ++ rest)
    -- The whole object that comes first in the pools.
    pub first : All (λ c. first_of c.chunk_id (all_chunks pools) ≡ some c) (out ++ rest)

  abbrev k : ℕ
  k = settings.rewrite_rrf_k

  abbrev union : Pools F
  union = merge_pools k pools empty_pools

  union-IsPools : IsPools union
  union-IsPools = merge_pools-IsPools k pools (record { keyed = tt; distinct = tt })

  union-first :
      (c : RetrievedChunk F)
      → lookup c.chunk_id union.chunks ≡ some c
      → first_of c.chunk_id (all_chunks pools) ≡ some c
  union-first c h = sym (merge_pools-lookup k pools empty_pools c.chunk_id) ∙ h

  union-ids :
      (j : String) → contains (keys union.chunks) j ≡ contains (chunk_ids (all_chunks pools)) j
  union-ids j =
      sym (lookup-contains j union.chunks)
      ∙ (ap is_some (merge_pools-lookup k pools empty_pools j)
          ∙ is_some-first_of j (all_chunks pools))

  keyed-IsMerged :
      (all : List (RetrievedChunk F × F))
      → map (λ e. e.0.chunk_id) all ≡ keys union.chunks
      → All
          (λ e.
            (e.1 ≡ or_zero (lookup e.0.chunk_id union.scores))
            × (lookup e.0.chunk_id union.chunks ≡ some e.0))
          all
      → IsMerged (take settings.rewrite_merged_top_k (map (λ e. e.0) (sort_desc le_keyed all)))
  keyed-IsMerged all ids each = record {
    rest = drop n chunks;
    size = length-take n chunks ∙ ap (λ l. min n (length l)) (sym tiled);
    complete = λ j.
        ap (λ l. contains (chunk_ids l) j) tiled
        ∙ (ap (λ l. contains l j) (sym (map-map (λ e. e.0) (λ c. c.chunk_id) sorted))
            ∙ (contains-map-sort_desc le_keyed (λ e. e.0.chunk_id) all j
                ∙ (ap (λ l. contains l j) ids ∙ union-ids j)));
    distinct =
        subst (λ l. Distinct (chunk_ids l)) (sym tiled)
          (subst Distinct (map-map (λ e. e.0) (λ c. c.chunk_id) sorted) (
            Distinct-map-sort_desc le_keyed (λ e. e.0.chunk_id) all
              (subst Distinct (sym ids) union-IsPools.distinct)));
    ordered = subst (IsDesc (λ a b. fle (merged_score a) (merged_score b))) (sym tiled) (
        IsDesc-map merged_score sorted
          (sort_desc-All le_keyed _ all
            (All-map (λ e q. q.0 ∙ merge_pools-total k pools empty_pools e.0.chunk_id) all each))
          (sort_desc-IsDesc le_keyed (λ a b. fl.le_total a.1 b.1) (λ a b c. fl.le_trans a.1 b.1 c.1)
            all));
    first = subst (All (λ c. first_of c.chunk_id (all_chunks pools) ≡ some c)) (sym tiled) (
        All-into-map (λ c. first_of c.chunk_id (all_chunks pools) ≡ some c) (λ e. e.0) sorted
          (sort_desc-All le_keyed _ all (All-map (λ e q. union-first e.0 q.1) all each)));
  }
    where
      n : ℕ
      n = settings.rewrite_merged_top_k

      sorted : List (RetrievedChunk F × F)
      sorted = sort_desc le_keyed all

      chunks : List (RetrievedChunk F)
      chunks = map (λ e. e.0) sorted

      tiled : take n chunks ++ drop n chunks ≡ chunks
      tiled = take-append-drop n chunks

  -- The merge across the queries' pools never raises. With what is cut off, its pool has just the
  -- ids of the pools, each once, for each the whole chunk that came first, in falling order of the
  -- sum of the reciprocal ranks over all pools; it is the first REWRITE_MERGED_TOP_K of them, or
  -- all.
  pub rrf_merge-IsMerged :
      (out : List (RetrievedChunk F)) × (rrf_merge pools settings ≡ ok out) × IsMerged out
  unfolding rrf_merge
  rrf_merge-IsMerged =
      let (all, done, ids, each) =
        keyed_scores-ok (λ c. lookup c.chunk_id union.chunks ≡ some c) union.chunks union.scores
          union-IsPools.keyed
          (All-map (λ e q. ap (λ j. lookup j union.chunks) q.0.0 ∙ q.1) union.chunks
            (All-zip _ _ union.chunks union-IsPools.keyed
              (All-Distinct union.chunks union-IsPools.distinct))) in
      (
        take settings.rewrite_merged_top_k (map (λ e. e.0) (sort_desc le_keyed all)),
        rw (done, rrf_merge),
        keyed-IsMerged all ids each,
      )
