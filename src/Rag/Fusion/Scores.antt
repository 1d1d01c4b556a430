-- ===== src/Rag/Fusion/Scores.antt =====
-- What a chunk's score is, and the loops of Rag/Fusion against it.
use production_rag_system.Prelude.{
  ℕ, ◌+◌, String, ◌≡◌, refl, ◌∙◌, true, ◌||◌, List, [], ◌∷◌, ◌++◌, map, some, Dict, arith, str_eq,
  eq_iff, contains, Distinct, lookup, insert, keys, is_some, lookup-insert, is_some-lookup-insert,
  Distinct-keys-insert, All, All-insert, All-map, Floats, fadd, fratio, if◌then◌else◌,
}
use production_rag_system.Core.Contracts.{RetrievedChunk}
use production_rag_system.Rag.Fusion.{SparseHit, Pools, or_zero, bump_score, fuse_dense}

module _ {F : Type 0} where
  abbrev pub chunk_ids : List (RetrievedChunk F) → List String
  chunk_ids = map (λ c. c.chunk_id)

  -- Where each chunk of a list stands, counted from `rank`.
  abbrev pub places : ℕ → List (RetrievedChunk F) → List (String × ℕ)
  places rank [] = []
  places rank (c ∷ cs) = (c.chunk_id, rank) ∷ places (rank + 1) cs

  abbrev pub hit_places : List (SparseHit F) → List (String × ℕ)
  hit_places [] = []
  hit_places (h ∷ hs) = (h.cid, h.rank) ∷ hit_places hs

  -- A dictionary of chunks whose key is the chunk's id, with a score for each.
  pub record IsPools (p : Pools F) : Type 0 where
    pub keyed : All (λ e. (e.1.chunk_id ≡ e.0) × (is_some (lookup e.0 p.scores) ≡ true)) p.chunks
    pub distinct : Distinct (keys p.chunks)

  -- Each chunk of the dictionary is filed under its own id.
  abbrev pub IsKeyed : Dict (RetrievedChunk F) → Type 0
  IsKeyed m = (j : String) (c : RetrievedChunk F) → lookup j m ≡ some c → c.chunk_id ≡ j

module _ {F : Type 0} ⦃fl : Floats F⦄ where
  -- The sum over the places where `cid` stands, in their order, of `1.0 / (k + rank)`.
  abbrev pub rank_total : ℕ → String → F → List (String × ℕ) → F
  rank_total k cid acc [] = acc
  rank_total k cid acc ((j, r) ∷ rest) =
      rank_total k cid (if str_eq j cid then fadd acc (fratio 1 (k + r)) else acc) rest

  pub rank_total-append :
      (k : ℕ) (cid : String) (acc : F) (xs ys : List (String × ℕ))
      → rank_total k cid acc (xs ++ ys) ≡ rank_total k cid (rank_total k cid acc xs) ys
  rank_total-append k cid acc [] ys = refl
  rank_total-append k cid acc ((j, r) ∷ xs) ys =
      rank_total-append k cid (if str_eq j cid then fadd acc (fratio 1 (k + r)) else acc) xs ys

  pub or_zero-bump :
      (k : ℕ) (cid : String) (rank : ℕ) (scores : Dict F) (j : String)
      → or_zero (lookup j (bump_score k cid rank scores)) ≡ (
          if str_eq cid j
          then fadd (or_zero (lookup j scores)) (fratio 1 (k + rank))
          else or_zero (lookup j scores))
  unfolding bump_score
  or_zero-bump k cid rank scores j = ground (
    arith,
    eq_iff cid j,
    lookup-insert cid j (fadd (or_zero (lookup cid scores)) (fratio 1 (k + rank))) scores,
  )

  pub is_some-bump :
      (k : ℕ) (cid : String) (rank : ℕ) (scores : Dict F) (j : String)
      → is_some (lookup j (bump_score k cid rank scores))
        ≡ str_eq cid j || is_some (lookup j scores)
  unfolding bump_score
  is_some-bump k cid rank scores j =
      is_some-lookup-insert cid j (fadd (or_zero (lookup cid scores)) (fratio 1 (k + rank))) scores

  -- Adding a chunk under its own id, with its score, keeps the pools well formed.
  pub IsPools-add :
      (k : ℕ) (cid : String) (rank : ℕ) (c : RetrievedChunk F) {p : Pools F}
      → c.chunk_id ≡ cid
      → IsPools p
      → IsPools (record { chunks = insert cid c p.chunks; scores = bump_score k cid rank p.scores })
  IsPools-add k cid rank c {p} e h = record {
    keyed =
        All-insert
          (λ e.
            (e.1.chunk_id ≡ e.0) × (is_some (lookup e.0 (bump_score k cid rank p.scores)) ≡ true))
          cid c p.chunks (e, ground (arith, is_some-bump k cid rank p.scores cid, eq_iff cid cid))
          (All-map (λ x q. (q.0, ground (arith, is_some-bump k cid rank p.scores x.0))) p.chunks
            h.keyed);
    distinct = Distinct-keys-insert cid c p.chunks h.distinct;
  }

  -- The dense loop.
  pub fuse_dense-IsPools :
      (k rank : ℕ) (dense : List (RetrievedChunk F)) {p : Pools F}
      → IsPools p
      → IsPools (fuse_dense k rank dense p)
  unfolding fuse_dense
  fuse_dense-IsPools k rank [] h = h
  fuse_dense-IsPools k rank (c ∷ cs) h =
      fuse_dense-IsPools k (rank + 1) cs (IsPools-add k c.chunk_id rank c refl h)

  pub fuse_dense-total :
      (k rank : ℕ) (dense : List (RetrievedChunk F)) (p : Pools F) (j : String)
      → or_zero (lookup j (fuse_dense k rank dense p).scores)
        ≡ rank_total k j (or_zero (lookup j p.scores)) (places rank dense)
  unfolding fuse_dense
  fuse_dense-total k rank [] p j = refl
  fuse_dense-total k rank (c ∷ cs) p j =
      fuse_dense-total k (rank + 1) cs
        (record {
          chunks = insert c.chunk_id c p.chunks;
          scores = bump_score k c.chunk_id rank p.scores;
        })
        j
      ∙ rw or_zero-bump

  pub fuse_dense-shown :
      (k rank : ℕ) (dense : List (RetrievedChunk F)) (p : Pools F) (j : String)
      → is_some (lookup j (fuse_dense k rank dense p).chunks)
        ≡ is_some (lookup j p.chunks) || contains (chunk_ids dense) j
  unfolding fuse_dense
  fuse_dense-shown k rank [] p j = ground arith
  fuse_dense-shown k rank (c ∷ cs) p j = ground (
    arith,
    is_some-lookup-insert c.chunk_id j c p.chunks,
    fuse_dense-shown k (rank + 1) cs
        (record {
          chunks = insert c.chunk_id c p.chunks;
          scores = bump_score k c.chunk_id rank p.scores;
        })
        j,
  )
