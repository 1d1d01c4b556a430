-- ===== src/Rag/Rewrite/Fanout.antt =====
-- The fan-out set of a rewrite, and what the fan-out does to the request's context.
use production_rag_system.Prelude.{
  String, ◌≡◌, refl, ◌∙◌, inl, inr, Bool, true, false, not, ◌&&◌, List, [], ◌∷◌, map, arith, eq_iff,
  contains, Distinct, All, Bool-cases,
}
use production_rag_system.Prelude.Text.{strip, is_empty}
use production_rag_system.Core.Contracts.{RewriteResult}
use production_rag_system.Rag.Rewrite.{fanout, fanout_queries}

-- A text that is not blank.
abbrev pub is_query : String → Bool
is_query q = not (is_empty q)

absent :
    (q : String) (seen xs : List String)
    → All (λ x. (is_query x ≡ true) × (contains (q ∷ seen) x ≡ false)) xs
    → contains xs q ≡ false
absent q seen [] h = refl
absent q seen (x ∷ xs) h = ground (arith, absent q seen xs h.1, eq_iff x q, eq_iff q x)

weaken :
    (q : String) (seen xs : List String)
    → All (λ x. (is_query x ≡ true) × (contains (q ∷ seen) x ≡ false)) xs
    → All (λ x. (is_query x ≡ true) × (contains seen x ≡ false)) xs
weaken q seen [] h = tt
weaken q seen (x ∷ xs) h = ((h.0.0, ground arith), weaken q seen xs h.1)

-- What the loop adds is distinct, not blank and not seen before.
fanout-fresh :
    (seen qs : List String)
    → Distinct (fanout seen qs)
      × All (λ x. (is_query x ≡ true) × (contains seen x ≡ false)) (fanout seen qs)
unfolding fanout
fanout-fresh seen [] = (tt, tt)
fanout-fresh seen (q ∷ qs) = elim (Bool-cases (is_empty (strip q))) [
  | inl blank ↦ rw blank (fanout-fresh seen qs)
  | inr query ↦ rw query (elim (Bool-cases (contains seen (strip q))) [
    | inl old ↦ rw old (fanout-fresh seen qs)
    | inr new ↦ rw new (
        let (d, f) = fanout-fresh (strip q ∷ seen) qs in
        (
          (absent (strip q) seen (fanout (strip q ∷ seen) qs) f, d),
          ((rw query, new), weaken (strip q) seen (fanout (strip q ∷ seen) qs) f),
        ))
  ])
]

contains-fanout :
    (seen qs : List String) (j : String)
    → contains (fanout seen qs) j
      ≡ (not (contains seen j) && (is_query j && contains (map strip qs) j))
unfolding fanout
contains-fanout seen [] j = ground arith
contains-fanout seen (q ∷ qs) j =
    ground
      (arith, eq_iff (strip q) j, contains-fanout seen qs j, contains-fanout (strip q ∷ seen) qs j)

-- The fan-out queries are distinct, and they are exactly the stripped texts of the normalized query
-- and its variants that are not blank.
pub fanout_queries-Distinct :
    (rr : RewriteResult)
    → Distinct (fanout_queries rr)
      × ((j : String)
          → contains (fanout_queries rr) j
            ≡ (is_query j && contains (map strip (rr.normalized ∷ rr.variants)) j))
unfolding fanout_queries
fanout_queries-Distinct rr = (
  (fanout-fresh [] (rr.normalized ∷ rr.variants)).0,
  λ j. contains-fanout [] (rr.normalized ∷ rr.variants) j ∙ ground arith,
)
