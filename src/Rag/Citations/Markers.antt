-- ===== src/Rag/Citations/Markers.antt =====
-- The marker numbers that count.
use production_rag_system.Prelude.{
  ℕ, contains_n, NoRepeat, ◌≡◌, refl, ◌∙◌, inl, inr, Bool, true, false, not, ◌&&◌, ◌||◌, List, [],
  ◌∷◌, ◌++◌, String, arith, All, All-append, Bool-cases, leb, ◌==◌, if◌then◌else◌,
}
use production_rag_system.Prelude.Text.{Unicode}
use production_rag_system.Rag.Citations.{outside, markers, collect, extract_marker_numbers}

abbrev pub in_range : ℕ → ℕ → Bool
in_range n_chunks n = leb 1 n && leb n n_chunks

contains_n-snoc : (ms : List ℕ) (n j : ℕ) → contains_n (ms ++ n ∷ []) j ≡ contains_n ms j || n == j
contains_n-snoc [] n j = ground arith
contains_n-snoc (m ∷ ms) n j = ground (arith, contains_n-snoc ms n j)

NoRepeat-snoc :
    (ms : List ℕ) (n : ℕ) → NoRepeat ms → contains_n ms n ≡ false → NoRepeat (ms ++ n ∷ [])
NoRepeat-snoc [] n d h = (refl, tt)
NoRepeat-snoc (m ∷ ms) n d h =
    (ground (arith, contains_n-snoc ms n m), NoRepeat-snoc ms n d.1 (ground arith))

-- One turn of the loop.
abbrev after_marker : ℕ → List ℕ → ℕ → List ℕ
after_marker n_chunks seen n =
    if leb 1 n && (leb n n_chunks && not (contains_n seen n)) then seen ++ n ∷ [] else seen

module _ (n_chunks : ℕ) where
  after_marker-valid :
      (seen : List ℕ) (n : ℕ)
      → NoRepeat seen
      → All (λ m. in_range n_chunks m ≡ true) seen
      → NoRepeat (after_marker n_chunks seen n)
        × All (λ m. in_range n_chunks m ≡ true) (after_marker n_chunks seen n)
  after_marker-valid seen n d h =
      elim (Bool-cases (leb 1 n && (leb n n_chunks && not (contains_n seen n)))) [
        | inl e ↦ rw e (
          NoRepeat-snoc seen n d (ground arith),
          All-append (λ m. in_range n_chunks m ≡ true) seen (n ∷ []) h (ground arith, tt),
        )
        | inr e ↦ rw e (d, h)
      ]

  collect-valid :
      (seen ns : List ℕ)
      → NoRepeat seen
      → All (λ m. in_range n_chunks m ≡ true) seen
      → NoRepeat (collect n_chunks seen ns)
        × All (λ m. in_range n_chunks m ≡ true) (collect n_chunks seen ns)
  unfolding collect
  collect-valid seen [] d h = (d, h)
  collect-valid seen (n ∷ ns) d h =
      let (d', h') = after_marker-valid seen n d h in
      collect-valid (after_marker n_chunks seen n) ns d' h'

  after_marker-contains :
      (seen : List ℕ) (n j : ℕ)
      → contains_n (after_marker n_chunks seen n) j
        ≡ contains_n seen j || (n == j && in_range n_chunks j)
  after_marker-contains seen n j = ground (arith, contains_n-snoc seen n j)

  contains_n-collect :
      (seen ns : List ℕ) (j : ℕ)
      → contains_n (collect n_chunks seen ns) j
        ≡ contains_n seen j || (contains_n ns j && in_range n_chunks j)
  unfolding collect
  contains_n-collect seen [] j = ground arith
  contains_n-collect seen (n ∷ ns) j =
      contains_n-collect (after_marker n_chunks seen n) ns j
      ∙ ground (arith, after_marker-contains seen n j)

-- The extracted numbers have no repeats, lie in `1..n_chunks`, and are exactly the numbers of the
-- text's markers that lie there.
pub extract_marker_numbers-exact :
    (u : Unicode) (text : String) (n_chunks : ℕ)
    → NoRepeat (extract_marker_numbers u text n_chunks)
      × All (λ m. in_range n_chunks m ≡ true) (extract_marker_numbers u text n_chunks)
      × ((j : ℕ)
          → contains_n (extract_marker_numbers u text n_chunks) j
            ≡ (contains_n (markers u outside text) j && in_range n_chunks j))
unfolding extract_marker_numbers
extract_marker_numbers-exact u text n_chunks =
    let (d, h) = collect-valid n_chunks [] (markers u outside text) tt tt in
    (d, h, λ j. contains_n-collect n_chunks [] (markers u outside text) j)
