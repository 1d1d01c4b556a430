-- ===== src/Rag/Compression/Picked.antt =====
-- What the index lists of compression pick out: the picked chunks are a subsequence, and the topped
-- up lists are long enough.
use production_rag_system.Prelude.{
  ℕ, zero, suc, ◌+◌, ◌≤◌, ◌<◌, min, ◌≡◌, refl, sym, ap, ◌∙◌, subst, inl, inr, Bool, true, false,
  not, List, [], ◌∷◌, ◌++◌, arith, some, length, take, drop, filterb, get_elem?, All, All-append,
  All-take, length-take, length-append, length-range_from, Sub, Sub-nil, Sub-drop, Sub-trans,
  Sub-All, Sub-filterb, Bool-cases, ◌==◌, if◌then◌else◌, contains_n, NoRepeat, range_from,
  IsAscending, IsAscending-lower, contains_n-below, IsAscending-NoRepeat, IsAscending-All,
  range_from-IsAscending, sorted_set, sorted_set-IsAscending, length-sorted_set, sort_desc,
  contains_n-sort_desc, NoRepeat-sort_desc, sort_desc-All, length-sort_desc,
}
use production_rag_system.Core.Result.{ok}
use production_rag_system.Rag.Compression.{pick}

module _ {ℓ} {A : Type ℓ} where
  get_elem?-drop :
      (xs : List A) (i : ℕ)
      → i < length xs
      → (x : A) × (get_elem? xs i ≡ some x) × (drop i xs ≡ x ∷ drop (suc i) xs)
  get_elem?-drop [] i h = absurd (omega arith)
  get_elem?-drop (x ∷ xs) zero h = (x, refl, refl)
  get_elem?-drop (x ∷ xs) (suc i) h = get_elem?-drop xs i (omega arith)

  Sub-drop-le : (lo i : ℕ) (xs : List A) → lo ≤ i → Sub (drop i xs) (drop lo xs)
  Sub-drop-le zero i xs h = Sub-drop i xs
  Sub-drop-le (suc lo) zero xs h = absurd (omega arith)
  Sub-drop-le (suc lo) (suc i) [] h = Sub.nil
  Sub-drop-le (suc lo) (suc i) (x ∷ xs) h = Sub-drop-le lo i xs (omega arith)

  -- Ascending indices in range pick a subsequence, and none is out of range.
  pub pick-total :
      (lo : ℕ) (xs : List A) (is : List ℕ)
      → IsAscending lo (length xs) is
      → (out : List A) × (pick xs is ≡ ok out) × Sub out (drop lo xs) × (length out ≡ length is)
  unfolding pick
  pick-total lo xs [] a = ([], refl, Sub-nil (drop lo xs), refl)
  pick-total lo xs (i ∷ is) a =
      let (x, found, split_at) = get_elem?-drop xs i a.1 in
      let (rest, picked, sub, size) = pick-total (suc i) xs is a.2 in
      (
        x ∷ rest,
        rw (found, picked, pick),
        Sub-trans (Sub-drop-le lo i xs a.0) (rw split_at (Sub.keep x sub)),
        ap suc size,
      )

contains_n-append :
    (xs ys : List ℕ) (j : ℕ)
    → contains_n (xs ++ ys) j ≡ (if contains_n xs j then true else contains_n ys j)
contains_n-append [] ys j = refl
contains_n-append (x ∷ xs) ys j = ground (arith, contains_n-append xs ys j)

NoRepeat-append :
    (xs ys : List ℕ)
    → NoRepeat xs
    → NoRepeat ys
    → ((j : ℕ) → contains_n ys j ≡ true → contains_n xs j ≡ false)
    → NoRepeat (xs ++ ys)
NoRepeat-append [] ys dx dy apart = dy
NoRepeat-append (x ∷ xs) ys dx dy apart = (
  ground (arith, contains_n-append xs ys x, apart x, dx.0),
  NoRepeat-append xs ys dx.1 dy (λ j h. ground (arith, apart j h)),
)

contains_n-take :
    (n : ℕ) (xs : List ℕ) (j : ℕ) → contains_n (take n xs) j ≡ true → contains_n xs j ≡ true
contains_n-take zero xs j h = absurd (ground arith)
contains_n-take (suc n) [] j h = h
contains_n-take (suc n) (x ∷ xs) j h = ground (arith, contains_n-take n xs j)

NoRepeat-take : (n : ℕ) (xs : List ℕ) → NoRepeat xs → NoRepeat (take n xs)
NoRepeat-take zero xs d = tt
NoRepeat-take (suc n) [] d = tt
NoRepeat-take (suc n) (x ∷ xs) d =
    (ground (arith, contains_n-take n xs x, d.0), NoRepeat-take n xs d.1)

contains_n-filterb :
    (p : ℕ → Bool) (xs : List ℕ) (j : ℕ)
    → contains_n (filterb p xs) j ≡ true
    → (p j ≡ true) × (contains_n xs j ≡ true)
contains_n-filterb p [] j h = absurd (ground arith)
contains_n-filterb p (x ∷ xs) j h = elim (Bool-cases (p x)) [
  | inl holds ↦ elim (Bool-cases (x == j)) [
    | inl same ↦ (subst (λ y. p y ≡ true) (ground arith) holds, rw same refl)
    | inr other ↦ let r = contains_n-filterb p xs j (ground arith) in (r.0, ground arith)
  ]
  | inr fails ↦ let r = contains_n-filterb p xs j (ground arith) in (r.0, ground arith)
]

NoRepeat-filterb : (p : ℕ → Bool) (xs : List ℕ) → NoRepeat xs → NoRepeat (filterb p xs)
NoRepeat-filterb p [] d = tt
NoRepeat-filterb p (x ∷ xs) d = elim (Bool-cases (p x)) [
  | inl holds ↦ rw holds (
    elim (Bool-cases (contains_n (filterb p xs) x)) [
      | inl h ↦ absurd (ground (arith, (contains_n-filterb p xs x h).1, d.0))
      | inr h ↦ h
    ],
    NoRepeat-filterb p xs d.1,
  )
  | inr fails ↦ rw fails (NoRepeat-filterb p xs d.1)
]

-- What is not among ascending indices of a range is the rest of the range.
length-complement :
    (p : ℕ → Bool) (lo n : ℕ) (kept : List ℕ)
    → IsAscending lo (lo + n) kept
    → ((j : ℕ) → lo ≤ j → p j ≡ not (contains_n kept j))
    → n ≤ length (filterb p (range_from lo n)) + length kept
length-complement p lo zero kept a agrees = omega arith
length-complement p lo (suc n) [] a agrees =
    ground
      (arith, agrees lo, length-complement p (suc lo) n [] tt (λ j h. agrees j (omega (arith, h))))
length-complement p lo (suc n) (i ∷ is) a agrees = elim (Bool-cases (lo == i)) [
  | inl same ↦ ground (
    arith,
    agrees lo,
    length-complement p (suc lo) n is
        (IsAscending-lower (suc i) (suc lo) (suc lo + n) is (ground arith)
          (subst (λ hi. IsAscending (suc i) hi is) (omega arith) a.2))
        (λ j h. agrees j (omega (arith, h)) ∙ ground arith),
  )
  | inr other ↦ ground (
    arith,
    agrees lo,
    contains_n-below (suc i) (lo + suc n) is lo a.2,
    length-complement p (suc lo) n (i ∷ is)
        (
          ground arith,
          omega (arith, a.1),
          subst (λ hi. IsAscending (suc i) hi is) (omega arith) a.2,
        )
        (λ j h. agrees j (omega (arith, h))),
  )
]

-- The indices of `0..n` that are not among `kept`, in any order.
abbrev complement : (ℕ → ℕ → Bool) → ℕ → List ℕ → List ℕ
complement le n kept = sort_desc le (filterb (λ i. not (contains_n kept i)) (range_from 0 n))

module _ (le : ℕ → ℕ → Bool) (n : ℕ) where
  indices_n : IsAscending 0 n (range_from 0 n)
  indices_n =
      subst (λ h. IsAscending 0 h (range_from 0 n)) (omega arith) (range_from-IsAscending 0 n)

  below_n : All (λ i. i < n) (range_from 0 n)
  below_n = IsAscending-All 0 n (range_from 0 n) indices_n

  fresh_n : NoRepeat (range_from 0 n)
  fresh_n = IsAscending-NoRepeat 0 n (range_from 0 n) indices_n

  complement-apart :
      (kept : List ℕ) (j : ℕ)
      → contains_n (complement le n kept) j ≡ true
      → contains_n kept j ≡ false
  complement-apart kept j h = ground (
    arith,
    (contains_n-filterb (λ i. not (contains_n kept i)) (range_from 0 n) j
        (sym (contains_n-sort_desc le _ j) ∙ h)).0,
  )

  -- Kept indices, topped up with `m` others.
  topped-valid :
      (kept : List ℕ) (m : ℕ)
      → IsAscending 0 n kept
      → All (λ i. i < n) (kept ++ take m (complement le n kept))
        × NoRepeat (kept ++ take m (complement le n kept))
  topped-valid kept m a = (
    All-append (λ i. i < n) kept (take m (complement le n kept)) (IsAscending-All 0 n kept a)
        (All-take (λ i. i < n) m (complement le n kept)
          (sort_desc-All le (λ i. i < n) _
            (Sub-All (λ i. i < n) (Sub-filterb _ (range_from 0 n)) below_n))),
    NoRepeat-append kept (take m (complement le n kept)) (IsAscending-NoRepeat 0 n kept a)
        (NoRepeat-take m (complement le n kept)
          (NoRepeat-sort_desc le _ (NoRepeat-filterb _ (range_from 0 n) fresh_n)))
        (λ j h. complement-apart kept j (contains_n-take m (complement le n kept) j h)),
  )

  pub topped_up :
      (kept : List ℕ) (m : ℕ)
      → IsAscending 0 n kept
      → IsAscending 0 n (sorted_set (kept ++ take m (complement le n kept)))
        × (min (length kept + m) n ≤ length (sorted_set (kept ++ take m (complement le n kept))))
  topped_up kept m a =
      let (low, once) = topped-valid kept m a in
      (
        sorted_set-IsAscending n (kept ++ take m (complement le n kept)) low,
        omega (
          arith,
          length-sorted_set n (kept ++ take m (complement le n kept)) low once,
          length-append kept (take m (complement le n kept)),
          length-take m (complement le n kept),
          length-sort_desc le (filterb (λ i. not (contains_n kept i)) (range_from 0 n)),
          length-complement (λ i. not (contains_n kept i)) 0 n kept
              (subst (λ h. IsAscending 0 h kept) (omega arith) a) (λ j h. refl),
        ),
      )

  -- The first `m` of the range in any order.
  pub first_sorted :
      (m : ℕ)
      → IsAscending 0 n (sorted_set (take m (sort_desc le (range_from 0 n))))
        × (min m n ≤ length (sorted_set (take m (sort_desc le (range_from 0 n)))))
  first_sorted m =
      let low =
        All-take (λ i. i < n) m _ (sort_desc-All le (λ i. i < n) (range_from 0 n) below_n) in
      let once = NoRepeat-take m _ (NoRepeat-sort_desc le (range_from 0 n) fresh_n) in
      (
        sorted_set-IsAscending n _ low,
        omega (
          arith,
          length-sorted_set n _ low once,
          length-take m (sort_desc le (range_from 0 n)),
          length-sort_desc le (range_from 0 n),
          length-range_from 0 n,
        ),
      )
