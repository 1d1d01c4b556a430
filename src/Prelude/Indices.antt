-- ===== src/Prelude/Indices.antt =====
-- Sets of indices: `sorted(set(…))` as an ascending list, and the elements at its indices.
use Prim.Native.Nat.{ℕ, zero, suc, ◌+◌, ◌≤◌, ◌<◌}
use mathlib.Core.Path.{◌≡◌, refl, ap, ◌∙◌, subst}
use mathlib.Core.Logic.{inl, inr}
use mathlib.Core.Bool.{Bool, true, false, ◌||◌}
use mathlib.Core.List.{List, [], ◌∷◌}
use native.Mathlib.Omega.{arith}
use production_rag_system.Prelude.Tests.{ltb, ◌==◌, if◌then◌else◌, Bool-cases}
use production_rag_system.Prelude.Lists.{length, All}
use production_rag_system.Prelude.Sorting.{insert_desc, sort_desc}

-- `n in ms`
abbrev pub contains_n : List ℕ → ℕ → Bool
contains_n [] n = false
contains_n (m ∷ ms) n = if m == n then true else contains_n ms n

abbrev pub NoRepeat : List ℕ → Type 0
NoRepeat [] = Unit
NoRepeat (n ∷ ns) = (contains_n ns n ≡ false) × NoRepeat ns

-- The indices `lo, …, lo + n - 1`.
abbrev pub range_from : ℕ → ℕ → List ℕ
range_from lo zero = []
range_from lo (suc n) = lo ∷ range_from (suc lo) n

abbrev pub insert_index : ℕ → List ℕ → List ℕ
insert_index i [] = i ∷ []
insert_index i (j ∷ js) =
    let rest = insert_index i js in
    if ltb i j then i ∷ j ∷ js else (if i == j then j ∷ js else j ∷ rest)

-- `sorted(set(is))`
unfoldable pub sorted_set : List ℕ → List ℕ
sorted_set [] = []
sorted_set (i ∷ is) = insert_index i (sorted_set is)

-- Ascending indices in `lo..hi`, the upper bound excluded.
abbrev pub IsAscending : ℕ → ℕ → List ℕ → Type 0
IsAscending lo hi [] = Unit
IsAscending lo hi (i ∷ is) = (lo ≤ i) × (i < hi) × IsAscending (suc i) hi is

pub IsAscending-lower :
    (lo lo' hi : ℕ) (is : List ℕ) → lo' ≤ lo → IsAscending lo hi is → IsAscending lo' hi is
IsAscending-lower lo lo' hi [] below a = tt
IsAscending-lower lo lo' hi (i ∷ is) below a = (omega (arith, a.0), a.1, a.2)

pub insert_index-IsAscending :
    (lo hi i : ℕ) (is : List ℕ)
    → lo ≤ i
    → i < hi
    → IsAscending lo hi is
    → IsAscending lo hi (insert_index i is)
insert_index-IsAscending lo hi i [] l h a = (l, h, tt)
insert_index-IsAscending lo hi i (j ∷ js) l h a = elim (Bool-cases (ltb i j)) [
  | inl lt ↦ rw lt (l, h, (ground arith, a.1, a.2))
  | inr ge ↦ elim (Bool-cases (i == j)) [
    | inl same ↦ rw (ge, same) a
    | inr other ↦
        rw (ge, other) (a.0, a.1, insert_index-IsAscending (suc j) hi i js (ground arith) h a.2)
  ]
]

pub sorted_set-IsAscending :
    (hi : ℕ) (is : List ℕ) → All (λ i. i < hi) is → IsAscending 0 hi (sorted_set is)
unfolding sorted_set
sorted_set-IsAscending hi [] h = tt
sorted_set-IsAscending hi (i ∷ is) h =
    insert_index-IsAscending 0 hi i (sorted_set is) (omega arith) h.0
      (sorted_set-IsAscending hi is h.1)

contains_n-insert_index :
    (i : ℕ) (is : List ℕ) (j : ℕ) → contains_n (insert_index i is) j ≡ i == j || contains_n is j
contains_n-insert_index i [] j = ground arith
contains_n-insert_index i (k ∷ ks) j = ground (arith, contains_n-insert_index i ks j)

contains_n-sorted_set : (is : List ℕ) (j : ℕ) → contains_n (sorted_set is) j ≡ contains_n is j
unfolding sorted_set
contains_n-sorted_set [] j = refl
contains_n-sorted_set (i ∷ is) j =
    ground (arith, contains_n-insert_index i (sorted_set is) j, contains_n-sorted_set is j)

insert_index-nonempty : (i : ℕ) (is : List ℕ) → 1 ≤ length (insert_index i is)
insert_index-nonempty i [] = omega arith
insert_index-nonempty i (k ∷ ks) = ground arith

pub sorted_set-nonempty : (is : List ℕ) → 1 ≤ length is → 1 ≤ length (sorted_set is)
unfolding sorted_set
sorted_set-nonempty [] h = absurd (omega arith)
sorted_set-nonempty (i ∷ is) h = insert_index-nonempty i (sorted_set is)

pub contains_n-below :
    (lo hi : ℕ) (is : List ℕ) (j : ℕ) → IsAscending lo hi is → j < lo → contains_n is j ≡ false
contains_n-below lo hi [] j a h = refl
contains_n-below lo hi (i ∷ is) j a h = ground (arith, a.0, contains_n-below (suc i) hi is j a.2)

length-insert_index :
    (lo hi i : ℕ) (is : List ℕ)
    → IsAscending lo hi is
    → contains_n is i ≡ false
    → length (insert_index i is) ≡ suc (length is)
length-insert_index lo hi i [] a fresh = refl
length-insert_index lo hi i (j ∷ js) a fresh =
    ground (arith, length-insert_index (suc j) hi i js a.2)

pub length-sorted_set :
    (hi : ℕ) (is : List ℕ) → All (λ i. i < hi) is → NoRepeat is → length (sorted_set is) ≡ length is
unfolding sorted_set
length-sorted_set hi [] h d = refl
length-sorted_set hi (i ∷ is) h d =
    length-insert_index 0 hi i (sorted_set is) (sorted_set-IsAscending hi is h.1)
      (contains_n-sorted_set is i ∙ d.0)
    ∙ ap suc (length-sorted_set hi is h.1 d.1)

pub IsAscending-NoRepeat : (lo hi : ℕ) (is : List ℕ) → IsAscending lo hi is → NoRepeat is
IsAscending-NoRepeat lo hi [] a = tt
IsAscending-NoRepeat lo hi (i ∷ is) a =
    (contains_n-below (suc i) hi is i a.2 (omega arith), IsAscending-NoRepeat (suc i) hi is a.2)

pub IsAscending-All : (lo hi : ℕ) (is : List ℕ) → IsAscending lo hi is → All (λ i. i < hi) is
IsAscending-All lo hi [] a = tt
IsAscending-All lo hi (i ∷ is) a = (a.1, IsAscending-All (suc i) hi is a.2)

pub range_from-IsAscending : (lo n : ℕ) → IsAscending lo (lo + n) (range_from lo n)
range_from-IsAscending lo zero = tt
range_from-IsAscending lo (suc n) = (
  omega arith,
  omega arith,
  subst (λ h. IsAscending (suc lo) h (range_from (suc lo) n)) (omega arith)
      (range_from-IsAscending (suc lo) n),
)

-- The order of a sort neither loses nor repeats an index.
contains_n-insert_desc :
    (le : ℕ → ℕ → Bool) (i : ℕ) (is : List ℕ) (j : ℕ)
    → contains_n (insert_desc le i is) j ≡ i == j || contains_n is j
unfolding insert_desc
contains_n-insert_desc le i [] j = ground arith
contains_n-insert_desc le i (k ∷ ks) j = ground (arith, contains_n-insert_desc le i ks j)

pub contains_n-sort_desc :
    (le : ℕ → ℕ → Bool) (is : List ℕ) (j : ℕ) → contains_n (sort_desc le is) j ≡ contains_n is j
unfolding sort_desc
contains_n-sort_desc le [] j = refl
contains_n-sort_desc le (i ∷ is) j =
    ground (arith, contains_n-insert_desc le i (sort_desc le is) j, contains_n-sort_desc le is j)

NoRepeat-insert_desc :
    (le : ℕ → ℕ → Bool) (i : ℕ) (is : List ℕ)
    → contains_n is i ≡ false
    → NoRepeat is
    → NoRepeat (insert_desc le i is)
unfolding insert_desc
NoRepeat-insert_desc le i [] fresh d = (refl, tt)
NoRepeat-insert_desc le i (k ∷ ks) fresh d =
    ground
      (arith, contains_n-insert_desc le i ks k, NoRepeat-insert_desc le i ks (ground arith) d.1, d)

pub NoRepeat-sort_desc :
    (le : ℕ → ℕ → Bool) (is : List ℕ) → NoRepeat is → NoRepeat (sort_desc le is)
unfolding sort_desc
NoRepeat-sort_desc le [] d = tt
NoRepeat-sort_desc le (i ∷ is) d =
    NoRepeat-insert_desc le i (sort_desc le is) (contains_n-sort_desc le is i ∙ d.0)
      (NoRepeat-sort_desc le is d.1)

pub length-range_from : (lo n : ℕ) → length (range_from lo n) ≡ n
length-range_from lo zero = refl
length-range_from lo (suc n) = ap suc (length-range_from (suc lo) n)
