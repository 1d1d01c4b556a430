-- ===== src/Prelude/Membership.antt =====
-- Lists of texts as Python's `in` reads them, and such lists without repetition.
use mathlib.Core.Path.{◌≡◌, refl}
use mathlib.Core.Bool.{Bool, true, false, ◌||◌}
use mathlib.Core.List.{List, [], ◌∷◌, ◌++◌}
use native.Mathlib.Omega.{arith}
use text.Mathlib.Text.{◌==◌ as str_eq}
use text.Mathlib.TextEquality.{eq_iff}
use Prim.Native.String.{String}
use production_rag_system.Prelude.Lists.{All}

-- Membership of a text, as `in` on a set or a list of `str`.
abbrev pub contains : List String → String → Bool
contains [] k = false
contains (x ∷ xs) k = str_eq x k || contains xs k

-- No text occurs twice.
abbrev pub Distinct : List String → Type 0
Distinct [] = Unit
Distinct (x ∷ xs) = (contains xs x ≡ false) × Distinct xs

pub contains-append :
    (xs ys : List String) (k : String) → contains (xs ++ ys) k ≡ contains xs k || contains ys k
contains-append [] ys k = refl
contains-append (x ∷ xs) ys k = ground (arith, contains-append xs ys k)

pub contains-snoc :
    (xs : List String) (x k : String) → contains (xs ++ x ∷ []) k ≡ contains xs k || str_eq x k
contains-snoc [] x k = ground arith
contains-snoc (y ∷ xs) x k = ground (arith, contains-snoc xs x k)

pub Distinct-snoc :
    (xs : List String) (x : String) → Distinct xs → contains xs x ≡ false → Distinct (xs ++ x ∷ [])
Distinct-snoc [] x d h = (refl, tt)
Distinct-snoc (y ∷ xs) x d h = (
  ground (arith, contains-snoc xs x y, eq_iff x y, eq_iff y x),
  Distinct-snoc xs x d.1 (ground arith),
)

pub All-contains {κ} :
    (P : String → Type κ) (xs : List String)
    → ((k : String) → contains xs k ≡ true → P k)
    → All P xs
All-contains P [] h = tt
All-contains P (x ∷ xs) h =
    (h x (ground (arith, eq_iff x x)), All-contains P xs (λ k q. h k (ground arith)))
