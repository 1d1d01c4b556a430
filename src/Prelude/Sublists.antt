-- ===== src/Prelude/Sublists.antt =====
-- Lists that arise from others by leaving elements out, as comprehensions and slices make them.
use Prim.Native.Nat.{ℕ, zero, suc, ◌≤◌}
use mathlib.Core.Path.{◌≡◌}
use mathlib.Core.Bool.{Bool, true, false}
use mathlib.Core.List.{List, [], ◌∷◌, map}
use mathlib.Core.Logic.{inl, inr}
use native.Mathlib.Omega.{arith}
use production_rag_system.Prelude.Tests.{if◌then◌else◌, Bool-cases}
use production_rag_system.Prelude.Lists.{length, take, drop, filterb, All}

module _ {ℓ} {A : Type ℓ} where
  -- `xs` arises from `ys` by leaving elements out: the order is kept.
  pub data Sub : List A → List A → Type ℓ where
    nil : Sub [] []
    keep : (x : A) {xs ys : List A} → Sub xs ys → Sub (x ∷ xs) (x ∷ ys)
    skip : (x : A) {xs ys : List A} → Sub xs ys → Sub xs (x ∷ ys)

  pub Sub-refl : (xs : List A) → Sub xs xs
  Sub-refl [] = nil
  Sub-refl (x ∷ xs) = keep x (Sub-refl xs)

  pub Sub-nil : (xs : List A) → Sub [] xs
  Sub-nil [] = nil
  Sub-nil (x ∷ xs) = skip x (Sub-nil xs)

  pub Sub-take : (n : ℕ) (xs : List A) → Sub (take n xs) xs
  Sub-take zero xs = Sub-nil xs
  Sub-take (suc n) [] = nil
  Sub-take (suc n) (x ∷ xs) = keep x (Sub-take n xs)

  pub Sub-drop : (n : ℕ) (xs : List A) → Sub (drop n xs) xs
  Sub-drop zero xs = Sub-refl xs
  Sub-drop (suc n) [] = nil
  Sub-drop (suc n) (x ∷ xs) = skip x (Sub-drop n xs)

  pub Sub-filterb : (p : A → Bool) (xs : List A) → Sub (filterb p xs) xs
  Sub-filterb p [] = nil
  Sub-filterb p (x ∷ xs) =
      elim (p x) as (λ b. Sub (if b then x ∷ filterb p xs else filterb p xs) (x ∷ xs)) [
        | true ↦ keep x (Sub-filterb p xs)
        | false ↦ skip x (Sub-filterb p xs)
      ]

  pub Sub-trans : {ys zs : List A} → Sub ys zs → {xs : List A} → Sub xs ys → Sub xs zs
  Sub-trans nil p = p
  Sub-trans (keep y q) (keep x p) = keep x (Sub-trans q p)
  Sub-trans (keep y q) (skip x p) = skip x (Sub-trans q p)
  Sub-trans (skip y q) p = skip y (Sub-trans q p)

  pub Sub-All {κ} : (P : A → Type κ) {xs ys : List A} → Sub xs ys → All P ys → All P xs
  Sub-All P nil h = tt
  Sub-All P (keep x p) h = (h.0, Sub-All P p h.1)
  Sub-All P (skip x p) h = Sub-All P p h.1

  pub Sub-length : {xs ys : List A} → Sub xs ys → length xs ≤ length ys
  Sub-length nil = omega arith
  Sub-length (keep x p) = omega (arith, Sub-length p)
  Sub-length (skip x p) = omega (arith, Sub-length p)

pub Sub-map {ℓ κ} :
    {A : Type ℓ} {B : Type κ} (f : A → B) {xs ys : List A} → Sub xs ys → Sub (map f xs) (map f ys)
Sub-map f Sub.nil = Sub.nil
Sub-map f (Sub.keep x p) = Sub.keep (f x) (Sub-map f p)
Sub-map f (Sub.skip x p) = Sub.skip (f x) (Sub-map f p)

pub All-filterb {ℓ} :
    {A : Type ℓ} (p : A → Bool) (xs : List A) → All (λ x. p x ≡ true) (filterb p xs)
All-filterb p [] = tt
All-filterb p (x ∷ xs) = elim (Bool-cases (p x)) [
  | inl e ↦ rw e (e, All-filterb p xs)
  | inr e ↦ rw e (All-filterb p xs)
]
