-- ===== src/Prelude/Sorting.antt =====
-- `sorted(xs, key=…, reverse=True)`: stable, so equal keys keep their order.
use Prim.Native.Nat.{ℕ, zero, suc}
use mathlib.Core.Path.{◌≡◌, refl, ap, ◌∙◌}
use mathlib.Core.Bool.{Bool, true, false, ◌||◌}
use mathlib.Core.List.{List, [], ◌∷◌, map, Perm}
use mathlib.Core.List.Perm
use mathlib.Core.Logic.{◌⊎◌, inl, inr}
use native.Mathlib.Omega.{arith}
use production_rag_system.Prelude.Tests.{if◌then◌else◌, Bool-cases}
use production_rag_system.Prelude.Lists.{length, All, All-take, take}
use production_rag_system.Prelude.Membership.{contains, Distinct}
use Prim.Native.String.{String}
use text.Mathlib.Text.{◌==◌ as str_eq}
use text.Mathlib.TextEquality.{eq_iff}

module _ {ℓ} {A : Type ℓ} (le : A → A → Bool) where
  -- Puts `x` behind what is strictly larger and before its equals.
  unfoldable pub insert_desc : A → List A → List A
  insert_desc x [] = x ∷ []
  insert_desc x (y ∷ ys) = let rest = insert_desc x ys in if le y x then x ∷ y ∷ ys else y ∷ rest

  unfoldable pub sort_desc : List A → List A
  unfolding insert_desc
  sort_desc [] = []
  sort_desc (x ∷ xs) = insert_desc x (sort_desc xs)

  -- Each element is at least every later one.
  abbrev pub IsDesc : List A → Type ℓ
  IsDesc [] = Unit
  IsDesc (x ∷ xs) = All (λ y. le y x ≡ true) xs × IsDesc xs

  pub insert_desc-All {κ} :
      (P : A → Type κ) (x : A) (ys : List A) → P x → All P ys → All P (insert_desc x ys)
  unfolding insert_desc
  insert_desc-All P x [] px h = (px, tt)
  insert_desc-All P x (y ∷ ys) px h = elim (Bool-cases (le y x)) [
    | inl e ↦ rw e (px, h)
    | inr e ↦ rw e (h.0, insert_desc-All P x ys px h.1)
  ]

  pub sort_desc-All {κ} : (P : A → Type κ) (xs : List A) → All P xs → All P (sort_desc xs)
  unfolding sort_desc
  sort_desc-All P [] h = tt
  sort_desc-All P (x ∷ xs) h = insert_desc-All P x (sort_desc xs) h.0 (sort_desc-All P xs h.1)

  All-insert_desc {κ} :
      (P : A → Type κ) (x : A) (ys : List A) → All P (insert_desc x ys) → P x × All P ys
  unfolding insert_desc
  All-insert_desc P x [] h = h
  All-insert_desc P x (y ∷ ys) h = elim (Bool-cases (le y x)) [
    | inl e ↦ rw (e, insert_desc) at h
    | inr e ↦
        let h' : P y × All P (insert_desc x ys) = rw (e, insert_desc) at h in
        let (px, rest) = All-insert_desc P x ys h'.1 in (px, (h'.0, rest))
  ]

  pub All-sort_desc {κ} : (P : A → Type κ) (xs : List A) → All P (sort_desc xs) → All P xs
  unfolding sort_desc
  All-sort_desc P [] h = tt
  All-sort_desc P (x ∷ xs) h =
      let (px, rest) = All-insert_desc P x (sort_desc xs) h in (px, All-sort_desc P xs rest)

  insert_desc-perm : (x : A) (ys : List A) → Perm (insert_desc x ys) (x ∷ ys)
  unfolding insert_desc
  insert_desc-perm x [] = Perm.refl (x ∷ [])
  insert_desc-perm x (y ∷ ys) = elim (Bool-cases (le y x)) [
    | inl e ↦ rw e (Perm.refl (x ∷ y ∷ ys))
    | inr e ↦ rw e (Perm.trans (Perm.cons y (insert_desc-perm x ys)) (Perm.swap x y ys))
  ]

  pub sort_desc-perm : (xs : List A) → Perm (sort_desc xs) xs
  unfolding sort_desc
  sort_desc-perm [] = Perm.refl []
  sort_desc-perm (x ∷ xs) =
      Perm.trans (insert_desc-perm x (sort_desc xs)) (Perm.cons x (sort_desc-perm xs))

  length-insert_desc : (x : A) (ys : List A) → length (insert_desc x ys) ≡ suc (length ys)
  unfolding insert_desc
  length-insert_desc x [] = refl
  length-insert_desc x (y ∷ ys) = ground (arith, length-insert_desc x ys)

  pub length-sort_desc : (xs : List A) → length (sort_desc xs) ≡ length xs
  unfolding sort_desc
  length-sort_desc [] = refl
  length-sort_desc (x ∷ xs) = length-insert_desc x (sort_desc xs) ∙ ap suc (length-sort_desc xs)

  module _ (total : (a b : A) → (le a b ≡ true) ⊎ (le b a ≡ true))
      (trans : (a b c : A) → le a b ≡ true → le b c ≡ true → le a c ≡ true) where
    All-le_trans :
        (y x : A) (l : List A)
        → le y x ≡ true
        → All (λ z. le z y ≡ true) l
        → All (λ z. le z x ≡ true) l
    All-le_trans y x [] h a = tt
    All-le_trans y x (z ∷ l) h a = (trans z y x a.0 h, All-le_trans y x l h a.1)

    le_of_not : (y x : A) → le y x ≡ false → le x y ≡ true
    le_of_not y x h = elim (total x y) [ inl p ↦ p | inr p ↦ cc ]

    insert_desc-IsDesc : (x : A) (ys : List A) → IsDesc ys → IsDesc (insert_desc x ys)
    unfolding insert_desc
    insert_desc-IsDesc x [] d = (tt, tt)
    insert_desc-IsDesc x (y ∷ ys) d = elim (Bool-cases (le y x)) [
      | inl e ↦ rw e ((e, All-le_trans y x ys e d.0), d)
      | inr e ↦ rw e (
        insert_desc-All (λ z. le z y ≡ true) x ys (le_of_not y x e) d.0,
        insert_desc-IsDesc x ys d.1,
      )
    ]

    pub sort_desc-IsDesc : (xs : List A) → IsDesc (sort_desc xs)
    unfolding sort_desc
    sort_desc-IsDesc [] = tt
    sort_desc-IsDesc (x ∷ xs) = insert_desc-IsDesc x (sort_desc xs) (sort_desc-IsDesc xs)

  pub take-IsDesc : (n : ℕ) (xs : List A) → IsDesc xs → IsDesc (take n xs)
  take-IsDesc zero xs d = tt
  take-IsDesc (suc n) [] d = tt
  take-IsDesc (suc n) (x ∷ xs) d = (All-take _ n xs d.0, take-IsDesc n xs d.1)

-- A sort keeps the texts that its elements carry.
module _ {ℓ} {A : Type ℓ} (le : A → A → Bool) (f : A → String) where
  contains-map-insert_desc :
      (x : A) (ys : List A) (k : String)
      → contains (map f (insert_desc le x ys)) k ≡ str_eq (f x) k || contains (map f ys) k
  unfolding insert_desc
  contains-map-insert_desc x [] k = refl
  contains-map-insert_desc x (y ∷ ys) k = ground (arith, contains-map-insert_desc x ys k)

  Distinct-map-insert_desc :
      (x : A) (ys : List A) → Distinct (map f (x ∷ ys)) → Distinct (map f (insert_desc le x ys))
  unfolding insert_desc
  Distinct-map-insert_desc x [] d = d
  Distinct-map-insert_desc x (y ∷ ys) d = elim (Bool-cases (le y x)) [
    | inl e ↦ rw e d
    | inr e ↦ rw e (
      ground (arith, contains-map-insert_desc x ys (f y), eq_iff (f x) (f y), eq_iff (f y) (f x)),
      Distinct-map-insert_desc x ys (ground arith, d.1.1),
    )
  ]

  pub contains-map-sort_desc :
      (xs : List A) (k : String) → contains (map f (sort_desc le xs)) k ≡ contains (map f xs) k
  unfolding sort_desc
  contains-map-sort_desc [] k = refl
  contains-map-sort_desc (x ∷ xs) k =
      ground (arith, contains-map-insert_desc x (sort_desc le xs) k, contains-map-sort_desc xs k)

  pub Distinct-map-sort_desc :
      (xs : List A) → Distinct (map f xs) → Distinct (map f (sort_desc le xs))
  unfolding sort_desc
  Distinct-map-sort_desc [] d = d
  Distinct-map-sort_desc (x ∷ xs) d =
      Distinct-map-insert_desc x (sort_desc le xs)
        (rw contains-map-sort_desc (d.0), Distinct-map-sort_desc xs d.1)

module _ {ℓ} {A : Type ℓ} (f : A → String) where
  pub contains-map-take :
      (n : ℕ) (xs : List A) (k : String)
      → contains (map f (take n xs)) k ≡ true
      → contains (map f xs) k ≡ true
  contains-map-take zero xs k h = absurd (ground arith)
  contains-map-take (suc n) [] k h = h
  contains-map-take (suc n) (x ∷ xs) k h = ground (arith, contains-map-take n xs k)

  pub Distinct-map-take : (n : ℕ) (xs : List A) → Distinct (map f xs) → Distinct (map f (take n xs))
  Distinct-map-take zero xs d = tt
  Distinct-map-take (suc n) [] d = tt
  Distinct-map-take (suc n) (x ∷ xs) d =
      (ground (arith, contains-map-take n xs (f x)), Distinct-map-take n xs d.1)
