-- ===== src/Prelude/Dictionaries.antt =====
-- Python's `dict` with `str` keys: an association list in insertion order. Assigning to a key
-- that is there keeps its place.
use mathlib.Core.Path.{◌≡◌, refl, sym, subst}
use mathlib.Core.Logic.{inl, inr}
use mathlib.Core.Bool.{Bool, true, false, ◌||◌}
use mathlib.Core.List.{List, [], ◌∷◌}
use mathlib.Core.Option.{Option, none, some}
use native.Mathlib.Omega.{arith}
use text.Mathlib.Text.{◌==◌ as str_eq}
use text.Mathlib.TextEquality.{eq_iff}
use Prim.Native.String.{String}
use production_rag_system.Prelude.Tests.{if◌then◌else◌, Bool-cases}
use production_rag_system.Prelude.Lists.{All, All-map}
use production_rag_system.Prelude.Membership.{contains, Distinct}

abbrev pub Dict {ℓ} : Type ℓ → Type ℓ
Dict V = List (String × V)

module _ {ℓ} {V : Type ℓ} where
  -- `d.get(k)`
  abbrev pub lookup : String → Dict V → Option V
  lookup k [] = none
  lookup k ((j, v) ∷ m) = if str_eq j k then some v else lookup k m

  -- `d[k] = v`
  abbrev pub insert : String → V → Dict V → Dict V
  insert k v [] = (k, v) ∷ []
  insert k v ((j, w) ∷ m) = if str_eq j k then (j, v) ∷ m else (j, w) ∷ insert k v m

  abbrev pub keys : Dict V → List String
  keys [] = []
  keys ((k, v) ∷ m) = k ∷ keys m

  -- `d.values()`
  abbrev pub values : Dict V → List V
  values [] = []
  values ((k, v) ∷ m) = v ∷ values m

  -- `d.pop(k, None)`
  abbrev pub erase : String → Dict V → Dict V
  erase k [] = []
  erase k ((j, v) ∷ m) = let rest = erase k m in if str_eq j k then rest else (j, v) ∷ rest

  pub lookup-insert :
      (k j : String) (v : V) (m : Dict V)
      → lookup j (insert k v m) ≡ (if str_eq k j then some v else lookup j m)
  lookup-insert k j v [] = refl
  lookup-insert k j v ((i, w) ∷ m) =
      ground (arith, eq_iff k j, eq_iff i k, eq_iff i j, lookup-insert k j v m)

  pub lookup-erase :
      (k j : String) (m : Dict V) → lookup j (erase k m) ≡ (if str_eq k j then none else lookup j m)
  lookup-erase k j [] = ground arith
  lookup-erase k j ((i, w) ∷ m) =
      ground (arith, eq_iff k j, eq_iff i k, eq_iff i j, lookup-erase k j m)

  pub contains-keys-insert :
      (k j : String) (v : V) (m : Dict V)
      → contains (keys (insert k v m)) j ≡ str_eq k j || contains (keys m) j
  contains-keys-insert k j v [] = refl
  contains-keys-insert k j v ((i, w) ∷ m) =
      ground (arith, eq_iff k j, eq_iff i k, eq_iff i j, contains-keys-insert k j v m)

  pub Distinct-keys-insert :
      (k : String) (v : V) (m : Dict V) → Distinct (keys m) → Distinct (keys (insert k v m))
  Distinct-keys-insert k v [] d = (refl, tt)
  Distinct-keys-insert k v ((i, w) ∷ m) d =
      ground
        (arith, eq_iff i k, eq_iff k i, contains-keys-insert k i v m, Distinct-keys-insert k v m)

abbrev pub is_some {ℓ} : {A : Type ℓ} → Option A → Bool
is_some none = false
is_some (some a) = true

module _ {ℓ κ} {V : Type ℓ} (P : String × V → Type κ) where
  pub All-insert : (k : String) (v : V) (m : Dict V) → P (k, v) → All P m → All P (insert k v m)
  All-insert k v [] pk h = (pk, tt)
  All-insert k v ((j, w) ∷ m) pk h = elim (Bool-cases (str_eq j k)) [
    | inl e ↦ rw e (subst (λ i. P (i, v)) (sym ((eq_iff j k).0 e)) pk, h.1)
    | inr e ↦ rw e (h.0, All-insert k v m pk h.1)
  ]

-- Every key of a dictionary is found.
module _ {ℓ} {V : Type ℓ} where
  pub lookup-contains : (k : String) (m : Dict V) → is_some (lookup k m) ≡ contains (keys m) k
  lookup-contains k [] = refl
  lookup-contains k ((j, v) ∷ m) = ground (arith, lookup-contains k m)

  pub is_some-lookup-insert :
      (k j : String) (v : V) (m : Dict V)
      → is_some (lookup j (insert k v m)) ≡ str_eq k j || is_some (lookup j m)
  is_some-lookup-insert k j v m = ground (arith, lookup-insert k j v m)

  pub All-lookup {κ} :
      (P : String × V → Type κ) (k : String) (m : Dict V) {v : V}
      → All P m
      → lookup k m ≡ some v
      → P (k, v)
  All-lookup P k [] h e = absurd (ground arith)
  All-lookup P k ((j, w) ∷ m) {v} h e = elim (Bool-cases (str_eq j k)) [
    | inl q ↦
        let same : j ≡ k = (eq_iff j k).0 q in
        let value : w ≡ v = ground arith in
        subst (λ i. P (i, v)) same (subst (λ u. P (j, u)) value h.0)
    | inr q ↦ All-lookup P k m h.1 (ground arith)
  ]

  pub All-self : (m : Dict V) → All (λ e. is_some (lookup e.0 m) ≡ true) m
  All-self [] = tt
  All-self ((j, v) ∷ m) = (
    ground (arith, eq_iff j j),
    All-map {P = λ e. is_some (lookup e.0 m) ≡ true} (λ e h. ground arith) m (All-self m),
  )

  pub All-keys {κ} : (Q : String → Type κ) (m : Dict V) → All (λ e. Q e.0) m → All Q (keys m)
  All-keys Q [] h = tt
  All-keys Q ((j, v) ∷ m) h = (h.0, All-keys Q m h.1)

  -- With distinct keys each entry is what its key is looked up to.
  pub All-Distinct : (m : Dict V) → Distinct (keys m) → All (λ e. lookup e.0 m ≡ some e.1) m
  All-Distinct [] d = tt
  All-Distinct ((j, v) ∷ m) d = (
    ground (arith, eq_iff j j),
    All-map {P = λ e. lookup e.0 m ≡ some e.1}
        (λ e h. ground (arith, eq_iff j e.0, lookup-contains e.0 m)) m (All-Distinct m d.1),
  )
