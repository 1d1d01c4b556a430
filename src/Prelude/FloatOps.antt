-- ===== src/Prelude/FloatOps.antt =====
-- Python's `float`, as far as the program computes with it. The operations are a parameter; the
-- laws are those of IEEE numbers that are not NaN: `<=` is total and transitive.
use Prim.Native.Nat.{ℕ}
use mathlib.Core.Path.{◌≡◌}
use mathlib.Core.Bool.{Bool, true, not}
use mathlib.Core.Logic.{◌⊎◌, inl, inr}
use production_rag_system.Prelude.Tests.{Bool-cases}

pub record Floats (F : Type 0) : Type 0 where
  -- `0.0`
  pub zero : F
  pub add : F → F → F
  -- `a / b` of two `int`s
  pub ratio : ℕ → ℕ → F
  pub one : F
  pub neg : F → F
  pub div : F → F → F
  -- `math.exp`
  pub exp : F → F
  pub le : F → F → Bool
  pub le_total : (a b : F) → (le a b ≡ true) ⊎ (le b a ≡ true)
  pub le_trans : (a b c : F) → le a b ≡ true → le b c ≡ true → le a c ≡ true

module _ {F : Type 0} ⦃fl : Floats F⦄ where
  abbrev pub fle : F → F → Bool
  fle = fl.le

  abbrev pub flt : F → F → Bool
  flt a b = not (fl.le b a)

  abbrev pub fzero : F
  fzero = fl.zero

  abbrev pub fadd : F → F → F
  fadd = fl.add

  abbrev pub fratio : ℕ → ℕ → F
  fratio = fl.ratio

  pub flt_or_ge : (a b : F) → (flt a b ≡ true) ⊎ (fle b a ≡ true)
  flt_or_ge a b = elim (Bool-cases (fl.le b a)) [ inl h ↦ inr h | inr h ↦ inl (rw h) ]
