-- ===== src/Prelude/Decimal/Read.antt =====
-- A number is read back from its decimal text, behind any text that ends with a colon.
use Prim.Native.Char.{Char, code}
use Prim.Native.Nat.{ℕ, zero, suc, ◌+◌, ◌-◌, ◌*◌, ◌/◌, ◌%◌, ◌<◌}
use Prim.Native.String.{String, ◌++◌}
use mathlib.Core.Path.{◌≡◌, refl, sym, ap, ◌∙◌}
use mathlib.Core.Logic.{inl, inr}
use native.Mathlib.Omega.{arith}
use text.Mathlib.TextLemmas.{nil-append, cons-append, append_cancel_right}
use production_rag_system.Prelude.Tests.{ltb, ltb→lt, ◌==◌, if◌then◌else◌, Bool-cases}
use production_rag_system.Prelude.Decimal.{digit_text, digits_of, decimal}

-- A digit extends the number, a colon begins a new one.
abbrev pub extended : ℕ → Char → ℕ
extended n c = if code c == b':' then 0 else n * 10 + (code c - b'0')

abbrev pub value_of : ℕ → String → ℕ
value_of n String.[] = n
value_of n (String.◌∷◌ c s) = value_of (extended n c) s

value_of-append : (s t : String) (n : ℕ) → value_of n (s ++ t) ≡ value_of (value_of n s) t
value_of-append String.[] t n = ap (value_of n) (nil-append t)
value_of-append (String.◌∷◌ c s) t n =
    ap (value_of n) (cons-append c s t) ∙ value_of-append s t (extended n c)

value_of-digit_text : (n d : ℕ) → d < 10 → value_of n (digit_text d) ≡ n * 10 + d
value_of-digit_text n zero h = refl
value_of-digit_text n (suc zero) h = refl
value_of-digit_text n (suc (suc zero)) h = refl
value_of-digit_text n (suc (suc (suc zero))) h = refl
value_of-digit_text n (suc (suc (suc (suc zero)))) h = refl
value_of-digit_text n (suc (suc (suc (suc (suc zero))))) h = refl
value_of-digit_text n (suc (suc (suc (suc (suc (suc zero)))))) h = refl
value_of-digit_text n (suc (suc (suc (suc (suc (suc (suc zero))))))) h = refl
value_of-digit_text n (suc (suc (suc (suc (suc (suc (suc (suc zero)))))))) h = refl
value_of-digit_text n (suc (suc (suc (suc (suc (suc (suc (suc (suc zero))))))))) h = refl
value_of-digit_text n (suc (suc (suc (suc (suc (suc (suc (suc (suc (suc d)))))))))) h =
    absurd (omega arith)

-- One unit of fuel for each digit, and the value has no more digits than it is large.
value_of-digits_of : (fuel n : ℕ) → n < fuel → value_of 0 (digits_of fuel n) ≡ n
unfolding digits_of
value_of-digits_of zero n h = absurd (omega arith)
value_of-digits_of (suc fuel) n h = elim (Bool-cases (ltb n 10)) [
  | inl small ↦
      ap (λ b. value_of 0 (if b then digit_text n else more)) small
      ∙ value_of-digit_text 0 n (ltb→lt n 10 small)
      ∙ omega arith
  | inr large ↦
      ap (λ b. value_of 0 (if b then digit_text n else more)) large
      ∙ value_of-append (digits_of fuel (n / 10)) (digit_text (n % 10)) 0
      ∙ ap (λ v. value_of v (digit_text (n % 10))) (value_of-digits_of fuel (n / 10) (ground arith))
      ∙ value_of-digit_text (n / 10) (n % 10) (omega arith)
      ∙ omega arith
]
  where
    more : String
    more = digits_of fuel (n / 10) ++ digit_text (n % 10)

pub value_of-decimal : (n : ℕ) → value_of 0 (decimal n) ≡ n
unfolding decimal
value_of-decimal n = value_of-digits_of (suc n) n (omega arith)

value_of-field : (s : String) (q n : ℕ) → value_of n (s ++ (":" ++ decimal q)) ≡ q
value_of-field s q n =
    value_of-append s (":" ++ decimal q) n
    ∙ value_of-append ":" (decimal q) (value_of n s)
    ∙ value_of-decimal q

-- The text before the last colon and the number behind it are read from the whole.
pub field_injective :
    (s t : String) (m n : ℕ) → s ++ (":" ++ decimal m) ≡ t ++ (":" ++ decimal n) → (s ≡ t) × (m ≡ n)
field_injective s t m n h =
    let same : m ≡ n = sym (value_of-field s m 0) ∙ ap (value_of 0) h ∙ value_of-field t n 0 in
    (
      append_cancel_right s t (":" ++ decimal n) (ap (λ k. s ++ (":" ++ decimal k)) (sym same) ∙ h),
      same,
    )
