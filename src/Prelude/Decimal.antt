-- ===== src/Prelude/Decimal.antt =====
-- `str(n)` of a non-negative integer, and pieces of text set in a row.
pub mod Read
use Prim.Native.Nat.{ℕ, zero, suc, ◌/◌, ◌%◌}
use Prim.Native.String.{String, ◌++◌}
use mathlib.Core.List.{List, [], ◌∷◌}
use production_rag_system.Prelude.Tests.{ltb, if◌then◌else◌}

abbrev digit_text : ℕ → String
digit_text zero = "0"
digit_text (suc zero) = "1"
digit_text (suc (suc zero)) = "2"
digit_text (suc (suc (suc zero))) = "3"
digit_text (suc (suc (suc (suc zero)))) = "4"
digit_text (suc (suc (suc (suc (suc zero))))) = "5"
digit_text (suc (suc (suc (suc (suc (suc zero)))))) = "6"
digit_text (suc (suc (suc (suc (suc (suc (suc zero))))))) = "7"
digit_text (suc (suc (suc (suc (suc (suc (suc (suc zero)))))))) = "8"
digit_text _ = "9"

-- A number has fewer digits than its value is large, save 0: `suc n` is fuel enough.
digits_of : ℕ → ℕ → String
digits_of zero n = ""
digits_of (suc fuel) n =
    let more = digits_of fuel (n / 10) ++ digit_text (n % 10) in
    if ltb n 10 then digit_text n else more

unfoldable pub decimal : ℕ → String
unfolding digits_of
decimal n = digits_of (suc n) n

-- An f-string: its parts in a row.
abbrev pub concat : List String → String
concat [] = ""
concat (part ∷ []) = part
concat (part ∷ next ∷ rest) = part ++ concat (next ∷ rest)
