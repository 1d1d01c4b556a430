-- ===== src/Prelude/Text.antt =====
-- The methods of `str` that the program uses: `strip`, `split`, `join`, slices and emptiness.
use Prim.Native.Char.{Char, code}
use Prim.Native.Nat.{ℕ, zero, suc}
use Prim.Native.String.{String, ◌++◌}
use mathlib.Core.Path.{◌≡◌, refl}
use native.Mathlib.Omega.{arith}
use mathlib.Core.Bool.{Bool, true, false, not, ◌&&◌, ◌||◌}
use mathlib.Core.List.{List, [], ◌∷◌}
use mathlib.Core.Option.{Option}
use production_rag_system.Prelude.Tests.{leb, ◌==◌, if◌then◌else◌}

-- `str.isspace` of one character: the code points that Unicode counts as white space.
unfoldable pub is_space : Char → Bool
is_space c =
    let n = code c in
    (leb 9 n && leb n 13)
    || (leb 28 n && leb n 32)
    || n == 133
    || n == 160
    || n == 5760
    || (leb 8192 n && leb n 8202)
    || n == 8232
    || n == 8233
    || n == 8239
    || n == 8287
    || n == 12288

abbrev pub is_empty : String → Bool
is_empty String.[] = true
is_empty (String.◌∷◌ c s) = false

pub only_empty : (s : String) → is_empty s ≡ true → s ≡ String.[]
only_empty String.[] h = refl
only_empty (String.◌∷◌ c s) h = absurd (ground (arith, h))

unfoldable pub lstrip : String → String
lstrip String.[] = String.[]
lstrip (String.◌∷◌ c s) = let rest = lstrip s in if is_space c then rest else String.◌∷◌ c s

unfoldable pub rstrip : String → String
rstrip String.[] = String.[]
rstrip (String.◌∷◌ c s) =
    let rest = rstrip s in if is_space c && is_empty rest then String.[] else String.◌∷◌ c rest

-- `s.strip()`
unfoldable pub strip : String → String
unfolding lstrip rstrip is_space
strip s = rstrip (lstrip s)

abbrev push : String → List String → List String
push w ws = if is_empty w then ws else w ∷ ws

runs_from : (Char → Bool) → String → String → List String
runs_from p w String.[] = push w []
runs_from p w (String.◌∷◌ c s) =
    let next = runs_from p String.[] s in
    let more = runs_from p (w ++ String.◌∷◌ c String.[]) s in if p c then more else push w next

-- `re.findall("[p]+", s)` for a class `p` of characters: the maximal runs.
unfoldable pub runs : (Char → Bool) → String → List String
unfolding runs_from
runs p s = runs_from p String.[] s

-- `s.split()`: the maximal runs of characters that are not white space.
unfoldable pub split : String → List String
unfolding runs is_space
split s = runs (λ c. not (is_space c)) s

-- `sep.join(parts)`
unfoldable pub join : String → List String → String
join sep [] = String.[]
join sep (x ∷ []) = x
join sep (x ∷ y ∷ xs) = x ++ (sep ++ join sep (y ∷ xs))

-- `s[:n]`
unfoldable pub take_chars : ℕ → String → String
take_chars zero s = String.[]
take_chars (suc n) String.[] = String.[]
take_chars (suc n) (String.◌∷◌ c s) = String.◌∷◌ c (take_chars n s)

-- The tables of the Unicode Character Database that `str.lower`, `\w` and `\d` consult.
pub record Unicode : Type 0 where
  pub lower : String → String
  pub is_word : Char → Bool
  -- The value of a decimal digit, `\d`.
  pub digit : Char → Option ℕ

-- `re.compile(r"(?<=[.!?])\s+").split(s)`: cut at white space that follows a full stop or the like.
unfoldable pub ends_sentence : Char → Bool
ends_sentence c = code c == b'.' || code c == b'!' || code c == b'?'

-- `after` says that the character before ends a sentence, `inside` that a cut is being skipped.
abbrev pub split_scan : Bool → Bool → String → String → List String
split_scan after inside w String.[] = w ∷ []
split_scan after inside w (String.◌∷◌ c s) =
    let skipped = split_scan false true w s in
    let cut = w ∷ split_scan false true String.[] s in
    let more = split_scan (ends_sentence c) false (w ++ String.◌∷◌ c String.[]) s in
    if is_space c && inside then skipped else (if is_space c && after then cut else more)

unfoldable pub split_after : String → List String
unfolding is_space ends_sentence
split_after s = split_scan false false String.[] s
