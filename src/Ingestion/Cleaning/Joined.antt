-- ===== src/Ingestion/Cleaning/Joined.antt =====
-- The joining of hyphenated words in backend/app/ingestion/cleaning.py, and the characters it leaves.
use Prim.Native.Char.{Char, code}
use Prim.Native.String.{◌++◌ as str_append}
use production_rag_system.Prelude.{
  String, ◌≡◌, refl, sym, ap, ap₂, ◌∙◌, Bool, true, false, ◌&&◌, ◌||◌, ◌==◌, if◌then◌else◌,
}
use production_rag_system.Prelude.Text.{Unicode, is_space}
use production_rag_system.Ingestion.Cleaning.{
  of_char, BreakScan, outside, after_word, in_break, next_outside, dehyphenate_step,
  dehyphenate_from, dehyphenate, collapse_whitespace,
}
use production_rag_system.Ingestion.Cleaning.Ink.{
  ink, ink-gap, ink-head, ink-append, ink-after, hyphen_gap, ink-collapse_whitespace,
}

-- What is held back within a match is white space.
abbrev IsHeld : BreakScan → Type 0
IsHeld outside = Unit
IsHeld after_word = Unit
IsHeld (in_break gap broken) = ink gap ≡ ""

ink_of_hyphen : ink "-" ≡ ""
unfolding is_space
ink_of_hyphen = refl

module _ (unicode : Unicode) where
  abbrev Steps : Char → String × BreakScan → Type 0
  Steps c (out, scan) = (ink out ≡ ink (of_char c)) × IsHeld scan

  next_outside-Steps : (c : Char) → Steps c (next_outside unicode c)
  next_outside-Steps c = (
    refl,
    elim (unicode.is_word c) as (λ b. IsHeld (if b then after_word else outside)) [
      | true ↦ tt
      | false ↦ tt
    ],
  )

  Steps-if :
      (b : Bool) (c : Char) (x y : String × BreakScan)
      → (b ≡ true → Steps c x)
      → Steps c y
      → Steps c (if b then x else y)
  Steps-if true c x y hx hy = hx refl
  Steps-if false c x y hx hy = hy

  step-Steps :
      (scan : BreakScan) (c : Char) → IsHeld scan → Steps c (dehyphenate_step unicode scan c)
  unfolding dehyphenate_step
  step-Steps outside c held = next_outside-Steps c
  step-Steps after_word c held =
      Steps-if (code c == b'-') c ("", in_break "" false) (next_outside unicode c)
        (λ h. (sym (ink-gap c "" (hyphen_gap c h)), refl)) (next_outside-Steps c)
  step-Steps (in_break gap broken) c held =
      let more = str_append gap (of_char c) in
      let next = next_outside unicode c in
      let given_up : String × BreakScan = (str_append "-" (str_append gap next.0), next.1) in
      Steps-if (is_space c) c ("", in_break more (broken || code c == b'\n'))
        (if broken && unicode.is_word c then (of_char c, outside) else given_up)
        (λ h.
          let blank : ink (of_char c) ≡ "" = ink-gap c "" (ap (λ b. b || code c == b'-') h) in
          (sym blank, ink-after gap (of_char c) held ∙ blank))
        (Steps-if (broken && unicode.is_word c) c (of_char c, outside) given_up (λ h. (refl, tt))
          (
            ink-after "-" (str_append gap next.0) ink_of_hyphen ∙ ink-after gap next.0 held,
            (next_outside-Steps c).1,
          ))

  pub ink-dehyphenate_from :
      (scan : BreakScan) (s : String) → IsHeld scan → ink (dehyphenate_from unicode scan s) ≡ ink s
  unfolding dehyphenate_from
  ink-dehyphenate_from outside String.[] held = refl
  ink-dehyphenate_from after_word String.[] held = refl
  ink-dehyphenate_from (in_break gap broken) String.[] held = ink-after "-" gap ink_of_hyphen ∙ held
  ink-dehyphenate_from scan (String.◌∷◌ c s) held =
      let next = dehyphenate_step unicode scan c in
      let (same, held') = step-Steps scan c held in
      ink-append next.0 (dehyphenate_from unicode next.1 s)
      ∙ (ap₂ str_append same (ink-dehyphenate_from next.1 s held') ∙ sym (ink-head c s))

  -- Before it is normalised, a text loses nothing but white space and hyphens.
  pub ink-collapsed : (s : String) → ink (collapse_whitespace (dehyphenate unicode s)) ≡ ink s
  ink-collapsed s =
      ink-collapse_whitespace (dehyphenate unicode s) ∙ ink-dehyphenate_from outside s tt
