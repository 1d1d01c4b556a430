-- ===== src/Ingestion/Cleaning/Ink.antt =====
-- The characters of a text that are neither white space nor hyphens, under the steps of
-- backend/app/ingestion/cleaning.py.
use Prim.Native.Char.{Char, code}
use Prim.Native.String.{◌++◌ as str_append}
use text.Mathlib.TextLemmas.{nil-append, cons-append, append_assoc, append-nil}
use production_rag_system.Prelude.{
  ℕ, ◌+◌, String, ◌≡◌, refl, sym, ap, ap₂, ◌∙◌, Bool, true, false, ◌&&◌, ◌||◌, List, [], ◌∷◌, map,
  arith, leb, ◌==◌, if◌then◌else◌,
}
use production_rag_system.Prelude.Text.{is_empty, only_empty, is_space, lstrip, rstrip, strip, join}
use production_rag_system.Ingestion.Cleaning.{
  of_char, begin_line, split_lines, collapse_inline, collapse_breaks, collapse_whitespace,
}

abbrev pub is_gap : Char → Bool
is_gap c = is_space c || code c == b'-'

-- The characters of a text that are neither white space nor hyphens, in their order.
abbrev pub ink : String → String
ink String.[] = ""
ink (String.◌∷◌ c s) = if is_gap c then ink s else String.◌∷◌ c (ink s)

abbrev pub inks : List String → String
inks [] = ""
inks (s ∷ ss) = str_append (ink s) (inks ss)

pub ink-gap : (c : Char) (s : String) → is_gap c ≡ true → ink (String.◌∷◌ c s) ≡ ink s
ink-gap c s h = ap (λ b. if b then ink s else String.◌∷◌ c (ink s)) h

ink-cons : (c : Char) (s t : String) → ink s ≡ ink t → ink (String.◌∷◌ c s) ≡ ink (String.◌∷◌ c t)
ink-cons c s t h = ap (λ k. if is_gap c then k else String.◌∷◌ c k) h

pub ink-head : (c : Char) (s : String) → ink (String.◌∷◌ c s) ≡ str_append (ink (of_char c)) (ink s)
ink-head c s = by_test (is_gap c)
  where
    by_test :
        (b : Bool)
        → (if b then ink s else String.◌∷◌ c (ink s))
          ≡ str_append (if b then "" else of_char c) (ink s)
    by_test true = sym (nil-append (ink s))
    by_test false = sym (cons-append c "" (ink s) ∙ ap (String.◌∷◌ c) (nil-append (ink s)))

pub ink-append : (s t : String) → ink (str_append s t) ≡ str_append (ink s) (ink t)
ink-append String.[] t = ap ink (nil-append t) ∙ sym (nil-append (ink t))
ink-append (String.◌∷◌ c s) t =
    ap ink (cons-append c s t)
    ∙ (ink-head c (str_append s t)
        ∙ (ap (str_append (ink (of_char c))) (ink-append s t)
            ∙ (sym (append_assoc (ink (of_char c)) (ink s) (ink t))
                ∙ ap (λ k. str_append k (ink t)) (sym (ink-head c s)))))

-- A text that starts with a gap, or with nothing that counts.
pub ink-after : (s t : String) → ink s ≡ "" → ink (str_append s t) ≡ ink t
ink-after s t h = ink-append s t ∙ (ap (λ k. str_append k (ink t)) h ∙ nil-append (ink t))

break_gap : (c : Char) → code c == b'\n' ≡ true → is_gap c ≡ true
unfolding is_space
break_gap c h = ground (arith, h)

blank_gap : (c : Char) → code c == b' ' || code c == b'\t' ≡ true → is_gap c ≡ true
unfolding is_space
blank_gap c h = ground (arith, h)

pub hyphen_gap : (c : Char) → code c == b'-' ≡ true → is_gap c ≡ true
hyphen_gap c h = ground (arith, h)

ink_of_blank : ink " " ≡ ""
unfolding is_space
ink_of_blank = refl

ink_of_break : ink "\n" ≡ ""
unfolding is_space
ink_of_break = refl

-- A test that lets a character go is one of white space or hyphens.
ink-if :
    (b : Bool) (c : Char) (s x y : String)
    → (b ≡ true → is_gap c ≡ true)
    → (b ≡ true → ink x ≡ ink s)
    → ink y ≡ ink (String.◌∷◌ c s)
    → ink (if b then x else y) ≡ ink (String.◌∷◌ c s)
ink-if true c s x y gap hx hy = hx refl ∙ sym (ink-gap c s (gap refl))
ink-if false c s x y gap hx hy = hy

ink-collapse_inline : (inside : Bool) (s : String) → ink (collapse_inline inside s) ≡ ink s
unfolding collapse_inline
ink-collapse_inline inside String.[] = refl
ink-collapse_inline inside (String.◌∷◌ c s) =
    let more = collapse_inline true s in
    ink-if (code c == b' ' || code c == b'\t') c s (if inside then more else str_append " " more)
      (String.◌∷◌ c (collapse_inline false s)) (blank_gap c)
      (λ h. by_test inside more (ink-collapse_inline true s))
      (ink-cons c (collapse_inline false s) s (ink-collapse_inline false s))
  where
    by_test :
        (b : Bool) (more : String)
        → ink more ≡ ink s
        → ink (if b then more else str_append " " more) ≡ ink s
    by_test true more h = h
    by_test false more h = ink-after " " more ink_of_blank ∙ h

ink-collapse_breaks : (n : ℕ) (s : String) → ink (collapse_breaks n s) ≡ ink s
unfolding collapse_breaks
ink-collapse_breaks n String.[] = refl
ink-collapse_breaks n (String.◌∷◌ c s) =
    let more = collapse_breaks (n + 1) s in
    ink-if (code c == b'\n') c s (if leb 2 n then more else String.◌∷◌ c more)
      (String.◌∷◌ c (collapse_breaks 0 s)) (break_gap c)
      (λ h. by_test (leb 2 n) more (break_gap c h) (ink-collapse_breaks (n + 1) s))
      (ink-cons c (collapse_breaks 0 s) s (ink-collapse_breaks 0 s))
  where
    by_test :
        (b : Bool) (more : String)
        → is_gap c ≡ true
        → ink more ≡ ink s
        → ink (if b then more else String.◌∷◌ c more) ≡ ink s
    by_test true more gap h = h
    by_test false more gap h = ink-gap c more gap ∙ h

ink-lstrip : (s : String) → ink (lstrip s) ≡ ink s
unfolding lstrip
ink-lstrip String.[] = refl
ink-lstrip (String.◌∷◌ c s) =
    ink-if (is_space c) c s (lstrip s) (String.◌∷◌ c s) (λ h. ap (λ b. b || code c == b'-') h)
      (λ h. ink-lstrip s) refl

ink-rstrip : (s : String) → ink (rstrip s) ≡ ink s
unfolding rstrip
ink-rstrip String.[] = refl
ink-rstrip (String.◌∷◌ c s) =
    ink-if (is_space c && is_empty (rstrip s)) c s "" (String.◌∷◌ c (rstrip s))
      (λ h. ground (arith, h))
      (λ h. sym (ap ink (only_empty (rstrip s) (ground (arith, h)))) ∙ ink-rstrip s)
      (ink-cons c (rstrip s) s (ink-rstrip s))

ink-strip : (s : String) → ink (strip s) ≡ ink s
unfolding strip
ink-strip s = ink-rstrip (lstrip s) ∙ ink-lstrip s

inks-map-strip : (ls : List String) → inks (map strip ls) ≡ inks ls
inks-map-strip [] = refl
inks-map-strip (l ∷ ls) = ap₂ str_append (ink-strip l) (inks-map-strip ls)

pub ink-join : (ls : List String) → ink (join "\n" ls) ≡ inks ls
unfolding join
ink-join [] = refl
ink-join (l ∷ []) = sym (append-nil (ink l))
ink-join (l ∷ k ∷ ls) =
    ink-append l (str_append "\n" (join "\n" (k ∷ ls)))
    ∙ ap (str_append (ink l)) (ink-after "\n" (join "\n" (k ∷ ls)) ink_of_break ∙ ink-join (k ∷ ls))

inks-begin_line :
    (c : Char) (ls : List String) → inks (begin_line c ls) ≡ str_append (ink (of_char c)) (inks ls)
inks-begin_line c [] = refl
inks-begin_line c (l ∷ ls) =
    ap (λ k. str_append k (inks ls)) (ink-head c l)
    ∙ append_assoc (ink (of_char c)) (ink l) (inks ls)

pub inks-split_lines : (s : String) → inks (split_lines s) ≡ ink s
unfolding split_lines
inks-split_lines String.[] = nil-append ""
inks-split_lines (String.◌∷◌ c s) = by_test (code c == b'\n') (break_gap c) (inks-split_lines s)
  where
    by_test :
        (b : Bool)
        → (b ≡ true → is_gap c ≡ true)
        → inks (split_lines s) ≡ ink s
        → inks (if b then "" ∷ split_lines s else begin_line c (split_lines s))
          ≡ ink (String.◌∷◌ c s)
    by_test true gap h = nil-append (inks (split_lines s)) ∙ (h ∙ sym (ink-gap c s (gap refl)))
    by_test false gap h =
        inks-begin_line c (split_lines s)
        ∙ (ap (str_append (ink (of_char c))) h ∙ sym (ink-head c s))

pub ink-collapse_whitespace : (s : String) → ink (collapse_whitespace s) ≡ ink s
unfolding collapse_whitespace
ink-collapse_whitespace s =
    let lines = split_lines (collapse_breaks 0 (collapse_inline false s)) in
    ink-strip (join "\n" (map strip lines))
    ∙ (ink-join (map strip lines)
        ∙ (inks-map-strip lines
            ∙ (inks-split_lines (collapse_breaks 0 (collapse_inline false s))
                ∙ (ink-collapse_breaks 0 (collapse_inline false s) ∙ ink-collapse_inline false s))))
