-- ===== src/Ingestion/Cleaning/Pages.antt =====
-- What backend/app/ingestion/cleaning.py counts: the pages on which a line stands.
use production_rag_system.Prelude.{
  ℕ, String, ◌≡◌, refl, sym, ap, ap₂, ◌∙◌, inl, inr, Bool, true, false, ◌||◌, List, [], ◌∷◌, Option,
  none, some, arith, Dict, lookup, insert, lookup-insert, keys, contains, contains-keys-insert,
  Distinct, Distinct-keys-insert, anyb, filterb, ◌==◌, ==_iff, str_eq, eq_iff, Bool-cases,
  if◌then◌else◌,
}
use production_rag_system.Prelude.Text.{is_empty, strip}
use production_rag_system.Ingestion.Schemas.{Block}
use production_rag_system.Ingestion.Cleaning.{
  split_lines, add_page, page_set, pages_or, pages_at, note_page, note_line, note_lines, note_block,
  note_blocks,
}

-- A line of the block is this one, but for the white space around it.
abbrev pub has_line : String → Block → Bool
has_line line b = anyb (λ l. str_eq (strip l) line) (split_lines b.page_content)

pages_or-if :
    (b : Bool) (pages : List ℕ) (o : Option (List ℕ))
    → pages_or (if b then some pages else o) ≡ (if b then pages else pages_or o)
pages_or-if true pages o = refl
pages_or-if false pages o = refl

pages_at-insert :
    (k line : String) (pages : List ℕ) (d : Dict (List ℕ))
    → pages_at line (insert k pages d) ≡ (if str_eq k line then pages else pages_at line d)
pages_at-insert k line pages d =
    ap pages_or (lookup-insert k line pages d) ∙ pages_or-if (str_eq k line) pages (lookup line d)

-- A page is added, or not.
abbrev noted : Bool → Option ℕ → List ℕ → List ℕ
noted true page pages = add_page page pages
noted false page pages = pages

noted-or :
    (b c : Bool) (p : ℕ) (pages : List ℕ)
    → noted c (some p) (noted b (some p) pages) ≡ noted (b || c) (some p) pages
noted-or false c p pages = refl
noted-or true false p pages = refl
noted-or true true p pages = elim (Bool-cases (anyb (λ q. q == p) pages)) [
  | inl there ↦ ground (arith, there)
  | inr fresh ↦ ground (arith, fresh, ==_iff p p)
]

module _ (line : String) (solid : is_empty line ≡ false) where
  note_line-pages :
      (p : ℕ) (d : Dict (List ℕ)) (l : String)
      → pages_at line (note_line p d l) ≡ noted (str_eq (strip l) line) (some p) (pages_at line d)
  note_line-pages p d l = elim (Bool-cases (is_empty stripped)) [
    | inl blank ↦ ap after blank ∙ ap (λ b. noted b (some p) (pages_at line d)) (sym (apart blank))
    | inr filled ↦
        ap after filled
        ∙ (pages_at-insert stripped line (add_page (some p) (pages_at stripped d)) d
            ∙ by_test (str_eq stripped line) (eq_iff stripped line).0)
  ]
    where
      stripped : String
      stripped = strip l

      after : Bool → List ℕ
      after b =
          pages_at line
            (if b then d else insert stripped (add_page (some p) (pages_at stripped d)) d)

      apart : is_empty stripped ≡ true → str_eq stripped line ≡ false
      apart blank = elim (Bool-cases (str_eq stripped line)) [
        | inl same ↦
            absurd (ground (arith, blank, solid, ap is_empty ((eq_iff stripped line).0 same)))
        | inr other ↦ other
      ]

      by_test :
          (b : Bool)
          → (b ≡ true → stripped ≡ line)
          → (if b then add_page (some p) (pages_at stripped d) else pages_at line d)
            ≡ noted b (some p) (pages_at line d)
      by_test true same = ap (λ k. add_page (some p) (pages_at k d)) (same refl)
      by_test false same = refl

  note_lines-pages :
      (p : ℕ) (ls : List String) (d : Dict (List ℕ))
      → pages_at line (note_lines p d ls)
        ≡ noted (anyb (λ l. str_eq (strip l) line) ls) (some p) (pages_at line d)
  note_lines-pages p [] d = refl
  note_lines-pages p (l ∷ ls) d =
      note_lines-pages p ls (note_line p d l)
      ∙ (ap (noted (anyb (λ k. str_eq (strip k) line) ls) (some p)) (note_line-pages p d l)
          ∙ noted-or (str_eq (strip l) line) (anyb (λ k. str_eq (strip k) line) ls) p
              (pages_at line d))

  note_page-pages :
      (page : Option ℕ) (d : Dict (List ℕ)) (ls : List String)
      → pages_at line (note_page page d ls)
        ≡ noted (anyb (λ l. str_eq (strip l) line) ls) page (pages_at line d)
  note_page-pages (some p) d ls = note_lines-pages p ls d
  note_page-pages none d ls = nowhere (anyb (λ l. str_eq (strip l) line) ls)
    where
      nowhere : (b : Bool) → pages_at line d ≡ noted b none (pages_at line d)
      nowhere true = refl
      nowhere false = refl

  -- The dictionary has the pages of the blocks that have the line.
  pub note_blocks-pages :
      (bs : List Block) (d : Dict (List ℕ))
      → pages_at line (note_blocks d bs) ≡ page_set (pages_at line d) (filterb (has_line line) bs)
  note_blocks-pages [] d = refl
  note_blocks-pages (b ∷ bs) d =
      note_blocks-pages bs (note_block d b)
      ∙ (ap (λ pages. page_set pages rest)
            (note_page-pages b.page_start d (split_lines b.page_content))
          ∙ by_test (has_line line b))
    where
      rest : List Block
      rest = filterb (has_line line) bs

      by_test :
          (t : Bool)
          → page_set (noted t b.page_start (pages_at line d)) rest
            ≡ page_set (pages_at line d) (if t then b ∷ rest else rest)
      by_test true = refl
      by_test false = refl

-- Its keys are distinct, and no blank line is one.
abbrev pub IsKeyed : Dict (List ℕ) → Type 0
IsKeyed d = Distinct (keys d) × (contains (keys d) "" ≡ false)

insert-IsKeyed :
    (k : String) (pages : List ℕ) (d : Dict (List ℕ))
    → is_empty k ≡ false
    → IsKeyed d
    → IsKeyed (insert k pages d)
insert-IsKeyed k pages d filled (distinct, solid) = (
  Distinct-keys-insert k pages d distinct,
  contains-keys-insert k "" pages d ∙ ap₂ ◌||◌ apart solid,
)
  where
    apart : str_eq k "" ≡ false
    apart = elim (Bool-cases (str_eq k "")) [
      | inl same ↦ absurd (ground (arith, filled, ap is_empty ((eq_iff k "").0 same)))
      | inr other ↦ other
    ]

note_lines-IsKeyed :
    (p : ℕ) (ls : List String) (d : Dict (List ℕ)) → IsKeyed d → IsKeyed (note_lines p d ls)
note_lines-IsKeyed p [] d h = h
note_lines-IsKeyed p (l ∷ ls) d h =
    note_lines-IsKeyed p ls (note_line p d l) (by_test (is_empty (strip l)) refl)
  where
    by_test :
        (b : Bool)
        → is_empty (strip l) ≡ b
        → IsKeyed (if b then d else insert (strip l) (add_page (some p) (pages_at (strip l) d)) d)
    by_test true e = h
    by_test false e = insert-IsKeyed (strip l) (add_page (some p) (pages_at (strip l) d)) d e h

note_page-IsKeyed :
    (page : Option ℕ) (ls : List String) (d : Dict (List ℕ))
    → IsKeyed d
    → IsKeyed (note_page page d ls)
note_page-IsKeyed none ls d h = h
note_page-IsKeyed (some p) ls d h = note_lines-IsKeyed p ls d h

pub note_blocks-IsKeyed :
    (bs : List Block) (d : Dict (List ℕ)) → IsKeyed d → IsKeyed (note_blocks d bs)
note_blocks-IsKeyed [] d h = h
note_blocks-IsKeyed (b ∷ bs) d h =
    note_blocks-IsKeyed bs (note_block d b)
      (note_page-IsKeyed b.page_start (split_lines b.page_content) d h)
