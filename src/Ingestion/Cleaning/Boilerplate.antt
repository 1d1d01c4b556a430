-- ===== src/Ingestion/Cleaning/Boilerplate.antt =====
-- Which lines backend/app/ingestion/cleaning.py takes for headers and footers.
use production_rag_system.Prelude.{
  ℕ, String, ◌≡◌, refl, sym, ap, ◌∙◌, inl, inr, Bool, true, false, not, ◌&&◌, ◌||◌, ◌⊎◌, List, [],
  ◌∷◌, map, Option, none, some, arith, Dict, lookup, keys, contains, Distinct, filterb, length, leb,
  ltb, str_eq, eq_iff, Bool-cases, if◌then◌else◌, Floats, flt, fratio,
}
use production_rag_system.Prelude.Text.{is_empty, only_empty}
use production_rag_system.Ingestion.Schemas.{Block}
use production_rag_system.Ingestion.Cleaning.{
  page_set, pages_or, note_blocks, repeats, find_header_footer_lines,
}
use production_rag_system.Ingestion.Cleaning.Pages.{
  has_line, IsKeyed, note_blocks-pages, note_blocks-IsKeyed,
}

-- What a test says of the entry of a key, if it has one.
abbrev of_entry : (String × List ℕ → Bool) → String → Option (List ℕ) → Bool
of_entry test k none = false
of_entry test k (some pages) = test (k, pages)

of_entry-absent :
    (test : String × List ℕ → Bool) (k : String) (d : Dict (List ℕ))
    → contains (keys d) k ≡ false
    → of_entry test k (lookup k d) ≡ false
of_entry-absent test k [] h = refl
of_entry-absent test k ((j, v) ∷ d) h =
    ap (λ b. of_entry test k (if b then some v else lookup k d)) other
    ∙ of_entry-absent test k d (ground (arith, h))
  where
    other : str_eq j k ≡ false
    other = ground (arith, h)

-- The keys of the entries that pass a test.
contains-filterb :
    (test : String × List ℕ → Bool) (k : String) (d : Dict (List ℕ))
    → Distinct (keys d)
    → contains (map (λ e. e.0) (filterb test d)) k ≡ of_entry test k (lookup k d)
contains-filterb test k [] distinct = refl
contains-filterb test k ((j, v) ∷ d) distinct =
    by_test (test (j, v))
    ∙ (ap (λ b. (test (j, v) && str_eq j k) || b) (contains-filterb test k d distinct.1)
        ∙ by_key (Bool-cases (str_eq j k)))
  where
    rest : Dict (List ℕ)
    rest = filterb test d

    by_test :
        (t : Bool)
        → contains (map (λ e. e.0) (if t then (j, v) ∷ rest else rest)) k
          ≡ (t && str_eq j k) || contains (map (λ e. e.0) rest) k
    by_test true = refl
    by_test false = refl

    found : Bool → Bool
    found b = of_entry test k (if b then some v else lookup k d)

    by_key :
        (str_eq j k ≡ true) ⊎ (str_eq j k ≡ false)
        → (test (j, v) && str_eq j k) || of_entry test k (lookup k d) ≡ found (str_eq j k)
    by_key (inl same) =
        let key : j ≡ k = (eq_iff j k).0 same in
        let absent : of_entry test k (lookup k d) ≡ false =
          of_entry-absent test k d (ap (contains (keys d)) (sym key) ∙ distinct.0) in
        ground (arith, same, absent) ∙ (ap (λ i. test (i, v)) key ∙ ap found (sym same))
    by_key (inr other) = ground (arith, other) ∙ ap found (sym other)

module _ {F : Type 0} ⦃fl : Floats F⦄ (ratio_threshold : F) (blocks : List Block) where
  -- The pages of the blocks that have the line are at least two, and more than this share of all.
  abbrev pub is_header_footer : String → Bool
  is_header_footer line =
      let total_pages = length (page_set [] blocks) in
      let pages = length (page_set [] (filterb (has_line line) blocks)) in
      leb 2 total_pages
      && (not (is_empty line) && (leb 2 pages && flt ratio_threshold (fratio pages total_pages)))

  -- The lines that are taken for headers and footers are exactly those that are not blank and
  -- stand, but for the white space around them, on at least two of the document's pages, of which
  -- it has at least two, and on more than CLEAN_HEADER_FOOTER_PAGE_RATIO of them; blocks without a
  -- page do not count.
  pub find_header_footer_lines-exact :
      (line : String)
      → contains (find_header_footer_lines ratio_threshold blocks) line ≡ is_header_footer line
  unfolding find_header_footer_lines
  find_header_footer_lines-exact line = elim (Bool-cases (ltb total_pages 2)) [
    | inl few ↦
        let none_of : false ≡ leb 2 total_pages = ground (arith, few) in
        ap found few ∙ ap (λ b. b && rest (is_empty line)) none_of
    | inr many ↦
        let enough : true ≡ leb 2 total_pages = ground (arith, many) in
        ap found many
        ∙ (contains-filterb (repeats ratio_threshold total_pages) line noted keyed.0
            ∙ (by_line (Bool-cases (is_empty line)) ∙ ap (λ b. b && rest (is_empty line)) enough))
  ]
    where
      total_pages : ℕ
      total_pages = length (page_set [] blocks)

      noted : Dict (List ℕ)
      noted = note_blocks [] blocks

      keyed : IsKeyed noted
      keyed = note_blocks-IsKeyed blocks [] (tt, refl)

      found : Bool → Bool
      found b =
          contains
            (if b then [] else map (λ e. e.0) (filterb (repeats ratio_threshold total_pages) noted))
            line

      told : List ℕ → Bool
      told pages = leb 2 (length pages) && flt ratio_threshold (fratio (length pages) total_pages)

      rest : Bool → Bool
      rest blank = not blank && told (page_set [] (filterb (has_line line) blocks))

      entry :
          (o : Option (List ℕ))
          → of_entry (repeats ratio_threshold total_pages) line o ≡ told (pages_or o)
      entry none = ground arith
      entry (some pages) = refl

      by_line :
          (is_empty line ≡ true) ⊎ (is_empty line ≡ false)
          → of_entry (repeats ratio_threshold total_pages) line (lookup line noted)
            ≡ rest (is_empty line)
      by_line (inl blank) =
          of_entry-absent (repeats ratio_threshold total_pages) line noted
            (ap (contains (keys noted)) (only_empty line blank) ∙ keyed.1)
          ∙ ap rest (sym blank)
      by_line (inr solid) =
          entry (lookup line noted)
          ∙ (ap told (note_blocks-pages line solid blocks []) ∙ ap rest (sym solid))
