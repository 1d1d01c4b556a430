-- ===== src/Ingestion/Cleaning/Cleaned.antt =====
-- What backend/app/ingestion/cleaning.py makes of the blocks of a document.
use production_rag_system.Prelude.{
  ℕ, ◌<◌, ◌≤◌, String, ◌≡◌, refl, sym, ap, ◌∙◌, Bool, true, false, not, List, [], ◌∷◌, arith,
  contains, filterb, filterb-all, ltb, if◌then◌else◌, Floats,
}
use production_rag_system.Prelude.Text.{Unicode, strip}
use production_rag_system.Core.Settings.{Settings}
use production_rag_system.Ingestion.Schemas.{Block}
use production_rag_system.Ingestion.Cleaning.{
  split_lines, dehyphenate, collapse_whitespace, string_length, find_header_footer_lines,
  without_lines, clean_each, clean,
}
use production_rag_system.Ingestion.Cleaning.Boilerplate.{
  is_header_footer, find_header_footer_lines-exact,
}
use production_rag_system.Ingestion.Cleaning.Ink.{ink, inks, ink-join, inks-split_lines}
use production_rag_system.Ingestion.Cleaning.Joined.{ink-collapsed}

filterb-cong :
    {A : Type 0} (p q : A → Bool)
    → ((x : A) → p x ≡ q x)
    → (xs : List A) → filterb p xs ≡ filterb q xs
filterb-cong p q h [] = refl
filterb-cong p q h (x ∷ xs) =
    ap (λ b. if b then x ∷ filterb p xs else filterb p xs) (h x)
    ∙ ap (λ l. if q x then x ∷ l else l) (filterb-cong p q h xs)

-- The lines of a block that are no headers or footers.
abbrev pub kept_lines : (String → Bool) → Block → List String
kept_lines is_boilerplate b =
    filterb (λ l. not (is_boilerplate (strip l))) (split_lines b.page_content)

pub data IsCleaned (is_boilerplate : String → Bool) (nfc : String → String) (minimum : ℕ)
    : List Block → List Block → Type 0 where
  none_left : IsCleaned is_boilerplate nfc minimum [] []
  kept :
      (b : Block) (text : String) {bs cs : List Block}
      → ink text ≡ inks (kept_lines is_boilerplate b)
      → minimum ≤ string_length (nfc text)
      → IsCleaned is_boilerplate nfc minimum bs cs
      → IsCleaned is_boilerplate nfc minimum (b ∷ bs) (record b { page_content = nfc text } ∷ cs)
  too_short :
      (b : Block) (text : String) {bs cs : List Block}
      → ink text ≡ inks (kept_lines is_boilerplate b)
      → string_length (nfc text) < minimum
      → IsCleaned is_boilerplate nfc minimum bs cs
      → IsCleaned is_boilerplate nfc minimum (b ∷ bs) cs

ink-without_lines :
    (lines : List String) (is_boilerplate : String → Bool) (b : Block)
    → ((l : String) → contains lines l ≡ is_boilerplate l)
    → ink (without_lines lines b.page_content) ≡ inks (kept_lines is_boilerplate b)
ink-without_lines [] is_boilerplate b same = sym (
    ap inks (
      filterb-cong (λ l. not (is_boilerplate (strip l))) (λ l. true)
        (λ l. ap not (sym (same (strip l)))) (split_lines b.page_content)
      ∙ filterb-all (split_lines b.page_content))
    ∙ inks-split_lines b.page_content)
ink-without_lines (line ∷ lines) is_boilerplate b same =
    ink-join (filterb (λ l. not (contains (line ∷ lines) (strip l))) (split_lines b.page_content))
    ∙ ap inks (
        filterb-cong (λ l. not (contains (line ∷ lines) (strip l)))
          (λ l. not (is_boilerplate (strip l))) (λ l. ap not (same (strip l)))
          (split_lines b.page_content))

module _ {F : Type 0} ⦃fl : Floats F⦄ (unicode : Unicode) (nfc : String → String)
    (settings : Settings F) where
  clean_each-IsCleaned :
      (lines : List String) (is_boilerplate : String → Bool)
      → ((l : String) → contains lines l ≡ is_boilerplate l)
      → (bs : List Block)
      → IsCleaned is_boilerplate nfc settings.clean_min_block_chars bs
          (clean_each unicode nfc settings lines bs)
  clean_each-IsCleaned lines is_boilerplate same [] = none_left
  clean_each-IsCleaned lines is_boilerplate same (b ∷ bs) =
      by_test (ltb (string_length (nfc text)) settings.clean_min_block_chars) refl
        (clean_each-IsCleaned lines is_boilerplate same bs)
    where
      minimum : ℕ
      minimum = settings.clean_min_block_chars

      text : String
      text = collapse_whitespace (dehyphenate unicode (without_lines lines b.page_content))

      lossless : ink text ≡ inks (kept_lines is_boilerplate b)
      lossless =
          ink-collapsed unicode (without_lines lines b.page_content)
          ∙ ink-without_lines lines is_boilerplate b same

      by_test :
          (t : Bool)
          → ltb (string_length (nfc text)) minimum ≡ t
          → {cs : List Block} → IsCleaned is_boilerplate nfc minimum bs cs
          → IsCleaned is_boilerplate nfc minimum
              (b ∷ bs)
              (if t then cs else record b { page_content = nfc text } ∷ cs)
      by_test true short rest = too_short b text lossless (ground (arith, short)) rest
      by_test false long rest = kept b text lossless (ground (arith, long)) rest

  -- Cleaning keeps the order and the metadata of the blocks. The text of a block that is kept is
  -- the normalised form of a text with the characters of its lines in their order, but for headers,
  -- footers, white space and hyphens; it has at least CLEAN_MIN_BLOCK_CHARS characters, and just
  -- the blocks whose text would have fewer are left out.
  pub clean-IsCleaned :
      (blocks : List Block)
      → IsCleaned
          (is_header_footer settings.clean_header_footer_page_ratio blocks)
          nfc
          settings.clean_min_block_chars
          blocks
          (clean unicode nfc settings blocks)
  unfolding clean
  clean-IsCleaned blocks =
      clean_each-IsCleaned (find_header_footer_lines settings.clean_header_footer_page_ratio blocks)
        (is_header_footer settings.clean_header_footer_page_ratio blocks)
        (find_header_footer_lines-exact settings.clean_header_footer_page_ratio blocks) blocks
