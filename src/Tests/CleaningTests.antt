-- ===== src/Tests/CleaningTests.antt =====
-- The theorems on backend/app/ingestion/cleaning.py at concrete inputs.
use production_rag_system.Prelude.{
  ℕ, String, ◌≡◌, refl, false, List, [], ◌∷◌, Option, none, some, contains,
}
use production_rag_system.Prelude.Text.{strip, lstrip, rstrip, is_space, join}
use production_rag_system.Ingestion.Schemas.{Block}
use production_rag_system.Ingestion.Cleaning.{
  clean, find_header_footer_lines, split_lines, dehyphenate_from, dehyphenate_step,
  collapse_whitespace, collapse_inline, collapse_breaks,
}
use production_rag_system.Ingestion.Cleaning.Boilerplate.{
  is_header_footer, find_header_footer_lines-exact,
}
use production_rag_system.Ingestion.Cleaning.Cleaned.{IsCleaned, clean-IsCleaned}
use production_rag_system.Samples.{defaults, ascii, thousandths}

abbrev block : String → Option ℕ → Block
block text page = record {
  page_content = text;
  page_start = page;
  page_end = page;
  anchor = none;
  section_heading = none;
  is_scanned = false;
  html_links_only_pdf = false;
}

-- "Rules" stands on two of three pages; the second block of the third page is too short.
abbrev pages : List Block
pages =
    block "Rules\nThe late-\n  fee  is\n\n\n\n500." (some 1)
    ∷ block "  Rules \nPay in May." (some 2)
    ∷ block "Rates\nof well-known banks" (some 3)
    ∷ block " x " (some 3)
    ∷ []

cleaned_pages : clean ascii (λ text. text) defaults pages ≡ (
    block "The latefee is\n\n500." (some 1)
    ∷ block "Pay in May." (some 2)
    ∷ block "Rates\nof well-known banks" (some 3)
    ∷ [])
unfolding clean find_header_footer_lines split_lines dehyphenate_from dehyphenate_step
    collapse_whitespace collapse_inline collapse_breaks strip lstrip rstrip is_space join
cleaned_pages = refl

clean-IsCleaned_example :
    IsCleaned
      (is_header_footer {F = ℕ} 600 pages)
      (λ text. text)
      2
      pages
      (clean ascii (λ text. text) defaults pages)
clean-IsCleaned_example = clean-IsCleaned ascii (λ text. text) defaults pages

find_header_footer_lines-exact_example :
    contains (find_header_footer_lines {F = ℕ} 600 pages) "Rules"
    ≡ is_header_footer {F = ℕ} 600 pages "Rules"
find_header_footer_lines-exact_example = find_header_footer_lines-exact {F = ℕ} 600 pages "Rules"
