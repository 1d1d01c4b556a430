-- ===== src/Ingestion/Cleaning.antt =====
-- backend/app/ingestion/cleaning.py. A set of page numbers is a list without repetition, a set of
-- lines the list of the entries of the dictionary that it is drawn from. `unicodedata.normalize` and
-- the tables that `\w` consults are parameters.
pub mod Pages
pub mod Boilerplate
pub mod Ink
pub mod Joined
pub mod Cleaned
use Prim.Native.Char.{Char, code}
use Prim.Native.String.{◌++◌ as str_append}
use production_rag_system.Prelude.{
  ℕ, suc, ◌+◌, String, Bool, true, false, not, ◌&&◌, ◌||◌, List, [], ◌∷◌, map, Option, none, some,
  Dict, lookup, insert, contains, filterb, anyb, length, leb, ltb, ◌==◌, Floats, flt, fratio,
  if◌then◌else◌,
}
use production_rag_system.Prelude.Text.{Unicode, is_empty, is_space, strip, join}
use production_rag_system.Core.Settings.{Settings}
use production_rag_system.Ingestion.Schemas.{Block}

abbrev pub of_char : Char → String
of_char c = String.◌∷◌ c String.[]

abbrev pub begin_line : Char → List String → List String
begin_line c [] = of_char c ∷ []
begin_line c (line ∷ lines) = String.◌∷◌ c line ∷ lines

-- `text.split("\n")`
unfoldable pub split_lines : String → List String
split_lines String.[] = "" ∷ []
split_lines (String.◌∷◌ c s) =
    let lines = split_lines s in if code c == b'\n' then "" ∷ lines else begin_line c lines

-- Where the match of `(\w)-\s*\n\s*(\w)` stands: before it, after its first character, or in its
-- white space, which may hold a line break by now.
pub data BreakScan : Type 0 where
  outside after_word : BreakScan
  in_break : String → Bool → BreakScan

module _ (unicode : Unicode) where
  abbrev pub next_outside : Char → String × BreakScan
  next_outside c = (of_char c, if unicode.is_word c then after_word else outside)

  -- What a character adds to the text, and where the match stands after it.
  unfoldable pub dehyphenate_step : BreakScan → Char → String × BreakScan
  unfolding is_space
  dehyphenate_step outside c = next_outside c
  dehyphenate_step after_word c = if code c == b'-' then ("", in_break "" false) else next_outside c
  dehyphenate_step (in_break gap broken) c =
      if is_space c
      then ("", in_break (str_append gap (of_char c)) (broken || code c == b'\n'))
      else (if broken && unicode.is_word c
          then (of_char c, outside)
          else (str_append "-" (str_append gap (next_outside c).0), (next_outside c).1))

  abbrev pub unmatched : BreakScan → String
  unmatched outside = ""
  unmatched after_word = ""
  unmatched (in_break gap broken) = str_append "-" gap

  unfoldable pub dehyphenate_from : BreakScan → String → String
  unfolding dehyphenate_step
  dehyphenate_from scan String.[] = unmatched scan
  dehyphenate_from scan (String.◌∷◌ c s) =
      let next = dehyphenate_step scan c in str_append next.0 (dehyphenate_from next.1 s)

  abbrev pub dehyphenate : String → String
  dehyphenate text = dehyphenate_from outside text

-- `re.sub(r"[ \t]+", " ", text)`, within such a run or not.
unfoldable pub collapse_inline : Bool → String → String
collapse_inline inside String.[] = ""
collapse_inline inside (String.◌∷◌ c s) =
    let more = collapse_inline true s in
    let other = collapse_inline false s in
    if code c == b' ' || code c == b'\t'
    then (if inside then more else str_append " " more)
    else String.◌∷◌ c other

-- `re.sub(r"\n{3,}", "\n\n", text)`, after this many line breaks.
unfoldable pub collapse_breaks : ℕ → String → String
collapse_breaks n String.[] = ""
collapse_breaks n (String.◌∷◌ c s) =
    let more = collapse_breaks (n + 1) s in
    let other = collapse_breaks 0 s in
    if code c == b'\n' then (if leb 2 n then more else String.◌∷◌ c more) else String.◌∷◌ c other

unfoldable pub collapse_whitespace : String → String
unfolding collapse_inline collapse_breaks split_lines strip join
collapse_whitespace text =
    strip (join "\n" (map strip (split_lines (collapse_breaks 0 (collapse_inline false text)))))

abbrev pub add_page : Option ℕ → List ℕ → List ℕ
add_page none pages = pages
add_page (some p) pages = if anyb (λ q. q == p) pages then pages else p ∷ pages

-- The pages of the blocks that have one.
abbrev pub page_set : List ℕ → List Block → List ℕ
page_set pages [] = pages
page_set pages (b ∷ bs) = page_set (add_page b.page_start pages) bs

abbrev pub pages_or : Option (List ℕ) → List ℕ
pages_or none = []
pages_or (some pages) = pages

abbrev pub pages_at : String → Dict (List ℕ) → List ℕ
pages_at line pages_per_line = pages_or (lookup line pages_per_line)

abbrev pub note_line : ℕ → Dict (List ℕ) → String → Dict (List ℕ)
note_line page pages_per_line line =
    let stripped = strip line in
    if is_empty stripped
    then pages_per_line
    else insert stripped (add_page (some page) (pages_at stripped pages_per_line)) pages_per_line

abbrev pub note_lines : ℕ → Dict (List ℕ) → List String → Dict (List ℕ)
note_lines page pages_per_line [] = pages_per_line
note_lines page pages_per_line (line ∷ lines) =
    note_lines page (note_line page pages_per_line line) lines

abbrev pub note_page : Option ℕ → Dict (List ℕ) → List String → Dict (List ℕ)
note_page none pages_per_line lines = pages_per_line
note_page (some page) pages_per_line lines = note_lines page pages_per_line lines

abbrev pub note_block : Dict (List ℕ) → Block → Dict (List ℕ)
note_block pages_per_line b = note_page b.page_start pages_per_line (split_lines b.page_content)

abbrev pub note_blocks : Dict (List ℕ) → List Block → Dict (List ℕ)
note_blocks pages_per_line [] = pages_per_line
note_blocks pages_per_line (b ∷ bs) = note_blocks (note_block pages_per_line b) bs

abbrev pub string_length : String → ℕ
string_length String.[] = 0
string_length (String.◌∷◌ c s) = suc (string_length s)

abbrev pub without_lines : List String → String → String
without_lines [] text = text
without_lines (line ∷ lines) text =
    join "\n" (filterb (λ l. not (contains (line ∷ lines) (strip l))) (split_lines text))

module _ {F : Type 0} ⦃fl : Floats F⦄ where
  abbrev pub repeats : F → ℕ → String × List ℕ → Bool
  repeats ratio_threshold total_pages (line, pages) =
      leb 2 (length pages) && flt ratio_threshold (fratio (length pages) total_pages)

  unfoldable pub find_header_footer_lines : F → List Block → List String
  unfolding split_lines strip
  find_header_footer_lines ratio_threshold blocks =
      let total_pages = length (page_set [] blocks) in
      if ltb total_pages 2
      then []
      else map (λ e. e.0) (filterb (repeats ratio_threshold total_pages) (note_blocks [] blocks))

  module _ (unicode : Unicode) (nfc : String → String) (settings : Settings F) where
    abbrev pub cleaned_text : List String → Block → String
    cleaned_text boilerplate b =
        nfc (collapse_whitespace (dehyphenate unicode (without_lines boilerplate b.page_content)))

    abbrev pub clean_each : List String → List Block → List Block
    clean_each boilerplate [] = []
    clean_each boilerplate (b ∷ bs) =
        let rest = clean_each boilerplate bs in
        let text = cleaned_text boilerplate b in
        if ltb (string_length text) settings.clean_min_block_chars
        then rest
        else record b { page_content = text } ∷ rest

    unfoldable pub clean : List Block → List Block
    unfolding find_header_footer_lines dehyphenate_from collapse_whitespace split_lines strip join
    clean blocks =
        clean_each (find_header_footer_lines settings.clean_header_footer_page_ratio blocks) blocks
