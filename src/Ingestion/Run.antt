-- ===== src/Ingestion/Run.antt =====
-- backend/app/ingestion/run.py and to_json_line of backend/app/ingestion/serialize.py, with
-- select_loader of backend/app/ingestion/routing.py. The three loaders, which call parsers, and
-- what may fail at the writing of a file are fields of Tools.
pub mod Quiet
pub mod Underway
pub mod Isolated
pub mod Drift
pub mod Converted
use production_rag_system.Prelude.{
  ℕ, ◌+◌, ◌-◌, String, Bool, true, false, not, ◌&&◌, ◌||◌, List, [], ◌∷◌, ◌++◌, map, Option, none,
  some, Dict, lookup, insert, contains, anyb, filterb, length, str_eq, ◌==◌, if◌then◌else◌, decimal,
  Floats, concat,
}
use production_rag_system.Prelude.Text.{Unicode, is_empty, take_chars}
use production_rag_system.Core.Result.{Result, ok, err}
use production_rag_system.Core.Settings.{Settings}
use production_rag_system.Ingestion.Schemas.{
  DocStatus, registered, downloaded, extracted, indexed, failed, SourceRow, RawPath,
  DownloadOutcome, IngestResult, DocumentRow, Block, JsonLine, Corpus, IngestError, raised,
}
use production_rag_system.Ingestion.Bytes.{starts_with}
use production_rag_system.Ingestion.Cleaning.{add_page, clean}
use production_rag_system.Ingestion.Registry.{load_sources, upsert_documents}
use production_rag_system.Ingestion.Downloader.{
  HttpError, Response, name_of, not_fetched, fetch, sniff_content_type,
}
use production_rag_system.Ingestion.Legacy.{
  Conversion, ConversionError, unsupported, not_started, is_legacy_office_binary, convert_legacy,
}
use production_rag_system.Ingestion.Status.{
  Changes, no_changes, check_version_drift, drift_message, set_status,
}

-- A loader returns the blocks of a file with a document's id, or raises.
abbrev pub Loader : Type 0
Loader = List ℕ → String → Result String (List Block)

pub record Tools : Type 0 where
  pub sha256 : List ℕ → String
  pub lower : String → String
  pub get : SourceRow → ℕ → Result HttpError Response
  pub libreoffice : RawPath → String → Conversion
  pub load_pdf : Loader
  pub load_html : Loader
  pub load_office : String → Loader
  pub unicode : Unicode
  -- `unicodedata.normalize("NFC", text)`
  pub nfc : String → String
  pub write_failure : String → Option String
  pub now : ℕ

-- `"dead URL" in note`, of a note that the downloader wrote.
abbrev pub prefix_of : String → String → Bool
prefix_of String.[] s = true
prefix_of (String.◌∷◌ c p) String.[] = false
prefix_of (String.◌∷◌ c p) (String.◌∷◌ d s) =
    str_eq (String.◌∷◌ c String.[]) (String.◌∷◌ d String.[]) && prefix_of p s

abbrev pub occurs_in : String → String → Bool
occurs_in needle String.[] = is_empty needle
occurs_in needle (String.◌∷◌ c s) = prefix_of needle (String.◌∷◌ c s) || occurs_in needle s

abbrev pub tells_dead_url : Option String → Bool
tells_dead_url none = false
tells_dead_url (some note) = occurs_in "dead URL" note

abbrev pub select_loader : Tools → String → Result String Loader
select_loader tools file_type =
    if str_eq file_type "pdf"
    then ok tools.load_pdf
    else (if str_eq file_type "html"
        then ok tools.load_html
        else (if contains ("docx" ∷ "pptx" ∷ "xlsx" ∷ []) file_type
            then ok (tools.load_office file_type)
            else err (concat ("no loader registered for file_type='" ∷ file_type ∷ "'" ∷ []))))

abbrev pub loaded : Result String Loader → List ℕ → String → Result String (List Block)
loaded (err message) content doc_id = err message
loaded (ok loader) content doc_id = loader content doc_id

unfoldable pub to_json_line : String → Block → JsonLine
to_json_line doc_id b = record {
  page_content = b.page_content;
  doc_id = doc_id;
  page_start = b.page_start;
  page_end = b.page_end;
  anchor = b.anchor;
  section_heading = b.section_heading;
}

abbrev pub has : {A : Type 0} → Option A → Bool
has none = false
has (some a) = true

-- The distinct page numbers.
abbrev pub pages_of : List Block → List ℕ
pages_of [] = []
pages_of (b ∷ bs) = add_page b.page_start (pages_of bs)

abbrev pub page_count_of : List Block → Option ℕ
page_count_of blocks = elim (pages_of blocks) [ [] ↦ none | p ∷ ps ↦ some (length (p ∷ ps)) ]

-- What a run of one document returns or raises, and what it leaves.
abbrev pub Ingested : Type 0
Ingested = Result IngestError IngestResult × Corpus

abbrev pub result_of : SourceRow → DocStatus → Option String → IngestResult
result_of row status note = record {
  doc_id = row.doc_id;
  file_type = row.file_type;
  status = status;
  is_scanned = false;
  page_count = none;
  block_count = 0;
  blocks_with_page_or_anchor = 0;
  version_drift = false;
  html_links_only_pdf = false;
  dead_url = false;
  note = note;
}

-- `await set_status(…)`, and then the rest.
abbrev pub resume : Corpus → (Corpus → Ingested) → Result IngestError (Dict DocumentRow) → Ingested
resume st next (err e) = (err e, st)
resume st next (ok documents) = next (record st { documents = documents })

unfoldable pub after_status : String → DocStatus → Changes → Corpus → (Corpus → Ingested) → Ingested
unfolding set_status
after_status doc_id status changes st next =
    resume st next (set_status doc_id status changes st.documents)

unfoldable pub fail_with : SourceRow → IngestResult → Option String → Corpus → Ingested
unfolding after_status
fail_with row result note st =
    after_status row.doc_id failed (record no_changes { note = some note }) st
      (λ s. (ok (record result { status = failed; note = note }), s))

-- A document that failed with this note.
abbrev pub fail : SourceRow → String → Corpus → Ingested
fail row note st = fail_with row (result_of row failed none) (some note) st

abbrev pub is_failed : DocStatus → Bool
is_failed failed = true
is_failed _ = false

abbrev pub is_extracted : DocStatus → Bool
is_extracted extracted = true
is_extracted _ = false

abbrev pub already_extracted : Option DocumentRow → Bool
already_extracted none = false
already_extracted (some d) = is_extracted d.status

-- A file that is gone raises as any failure of the loader does.
abbrev pub content_at : RawPath → Corpus → Option (List ℕ)
content_at path st = lookup (name_of path) st.raw_files

abbrev pub is_office : SourceRow → Bool
is_office row = contains ("docx" ∷ "pptx" ∷ []) row.file_type

module _ {F : Type 0} ⦃fl : Floats F⦄ (tools : Tools) (settings : Settings F) where
  abbrev pub extracted_result : SourceRow → String → List Block → IngestResult
  extracted_result row file_type blocks =
      let cleaned = clean tools.unicode tools.nfc settings blocks in
      record (result_of row extracted none) {
        file_type = file_type;
        is_scanned = anyb (λ b. b.is_scanned) blocks;
        page_count = page_count_of cleaned;
        block_count = length cleaned;
        blocks_with_page_or_anchor =
            length (filterb (λ b. has b.page_start || has b.anchor) cleaned);
        html_links_only_pdf = anyb (λ b. b.html_links_only_pdf) blocks;
      }

  abbrev pub with_lines : SourceRow → List Block → Corpus → Corpus
  unfolding to_json_line
  with_lines row blocks st = record st {
    extracted_files =
        let cleaned = clean tools.unicode tools.nfc settings blocks in
        insert row.doc_id (map (to_json_line row.doc_id) cleaned) st.extracted_files;
  }

  -- The file is written, which may raise, and then the row.
  unfoldable pub finish_extraction :
      SourceRow → String → List Block → Corpus → Option String → Ingested
  unfolding after_status to_json_line
  finish_extraction row file_type blocks st (some message) = (err (raised message), st)
  finish_extraction row file_type blocks st none =
      let result = extracted_result row file_type blocks in
      after_status row.doc_id extracted
        (record no_changes {
          page_count = some result.page_count;
          is_scanned = some result.is_scanned;
        })
        (with_lines row blocks st) (λ s. (ok result, s))

  unfoldable pub extract_blocks :
      SourceRow → String → Corpus → Result String (List Block) → Ingested
  unfolding finish_extraction fail_with
  extract_blocks row file_type st (err message) =
      fail row (concat ("extraction failed: " ∷ message ∷ [])) st
  extract_blocks row file_type st (ok blocks) =
      finish_extraction row file_type blocks st (tools.write_failure row.doc_id)

  unfoldable pub extract : SourceRow → String → Corpus → Option (List ℕ) → Ingested
  unfolding extract_blocks fail_with
  extract row file_type st none = fail row "extraction failed: no such file" st
  extract row file_type st (some content) =
      extract_blocks row file_type st (loaded (select_loader tools file_type) content row.doc_id)

  unfoldable pub after_conversion :
      SourceRow → Result ConversionError (RawPath × String) × Corpus → Ingested
  unfolding extract fail_with
  after_conversion row (err (unsupported message), st) =
      fail row (concat ("unsupported legacy format: " ∷ message ∷ [])) st
  after_conversion row (err (not_started message), st) = (err (raised message), st)
  after_conversion row (ok (path, file_type), st) = extract row file_type st (content_at path st)

  -- The old Office formats go another way.
  unfoldable pub reroute : SourceRow → RawPath → Corpus → Option (List ℕ) → Ingested
  unfolding after_conversion extract convert_legacy is_legacy_office_binary
  reroute row path st none =
      if is_office row then (err (raised "no such file"), st) else extract row row.file_type st none
  reroute row path st (some content) =
      if is_office row && is_legacy_office_binary content
      then after_conversion row (convert_legacy tools.lower tools.libreoffice path st)
      else extract row row.file_type st (some content)

  unfoldable pub after_drift_check :
      SourceRow → RawPath → String → Corpus → Option String → Ingested
  unfolding reroute after_status fail_with
  after_drift_check row path digest st (some message) =
      fail_with row (record (result_of row failed none) { version_drift = true }) (some message) st
  after_drift_check row path digest st none =
      after_status row.doc_id downloaded
        (record no_changes { sha256 = some digest; downloaded_at = some tools.now }) st
        (λ s. reroute row path s (content_at path s))

  unfoldable pub after_download : SourceRow → Corpus → Option RawPath → Option String → Ingested
  unfolding after_drift_check check_version_drift fail_with
  after_download row st (some path) (some digest) =
      after_drift_check row path digest st (check_version_drift st.documents row digest)
  after_download row st _ _ = fail row "download reported success but produced no file" st

  unfoldable pub after_fetch : SourceRow → Result IngestError DownloadOutcome → Corpus → Ingested
  unfolding after_download fail_with
  after_fetch row (err e) st = (err e, st)
  after_fetch row (ok outcome) st =
      if is_failed outcome.status
      then fail_with row
          (record (result_of row failed none) { dead_url = tells_dead_url outcome.note })
          outcome.note st
      else after_download row st outcome.path outcome.sha256

  unfoldable pub ingest_one : SourceRow → Bool → Corpus → Ingested
  unfolding after_fetch fetch
  ingest_one row force st =
      let fetched = fetch settings tools.sha256 row (tools.get row) st in
      let note : String = "skipped: already extracted (use --force to re-check upstream)" in
      if not force && already_extracted (lookup row.doc_id st.documents)
      then (ok (result_of row extracted (some note)), st)
      else after_fetch row fetched.0 fetched.1
