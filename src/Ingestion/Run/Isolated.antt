-- ===== src/Ingestion/Run/Isolated.antt =====
-- What a run of one document changes: its own row and its own file.
use production_rag_system.Prelude.{
  ℕ, String, ◌≡◌, refl, ap, ◌∙◌, Bool, true, not, ◌&&◌, map, List, Option, none, some, arith,
  lookup, lookup-insert, if◌then◌else◌, Floats,
}
use production_rag_system.Core.Result.{Result, ok, err}
use production_rag_system.Core.Settings.{Settings}
use production_rag_system.Ingestion.Schemas.{
  DocStatus, registered, downloaded, extracted, indexed, failed, SourceRow, RawPath,
  DownloadOutcome, DocumentRow, Block, Corpus, IngestError,
}
use production_rag_system.Ingestion.Downloader.{fetch}
use production_rag_system.Ingestion.Legacy.{
  ConversionError, unsupported, not_started, convert_legacy, is_legacy_office_binary,
}
use production_rag_system.Ingestion.Status.{Changes, no_changes, check_version_drift}
use production_rag_system.Ingestion.Cleaning.{clean}
use production_rag_system.Ingestion.Run.{
  Tools, Ingested, finish_extraction, extract_blocks, extract, after_conversion, reroute,
  after_drift_check, after_download, after_fetch, ingest_one, already_extracted, with_lines,
  content_at, loaded, select_loader, tells_dead_url, result_of, extracted_result, is_office,
  is_failed, is_extracted, to_json_line,
}
use production_rag_system.Ingestion.Run.Quiet.{if_both, if_known, convert_legacy-Quiet, fetch-Quiet}
use production_rag_system.Ingestion.Run.Underway.{
  status_of, IsIsolated, Quiet-IsUnderway, after_status-IsIsolated, IsUnderway,
  fail_with-IsIsolated, fail-IsIsolated,
}

module _ (before : Corpus) {F : Type 0} ⦃fl : Floats F⦄ (tools : Tools)
    (settings : Settings F) where
  finish_extraction-IsIsolated :
      (row : SourceRow) (file_type : String) (blocks : List Block) (st : Corpus)
      (failure : Option String)
      → IsUnderway before row.doc_id st
      → IsIsolated row.doc_id before
          (finish_extraction tools settings row file_type blocks st failure)
  unfolding finish_extraction to_json_line
  finish_extraction-IsIsolated row file_type blocks st (some message) (others, file) = (others, tt)
  finish_extraction-IsIsolated row file_type blocks st none (others, file) =
      let lines = map (to_json_line row.doc_id) (clean tools.unicode tools.nfc settings blocks) in
      let result = extracted_result tools settings row file_type blocks in
      let changes : Changes = record no_changes {
        page_count = some result.page_count;
        is_scanned = some result.is_scanned;
      } in
      let next : Corpus → Ingested = λ s. (ok result, s) in
      after_status-IsIsolated before row.doc_id extracted changes
        (with_lines tools settings row blocks st) next
        (λ id other. (
          (others id other).0,
          lookup-insert row.doc_id id lines st.extracted_files
              ∙ (ap (λ b. if b then some lines else lookup id st.extracted_files) other
                  ∙ (others id other).1),
        ))
        (λ s kept same told. (kept, (refl, told, λ fails. absurd (fails refl))))

  extract_blocks-IsIsolated :
      (row : SourceRow) (file_type : String) (st : Corpus) (r : Result String (List Block))
      → IsUnderway before row.doc_id st
      → IsIsolated row.doc_id before (extract_blocks tools settings row file_type st r)
  unfolding extract_blocks
  extract_blocks-IsIsolated row file_type st (err message) under =
      fail-IsIsolated before row _ st under
  extract_blocks-IsIsolated row file_type st (ok blocks) under =
      finish_extraction-IsIsolated row file_type blocks st (tools.write_failure row.doc_id) under

  extract-IsIsolated :
      (row : SourceRow) (file_type : String) (st : Corpus) (content : Option (List ℕ))
      → IsUnderway before row.doc_id st
      → IsIsolated row.doc_id before (extract tools settings row file_type st content)
  unfolding extract
  extract-IsIsolated row file_type st none under = fail-IsIsolated before row _ st under
  extract-IsIsolated row file_type st (some content) under =
      extract_blocks-IsIsolated row file_type st
        (loaded (select_loader tools file_type) content row.doc_id) under

  after_conversion-IsIsolated :
      (row : SourceRow) (r : Result ConversionError (RawPath × String) × Corpus)
      → IsUnderway before row.doc_id r.1
      → IsIsolated row.doc_id before (after_conversion tools settings row r)
  unfolding after_conversion
  after_conversion-IsIsolated row (err (unsupported message), st) under =
      fail-IsIsolated before row _ st under
  after_conversion-IsIsolated row (err (not_started message), st) under = (under.0, tt)
  after_conversion-IsIsolated row (ok (path, file_type), st) under =
      extract-IsIsolated row file_type st (content_at path st) under

  reroute-IsIsolated :
      (row : SourceRow) (path : RawPath) (st : Corpus) (content : Option (List ℕ))
      → IsUnderway before row.doc_id st
      → IsIsolated row.doc_id before (reroute tools settings row path st content)
  unfolding reroute
  reroute-IsIsolated row path st none under =
      if_both (IsIsolated row.doc_id before) (is_office row) (under.0, tt)
        (extract-IsIsolated row row.file_type st none under)
  reroute-IsIsolated row path st (some content) under =
      if_both (IsIsolated row.doc_id before) (is_office row && is_legacy_office_binary content)
        (after_conversion-IsIsolated row (convert_legacy tools.lower tools.libreoffice path st) (
          Quiet-IsUnderway before row.doc_id st
            (convert_legacy tools.lower tools.libreoffice path st).1
            (convert_legacy-Quiet tools.lower tools.libreoffice path st) under))
        (extract-IsIsolated row row.file_type st (some content) under)

  after_drift_check-IsIsolated :
      (row : SourceRow) (path : RawPath) (digest : String) (st : Corpus) (drift : Option String)
      → IsUnderway before row.doc_id st
      → IsIsolated row.doc_id before (after_drift_check tools settings row path digest st drift)
  unfolding after_drift_check
  after_drift_check-IsIsolated row path digest st (some message) under =
      fail_with-IsIsolated before row (record (result_of row failed none) { version_drift = true })
        (some message) st refl under
  after_drift_check-IsIsolated row path digest st none (others, file) =
      let changes : Changes = record no_changes {
        sha256 = some digest;
        downloaded_at = some tools.now;
      } in
      let next : Corpus → Ingested = λ s. reroute tools settings row path s (content_at path s) in
      after_status-IsIsolated before row.doc_id downloaded changes st next others
        (λ s kept same told.
          reroute-IsIsolated row path s (content_at path s)
            (kept, ap (λ m. lookup row.doc_id m) same ∙ file))

  after_download-IsIsolated :
      (row : SourceRow) (st : Corpus) (path : Option RawPath) (digest : Option String)
      → IsUnderway before row.doc_id st
      → IsIsolated row.doc_id before (after_download tools settings row st path digest)
  unfolding after_download
  after_download-IsIsolated row st (some path) (some digest) under =
      after_drift_check-IsIsolated row path digest st (check_version_drift st.documents row digest)
        under
  after_download-IsIsolated row st none digest under = fail-IsIsolated before row _ st under
  after_download-IsIsolated row st (some path) none under = fail-IsIsolated before row _ st under

  after_fetch-IsIsolated :
      (row : SourceRow) (outcome : Result IngestError DownloadOutcome) (st : Corpus)
      → IsUnderway before row.doc_id st
      → IsIsolated row.doc_id before (after_fetch tools settings row outcome st)
  unfolding after_fetch
  after_fetch-IsIsolated row (err e) st under = (under.0, tt)
  after_fetch-IsIsolated row (ok outcome) st under =
      if_both (IsIsolated row.doc_id before) (is_failed outcome.status)
        (fail_with-IsIsolated before row
          (record (result_of row failed none) { dead_url = tells_dead_url outcome.note })
          outcome.note st refl under)
        (after_download-IsIsolated row st outcome.path outcome.sha256 under)

extracted_only : (status : DocStatus) → is_extracted status ≡ true → status ≡ extracted
extracted_only extracted h = refl
extracted_only registered h = absurd (ground arith)
extracted_only downloaded h = absurd (ground arith)
extracted_only indexed h = absurd (ground arith)
extracted_only failed h = absurd (ground arith)

skipped-status :
    (force : Bool) (found : Option DocumentRow)
    → not force && already_extracted found ≡ true
    → status_of found ≡ some extracted
skipped-status force none h = absurd (ground (arith, h))
skipped-status force (some d) h = ap some (extracted_only d.status (ground (arith, h)))

-- Ingesting a document leaves the rows and the extracted files of all others as they were, whether
-- it returns or raises. Where it returns, the document's row has the status that is reported, and
-- its extracted file is as it was unless that status is extracted.
pub ingest_one-IsIsolated :
    {F : Type 0} ⦃fl : Floats F⦄ (tools : Tools) (settings : Settings F) (row : SourceRow)
    (force : Bool) (st : Corpus)
    → IsIsolated row.doc_id st (ingest_one tools settings row force st)
unfolding ingest_one
ingest_one-IsIsolated tools settings row force st =
    let fetched = fetch settings tools.sha256 row (tools.get row) st in
    if_known (IsIsolated row.doc_id st)
      (not force && already_extracted (lookup row.doc_id st.documents))
      (λ skip. (
        λ id other. (refl, refl),
        (refl, skipped-status force (lookup row.doc_id st.documents) skip, λ other. refl),
      ))
      (after_fetch-IsIsolated st tools settings row fetched.0 fetched.1 (
        Quiet-IsUnderway st row.doc_id st fetched.1
          (fetch-Quiet settings tools.sha256 row (tools.get row) st)
          (λ id other. (refl, refl), refl)))
