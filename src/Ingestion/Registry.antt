-- ===== src/Ingestion/Registry.antt =====
-- backend/app/ingestion/registry.py. A row of the file is what `csv.DictReader` makes of it, a
-- dictionary by the columns; a field that is short is not there. The order of `_ROW_FIELDS`, a set, is
-- that of the columns here, and the repeated ids stand in an error in the order of the file.
pub mod Loaded
use production_rag_system.Prelude.{
  ℕ, ◌+◌, String, Bool, true, false, not, List, [], ◌∷◌, Option, none, some, Dict, lookup, insert,
  contains, filterb, if◌then◌else◌, decimal, concat,
}
use production_rag_system.Prelude.Text.{is_empty, strip, join}
use production_rag_system.Core.Result.{Result, ok, err}
use production_rag_system.Ingestion.Schemas.{
  DocStatus, registered, failed, SourceRow, IngestResult, IngestError, missing_columns,
  duplicate_doc_ids, DocumentRow, allowed_file_types, row_fields, required_source_columns,
}

abbrev pub or_empty : Option String → String
or_empty none = ""
or_empty (some s) = s

-- `(raw_row.get(c) or "").strip()`
unfoldable pub field : String → Dict String → String
unfolding strip
field c raw_row = strip (or_empty (lookup c raw_row))

-- What one row adds to the ids that were seen and to those that were seen before.
abbrev pub note_id : String → List String × List String → List String × List String
note_id doc_id (seen, duplicates) =
    if is_empty doc_id
    then (seen, duplicates)
    else (if contains seen doc_id then (seen, doc_id ∷ duplicates) else (doc_id ∷ seen, duplicates))

abbrev pub scan_ids : List (Dict String) → List String × List String → List String × List String
scan_ids [] s = s
scan_ids (r ∷ rs) s = scan_ids rs (note_id (field "doc_id" r) s)

abbrev pub quoted : List String → List String
quoted [] = []
quoted (s ∷ ss) = concat ("'" ∷ s ∷ "'" ∷ []) ∷ quoted ss

-- `f"{names}"` of a list
abbrev pub listed : List String → String
unfolding join
listed names = concat ("[" ∷ join ", " (quoted names) ∷ "]" ∷ [])

abbrev pub rejection : String → String → String → IngestResult
rejection doc_id file_type note = record {
  doc_id = doc_id;
  file_type = file_type;
  status = failed;
  is_scanned = false;
  page_count = none;
  block_count = 0;
  blocks_with_page_or_anchor = 0;
  version_drift = false;
  html_links_only_pdf = false;
  dead_url = false;
  note = some note;
}

abbrev pub missing_fields : Dict String → List String
missing_fields raw_row = filterb (λ c. is_empty (field c raw_row)) row_fields

abbrev pub or_row : String → ℕ → String
unfolding decimal
or_row doc_id i = if is_empty doc_id then concat ("<row-" ∷ decimal i ∷ ">" ∷ []) else doc_id

abbrev pub source_row : Dict String → SourceRow
source_row raw_row = record {
  doc_id = field "doc_id" raw_row;
  title = field "title" raw_row;
  source_org = field "source_org" raw_row;
  url = field "url" raw_row;
  file_type = field "file_type" raw_row;
  version_label = field "version_label" raw_row;
  notes = field "notes" raw_row;
}

-- The row with the number `i` of a line and with these fields missing: rejected with a note, or
-- accepted.
abbrev pub check_fields : ℕ → Dict String → List String → Result IngestResult SourceRow
unfolding decimal field join
check_fields i raw_row (c ∷ cs) = err (
    rejection (or_row (field "doc_id" raw_row) i) (field "file_type" raw_row)
      (concat ("row " ∷ decimal i ∷ ": missing required field(s) " ∷ listed (c ∷ cs) ∷ [])))
check_fields i raw_row [] =
    let file_type = field "file_type" raw_row in
    let allowed = listed ("docx" ∷ "html" ∷ "pdf" ∷ "pptx" ∷ "xlsx" ∷ []) in
    let note =
      concat ("row " ∷ decimal i ∷ ": file_type '" ∷ file_type ∷ "' not in " ∷ allowed ∷ []) in
    if contains allowed_file_types file_type
    then ok (source_row raw_row)
    else err (rejection (field "doc_id" raw_row) file_type note)

unfoldable pub check_row : ℕ → Dict String → Result IngestResult SourceRow
check_row i raw_row = check_fields i raw_row (missing_fields raw_row)

abbrev pub sorted_in :
    Result IngestResult SourceRow
    → List SourceRow × List IngestResult
    → List SourceRow × List IngestResult
sorted_in (ok row) (valid, rejected) = (row ∷ valid, rejected)
sorted_in (err res) (valid, rejected) = (valid, res ∷ rejected)

abbrev pub check_rows : ℕ → List (Dict String) → List SourceRow × List IngestResult
unfolding check_row
check_rows i [] = ([], [])
check_rows i (r ∷ rs) = sorted_in (check_row i r) (check_rows (i + 1) rs)

abbrev checked_ids :
    List String → List (Dict String) → Result IngestError (List SourceRow × List IngestResult)
checked_ids [] raw_rows = ok (check_rows 2 raw_rows)
checked_ids (d ∷ ds) raw_rows = err (duplicate_doc_ids (d ∷ ds))

abbrev checked_columns :
    List String → List (Dict String) → Result IngestError (List SourceRow × List IngestResult)
checked_columns [] raw_rows = checked_ids (scan_ids raw_rows ([], [])).1 raw_rows
checked_columns (c ∷ cs) raw_rows = err (missing_columns (c ∷ cs))

unfoldable pub load_sources :
    Option (List String)
    → List (Dict String)
    → Result IngestError (List SourceRow × List IngestResult)
load_sources none raw_rows = ok ([], [])
load_sources (some fieldnames) raw_rows =
    checked_columns (filterb (λ c. not (contains fieldnames c)) required_source_columns) raw_rows

-- `INSERT … ON CONFLICT (doc_id) DO UPDATE`: the values of a new row, and the refreshed columns of
-- one that is there.
abbrev pub new_document : SourceRow → DocumentRow
new_document row = record {
  doc_id = row.doc_id;
  title = row.title;
  source_org = row.source_org;
  url = row.url;
  file_type = row.file_type;
  version_label = row.version_label;
  downloaded_at = none;
  is_scanned = false;
  page_count = none;
  sha256 = none;
  status = registered;
  note = none;
}

abbrev pub refreshed : SourceRow → DocumentRow → DocumentRow
refreshed row d = record d {
  title = row.title;
  source_org = row.source_org;
  url = row.url;
  file_type = row.file_type;
  version_label = row.version_label;
}

abbrev pub upserted : SourceRow → Option DocumentRow → DocumentRow
upserted row none = new_document row
upserted row (some d) = refreshed row d

abbrev pub upsert_document : SourceRow → Dict DocumentRow → Dict DocumentRow
upsert_document row documents =
    insert row.doc_id (upserted row (lookup row.doc_id documents)) documents

unfoldable pub upsert_documents : List SourceRow → Dict DocumentRow → Dict DocumentRow
upsert_documents [] documents = documents
upsert_documents (row ∷ rows) documents = upsert_documents rows (upsert_document row documents)
