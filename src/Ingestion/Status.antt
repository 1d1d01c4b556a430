-- ===== src/Ingestion/Status.antt =====
-- backend/app/ingestion/status.py: the drift guard, the transitions of a row of `documents`, and the
-- report of a run without its time.
use production_rag_system.Prelude.{
  ℕ, String, Bool, not, ◌&&◌, [], ◌∷◌, Option, none, some, Dict, lookup, insert, str_eq,
  if◌then◌else◌, concat,
}
use production_rag_system.Prelude.Text.{take_chars}
use production_rag_system.Core.Result.{Result, ok, err}
use production_rag_system.Ingestion.Schemas.{
  DocStatus, SourceRow, DocumentRow, IngestError, no_documents_row,
}

-- The text of VersionDriftError.
abbrev pub drift_message : SourceRow → String → String → String
unfolding take_chars
drift_message row old_sha256 new_sha256 = concat (
    row.doc_id
    ∷ ": content changed (sha256 "
    ∷ take_chars 12 old_sha256
    ∷ "... -> "
    ∷ take_chars 12 new_sha256
    ∷ "...) but version_label ('"
    ∷ row.version_label
    ∷ "') was not bumped"
    ∷ [])

abbrev pub drift_from : SourceRow → String → String → Option String → Option String
unfolding take_chars
drift_from row new_sha256 version_label none = none
drift_from row new_sha256 version_label (some old_sha256) =
    if not (str_eq old_sha256 new_sha256) && str_eq version_label row.version_label
    then some (drift_message row old_sha256 new_sha256)
    else none

abbrev pub drift_of : SourceRow → String → Option DocumentRow → Option String
unfolding take_chars
drift_of row new_sha256 none = none
drift_of row new_sha256 (some existing) =
    drift_from row new_sha256 existing.version_label existing.sha256

-- The error that is raised, if any.
unfoldable pub check_version_drift : Dict DocumentRow → SourceRow → String → Option String
unfolding take_chars
check_version_drift documents row new_sha256 = drift_of row new_sha256 (lookup row.doc_id documents)

-- The keyword arguments: none where one is left out.
pub record Changes : Type 0 where
  pub note : Option (Option String)
  pub sha256 : Option String
  pub downloaded_at : Option ℕ
  pub page_count : Option (Option ℕ)
  pub is_scanned : Option Bool

abbrev pub no_changes : Changes
no_changes = record {
  note = none;
  sha256 = none;
  downloaded_at = none;
  page_count = none;
  is_scanned = none;
}

abbrev pub given_or {ℓ} : {A : Type ℓ} → Option A → A → A
given_or none old = old
given_or (some new) old = new

abbrev pub some_or {ℓ} : {A : Type ℓ} → Option A → Option A → Option A
some_or none old = old
some_or (some new) old = some new

abbrev pub changed : DocStatus → Changes → DocumentRow → DocumentRow
changed status changes doc = record doc {
  status = status;
  note = given_or changes.note doc.note;
  sha256 = some_or changes.sha256 doc.sha256;
  downloaded_at = some_or changes.downloaded_at doc.downloaded_at;
  page_count = given_or changes.page_count doc.page_count;
  is_scanned = given_or changes.is_scanned doc.is_scanned;
}

abbrev pub set_found :
    String
    → DocStatus
    → Changes
    → Dict DocumentRow
    → Option DocumentRow
    → Result IngestError (Dict DocumentRow)
set_found doc_id status changes documents none = err (no_documents_row doc_id)
set_found doc_id status changes documents (some doc) =
    ok (insert doc_id (changed status changes doc) documents)

unfoldable pub set_status :
    String → DocStatus → Changes → Dict DocumentRow → Result IngestError (Dict DocumentRow)
set_status doc_id status changes documents =
    set_found doc_id status changes documents (lookup doc_id documents)
