-- ===== src/Ingestion/Run/Underway.antt =====
-- What a run of one document has changed by the time that it reports or fails.
use production_rag_system.Prelude.{
  String, ◌≡◌, ◌≢◌, refl, ap, ◌∙◌, false, Option, none, some, arith, Dict, lookup, insert,
  lookup-insert, str_eq, if◌then◌else◌,
}
use production_rag_system.Core.Result.{Result, ok, err}
use production_rag_system.Ingestion.Schemas.{
  DocStatus, extracted, failed, SourceRow, IngestResult, DocumentRow, Corpus, IngestError,
}
use production_rag_system.Ingestion.Status.{Changes, no_changes, changed, set_status}
use production_rag_system.Ingestion.Run.{Ingested, resume, after_status, fail_with, fail, result_of}
use production_rag_system.Ingestion.Run.Quiet.{self_eq, Quiet}

-- The rows and the files of all other documents are as they were.
abbrev pub KeepsOthers : String → Corpus → Corpus → Type 0
KeepsOthers doc_id before after =
    (id : String)
    → str_eq doc_id id ≡ false
    → (lookup id after.documents ≡ lookup id before.documents)
      × (lookup id after.extracted_files ≡ lookup id before.extracted_files)

abbrev pub status_of : Option DocumentRow → Option DocStatus
status_of none = none
status_of (some d) = some d.status

abbrev pub status_in : String → Corpus → Option DocStatus
status_in doc_id st = status_of (lookup doc_id st.documents)

abbrev pub KeepsFile : String → Corpus → Corpus → Type 0
KeepsFile doc_id before after =
    lookup doc_id after.extracted_files ≡ lookup doc_id before.extracted_files

-- The report is of this document, the row has the status that is reported, and the file is as it was unless that is `extracted`.
abbrev pub IsReported : String → Corpus → Ingested → Type 0
IsReported doc_id before (err e, after) = Unit
IsReported doc_id before (ok result, after) =
    (result.doc_id ≡ doc_id)
    × (status_in doc_id after ≡ some result.status)
    × (result.status ≢ extracted → KeepsFile doc_id before after)

abbrev pub IsIsolated : String → Corpus → Ingested → Type 0
IsIsolated doc_id before r = KeepsOthers doc_id before r.1 × IsReported doc_id before r

set_status-ok :
    (doc_id : String) (status : DocStatus) (changes : Changes)
    (documents documents' : Dict DocumentRow) (found : Option DocumentRow)
    → lookup doc_id documents ≡ found
    → set_status doc_id status changes documents ≡ ok documents'
    → (d : DocumentRow) × (documents' ≡ insert doc_id d documents) × (d.status ≡ status)
unfolding set_status
set_status-ok doc_id status changes documents documents' none e h = absurd (ground (arith, e, h))
set_status-ok doc_id status changes documents documents' (some doc) e h =
    (changed status changes doc, ground (arith, e, h), refl)

module _ (before : Corpus) where
  pub Quiet-IsUnderway :
      (doc_id : String) (st after : Corpus)
      → Quiet st after
      → KeepsOthers doc_id before st × KeepsFile doc_id before st
      → KeepsOthers doc_id before after × KeepsFile doc_id before after
  Quiet-IsUnderway doc_id st after (rows, files) (others, file) = (
    λ id other. (
      ap (λ m. lookup id m) rows ∙ (others id other).0,
      ap (λ m. lookup id m) files ∙ (others id other).1,
    ),
    ap (λ m. lookup doc_id m) files ∙ file,
  )

  resume-IsIsolated :
      (doc_id : String) (status : DocStatus) (changes : Changes) (st : Corpus)
      (next : Corpus → Ingested) (r : Result IngestError (Dict DocumentRow))
      → set_status doc_id status changes st.documents ≡ r
      → KeepsOthers doc_id before st
      → ((s : Corpus)
          → KeepsOthers doc_id before s
          → s.extracted_files ≡ st.extracted_files
          → status_in doc_id s ≡ some status
          → IsIsolated doc_id before (next s))
      → IsIsolated doc_id before (resume st next r)
  resume-IsIsolated doc_id status changes st next (err e) h others rest = (others, tt)
  resume-IsIsolated doc_id status changes st next (ok documents) h others rest =
      let (d, inserted, same) =
        set_status-ok doc_id status changes st.documents documents (lookup doc_id st.documents) refl
          h in
      rest (record st { documents = documents })
        (λ id other. (
          ap (λ m. lookup id m) inserted
              ∙ (lookup-insert doc_id id d st.documents
                  ∙ (ap (λ b. if b then some d else lookup id st.documents) other
                      ∙ (others id other).0)),
          (others id other).1,
        ))
        refl
        (ap (λ m. status_of (lookup doc_id m)) inserted
          ∙ (ap status_of (
                lookup-insert doc_id doc_id d st.documents
                ∙ ap (λ b. if b then some d else lookup doc_id st.documents) (self_eq doc_id))
              ∙ ap some same))

  pub after_status-IsIsolated :
      (doc_id : String) (status : DocStatus) (changes : Changes) (st : Corpus)
      (next : Corpus → Ingested)
      → KeepsOthers doc_id before st
      → ((s : Corpus)
          → KeepsOthers doc_id before s
          → s.extracted_files ≡ st.extracted_files
          → status_in doc_id s ≡ some status
          → IsIsolated doc_id before (next s))
      → IsIsolated doc_id before (after_status doc_id status changes st next)
  unfolding after_status
  after_status-IsIsolated doc_id status changes st next others rest =
      resume-IsIsolated doc_id status changes st next
        (set_status doc_id status changes st.documents) refl others rest

  -- So far only rows and raw files have changed, and of the rows only that of the document.
  abbrev pub IsUnderway : String → Corpus → Type 0
  IsUnderway doc_id st = KeepsOthers doc_id before st × KeepsFile doc_id before st

  pub fail_with-IsIsolated :
      (row : SourceRow) (result : IngestResult) (text : Option String) (st : Corpus)
      → result.doc_id ≡ row.doc_id
      → IsUnderway row.doc_id st
      → IsIsolated row.doc_id before (fail_with row result text st)
  unfolding fail_with
  fail_with-IsIsolated row result text st own (others, file) =
      let next : Corpus → Ingested =
        λ s. (ok (record result { status = failed; note = text }), s) in
      after_status-IsIsolated row.doc_id failed (record no_changes { note = some text }) st next
        others
        (λ s kept same told.
          (kept, (own, told, λ other. ap (λ m. lookup row.doc_id m) same ∙ file)))

  pub fail-IsIsolated :
      (row : SourceRow) (text : String) (st : Corpus)
      → IsUnderway row.doc_id st
      → IsIsolated row.doc_id before (fail row text st)
  fail-IsIsolated row text st under =
      fail_with-IsIsolated row (result_of row failed none) (some text) st refl under
