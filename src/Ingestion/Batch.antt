-- ===== src/Ingestion/Batch.antt =====
-- `main`, `_select_rows` and `_bounded` of backend/app/ingestion/run.py and `build_report` of
-- backend/app/ingestion/status.py. The documents are ingested in the order of the file, one after the
-- other, as with INGEST_CONCURRENCY = 1; an exception ends the run. The writing of the report is left
-- out.
pub mod Recorded
use production_rag_system.Prelude.{
  Floats, ℕ, zero, suc, ◌+◌, String, Bool, true, false, List, [], ◌∷◌, ◌++◌, map, Option, none,
  some, Dict, lookup, insert, filterb, length, str_eq, if◌then◌else◌,
}
use production_rag_system.Prelude.Text.{is_empty}
use production_rag_system.Core.Result.{Result, ok, err}
use production_rag_system.Core.Settings.{Settings}
use production_rag_system.Ingestion.Schemas.{
  DocStatus, registered, downloaded, extracted, indexed, failed, SourceRow, IngestResult, Corpus,
  IngestError,
}
use production_rag_system.Ingestion.Registry.{load_sources, upsert_documents}
use production_rag_system.Ingestion.Run.{Tools, Ingested, ingest_one}

pub record Arguments : Type 0 where
  pub doc : Option String
  pub file_type : Option String
  pub force : Bool

abbrev pub has_text : Option String → Bool
has_text none = false
has_text (some s) = if is_empty s then false else true

abbrev pub is_value : Option String → String → Bool
is_value none s = false
is_value (some t) s = str_eq s t

unfoldable pub select_rows : Arguments → List SourceRow → List SourceRow
select_rows args rows =
    if has_text args.doc
    then filterb (λ r. is_value args.doc r.doc_id) rows
    else (if has_text args.file_type
        then filterb (λ r. is_value args.file_type r.file_type) rows
        else rows)

-- The session is committed, or rolled back; what was written to disk stays.
abbrev pub settled : Corpus → Ingested → Ingested
settled st (ok result, st') = (ok result, st')
settled st (err e, st') = (err e, record st' { documents = st.documents })

abbrev pub status_text : DocStatus → String
status_text registered = "registered"
status_text downloaded = "downloaded"
status_text extracted = "extracted"
status_text indexed = "indexed"
status_text failed = "failed"

-- The report of a run.
pub record RunReport : Type 0 where
  pub total : ℕ
  pub counts_by_status : Dict ℕ
  pub scanned_count : ℕ
  pub dead_url_doc_ids : List String
  pub html_link_only_suggestions : List String
  pub results : List IngestResult

abbrev pub or_zero : Option ℕ → ℕ
or_zero none = 0
or_zero (some n) = n

abbrev pub count_statuses : Dict ℕ → List IngestResult → Dict ℕ
count_statuses counts [] = counts
count_statuses counts (r ∷ rs) =
    let key = status_text r.status in
    count_statuses (insert key (or_zero (lookup key counts) + 1) counts) rs

unfoldable pub build_report : List IngestResult → RunReport
build_report results = record {
  total = length results;
  counts_by_status = count_statuses [] results;
  scanned_count = length (filterb (λ r. r.is_scanned) results);
  dead_url_doc_ids = map (λ r. r.doc_id) (filterb (λ r. r.dead_url) results);
  html_link_only_suggestions = map (λ r. r.doc_id) (filterb (λ r. r.html_links_only_pdf) results);
  results = results;
}

abbrev pub Batch : Type 0
Batch = Result IngestError (List IngestResult) × Corpus

abbrev pub with_result : IngestResult → Batch → Batch
with_result result (err e, st) = (err e, st)
with_result result (ok results, st) = (ok (result ∷ results), st)

abbrev pub then_batch : Ingested → (Corpus → Batch) → Batch
then_batch (err e, st) rest = (err e, st)
then_batch (ok result, st) rest = with_result result (rest st)

module _ {F : Type 0} ⦃fl : Floats F⦄ (tools : Tools) (settings : Settings F)
    (args : Arguments) where
  unfoldable pub bounded : SourceRow → Corpus → Ingested
  bounded row st = settled st (ingest_one tools settings row args.force st)

  unfoldable pub ingest_rows : List SourceRow → Corpus → Batch
  ingest_rows [] st = (ok [], st)
  ingest_rows (row ∷ rows) st = then_batch (bounded row st) (ingest_rows rows)

  abbrev pub reported : List IngestResult → Batch → Result IngestError RunReport × Corpus
  unfolding build_report
  reported rejected (err e, st) = (err e, st)
  reported rejected (ok results, st) = (ok (build_report (rejected ++ results)), st)

  abbrev pub ingest_loaded :
      Result IngestError (List SourceRow × List IngestResult)
      → Corpus
      → Result IngestError RunReport × Corpus
  unfolding build_report
  ingest_loaded (err e) st = (err e, st)
  ingest_loaded (ok (all_rows, rejected)) st = reported rejected (
      ingest_rows (select_rows args all_rows)
        (record st { documents = upsert_documents all_rows st.documents }))

  unfoldable pub main :
      Option (List String) → List (Dict String) → Corpus → Result IngestError RunReport × Corpus
  unfolding build_report
  main fieldnames raw_rows st = ingest_loaded (load_sources fieldnames raw_rows) st
