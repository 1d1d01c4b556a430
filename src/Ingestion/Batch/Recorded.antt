-- ===== src/Ingestion/Batch/Recorded.antt =====
-- What a batch leaves in the table of documents.
use production_rag_system.Prelude.{
  Bool, true, Option, none, filterb, filterb-all, if◌then◌else◌, Floats, ◌++◌, ◌+◌, Sub, Sub-refl,
  Sub-map, Sub-filterb, length, length-append, String, ◌≡◌, refl, sym, ap, subst, ◌∙◌, false, List,
  [], ◌∷◌, map, some, arith, Dict, lookup, contains, Distinct, str_eq,
}
use production_rag_system.Prelude.Text.{is_empty}
use production_rag_system.Core.Result.{Result, ok, err}
use production_rag_system.Core.Settings.{Settings}
use production_rag_system.Ingestion.Schemas.{SourceRow, IngestResult, Corpus, IngestError}
use production_rag_system.Ingestion.Registry.{load_sources, upsert_documents}
use production_rag_system.Ingestion.Registry.Loaded.{Sub-Distinct, load_sources-IsLoaded}
use production_rag_system.Ingestion.Run.{Tools, Ingested, ingest_one}
use production_rag_system.Ingestion.Run.Quiet.{if_both}
use production_rag_system.Ingestion.Run.Isolated.{ingest_one-IsIsolated}
use production_rag_system.Ingestion.Run.Underway.{KeepsOthers, status_of, status_in, IsReported}
use production_rag_system.Ingestion.Batch.{
  Arguments, Batch, settled, bounded, with_result, then_batch, ingest_rows, select_rows, has_text,
  is_value, reported, ingest_loaded, build_report, main, RunReport,
}

abbrev IsOwn : String → Ingested → Type 0
IsOwn doc_id (err e, st) = Unit
IsOwn doc_id (ok result, st) = (result.doc_id ≡ doc_id) × (status_in doc_id st ≡ some result.status)

settled-IsOwn :
    (doc_id : String) (st : Corpus) (r : Ingested)
    → IsReported doc_id st r
    → IsOwn doc_id (settled st r)
settled-IsOwn doc_id st (err e, st') h = tt
settled-IsOwn doc_id st (ok result, st') h = (h.0, h.1)

settled-other :
    (doc_id id : String) (st : Corpus) (r : Ingested)
    → KeepsOthers doc_id st r.1
    → str_eq doc_id id ≡ false
    → lookup id (settled st r).1.documents ≡ lookup id st.documents
settled-other doc_id id st (err e, st') h other = refl
settled-other doc_id id st (ok result, st') h other = (h id other).0

-- The results are of the rows' documents, one each in their order, and each has the status of its
-- document.
abbrev pub Matches : List SourceRow → List IngestResult → Corpus → Type 0
Matches [] [] st = Unit
Matches (row ∷ rows) (r ∷ rs) st =
    (r.doc_id ≡ row.doc_id) × (status_in row.doc_id st ≡ some r.status) × Matches rows rs st
Matches _ _ st = ⊥

abbrev pub IsRecorded : List SourceRow → Batch → Type 0
IsRecorded rows (err e, st) = Unit
IsRecorded rows (ok results, st) = Matches rows results st

with_result-IsRecorded :
    (row : SourceRow) (rows : List SourceRow) (result : IngestResult) (b : Batch)
    → result.doc_id ≡ row.doc_id
    → status_in row.doc_id b.1 ≡ some result.status
    → IsRecorded rows b
    → IsRecorded (row ∷ rows) (with_result result b)
with_result-IsRecorded row rows result (err e, st) named own rest = tt
with_result-IsRecorded row rows result (ok results, st) named own rest = (named, own, rest)

with_result-corpus : (result : IngestResult) (b : Batch) → (with_result result b).1 ≡ b.1
with_result-corpus result (err e, st) = refl
with_result-corpus result (ok results, st) = refl

-- An argument that is given and not empty decides.
abbrev pub chosen : Option String → String → Bool → Bool
chosen none value otherwise = otherwise
chosen (some asked) value otherwise = if is_empty asked then otherwise else str_eq value asked

-- `--doc` names one document, or else `--type` a file type, or else all rows are taken.
abbrev pub is_selected : Arguments → SourceRow → Bool
is_selected args row = chosen args.doc row.doc_id (chosen args.file_type row.file_type true)

chosen-filterb :
    (o : Option String) (value : SourceRow → String) (p : SourceRow → Bool)
    (rows others : List SourceRow)
    → others ≡ filterb p rows
    → (if has_text o then filterb (λ r. is_value o (value r)) rows else others)
      ≡ filterb (λ r. chosen o (value r) (p r)) rows
chosen-filterb none value p rows others h = h
chosen-filterb (some asked) value p rows others h = by_test (is_empty asked)
  where
    by_test :
        (b : Bool)
        → (if (if b then false else true)
            then filterb (λ r. str_eq (value r) asked) rows
            else others)
          ≡ filterb (λ r. if b then p r else str_eq (value r) asked) rows
    by_test true = h
    by_test false = refl

select_rows-exact :
    (args : Arguments) (rows : List SourceRow)
    → select_rows args rows ≡ filterb (is_selected args) rows
unfolding select_rows
select_rows-exact args rows =
    chosen-filterb args.doc (λ r. r.doc_id) (λ r. chosen args.file_type r.file_type true) rows _
      (chosen-filterb args.file_type (λ r. r.file_type) (λ r. true) rows rows
        (sym (filterb-all rows)))

module _ {F : Type 0} ⦃fl : Floats F⦄ (tools : Tools) (settings : Settings F)
    (args : Arguments) where
  bounded-IsOwn :
      (row : SourceRow) (st : Corpus) → IsOwn row.doc_id (bounded tools settings args row st)
  unfolding bounded
  bounded-IsOwn row st =
      settled-IsOwn row.doc_id st (ingest_one tools settings row args.force st)
        (ingest_one-IsIsolated tools settings row args.force st).1

  bounded-other :
      (row : SourceRow) (id : String) (st : Corpus)
      → str_eq row.doc_id id ≡ false
      → lookup id (bounded tools settings args row st).1.documents ≡ lookup id st.documents
  unfolding bounded
  bounded-other row id st =
      settled-other row.doc_id id st (ingest_one tools settings row args.force st)
        (ingest_one-IsIsolated tools settings row args.force st).0

  -- Documents of other rows are not touched.
  then_batch-other :
      (id : String) (r : Ingested) (rest : Corpus → Batch)
      → ((s : Corpus) → lookup id (rest s).1.documents ≡ lookup id s.documents)
      → lookup id (then_batch r rest).1.documents ≡ lookup id r.1.documents
  then_batch-other id (err e, st) rest h = refl
  then_batch-other id (ok result, st) rest h =
      ap (λ (s : Corpus). lookup id s.documents) (with_result-corpus result (rest st)) ∙ h st

  ingest_rows-other :
      (rows : List SourceRow) (id : String)
      → contains (map (λ r. r.doc_id) rows) id ≡ false
      → (st : Corpus)
      → lookup id (ingest_rows tools settings args rows st).1.documents ≡ lookup id st.documents
  unfolding ingest_rows
  ingest_rows-other [] id h st = refl
  ingest_rows-other (row ∷ rows) id h st =
      then_batch-other id (bounded tools settings args row st)
        (ingest_rows tools settings args rows) (ingest_rows-other rows id (ground (arith, h)))
      ∙ bounded-other row id st (ground (arith, h))

  then_batch-IsRecorded :
      (row : SourceRow) (rows : List SourceRow) (r : Ingested) (rest : Corpus → Batch)
      → IsOwn row.doc_id r
      → ((s : Corpus) → lookup row.doc_id (rest s).1.documents ≡ lookup row.doc_id s.documents)
      → ((s : Corpus) → IsRecorded rows (rest s))
      → IsRecorded (row ∷ rows) (then_batch r rest)
  then_batch-IsRecorded row rows (err e, st) rest own kept later = tt
  then_batch-IsRecorded row rows (ok result, st) rest own kept later =
      with_result-IsRecorded row rows result (rest st) own.0 (ap status_of (kept st) ∙ own.1)
        (later st)

  ingest_rows-IsRecorded :
      (rows : List SourceRow)
      → Distinct (map (λ r. r.doc_id) rows)
      → (st : Corpus) → IsRecorded rows (ingest_rows tools settings args rows st)
  unfolding ingest_rows
  ingest_rows-IsRecorded [] distinct st = tt
  ingest_rows-IsRecorded (row ∷ rows) distinct st =
      then_batch-IsRecorded row rows (bounded tools settings args row st)
        (ingest_rows tools settings args rows) (bounded-IsOwn row st)
        (ingest_rows-other rows row.doc_id distinct.0) (ingest_rows-IsRecorded rows distinct.1)

  select_rows-Sub : (rows : List SourceRow) → Sub (select_rows args rows) rows
  unfolding select_rows
  select_rows-Sub rows =
      if_both (λ l. Sub l rows) (has_text args.doc)
        (Sub-filterb (λ r. is_value args.doc r.doc_id) rows)
        (if_both (λ l. Sub l rows) (has_text args.file_type)
          (Sub-filterb (λ r. is_value args.file_type r.file_type) rows) (Sub-refl rows))

-- The report lists the rejected rows of the file and then one result for each row that was selected,
-- in their order, with the status that its document has in the table.
abbrev pub IsTold :
    List IngestResult → List SourceRow → Result IngestError RunReport × Corpus → Type 0
IsTold rejected rows (err e, st) = Unit
IsTold rejected rows (ok report, st) =
    (results : List IngestResult) × (report.results ≡ rejected ++ results)
    × (report.total ≡ length rejected + length results)
    × Matches rows results st

reported-IsTold :
    {F : Type 0} ⦃fl : Floats F⦄ (tools : Tools) (settings : Settings F) (args : Arguments)
    (rejected : List IngestResult) (rows : List SourceRow) (b : Batch)
    → IsRecorded rows b
    → IsTold rejected rows (reported tools settings args rejected b)
unfolding build_report
reported-IsTold tools settings args rejected rows (err e, st) h = tt
reported-IsTold tools settings args rejected rows (ok results, st) h =
    (results, refl, length-append rejected results, h)

-- A run that is not ended by an exception reports the rejected rows of the file and then, in the
-- order of the file, one result for each valid row of the document that --doc names, or else of the
-- file type that --type names, or else of all; each result has the doc_id of its row and the status
-- that the table of documents has for it at the end of the run.
pub main-IsTold :
    {F : Type 0} ⦃fl : Floats F⦄ (tools : Tools) (settings : Settings F) (args : Arguments)
    (fieldnames : List String) (raw : List (Dict String)) (valid : List SourceRow)
    (rejected : List IngestResult) (st : Corpus)
    → load_sources (some fieldnames) raw ≡ ok (valid, rejected)
    → IsTold rejected
        (filterb (is_selected args) valid)
        (main tools settings args (some fieldnames) raw st)
unfolding main
main-IsTold tools settings args fieldnames raw valid rejected st h =
    let loaded = load_sources-IsLoaded fieldnames raw (valid, rejected) h in
    let rows = select_rows args valid in
    let registered : Corpus = record st { documents = upsert_documents valid st.documents } in
    subst
      (λ l.
        IsTold rejected l
          (ingest_loaded tools settings args (load_sources (some fieldnames) raw) st))
      (select_rows-exact args valid)
      (subst (λ l. IsTold rejected rows (ingest_loaded tools settings args l st)) (sym h)
        (reported-IsTold tools settings args rejected rows
          (ingest_rows tools settings args rows registered)
          (ingest_rows-IsRecorded tools settings args rows
            (Sub-Distinct (Sub-map (λ r. r.doc_id) (select_rows-Sub tools settings args valid))
              loaded.0)
            registered)))
