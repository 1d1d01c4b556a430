-- ===== src/Ingestion/Run/Drift.antt =====
-- The drift guard of a run, whose rows were registered just before.
use production_rag_system.Prelude.{
  String, ◌≡◌, refl, sym, ap, subst, ◌∙◌, inl, inr, Bool, true, false, not, ◌&&◌, List, [], ◌∷◌,
  ◌++◌, map, Option, none, some, arith, Dict, contains, lookup, insert, lookup-insert, str_eq,
  eq_iff, Bool-cases, if◌then◌else◌, Floats,
}
use production_rag_system.Prelude.Text.{take_chars}
use production_rag_system.Core.Result.{Result, ok, err}
use production_rag_system.Core.Settings.{Settings}
use production_rag_system.Ingestion.Schemas.{
  downloaded, failed, SourceRow, RawPath, DownloadOutcome, IngestResult, DocumentRow, Corpus,
  IngestError,
}
use production_rag_system.Ingestion.Registry.{
  refreshed, upserted, upsert_document, upsert_documents,
}
use production_rag_system.Ingestion.Downloader.{fetch}
use production_rag_system.Ingestion.Status.{
  Changes, no_changes, changed, set_found, set_status, some_or, check_version_drift, drift_of,
  drift_from, drift_message,
}
use production_rag_system.Ingestion.Run.{
  Tools, Ingested, resume, after_status, fail_with, result_of, after_drift_check, after_download,
  after_fetch, ingest_one,
}
use production_rag_system.Ingestion.Run.Quiet.{fetch-Quiet, self_eq}

lookup-same : {A : Type 0} (k : String) (v : A) (m : Dict A) → lookup k (insert k v m) ≡ some v
lookup-same k v m = lookup-insert k k v m ∙ ap (λ b. if b then some v else lookup k m) (self_eq k)

lookup-other :
    {A : Type 0} (k j : String) (v : A) (m : Dict A)
    → str_eq k j ≡ false
    → lookup j (insert k v m) ≡ lookup j m
lookup-other k j v m h = lookup-insert k j v m ∙ ap (λ b. if b then some v else lookup j m) h

-- The row of a document has this digest, and this label.
abbrev pub HasDigest : String → String → Dict DocumentRow → Type 0
HasDigest id digest documents =
    (d : DocumentRow) × (lookup id documents ≡ some d) × (d.sha256 ≡ some digest)

abbrev HasLabel : String → String → String → Dict DocumentRow → Type 0
HasLabel id digest label documents =
    (d : DocumentRow) × (lookup id documents ≡ some d)
    × (d.sha256 ≡ some digest)
    × (d.version_label ≡ label)

-- Registering the row itself, and another one.
upsert_document-HasLabel :
    (row : SourceRow) (digest : String) (documents : Dict DocumentRow)
    → HasDigest row.doc_id digest documents
    → HasLabel row.doc_id digest row.version_label (upsert_document row documents)
upsert_document-HasLabel row digest documents (d, there, h) = (
  refreshed row d,
  ap (λ o. lookup row.doc_id (insert row.doc_id (upserted row o) documents)) there
      ∙ lookup-same row.doc_id (refreshed row d) documents,
  h,
  refl,
)

upsert_document-other :
    (row : SourceRow) (id : String) (documents : Dict DocumentRow)
    → str_eq row.doc_id id ≡ false
    → lookup id (upsert_document row documents) ≡ lookup id documents
upsert_document-other row id documents =
    lookup-other row.doc_id id (upserted row (lookup row.doc_id documents)) documents

upsert_document-HasDigest :
    (row : SourceRow) (id digest : String) (documents : Dict DocumentRow)
    → HasDigest id digest documents
    → HasDigest id digest (upsert_document row documents)
upsert_document-HasDigest row id digest documents has = elim (Bool-cases (str_eq row.doc_id id)) [
  | inr other ↦ (has.0, upsert_document-other row id documents other ∙ has.1, has.2)
  | inl same ↦
      let e : row.doc_id ≡ id = ground (arith, same, eq_iff row.doc_id id) in
      let own =
        upsert_document-HasLabel row digest documents
          (subst (λ i. HasDigest i digest documents) (sym e) has) in
      subst (λ i. HasDigest i digest (upsert_document row documents)) e (own.0, own.1, own.2)
]

upsert_documents-HasLabel :
    (rows : List SourceRow) (id digest label : String) (documents : Dict DocumentRow)
    → contains (map (λ r. r.doc_id) rows) id ≡ false
    → HasLabel id digest label documents
    → HasLabel id digest label (upsert_documents rows documents)
unfolding upsert_documents
upsert_documents-HasLabel [] id digest label documents fresh has = has
upsert_documents-HasLabel (row ∷ rows) id digest label documents fresh has =
    upsert_documents-HasLabel rows id digest label (upsert_document row documents)
      (ground (arith, fresh))
      (has.0, upsert_document-other row id documents (ground (arith, fresh)) ∙ has.1, has.2, has.3)

-- After the registration of all rows, the label that the row of the table has is that of the file.
registered-HasLabel :
    (before : List SourceRow) (row : SourceRow) (after : List SourceRow) (digest : String)
    (documents : Dict DocumentRow)
    → contains (map (λ r. r.doc_id) after) row.doc_id ≡ false
    → HasDigest row.doc_id digest documents
    → HasLabel row.doc_id digest row.version_label
        (upsert_documents (before ++ row ∷ after) documents)
unfolding upsert_documents
registered-HasLabel [] row after digest documents fresh has =
    upsert_documents-HasLabel after row.doc_id digest row.version_label
      (upsert_document row documents) fresh (upsert_document-HasLabel row digest documents has)
registered-HasLabel (r ∷ before) row after digest documents fresh has =
    registered-HasLabel before row after digest (upsert_document r documents) fresh
      (upsert_document-HasDigest r row.doc_id digest documents has)

drift_from-found :
    (row : SourceRow) (fresh : String) (label : String) (digest : Option String) (old : String)
    → digest ≡ some old
    → label ≡ row.version_label
    → str_eq old fresh ≡ false
    → drift_from row fresh label digest ≡ some (drift_message row old fresh)
unfolding take_chars
drift_from-found row fresh label none old e same differs = absurd (ground (arith, e))
drift_from-found row fresh label (some digest) old e same differs =
    let told = λ (d : String) (l : String).
      if not (str_eq d fresh) && str_eq l row.version_label
      then some (drift_message row d fresh)
      else none in
    let alike : digest ≡ old = ground (arith, e) in
    let holds : not (str_eq old fresh) && str_eq row.version_label row.version_label ≡ true =
      ground (arith, differs, self_eq row.version_label) in
    ap (λ d. told d label) alike
    ∙ (ap (told old) same ∙ ap (λ b. if b then some (drift_message row old fresh) else none) holds)

check_version_drift-found :
    (row : SourceRow) (fresh old : String) (documents : Dict DocumentRow)
    → HasLabel row.doc_id old row.version_label documents
    → str_eq old fresh ≡ false
    → check_version_drift documents row fresh ≡ some (drift_message row old fresh)
unfolding check_version_drift take_chars
check_version_drift-found row fresh old documents (d, there, digest, label) differs =
    ap (drift_of row fresh) there
    ∙ drift_from-found row fresh d.version_label d.sha256 old digest label differs

-- A run that told of drift, and left the digest.
abbrev pub IsStuck : String → String → Ingested → Type 0
IsStuck doc_id digest (err e, st) = ⊥
IsStuck doc_id digest (ok result, st) =
    (result.status ≡ failed) × (result.version_drift ≡ true) × HasDigest doc_id digest st.documents

resume-IsStuck :
    (row : SourceRow) (old : String) (result : IngestResult) (changes : Changes) (st : Corpus)
    → changes.sha256 ≡ none
    → (result.status ≡ failed) × (result.version_drift ≡ true)
    → HasDigest row.doc_id old st.documents
    → IsStuck row.doc_id old
        (resume st (λ s. (ok result, s)) (set_status row.doc_id failed changes st.documents))
unfolding set_status
resume-IsStuck row old result changes st kept told (d, there, digest) =
    let d' = changed failed changes d in
    subst
      (λ found.
        IsStuck row.doc_id old (
          resume st (λ s. (ok result, s)) (set_found row.doc_id failed changes st.documents found)))
      (sym there)
      (
        told.0,
        told.1,
        (d', lookup-same row.doc_id d' st.documents, ap (λ c. some_or c d.sha256) kept ∙ digest),
      )

after_drift_check-IsStuck :
    {F : Type 0} ⦃fl : Floats F⦄ (tools : Tools) (settings : Settings F) (row : SourceRow)
    (path : RawPath) (fresh old message : String) (st : Corpus)
    → HasDigest row.doc_id old st.documents
    → IsStuck row.doc_id old (after_drift_check tools settings row path fresh st (some message))
unfolding after_drift_check fail_with after_status
after_drift_check-IsStuck tools settings row path fresh old message st has =
    resume-IsStuck row old
      (record (result_of row failed none) { version_drift = true; note = some message })
      (record no_changes { note = some (some message) }) st refl (refl, refl) has

-- Where a document has a digest and its file is fetched anew with another one, a forced run that
-- has just registered the rows of the file, of which the later ones are not the document's, reports
-- drift and a failure and leaves the digest, whatever version_label the file gives now and gave
-- before.
pub ingest_one-IsStuck :
    {F : Type 0} ⦃fl : Floats F⦄ (tools : Tools) (settings : Settings F) (before : List SourceRow)
    (row : SourceRow) (after : List SourceRow) (old fresh : String) (path : RawPath)
    (skipped : Bool) (st st' : Corpus)
    → contains (map (λ r. r.doc_id) after) row.doc_id ≡ false
    → HasDigest row.doc_id old st.documents
    → str_eq old fresh ≡ false
    → let registered : Corpus = record st {
      documents = upsert_documents (before ++ row ∷ after) st.documents;
    } in
      fetch settings tools.sha256 row (tools.get row) registered ≡ (
        ok (record {
          status = downloaded;
          path = some path;
          sha256 = some fresh;
          skipped_dedupe = skipped;
          note = none;
        }),
        st',
      )
      → IsStuck row.doc_id old (ingest_one tools settings row true registered)
unfolding ingest_one after_fetch after_download
ingest_one-IsStuck tools settings before row after old fresh path skipped st st' alone has differs
      fetched =
    let documents = upsert_documents (before ++ row ∷ after) st.documents in
    let rows : st'.documents ≡ documents =
      ap (λ (f : Result IngestError DownloadOutcome × Corpus). f.1.documents) (sym fetched)
      ∙ (fetch-Quiet settings tools.sha256 row (tools.get row)
          (record st { documents = documents })).0 in
    let labelled : HasLabel row.doc_id old row.version_label st'.documents =
      subst (HasLabel row.doc_id old row.version_label) (sym rows)
        (registered-HasLabel before row after old st.documents alone has) in
    let drift = check_version_drift-found row fresh old st'.documents labelled differs in
    subst
      (λ (f : Result IngestError DownloadOutcome × Corpus).
        IsStuck row.doc_id old (after_fetch tools settings row f.0 f.1))
      (sym fetched)
      (subst (λ m. IsStuck row.doc_id old (after_drift_check tools settings row path fresh st' m))
        (sym drift)
        (after_drift_check-IsStuck tools settings row path fresh old (drift_message row old fresh)
          st' (labelled.0, labelled.1, labelled.2)))
