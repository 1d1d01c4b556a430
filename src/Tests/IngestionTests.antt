-- ===== src/Tests/IngestionTests.antt =====
-- The theorems on backend/app/ingestion at concrete inputs.
use production_rag_system.Prelude.{
  filterb, ℕ, suc, ◌+◌, ◌-◌, ◌<◌, ◌≤◌, String, ◌≡◌, refl, true, false, List, [], ◌∷◌, ◌++◌, none,
  some, Dict, concat,
}
use production_rag_system.Prelude.Text.{strip}
use production_rag_system.Core.Result.{Result, ok, err}
use production_rag_system.Ingestion.Schemas.{
  downloaded, extracted, SourceRow, IngestResult, DocumentRow, Corpus, required_source_columns,
}
use production_rag_system.Ingestion.Registry.{field, load_sources, check_rows, upsert_documents}
use production_rag_system.Ingestion.Registry.Loaded.{IsLoaded, load_sources-IsLoaded}
use production_rag_system.Ingestion.Downloader.{
  transient, HttpError, Response, fetch, after_request, received, raw_path, sniff_content_type,
}
use production_rag_system.Ingestion.Downloader.Settled.{is_transient, attempted, fetch-settles}
use production_rag_system.Ingestion.Legacy.{done_with, is_legacy_office_binary}
use production_rag_system.Ingestion.Run.{Tools, fail, reroute, ingest_one}
use production_rag_system.Ingestion.Run.Isolated.{ingest_one-IsIsolated}
use production_rag_system.Ingestion.Run.Underway.{IsIsolated}
use production_rag_system.Ingestion.Run.Drift.{IsStuck, ingest_one-IsStuck}
use production_rag_system.Ingestion.Run.Converted.{reroute-unconverted}
use production_rag_system.Ingestion.Batch.{Arguments, main}
use production_rag_system.Ingestion.Batch.Recorded.{IsTold, is_selected, main-IsTold}
use production_rag_system.Samples.{defaults, ascii, thousandths}

abbrev fee_rules : SourceRow
fee_rules = record {
  doc_id = "d1";
  title = "Fee rules";
  source_org = "PU";
  url = "https://pu.example/fees";
  file_type = "pdf";
  version_label = "2026";
  notes = "";
}

abbrev hostel_rules : SourceRow
hostel_rules = record fee_rules { doc_id = "d2"; title = "Hostel rules"; file_type = "docx" }

abbrev raw_fees : Dict String
raw_fees =
    ("doc_id", "d1")
    ∷ ("title", " Fee rules ")
    ∷ ("source_org", "PU")
    ∷ ("url", "https://pu.example/fees")
    ∷ ("file_type", "pdf")
    ∷ ("version_label", "2026")
    ∷ []

abbrev untitled : Dict String
untitled = ("doc_id", "d3") ∷ ("file_type", "pdf") ∷ []

accepted :
    load_sources (some required_source_columns) (raw_fees ∷ untitled ∷ [])
    ≡ ok (check_rows 2 (raw_fees ∷ untitled ∷ []))
unfolding load_sources field strip
accepted = refl

load_sources-IsLoaded_example :
    IsLoaded (raw_fees ∷ untitled ∷ []) (check_rows 2 (raw_fees ∷ untitled ∷ []))
load_sources-IsLoaded_example =
    load_sources-IsLoaded required_source_columns (raw_fees ∷ untitled ∷ [])
      (check_rows 2 (raw_fees ∷ untitled ∷ [])) accepted

-- A file of five bytes, whose digest tells it apart from an older one.
abbrev pdf : List ℕ
pdf = 37 ∷ 80 ∷ 68 ∷ 70 ∷ 49 ∷ []

abbrev tools : Tools
tools = record {
  sha256 = λ raw. "new";
  lower = λ s. s;
  get = λ row attempt. ok (record { status_code = 200; content = pdf });
  libreoffice = λ path target. done_with (some pdf);
  load_pdf = λ raw doc_id. ok [];
  load_html = λ raw doc_id. ok [];
  load_office = λ file_type raw doc_id. ok [];
  unicode = ascii;
  nfc = λ text. text;
  write_failure = λ doc_id. none;
  now = 7;
}

abbrev old_document : DocumentRow
old_document = record {
  doc_id = "d1";
  title = "Fee rules";
  source_org = "PU";
  url = "https://pu.example/fees";
  file_type = "pdf";
  version_label = "2025";
  downloaded_at = some 3;
  is_scanned = false;
  page_count = none;
  sha256 = some "old";
  status = extracted;
  note = none;
}

abbrev corpus : Corpus
corpus = record { documents = ("d1", old_document) ∷ []; raw_files = []; extracted_files = [] }

ingest_one-IsIsolated_example :
    IsIsolated "d1" corpus (ingest_one tools defaults fee_rules true corpus)
ingest_one-IsIsolated_example = ingest_one-IsIsolated tools defaults fee_rules true corpus

abbrev now_registered : Corpus
now_registered = record corpus {
  documents = upsert_documents ([] ++ fee_rules ∷ hostel_rules ∷ []) corpus.documents;
}

abbrev with_pdf : Corpus
with_pdf = record now_registered { raw_files = ("d1.pdf", pdf) ∷ [] }

fetched_anew : fetch defaults tools.sha256 fee_rules (tools.get fee_rules) now_registered ≡ (
  ok (record {
    status = downloaded;
    path = some (record { stem = "d1"; suffix = ".pdf" });
    sha256 = some "new";
    skipped_dedupe = false;
    note = none;
  }),
  with_pdf,
)
unfolding fetch after_request received sniff_content_type
fetched_anew = refl

-- The first request times out.
abbrev get_late : ℕ → Result HttpError Response
get_late (suc (suc number)) = ok (record { status_code = 200; content = pdf })
get_late number = err (transient "timed out")

fetch-settles_example :
    (j : ℕ) × (j ≤ defaults.ingest_max_retries - 1)
    × ((i : ℕ)
        → i < j
        → is_transient (attempted defaults tools.sha256 fee_rules get_late (i + 1)) ≡ true)
    × (is_transient (attempted defaults tools.sha256 fee_rules get_late (j + 1)) ≡ true
        → j ≡ defaults.ingest_max_retries - 1)
    × (fetch defaults tools.sha256 fee_rules get_late now_registered
        ≡ after_request defaults tools.sha256 fee_rules now_registered
            (attempted defaults tools.sha256 fee_rules get_late (j + 1)))
fetch-settles_example = fetch-settles defaults tools.sha256 fee_rules get_late now_registered

-- The label was bumped from 2025 to 2026.
ingest_one-IsStuck_example :
    IsStuck "d1" "old" (ingest_one tools defaults fee_rules true now_registered)
ingest_one-IsStuck_example =
    ingest_one-IsStuck tools defaults [] fee_rules (hostel_rules ∷ []) "old" "new"
      (record { stem = "d1"; suffix = ".pdf" }) false corpus with_pdf refl
      (old_document, refl, refl) refl fetched_anew

abbrev ole2 : List ℕ
ole2 = 208 ∷ 207 ∷ 17 ∷ 224 ∷ 161 ∷ 177 ∷ 26 ∷ 225 ∷ 0 ∷ []

reroute-unconverted_example :
    reroute tools defaults hostel_rules (raw_path hostel_rules) corpus (some ole2)
    ≡ fail hostel_rules
        (concat (
          "unsupported legacy format: "
          ∷ concat ("no legacy conversion target for suffix '" ∷ ".docx" ∷ "'" ∷ [])
          ∷ []))
        corpus
unfolding is_legacy_office_binary
reroute-unconverted_example =
    reroute-unconverted tools defaults hostel_rules corpus ole2 refl refl refl

abbrev by_type : Arguments
by_type = record { doc = none; file_type = some "pdf"; force = true }

abbrev sorted_rows : List SourceRow × List IngestResult
sorted_rows = check_rows 2 (raw_fees ∷ untitled ∷ [])

main-IsTold_example :
    IsTold sorted_rows.1
      (filterb (is_selected by_type) sorted_rows.0)
      (main tools defaults by_type (some required_source_columns) (raw_fees ∷ untitled ∷ []) corpus)
main-IsTold_example =
    main-IsTold tools defaults by_type required_source_columns (raw_fees ∷ untitled ∷ [])
      sorted_rows.0 sorted_rows.1 corpus accepted
