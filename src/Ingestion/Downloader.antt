-- ===== src/Ingestion/Downloader.antt =====
-- backend/app/ingestion/downloader.py. A request is numbered by its attempt; the pauses between
-- requests are left out. What `fetch` writes is the raw file of the row; the write is taken to
-- succeed.
pub mod Settled
use production_rag_system.Prelude.{
  ℕ, zero, suc, ◌+◌, ◌-◌, String, Bool, true, false, ◌||◌, List, [], ◌∷◌, Option, none, some,
  lookup, insert, contains, take, drop, leb, str_eq, if◌then◌else◌, decimal, concat,
}
use production_rag_system.Core.Result.{Result, ok, err}
use production_rag_system.Core.Settings.{Settings}
use production_rag_system.Ingestion.Schemas.{
  downloaded, failed, SourceRow, RawPath, DownloadOutcome, Corpus, IngestError, raised,
}
use production_rag_system.Ingestion.Bytes.{
  starts_with, find_bytes, contains_bytes, lstrip_bytes, lower_bytes, pdf_magic, zip_magic,
  ole2_magic, html_tag, doctype_html,
}

-- What a request raises: a timeout or a failure of the transport, or another exception.
pub data HttpError : Type 0 where
  transient other_http : String → HttpError

pub record Response : Type 0 where
  pub status_code : ℕ
  pub content : List ℕ

unfoldable pub sniff_content_type : List ℕ → String → Bool
sniff_content_type raw declared =
    let head = take 16 raw in
    let sample = lower_bytes (lstrip_bytes (take 1024 raw)) in
    if str_eq declared "pdf"
    then starts_with pdf_magic head
    else (if contains ("docx" ∷ "pptx" ∷ "xlsx" ∷ []) declared
        then starts_with zip_magic head || starts_with ole2_magic head
        else (if str_eq declared "html"
            then starts_with doctype_html sample
              || (starts_with html_tag sample || contains_bytes html_tag sample)
            else true))

abbrev pub name_of : RawPath → String
name_of path = concat (path.stem ∷ path.suffix ∷ [])

-- `settings.RAW_DIR / f"{row.doc_id}.{row.file_type}"`
abbrev pub raw_path : SourceRow → RawPath
raw_path row = record { stem = row.doc_id; suffix = concat ("." ∷ row.file_type ∷ []) }

-- A PDF starts at its marker, where there is one early on.
abbrev pub from_marker : SourceRow → List ℕ → List ℕ
from_marker row raw = elim (find_bytes pdf_magic (take 2048 raw)) [
  | none ↦ raw
  | some offset ↦ if str_eq row.file_type "pdf" then drop offset raw else raw
]

abbrev pub not_fetched : String → DownloadOutcome
not_fetched note = record {
  status = failed;
  path = none;
  sha256 = none;
  skipped_dedupe = false;
  note = some note;
}

abbrev pub on_disk : (List ℕ → String) → Option (List ℕ) → String → Bool
on_disk sha256 none digest = false
on_disk sha256 (some content) digest = str_eq (sha256 content) digest

module _ {F : Type 0} (settings : Settings F) (sha256 : List ℕ → String) where
  abbrev pub answered : SourceRow → Result HttpError Response → Result HttpError Response
  unfolding decimal
  answered row (err e) = err e
  answered row (ok response) =
      let message = concat (decimal response.status_code ∷ " from " ∷ row.url ∷ []) in
      if leb 500 response.status_code then err (transient message) else ok response

  -- With this many attempts left after this one.
  abbrev pub get_retrying :
      SourceRow → (ℕ → Result HttpError Response) → ℕ → ℕ → Result HttpError Response
  unfolding decimal
  get_retrying row get zero attempt = answered row (get attempt)
  get_retrying row get (suc left) attempt = elim (answered row (get attempt)) [
    | ok response ↦ ok response
    | err (other_http message) ↦ err (other_http message)
    | err (transient message) ↦ get_retrying row get left (attempt + 1)
  ]

  abbrev pub stored : SourceRow → List ℕ → Corpus → DownloadOutcome × Corpus
  stored row raw st =
      let path = raw_path row in
      let digest = sha256 raw in
      let same = on_disk sha256 (lookup (name_of path) st.raw_files) digest in
      (
        record {
          status = downloaded;
          path = some path;
          sha256 = some digest;
          skipped_dedupe = same;
          note = none;
        },
        if same then st else record st { raw_files = insert (name_of path) raw st.raw_files },
      )

  unfoldable pub received : SourceRow → Response → Corpus → DownloadOutcome × Corpus
  unfolding decimal sniff_content_type
  received row response st =
      let raw = from_marker row response.content in
      if leb 400 response.status_code
      then (not_fetched (concat ("dead URL: HTTP " ∷ decimal response.status_code ∷ [])), st)
      else (if sniff_content_type raw row.file_type then stored row raw st else (
        not_fetched
            (concat ("content-type mismatch: declared file_type='" ∷ row.file_type ∷ "'" ∷ [])),
        st,
      ))

  unfoldable pub after_request :
      SourceRow → Corpus → Result HttpError Response → Result IngestError DownloadOutcome × Corpus
  unfolding received
  after_request row st (err (other_http message)) = (err (raised message), st)
  after_request row st (err (transient message)) =
      (ok (not_fetched (concat ("dead URL after retries: " ∷ message ∷ []))), st)
  after_request row st (ok response) =
      (ok (received row response st).0, (received row response st).1)

  unfoldable pub fetch :
      SourceRow
      → (ℕ → Result HttpError Response)
      → Corpus
      → Result IngestError DownloadOutcome × Corpus
  unfolding decimal after_request
  fetch row get st = after_request row st (get_retrying row get (settings.ingest_max_retries - 1) 1)
