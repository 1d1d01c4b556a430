-- ===== src/Ingestion/Schemas.antt =====
-- backend/app/ingestion/schemas.py with the row of backend/app/db/models/corpus.py. Times are natural
-- numbers; the duration of a document's run is left out. A file's bytes are a list of numbers.
use production_rag_system.Prelude.{ℕ, String, Bool, List, [], ◌∷◌, Option, Dict}

pub data DocStatus : Type 0 where
  registered downloaded extracted indexed failed : DocStatus

abbrev pub allowed_file_types : List String
allowed_file_types = "pdf" ∷ "html" ∷ "docx" ∷ "pptx" ∷ "xlsx" ∷ []

-- The fields that may not be empty, and then all the columns.
abbrev pub row_fields : List String
row_fields = "doc_id" ∷ "title" ∷ "source_org" ∷ "url" ∷ "file_type" ∷ "version_label" ∷ []

abbrev pub required_source_columns : List String
required_source_columns =
    "doc_id" ∷ "title" ∷ "source_org" ∷ "url" ∷ "file_type" ∷ "version_label" ∷ "notes" ∷ []

pub record SourceRow : Type 0 where
  pub doc_id : String
  pub title : String
  pub source_org : String
  pub url : String
  pub file_type : String
  pub version_label : String
  pub notes : String

-- A path of the raw directory: what comes before the last dot, and the suffix with its dot.
pub record RawPath : Type 0 where
  pub stem : String
  pub suffix : String

pub record DownloadOutcome : Type 0 where
  pub status : DocStatus
  pub path : Option RawPath
  pub sha256 : Option String
  pub skipped_dedupe : Bool
  pub note : Option String

pub record IngestResult : Type 0 where
  pub doc_id : String
  pub file_type : String
  pub status : DocStatus
  pub is_scanned : Bool
  pub page_count : Option ℕ
  pub block_count : ℕ
  pub blocks_with_page_or_anchor : ℕ
  pub version_drift : Bool
  pub html_links_only_pdf : Bool
  pub dead_url : Bool
  pub note : Option String

-- A row of `documents`.
pub record DocumentRow : Type 0 where
  pub doc_id : String
  pub title : String
  pub source_org : String
  pub url : String
  pub file_type : String
  pub version_label : String
  pub downloaded_at : Option ℕ
  pub is_scanned : Bool
  pub page_count : Option ℕ
  pub sha256 : Option String
  pub status : DocStatus
  pub note : Option String

-- A block that a loader returns, and what is written of it.
pub record Block : Type 0 where
  pub page_content : String
  pub page_start : Option ℕ
  pub page_end : Option ℕ
  pub anchor : Option String
  pub section_heading : Option String
  pub is_scanned : Bool
  pub html_links_only_pdf : Bool

pub record JsonLine : Type 0 where
  pub page_content : String
  pub doc_id : String
  pub page_start : Option ℕ
  pub page_end : Option ℕ
  pub anchor : Option String
  pub section_heading : Option String

-- The database and the two directories of files, by the names of the files.
pub record Corpus : Type 0 where
  pub documents : Dict DocumentRow
  pub raw_files : Dict (List ℕ)
  pub extracted_files : Dict (List JsonLine)

pub data IngestError : Type 0 where
  missing_columns duplicate_doc_ids : List String → IngestError
  no_documents_row : String → IngestError
  raised : String → IngestError
