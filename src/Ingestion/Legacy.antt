-- ===== src/Ingestion/Legacy.antt =====
-- backend/app/ingestion/loaders/legacy.py: old Office files, which another program converts.
use production_rag_system.Prelude.{
  ℕ, String, Bool, List, [], ◌∷◌, Option, none, some, Dict, lookup, insert, take, concat,
}
use production_rag_system.Core.Result.{Result, ok, err}
use production_rag_system.Ingestion.Schemas.{RawPath, Corpus}
use production_rag_system.Ingestion.Bytes.{starts_with, ole2_magic}
use production_rag_system.Ingestion.Downloader.{name_of}

abbrev pub legacy_target : Dict String
legacy_target = (".doc", "docx") ∷ (".ppt", "pptx") ∷ []

-- What a conversion raises: a LegacyConversionError, or what subprocess.run raises where the program
-- cannot be started.
pub data ConversionError : Type 0 where
  unsupported : String → ConversionError
  not_started : String → ConversionError

-- What a run of libreoffice comes to: an exception of one that was not started, the code and the
-- output of one that failed, or the file that it wrote, if it did.
pub data Conversion : Type 0 where
  no_program : String → Conversion
  exited : String → String → Conversion
  done_with : Option (List ℕ) → Conversion

unfoldable pub is_legacy_office_binary : List ℕ → Bool
is_legacy_office_binary content = starts_with ole2_magic (take 8 content)

abbrev pub write_converted : RawPath → Option (List ℕ) → Dict (List ℕ) → Dict (List ℕ)
write_converted path none files = files
write_converted path (some content) files = insert (name_of path) content files

abbrev pub at_path :
    RawPath → String → Corpus → Option (List ℕ) → Result ConversionError (RawPath × String) × Corpus
at_path path target_ext st none = (
  err (
      unsupported
        (concat ("libreoffice reported success but " ∷ name_of path ∷ " was not created" ∷ []))),
  st,
)
at_path path target_ext st (some found) = (ok (path, target_ext), st)

abbrev pub after_conversion_run :
    String → RawPath → Corpus → Conversion → Result ConversionError (RawPath × String) × Corpus
after_conversion_run target_ext path st (no_program message) = (err (not_started message), st)
after_conversion_run target_ext path st (exited code stderr) =
    (err (unsupported (concat ("libreoffice --headless exited " ∷ code ∷ ": " ∷ stderr ∷ []))), st)
after_conversion_run target_ext path st (done_with content) =
    let converted_path : RawPath = record {
      stem = path.stem;
      suffix = concat ("." ∷ target_ext ∷ []);
    } in
    let files = write_converted converted_path content st.raw_files in
    at_path converted_path target_ext (record st { raw_files = files })
      (lookup (name_of converted_path) files)

-- `libreoffice` is the program.
abbrev pub convert_to :
    (RawPath → String → Conversion)
    → RawPath
    → Corpus
    → String
    → Option String
    → Result ConversionError (RawPath × String) × Corpus
convert_to libreoffice path st suffix none = (
  err (unsupported (concat ("no legacy conversion target for suffix '" ∷ suffix ∷ "'" ∷ []))),
  st,
)
convert_to libreoffice path st suffix (some target_ext) =
    after_conversion_run target_ext path st (libreoffice path target_ext)

-- `lower` is `str.lower`.
unfoldable pub convert_legacy :
    (String → String)
    → (RawPath → String → Conversion)
    → RawPath
    → Corpus
    → Result ConversionError (RawPath × String) × Corpus
convert_legacy lower libreoffice path st =
    convert_to libreoffice path st (lower path.suffix) (lookup (lower path.suffix) legacy_target)
