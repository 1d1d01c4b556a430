-- ===== src/Ingestion/Run/Quiet.antt =====
-- The downloader and the conversion of old files change the raw files alone.
use production_rag_system.Prelude.{
  ℕ, String, ◌≡◌, refl, Bool, true, false, ◌-◌, leb, List, Option, none, some, arith, lookup,
  str_eq, eq_iff, if◌then◌else◌,
}
use production_rag_system.Core.Result.{Result, ok, err}
use production_rag_system.Core.Settings.{Settings}
use production_rag_system.Ingestion.Schemas.{SourceRow, RawPath, DownloadOutcome, Corpus}
use production_rag_system.Ingestion.Downloader.{
  HttpError, Response, transient, other_http, fetch, after_request, received, get_retrying,
  from_marker, sniff_content_type,
}
use production_rag_system.Ingestion.Legacy.{
  Conversion, no_program, exited, done_with, at_path, after_conversion_run, convert_to,
  convert_legacy, legacy_target,
}

pub self_eq : (s : String) → str_eq s s ≡ true
self_eq s = ground (arith, eq_iff s s)

pub if_both {ℓ κ} :
    {A : Type ℓ} (P : A → Type κ) (b : Bool) {x y : A} → P x → P y → P (if b then x else y)
if_both P true p q = p
if_both P false p q = q

pub if_known {ℓ κ} :
    {A : Type ℓ} (P : A → Type κ) (b : Bool) {x y : A}
    → (b ≡ true → P x)
    → P y
    → P (if b then x else y)
if_known P true p q = p refl
if_known P false p q = q

-- Only raw files have changed.
abbrev pub Quiet : Corpus → Corpus → Type 0
Quiet st after = (after.documents ≡ st.documents) × (after.extracted_files ≡ st.extracted_files)

at_path-Quiet :
    (st after : Corpus) (path : RawPath) (target_ext : String) (found : Option (List ℕ))
    → Quiet st after
    → Quiet st (at_path path target_ext after found).1
at_path-Quiet st after path target_ext none q = q
at_path-Quiet st after path target_ext (some content) q = q

run-Quiet :
    (st : Corpus) (path : RawPath) (target_ext : String) (c : Conversion)
    → Quiet st (after_conversion_run target_ext path st c).1
run-Quiet st path target_ext (no_program message) = (refl, refl)
run-Quiet st path target_ext (exited code stderr) = (refl, refl)
run-Quiet st path target_ext (done_with content) = at_path-Quiet st _ _ target_ext _ (refl, refl)

convert_to-Quiet :
    (libreoffice : RawPath → String → Conversion) (path : RawPath) (st : Corpus) (suffix : String)
    (target : Option String)
    → Quiet st (convert_to libreoffice path st suffix target).1
convert_to-Quiet libreoffice path st suffix none = (refl, refl)
convert_to-Quiet libreoffice path st suffix (some target_ext) =
    run-Quiet st path target_ext (libreoffice path target_ext)

pub convert_legacy-Quiet :
    (lower : String → String) (libreoffice : RawPath → String → Conversion) (path : RawPath)
    (st : Corpus)
    → Quiet st (convert_legacy lower libreoffice path st).1
unfolding convert_legacy
convert_legacy-Quiet lower libreoffice path st =
    convert_to-Quiet libreoffice path st (lower path.suffix)
      (lookup (lower path.suffix) legacy_target)

module _ {F : Type 0} (settings : Settings F) (sha256 : List ℕ → String) where
  received-Quiet :
      (row : SourceRow) (response : Response) (st : Corpus)
      → Quiet st (received settings sha256 row response st).1
  unfolding received
  received-Quiet row response st =
      if_both (λ (r : DownloadOutcome × Corpus). Quiet st r.1) (leb 400 response.status_code)
        (refl, refl)
        (if_both (λ (r : DownloadOutcome × Corpus). Quiet st r.1)
          (sniff_content_type (from_marker row response.content) row.file_type)
          (if_both (λ (s : Corpus). Quiet st s) _ (refl, refl) (refl, refl)) (refl, refl))

  after_request-Quiet :
      (row : SourceRow) (st : Corpus) (r : Result HttpError Response)
      → Quiet st (after_request settings sha256 row st r).1
  unfolding after_request
  after_request-Quiet row st (err (other_http message)) = (refl, refl)
  after_request-Quiet row st (err (transient message)) = (refl, refl)
  after_request-Quiet row st (ok response) = received-Quiet row response st

  pub fetch-Quiet :
      (row : SourceRow) (get : ℕ → Result HttpError Response) (st : Corpus)
      → Quiet st (fetch settings sha256 row get st).1
  unfolding fetch
  fetch-Quiet row get st =
      after_request-Quiet row st
        (get_retrying settings sha256 row get (settings.ingest_max_retries - 1) 1)
