-- ===== src/Ingestion/Run/Converted.antt =====
-- What becomes of a file in one of the old Office formats.
use production_rag_system.Prelude.{
  ℕ, String, ◌≡◌, ap, ◌∙◌, inl, inr, ◌⊎◌, Bool, true, ◌&&◌, List, [], ◌∷◌, none, some, arith,
  contains, lookup, str_eq, eq_iff, Bool-cases, if◌then◌else◌, Floats, concat,
}
use production_rag_system.Core.Result.{Result}
use production_rag_system.Core.Settings.{Settings}
use production_rag_system.Ingestion.Schemas.{SourceRow, RawPath, Corpus}
use production_rag_system.Ingestion.Downloader.{raw_path}
use production_rag_system.Ingestion.Legacy.{
  ConversionError, convert_to, convert_legacy, is_legacy_office_binary, legacy_target,
}
use production_rag_system.Ingestion.Run.{Tools, fail, is_office, extract, after_conversion, reroute}

office_types :
    (file_type : String)
    → contains ("docx" ∷ "pptx" ∷ []) file_type ≡ true
    → (file_type ≡ "docx") ⊎ (file_type ≡ "pptx")
office_types file_type h = elim (Bool-cases (str_eq "docx" file_type)) [
  | inl docx ↦ inl (ground (arith, docx, eq_iff "docx" file_type))
  | inr other ↦ inr (ground (arith, other, h, eq_iff "pptx" file_type))
]

lookup-target :
    (row : SourceRow) → is_office row ≡ true → lookup (raw_path row).suffix legacy_target ≡ none
lookup-target row h = elim (office_types row.file_type h) [
  | inl docx ↦ ap (λ t. lookup (concat ("." ∷ t ∷ [])) legacy_target) docx
  | inr pptx ↦ ap (λ t. lookup (concat ("." ∷ t ∷ [])) legacy_target) pptx
]

-- A file of the type docx or pptx that is in the old binary format, under the path that the
-- downloader gives it, is never converted, whatever libreoffice would do: there is no target for
-- the suffix of the path, and the document fails. str.lower leaves that suffix as it is.
pub reroute-unconverted :
    {F : Type 0} ⦃fl : Floats F⦄ (tools : Tools) (settings : Settings F) (row : SourceRow)
    (st : Corpus) (content : List ℕ)
    → tools.lower (raw_path row).suffix ≡ (raw_path row).suffix
    → is_office row ≡ true
    → is_legacy_office_binary content ≡ true
    → reroute tools settings row (raw_path row) st (some content)
      ≡ fail row
          (concat (
            "unsupported legacy format: "
            ∷ concat ("no legacy conversion target for suffix '" ∷ (raw_path row).suffix ∷ "'" ∷ [])
            ∷ []))
          st
unfolding reroute after_conversion convert_legacy
reroute-unconverted tools settings row st content lowered office old =
    let path = raw_path row in
    let converted = λ (r : Result ConversionError (RawPath × String) × Corpus).
      after_conversion tools settings row r in
    let way = λ (b : Bool).
      if b
      then converted (convert_legacy tools.lower tools.libreoffice path st)
      else extract tools settings row row.file_type st (some content) in
    ap way (ap (λ b. b && is_legacy_office_binary content) office ∙ old)
    ∙ (ap (λ x. converted (convert_to tools.libreoffice path st x (lookup x legacy_target))) lowered
        ∙ ap (λ o. converted (convert_to tools.libreoffice path st path.suffix o))
            (lookup-target row office))
