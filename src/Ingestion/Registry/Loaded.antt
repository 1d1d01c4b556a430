-- ===== src/Ingestion/Registry/Loaded.antt =====
-- What load_sources accepts.
use production_rag_system.Prelude.{
  ◌≢◌, decimal, Sub, keep, skip, nil, ℕ, ◌+◌, ◌≡◌, refl, sym, ap, subst, ◌∙◌, inl, inr, String,
  Bool, true, false, not, List, [], ◌∷◌, map, some, arith, Dict, contains, Distinct, All, filterb,
  length, eq_iff, Bool-cases, if◌then◌else◌,
}
use production_rag_system.Prelude.Text.{is_empty, join}
use production_rag_system.Core.Result.{Result, ok, err}
use production_rag_system.Ingestion.Schemas.{
  DocStatus, failed, SourceRow, IngestResult, allowed_file_types, row_fields,
  required_source_columns,
}
use production_rag_system.Ingestion.Registry.{
  field, scan_ids, missing_fields, source_row, check_fields, check_row, sorted_in, check_rows,
  checked_ids, checked_columns, load_sources,
}

-- Every field but the notes has a text, and the type is one of the five.
abbrev pub IsComplete : SourceRow → Type 0
IsComplete row =
    All (λ v. is_empty v ≡ false)
      (row.doc_id ∷ row.title ∷ row.source_org ∷ row.url ∷ row.file_type ∷ row.version_label ∷ [])
    × (contains allowed_file_types row.file_type ≡ true)

filterb-nil : (p : String → Bool) (xs : List String) → filterb p xs ≡ [] → All (λ x. p x ≡ false) xs
filterb-nil p [] h = tt
filterb-nil p (x ∷ xs) h = elim (Bool-cases (p x)) [
  | inl e ↦ absurd (ground (arith, e, h))
  | inr e ↦ (e, filterb-nil p xs (ground (arith, e, h)))
]

if-ok :
    (b : Bool) (accepted row : SourceRow) (res : IngestResult)
    → (if b then ok accepted else err res) ≡ ok row
    → (b ≡ true) × (accepted ≡ row)
if-ok true accepted row res h = (refl, ground (arith, h))
if-ok false accepted row res h = absurd (ground arith)

if-err :
    (b : Bool) (accepted : SourceRow) (res given : IngestResult)
    → res.status ≡ failed
    → (if b then ok accepted else err res) ≡ err given
    → given.status ≡ failed
if-err true accepted res given e h = absurd (ground arith)
if-err false accepted res given e h =
    let same : res ≡ given = ground (arith, h) in ap (λ (x : IngestResult). x.status) (sym same) ∙ e

check_fields-IsComplete :
    (i : ℕ) (r : Dict String) (missing : List String) (row : SourceRow)
    → missing_fields r ≡ missing
    → check_fields i r missing ≡ ok row
    → IsComplete row × (row.doc_id ≡ field "doc_id" r)
unfolding decimal field join
check_fields-IsComplete i r (c ∷ cs) row e h = absurd (ground arith)
check_fields-IsComplete i r [] row e h =
    let (known, same) =
      if-ok (contains allowed_file_types (field "file_type" r)) (source_row r) row _ h in
    subst (λ t. IsComplete t × (t.doc_id ≡ field "doc_id" r)) same
      ((filterb-nil (λ c. is_empty (field c r)) row_fields e, known), refl)

check_fields-failed :
    (i : ℕ) (r : Dict String) (missing : List String) (res : IngestResult)
    → check_fields i r missing ≡ err res
    → res.status ≡ failed
unfolding decimal field join
check_fields-failed i r (c ∷ cs) res h = ap status_of (sym h)
  where
    status_of : Result IngestResult SourceRow → DocStatus
    status_of (ok row) = failed
    status_of (err res) = res.status
check_fields-failed i r [] res h =
    if-err (contains allowed_file_types (field "file_type" r)) (source_row r) _ res refl h

-- Accepted rows and rejected ones, of rows whose ids, where they are not empty, are `ids`.
abbrev ids_of : List (Dict String) → List String
ids_of [] = []
ids_of (r ∷ rs) =
    let rest = ids_of rs in if is_empty (field "doc_id" r) then rest else field "doc_id" r ∷ rest

ids_of-named :
    (r : Dict String) (rs : List (Dict String)) (doc_id : String)
    → is_empty doc_id ≡ false
    → doc_id ≡ field "doc_id" r
    → ids_of (r ∷ rs) ≡ doc_id ∷ ids_of rs
ids_of-named r rs doc_id filled named =
    subst (λ d. (if is_empty d then ids_of rs else d ∷ ids_of rs) ≡ doc_id ∷ ids_of rs) named
      (ap (λ b. if b then ids_of rs else doc_id ∷ ids_of rs) filled)

Sub-ids_of :
    (r : Dict String) (rs : List (Dict String)) (xs : List String)
    → Sub xs (ids_of rs)
    → Sub xs (ids_of (r ∷ rs))
Sub-ids_of r rs xs kept =
    elim (is_empty (field "doc_id" r))
      as (λ b. Sub xs (if b then ids_of rs else field "doc_id" r ∷ ids_of rs)) [
        | true ↦ kept
        | false ↦ skip (field "doc_id" r) kept
      ]

abbrev IsSplit : List (Dict String) → List SourceRow × List IngestResult → Type 0
IsSplit raw (valid, rejected) =
    All IsComplete valid
    × All (λ res. res.status ≡ failed) rejected
    × (length valid + length rejected ≡ length raw)
    × Sub (map (λ r. r.doc_id) valid) (ids_of raw)

sorted_in-IsSplit :
    (i : ℕ) (r : Dict String) (rs : List (Dict String)) (c : Result IngestResult SourceRow)
    (rest : List SourceRow × List IngestResult)
    → check_fields i r (missing_fields r) ≡ c
    → IsSplit rs rest
    → IsSplit (r ∷ rs) (sorted_in c rest)
sorted_in-IsSplit i r rs (ok row) (valid, rejected) e (complete, failures, total, kept) =
    let (own, named) = check_fields-IsComplete i r (missing_fields r) row refl e in
    (
      (own, complete),
      failures,
      omega (arith, total),
      subst (λ l. Sub (row.doc_id ∷ map (λ t. t.doc_id) valid) l)
          (sym (ids_of-named r rs row.doc_id own.0.0 named)) (keep row.doc_id kept),
    )
sorted_in-IsSplit i r rs (err res) (valid, rejected) e (complete, failures, total, kept) = (
  complete,
  (check_fields-failed i r (missing_fields r) res e, failures),
  omega (arith, total),
  Sub-ids_of r rs (map (λ t. t.doc_id) valid) kept,
)

check_rows-IsSplit : (i : ℕ) (raw : List (Dict String)) → IsSplit raw (check_rows i raw)
unfolding check_row
check_rows-IsSplit i [] = (tt, tt, refl, nil)
check_rows-IsSplit i (r ∷ rs) =
    sorted_in-IsSplit i r rs (check_fields i r (missing_fields r)) (check_rows (i + 1) rs) refl
      (check_rows-IsSplit (i + 1) rs)

-- Where an id came twice, the scan tells so.
abbrev noted : Bool → Bool → String → List String → List String → List String × List String
noted empty again d seen duplicates =
    if empty
    then (seen, duplicates)
    else (if again then (seen, d ∷ duplicates) else (d ∷ seen, duplicates))

scan_ids-twice :
    (rs : List (Dict String)) (seen : List String) (d : String) (ds : List String)
    → (scan_ids rs (seen, d ∷ ds)).1 ≢ []
scan_ids-twice [] seen d ds = λ h. cc
scan_ids-twice (r ∷ rs) seen d ds =
    let id = field "doc_id" r in
    elim (is_empty id)
      as (λ b. (scan_ids rs (noted b (contains seen id) id seen (d ∷ ds))).1 ≢ []) [
        | true ↦ scan_ids-twice rs seen d ds
        | false ↦
            elim (contains seen id)
              as (λ c. (scan_ids rs (noted false c id seen (d ∷ ds))).1 ≢ []) [
                | true ↦ scan_ids-twice rs seen id (d ∷ ds)
                | false ↦ scan_ids-twice rs (id ∷ seen) d ds
              ]
      ]

-- The ids are distinct, and none was seen before.
abbrev IsFresh : List String → List String → Type 0
IsFresh seen ids = Distinct ids × All (λ d. contains seen d ≡ false) ids

fresh_split :
    (id : String) (seen ids : List String)
    → All (λ d. contains (id ∷ seen) d ≡ false) ids
    → (contains ids id ≡ false) × All (λ d. contains seen d ≡ false) ids
fresh_split id seen [] h = (refl, tt)
fresh_split id seen (d ∷ ds) h =
    let (other, rest) = fresh_split id seen ds h.1 in
    (ground (arith, h.0, other, eq_iff d id, eq_iff id d), (ground (arith, h.0), rest))

scan_ids-IsFresh :
    (rs : List (Dict String)) (seen : List String)
    → (scan_ids rs (seen, [])).1 ≡ []
    → IsFresh seen (ids_of rs)
scan_ids-IsFresh [] seen = λ h. (tt, tt)
scan_ids-IsFresh (r ∷ rs) seen =
    let id = field "doc_id" r in
    elim (is_empty id)
      as (λ b.
        (scan_ids rs (noted b (contains seen id) id seen [])).1 ≡ []
        → IsFresh seen (if b then ids_of rs else id ∷ ids_of rs)) [
          | true ↦ scan_ids-IsFresh rs seen
          | false ↦ λ h. elim (Bool-cases (contains seen id)) [
            | inl again ↦ absurd (
                scan_ids-twice rs seen id []
                  (subst (λ c. (scan_ids rs (noted false c id seen [])).1 ≡ []) again h))
            | inr new ↦
                let (distinct, fresh) =
                  scan_ids-IsFresh rs (id ∷ seen)
                    (subst (λ c. (scan_ids rs (noted false c id seen [])).1 ≡ []) new h) in
                let (other, rest) = fresh_split id seen (ids_of rs) fresh in
                ((other, distinct), (new, rest))
          ]
        ]

Sub-contains :
    {xs ys : List String} → Sub xs ys → (k : String) → contains ys k ≡ false → contains xs k ≡ false
Sub-contains nil k h = refl
Sub-contains (keep x p) k h = ground (arith, h, Sub-contains p k)
Sub-contains (skip x p) k h = Sub-contains p k (ground (arith, h))

pub Sub-Distinct : {xs ys : List String} → Sub xs ys → Distinct ys → Distinct xs
Sub-Distinct nil h = tt
Sub-Distinct (keep x p) h = (Sub-contains p x h.0, Sub-Distinct p h.1)
Sub-Distinct (skip x p) h = Sub-Distinct p h.1

-- What is accepted and rejected of the rows.
abbrev pub IsLoaded : List (Dict String) → List SourceRow × List IngestResult → Type 0
IsLoaded raw (valid, rejected) =
    Distinct (map (λ r. r.doc_id) valid)
    × All IsComplete valid
    × All (λ res. res.status ≡ failed) rejected
    × (length valid + length rejected ≡ length raw)

split-IsLoaded :
    (raw : List (Dict String)) (sorted : List SourceRow × List IngestResult)
    → IsSplit raw sorted
    → Distinct (ids_of raw)
    → IsLoaded raw sorted
split-IsLoaded raw (valid, rejected) (complete, failures, total, kept) distinct =
    (Sub-Distinct kept distinct, complete, failures, total)

checked_ids-IsLoaded :
    (duplicates : List String) (raw : List (Dict String))
    (sorted : List SourceRow × List IngestResult)
    → (scan_ids raw ([], [])).1 ≡ duplicates
    → checked_ids duplicates raw ≡ ok sorted
    → IsLoaded raw sorted
checked_ids-IsLoaded (d ∷ ds) raw sorted e h = absurd (ground arith)
checked_ids-IsLoaded [] raw sorted e h =
    let same : check_rows 2 raw ≡ sorted = ground (arith, h) in
    subst (IsLoaded raw) same (
      split-IsLoaded raw (check_rows 2 raw) (check_rows-IsSplit 2 raw)
        (scan_ids-IsFresh raw [] e).0)

checked_columns-IsLoaded :
    (missing : List String) (raw : List (Dict String)) (sorted : List SourceRow × List IngestResult)
    → checked_columns missing raw ≡ ok sorted
    → IsLoaded raw sorted
checked_columns-IsLoaded (c ∷ cs) raw sorted h = absurd (ground arith)
checked_columns-IsLoaded [] raw sorted h =
    checked_ids-IsLoaded (scan_ids raw ([], [])).1 raw sorted refl h

-- Where load_sources returns for a file with a header: no two of the accepted rows have the same
-- id, each is complete and of one of the five file types, and the rows of the file are as many as
-- the accepted and the rejected together, each of which has the status failed.
pub load_sources-IsLoaded :
    (fieldnames : List String) (raw : List (Dict String))
    (sorted : List SourceRow × List IngestResult)
    → load_sources (some fieldnames) raw ≡ ok sorted
    → IsLoaded raw sorted
unfolding load_sources
load_sources-IsLoaded fieldnames raw sorted h =
    checked_columns-IsLoaded (filterb (λ c. not (contains fieldnames c)) required_source_columns)
      raw sorted h
