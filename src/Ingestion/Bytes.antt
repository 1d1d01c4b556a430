-- ===== src/Ingestion/Bytes.antt =====
-- What backend/app/ingestion uses of `bytes`, a list of numbers below 256.
use production_rag_system.Prelude.{
  ℕ, suc, ◌+◌, Bool, true, false, ◌&&◌, ◌||◌, List, [], ◌∷◌, Option, none, some, leb, ◌==◌,
  if◌then◌else◌,
}

-- `raw.startswith(prefix)`
abbrev pub starts_with : List ℕ → List ℕ → Bool
starts_with [] raw = true
starts_with (p ∷ ps) [] = false
starts_with (p ∷ ps) (b ∷ bs) = p == b && starts_with ps bs

abbrev pub after_one : Option ℕ → Option ℕ
after_one none = none
after_one (some n) = some (suc n)

-- `raw.find(needle)` of a needle that is not empty: where it occurs first.
abbrev pub find_bytes : List ℕ → List ℕ → Option ℕ
find_bytes needle [] = none
find_bytes needle (b ∷ bs) =
    let later = after_one (find_bytes needle bs) in
    if starts_with needle (b ∷ bs) then some 0 else later

-- `needle in raw`
abbrev pub contains_bytes : List ℕ → List ℕ → Bool
contains_bytes needle raw = elim (find_bytes needle raw) [ none ↦ false | some n ↦ true ]

abbrev pub lstrip_bytes : List ℕ → List ℕ
lstrip_bytes [] = []
lstrip_bytes (b ∷ bs) =
    let rest = lstrip_bytes bs in if (leb 9 b && leb b 13) || b == 32 then rest else b ∷ bs

abbrev pub lower_bytes : List ℕ → List ℕ
lower_bytes [] = []
lower_bytes (b ∷ bs) = (if leb 65 b && leb b 90 then b + 32 else b) ∷ lower_bytes bs

-- `%PDF`, the header of a ZIP archive, that of an OLE2 file, `<html` and `<!doctype html`.
abbrev pub pdf_magic : List ℕ
pdf_magic = 37 ∷ 80 ∷ 68 ∷ 70 ∷ []

abbrev pub zip_magic : List ℕ
zip_magic = 80 ∷ 75 ∷ 3 ∷ 4 ∷ []

abbrev pub ole2_magic : List ℕ
ole2_magic = 208 ∷ 207 ∷ 17 ∷ 224 ∷ 161 ∷ 177 ∷ 26 ∷ 225 ∷ []

abbrev pub html_tag : List ℕ
html_tag = 60 ∷ 104 ∷ 116 ∷ 109 ∷ 108 ∷ []

abbrev pub doctype_html : List ℕ
doctype_html = 60 ∷ 33 ∷ 100 ∷ 111 ∷ 99 ∷ 116 ∷ 121 ∷ 112 ∷ 101 ∷ 32 ∷ 104 ∷ 116 ∷ 109 ∷ 108 ∷ []
