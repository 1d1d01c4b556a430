-- ===== src/Caching/Ids.antt =====
-- The ids of the table and of the matrix: two lists with the same members.
use production_rag_system.Prelude.{
  suc, String, ◌≡◌, refl, sym, ap, ◌∙◌, inl, inr, true, false, ◌&&◌, not, List, [], ◌∷◌, ◌++◌,
  arith, length, length-append, contains, contains-append, Distinct, Distinct-snoc, str_eq, eq_iff,
  Bool-cases, if◌then◌else◌,
}
use production_rag_system.Caching.Entries.{
  CacheEntry, Row, entry_ids, row_ids, drop_row, delete_entry,
}

-- The list without the first occurrence.
abbrev pub without : String → List String → List String
without k [] = []
without k (x ∷ xs) = if str_eq x k then xs else x ∷ without k xs

pub row_ids-drop_row :
    {V : Type 0} (k : String) (rows : List (Row V))
    → row_ids (drop_row k rows) ≡ without k (row_ids rows)
unfolding drop_row
row_ids-drop_row k [] = refl
row_ids-drop_row k (r ∷ rs) = elim (Bool-cases (str_eq r.id k)) [
  | inl same ↦ rw same refl
  | inr other ↦ rw other (ap (◌∷◌ r.id) (row_ids-drop_row k rs))
]

pub entry_ids-delete_entry :
    {V : Type 0} (k : String) (es : List (CacheEntry V))
    → entry_ids (delete_entry k es) ≡ without k (entry_ids es)
unfolding delete_entry
entry_ids-delete_entry k [] = refl
entry_ids-delete_entry k (e ∷ es) = elim (Bool-cases (str_eq e.id k)) [
  | inl same ↦ rw same refl
  | inr other ↦ rw other (ap (◌∷◌ e.id) (entry_ids-delete_entry k es))
]

pub length-without :
    (k : String) (xs : List String)
    → length xs ≡ (if contains xs k then suc (length (without k xs)) else length (without k xs))
length-without k [] = refl
length-without k (x ∷ xs) = ground (arith, length-without k xs)

contains-without :
    (k : String) (xs : List String)
    → Distinct xs
    → (j : String) → contains (without k xs) j ≡ (contains xs j && not (str_eq k j))
contains-without k [] d j = refl
contains-without k (x ∷ xs) d j =
    ground (arith, contains-without k xs d.1 j, d.0, eq_iff x k, eq_iff k j, eq_iff x j)

pub Distinct-without : (k : String) (xs : List String) → Distinct xs → Distinct (without k xs)
Distinct-without k [] d = tt
Distinct-without k (x ∷ xs) d = elim (Bool-cases (str_eq x k)) [
  | inl same ↦ rw same d.1
  | inr other ↦
      rw other (ground (arith, contains-without k xs d.1 x, d.0), Distinct-without k xs d.1)
]

-- The matrix's ids beside the table's.
pub record IsSynced (rows entries : List String) : Type 0 where
  pub rows_distinct : Distinct rows
  pub entries_distinct : Distinct entries
  pub same : (j : String) → contains rows j ≡ contains entries j
  pub size : length rows ≡ length entries

pub IsSynced-refl : (ids : List String) → Distinct ids → IsSynced ids ids
IsSynced-refl ids d = record {
  rows_distinct = d;
  entries_distinct = d;
  same = λ j. refl;
  size = refl;
}

pub IsSynced-without :
    (k : String) {rows entries : List String}
    → IsSynced rows entries
    → IsSynced (without k rows) (without k entries)
IsSynced-without k {rows} {entries} w = record {
  rows_distinct = Distinct-without k rows w.rows_distinct;
  entries_distinct = Distinct-without k entries w.entries_distinct;
  same = λ j.
      contains-without k rows w.rows_distinct j
      ∙ (ap (λ b. b && not (str_eq k j)) (w.same j)
          ∙ sym (contains-without k entries w.entries_distinct j));
  size = ground (arith, length-without k rows, length-without k entries, w.same k, w.size);
}

pub IsSynced-snoc :
    (k : String) {rows entries : List String}
    → contains entries k ≡ false
    → IsSynced rows entries
    → IsSynced (rows ++ k ∷ []) (entries ++ k ∷ [])
IsSynced-snoc k {rows} {entries} fresh w = record {
  rows_distinct = Distinct-snoc rows k w.rows_distinct (w.same k ∙ fresh);
  entries_distinct = Distinct-snoc entries k w.entries_distinct fresh;
  same = λ j.
      ground (arith, contains-append rows (k ∷ []) j, contains-append entries (k ∷ []) j, w.same j);
  size = omega (arith, length-append rows (k ∷ []), length-append entries (k ∷ []), w.size);
}

-- A row moves to the end.
pub IsSynced-move :
    (k : String) {rows entries : List String}
    → contains entries k ≡ true
    → IsSynced rows entries
    → IsSynced (without k rows ++ k ∷ []) entries
IsSynced-move k {rows} {entries} there w = record {
  rows_distinct =
      Distinct-snoc (without k rows) k (Distinct-without k rows w.rows_distinct)
        (ground (arith, contains-without k rows w.rows_distinct k, eq_iff k k));
  entries_distinct = w.entries_distinct;
  same = λ j. ground (
    arith,
    contains-append (without k rows) (k ∷ []) j,
    contains-without k rows w.rows_distinct j,
    w.same j,
    there,
    eq_iff k j,
  );
  size = ground (
    arith,
    length-append (without k rows) (k ∷ []),
    length-without k rows,
    w.same k,
    w.size,
    there,
  );
}
