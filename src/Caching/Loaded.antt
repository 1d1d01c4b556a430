-- ===== src/Caching/Loaded.antt =====
-- The states of the cache between two operations and within one, and the loading of the matrix.
use production_rag_system.Prelude.{
  ℕ, ◌≤◌, ◌≡◌, refl, sym, ap, subst, inl, inr, Bool, true, List, [], ◌∷◌, map, Option, none, some,
  arith, length, contains, Distinct, find, eq_iff, Bool-cases, Option-cases, Floats,
}
use production_rag_system.Core.Settings.{Settings}
use production_rag_system.Caching.Store.{row_of, ensure_loaded}
use production_rag_system.Caching.Entries.{
  CacheEntry, Row, Store, Backend, entry_ids, row_ids, on_rows, colder, coldest,
}
use production_rag_system.Caching.Ids.{IsSynced, IsSynced-refl}

module _ {V : Type 0} where
  abbrev pub MatrixAgrees : Option (List (Row V)) → List (CacheEntry V) → Type 0
  MatrixAgrees none entries = Unit
  MatrixAgrees (some rows) entries = IsSynced (row_ids rows) (entry_ids entries)

  -- The state between two operations, the matrix loaded or not.
  pub record IsWell (capacity : ℕ) (st : Store V) : Type 0 where
    pub distinct : Distinct (entry_ids st.entries)
    pub bounded : length st.entries ≤ capacity
    pub agrees : MatrixAgrees st.matrix st.entries

  -- The state within an operation, the matrix loaded.
  pub record IsLoaded (capacity : ℕ) (st : Store V) : Type 0 where
    pub rows : List (Row V)
    pub loaded : st.matrix ≡ some rows
    pub synced : IsSynced (row_ids rows) (entry_ids st.entries)
    pub bounded : length st.entries ≤ capacity

  pub IsLoaded-IsWell : {capacity : ℕ} {st : Store V} → IsLoaded capacity st → IsWell capacity st
  IsLoaded-IsWell {capacity} {st} w = record {
    distinct = w.synced.entries_distinct;
    bounded = w.bounded;
    agrees = subst (λ m. MatrixAgrees m st.entries) (sym w.loaded) w.synced;
  }

  pub coldest-contains :
      (e : CacheEntry V) (es : List (CacheEntry V))
      → contains (entry_ids (e ∷ es)) (coldest e es).id ≡ true
  unfolding coldest
  coldest-contains e [] = ground (arith, eq_iff e.id e.id)
  coldest-contains e (d ∷ ds) = elim (Bool-cases (colder d e)) [
    | inl cold ↦ rw (cold, coldest) (ground (arith, coldest-contains d ds))
    | inr warm ↦ rw (warm, coldest) (ground (arith, coldest-contains e ds))
  ]

  pub find-there :
      (p : CacheEntry V → Bool) (es : List (CacheEntry V)) (e : CacheEntry V)
      → find p es ≡ some e
      → contains (entry_ids es) e.id ≡ true
  find-there p [] e h = absurd (ground arith)
  find-there p (d ∷ ds) e h = elim (Bool-cases (p d)) [
    | inl holds ↦ let same : d ≡ e = ground arith in rw same (ground (arith, eq_iff e.id e.id))
    | inr fails ↦ ground (arith, find-there p ds e)
  ]

  pub on_rows-IsLoaded :
      (capacity : ℕ) (f : List (Row V) → List (Row V)) (st : Store V) (rows : List (Row V))
      → st.matrix ≡ some rows
      → IsSynced (row_ids (f rows)) (entry_ids st.entries)
      → length st.entries ≤ capacity
      → IsLoaded capacity (on_rows f st)
  on_rows-IsLoaded capacity f st rows loaded synced bounded =
      rw loaded (record { rows = f rows; loaded = refl; synced = synced; bounded = bounded })

module _ {F : Type 0} ⦃fl : Floats F⦄ {V : Type 0} (backend : Backend F V)
    (settings : Settings F) where
  ids-row_of :
      (es : List (CacheEntry V)) → row_ids (map (row_of backend settings) es) ≡ entry_ids es
  ids-row_of [] = refl
  ids-row_of (e ∷ es) = ap (◌∷◌ e.id) (ids-row_of es)

  pub ensure_loaded-IsLoaded :
      (capacity : ℕ) (st : Store V)
      → IsWell capacity st
      → IsLoaded capacity (ensure_loaded backend settings st)
  unfolding ensure_loaded
  ensure_loaded-IsLoaded capacity st w = elim (Option-cases st.matrix) [
    | inl cold ↦
        rw (cold, ensure_loaded)
          (record {
            rows = map (row_of backend settings) st.entries;
            loaded = refl;
            synced = rw (ids-row_of st.entries) (IsSynced-refl (entry_ids st.entries) w.distinct);
            bounded = w.bounded;
          })
    | inr (rows, warm) ↦
        rw (warm, ensure_loaded)
          (record {
            rows = rows;
            loaded = warm;
            synced = subst (λ m. MatrixAgrees m st.entries) warm w.agrees;
            bounded = w.bounded;
          })
  ]

  pub entries-ensure_loaded :
      (st : Store V) → (ensure_loaded backend settings st).entries ≡ st.entries
  unfolding ensure_loaded
  entries-ensure_loaded st = elim (Option-cases st.matrix) [
    | inl cold ↦ rw (cold, ensure_loaded) refl
    | inr (rows, warm) ↦ rw (warm, ensure_loaded) refl
  ]
