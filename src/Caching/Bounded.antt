-- ===== src/Caching/Bounded.antt =====
-- The writes of the cache (backend/app/caching/store.py), its capacity and its matrix.
use production_rag_system.Prelude.{
  ℕ, suc, map-append, ◌≤◌, ◌<◌, String, ◌≡◌, refl, sym, ap, ◌∙◌, subst, inl, inr, true, false, List,
  [], ◌∷◌, ◌++◌, map, Option, some, arith, length, length-map, length-append, contains, find, leb,
  str_eq, Bool-cases, Option-cases, Floats,
}
use production_rag_system.Core.Contracts.{AnswerResponse}
use production_rag_system.Core.Settings.{Settings}
use production_rag_system.Caching.Keys.{exact_key}
use production_rag_system.Caching.Store.{
  ensure_loaded, appended, evict_coldest, evict_least_recently_hit, make_room, updated, publish,
  inserted, write,
}
use production_rag_system.Caching.Entries.{
  CacheEntry, Row, Store, Backend, entry_ids, row_ids, drop_row, delete_entry, loaded_rows, coldest,
}
use production_rag_system.Caching.Ids.{
  without, row_ids-drop_row, entry_ids-delete_entry, length-without, IsSynced, IsSynced-without,
  IsSynced-snoc, IsSynced-move,
}
use production_rag_system.Caching.Loaded.{
  IsWell, IsLoaded, IsLoaded-IsWell, coldest-contains, find-there, ensure_loaded-IsLoaded,
  entries-ensure_loaded,
}

-- A list without a text that it has not.
pub without-fresh : (k : String) (xs : List String) → contains xs k ≡ false → without k xs ≡ xs
without-fresh k [] h = refl
without-fresh k (x ∷ xs) h = elim (Bool-cases (str_eq x k)) [
  | inl same ↦ absurd (ground arith)
  | inr other ↦ rw other (ap (◌∷◌ x) (without-fresh k xs (ground arith)))
]

module _ {F : Type 0} ⦃fl : Floats F⦄ {V : Type 0} (backend : Backend F V)
    (settings : Settings F) where
  ids-updated :
      (k normalized : String) (vec : V) (response : AnswerResponse) (m : Option String)
      (es : List (CacheEntry V))
      → entry_ids (map (updated backend settings k normalized vec response m) es) ≡ entry_ids es
  ids-updated k normalized vec response m [] = refl
  ids-updated k normalized vec response m (e ∷ es) = elim (Bool-cases (str_eq e.id k)) [
    | inl same ↦ rw same (ap (◌∷◌ e.id) (ids-updated k normalized vec response m es))
    | inr other ↦ rw other (ap (◌∷◌ e.id) (ids-updated k normalized vec response m es))
  ]

  without-contains :
      (k j : String) (xs : List String) → contains xs j ≡ false → contains (without k xs) j ≡ false
  without-contains k j [] h = refl
  without-contains k j (x ∷ xs) h = ground (arith, without-contains k j xs)

  -- Room for one more entry, and the id of none that was not there.
  record HasRoom (new : String) (st : Store V) : Type 0 where
    is_loaded : IsLoaded settings.cache_max_entries st
    room : length st.entries < settings.cache_max_entries
    fresh : contains (entry_ids st.entries) new ≡ false

  evict_coldest-HasRoom :
      (new : String) (es : List (CacheEntry V)) (st : Store V)
      → st.entries ≡ es
      → 1 ≤ length es
      → IsLoaded settings.cache_max_entries st
      → contains (entry_ids st.entries) new ≡ false
      → HasRoom new (evict_coldest backend settings es st)
  evict_coldest-HasRoom new [] st h some_one w fresh = absurd (omega arith)
  evict_coldest-HasRoom new (e ∷ es) st h some_one w fresh =
      let victim = (coldest e es).id in
      let there : contains (entry_ids st.entries) victim ≡ true =
        ap (λ l. contains (entry_ids l) victim) h ∙ coldest-contains e es in
      let ids = entry_ids-delete_entry victim st.entries in
      let size : suc (length (delete_entry victim st.entries)) ≡ length st.entries = ground (
        arith,
        length-without victim (entry_ids st.entries),
        there,
        ids,
        length-map (λ d. d.id) (delete_entry victim st.entries),
        length-map (λ d. d.id) st.entries,
      ) in
      rw w.loaded (record {
        is_loaded = record {
          rows = drop_row victim w.rows;
          loaded = refl;
          synced = rw (row_ids-drop_row victim w.rows, ids) (IsSynced-without victim w.synced);
          bounded = omega (arith, size, w.bounded);
        };
        room = omega (arith, size, w.bounded);
        fresh = rw ids (without-contains victim new (entry_ids st.entries) fresh);
      })

  make_room-HasRoom :
      (new : String) (st : Store V)
      → 1 ≤ settings.cache_max_entries
      → IsLoaded settings.cache_max_entries st
      → contains (entry_ids st.entries) new ≡ false
      → HasRoom new (make_room backend settings st)
  unfolding evict_least_recently_hit
  make_room-HasRoom new st some_room w fresh =
      let sizes : length w.rows ≡ length st.entries =
        ground (
          arith,
          w.synced.size,
          length-map (λ r. r.id) w.rows,
          length-map (λ e. e.id) st.entries,
        ) in
      let shown : loaded_rows st ≡ w.rows = rw w.loaded refl in
      elim (Bool-cases (leb settings.cache_max_entries (length (loaded_rows st)))) [
        | inl full ↦ rw full (
            evict_coldest-HasRoom new st.entries st refl
              (ground (arith, sizes, ap length shown, some_room)) w fresh)
        | inr free ↦
            rw free (record {
              is_loaded = w;
              room = ground (arith, sizes, ap length shown);
              fresh = fresh;
            })
      ]

  publish-IsLoaded :
      (k normalized : String) (vec : V) (response : AnswerResponse) (hash : String) (now : ℕ)
      (st : Store V) (rows : List (Row V))
      → st.matrix ≡ some rows
      → IsSynced (without k (row_ids rows) ++ k ∷ []) (entry_ids st.entries)
      → length st.entries ≤ settings.cache_max_entries
      → IsLoaded settings.cache_max_entries
          (publish backend settings k normalized vec response hash now st)
  publish-IsLoaded k normalized vec response hash now st rows loaded synced bounded =
      rw loaded (record {
        rows = appended backend settings k normalized vec st.current_manifest (drop_row k rows);
        loaded = refl;
        synced =
            subst (λ l. IsSynced l (entry_ids st.entries))
              (sym (
                map-append (λ r. r.id) (drop_row k rows) _
                ∙ ap (λ l. l ++ k ∷ []) (row_ids-drop_row k rows)))
              synced;
        bounded = bounded;
      })

  inserted-IsLoaded :
      (k normalized : String) (vec : V) (response : AnswerResponse) (hash : String) (now : ℕ)
      (st : Store V)
      → HasRoom k st
      → IsLoaded settings.cache_max_entries (
          publish backend settings k normalized vec response hash now
            (inserted backend settings k normalized vec response hash now st))
  inserted-IsLoaded k normalized vec response hash now st r =
      publish-IsLoaded k normalized vec response hash now
        (inserted backend settings k normalized vec response hash now st) r.is_loaded.rows
        r.is_loaded.loaded
        (subst (λ l. IsSynced (without k (row_ids r.is_loaded.rows) ++ k ∷ []) l)
          (sym (map-append (λ e. e.id) st.entries _))
          (rw (without-fresh k (row_ids r.is_loaded.rows) (r.is_loaded.synced.same k ∙ r.fresh))
            (IsSynced-snoc k r.fresh r.is_loaded.synced)))
        (omega (arith, length-append st.entries _, r.room))

  -- A write keeps the table within CACHE_MAX_ENTRIES (at least one) and the matrix, loaded or not
  -- before, in step with the table: the same ids, each once. The id that is drawn for a new row is
  -- in no other.
  pub write-IsWell :
      (new_id : String) (now : ℕ) (normalized : String) (vec : V) (response : AnswerResponse)
      (st : Store V)
      → 1 ≤ settings.cache_max_entries
      → contains (entry_ids st.entries) new_id ≡ false
      → IsWell settings.cache_max_entries st
      → IsWell settings.cache_max_entries
          (write backend settings new_id now normalized vec response st)
  unfolding write
  write-IsWell new_id now normalized vec response st some_room fresh w =
      let hash = exact_key backend.sha256 normalized "" in
      let st' = ensure_loaded backend settings st in
      let l = ensure_loaded-IsLoaded backend settings settings.cache_max_entries st w in
      elim (Option-cases (find (λ e. str_eq e.query_hash hash) st'.entries)) [
        | inl new ↦
            rw (new, write)
              (IsLoaded-IsWell (
                inserted-IsLoaded new_id normalized vec response hash now
                  (make_room backend settings st')
                  (make_room-HasRoom new_id st' some_room l
                    (rw (entries-ensure_loaded backend settings st) fresh))))
        | inr (e, old) ↦
            rw (old, write)
              (IsLoaded-IsWell (
                publish-IsLoaded e.id normalized vec response hash now _ l.rows l.loaded
                  (rw (ids-updated e.id normalized vec response st'.current_manifest st'.entries)
                    (IsSynced-move e.id (find-there _ st'.entries e old) l.synced))
                  (omega (
                    arith,
                    length-map
                        (updated backend settings e.id normalized vec response st'.current_manifest)
                        st'.entries,
                    l.bounded,
                  ))))
      ]
