-- ===== src/Caching/Reached.antt =====
-- What holds of the cache after any sequence of its operations.
use production_rag_system.Prelude.{
  ℕ, ◌≤◌, String, ◌≡◌, refl, sym, ap, ◌∙◌, subst, inl, inr, false, List, [], ◌∷◌, map, none, arith,
  length, length-map, contains, find, erase, str_eq, Bool-cases, Option-cases, Floats, flt,
}
use production_rag_system.Core.Contracts.{AnswerResponse}
use production_rag_system.Core.Settings.{Settings}
use production_rag_system.Caching.Keys.{exact_key, normalize, discriminators, same_set}
use production_rag_system.Caching.Store.{
  ensure_loaded, key_of, evict, best_row, serve, accept, lookup_in, lookup_semantic, write, reset,
  flush, delete_by_query,
}
use production_rag_system.Caching.Entries.{
  CacheEntry, Row, Store, Backend, entry_ids, row_ids, drop_row, delete_entry, on_rows, loaded_rows,
  hit_entry, same_manifest,
}
use production_rag_system.Caching.Ids.{
  row_ids-drop_row, entry_ids-delete_entry, length-without, Distinct-without, IsSynced-without,
}
use production_rag_system.Caching.Bounded.{without-fresh, write-IsWell}
use production_rag_system.Caching.Loaded.{
  MatrixAgrees, IsWell, IsLoaded, IsLoaded-IsWell, ensure_loaded-IsLoaded,
}

module _ {V : Type 0} where
  find-absent :
      (k : String) (es : List (CacheEntry V))
      → find (λ e. str_eq e.id k) es ≡ none
      → contains (entry_ids es) k ≡ false
  find-absent k [] h = refl
  find-absent k (e ∷ es) h = ground (arith, find-absent k es)

  ids-hit_entry :
      (k : String) (now : ℕ) (es : List (CacheEntry V))
      → entry_ids (map (hit_entry k now) es) ≡ entry_ids es
  ids-hit_entry k now [] = refl
  ids-hit_entry k now (e ∷ es) = elim (Bool-cases (str_eq e.id k)) [
    | inl same ↦ rw same (ap (◌∷◌ e.id) (ids-hit_entry k now es))
    | inr other ↦ rw other (ap (◌∷◌ e.id) (ids-hit_entry k now es))
  ]

  length-delete_entry :
      (k : String) (es : List (CacheEntry V)) → length (delete_entry k es) ≤ length es
  length-delete_entry k es = ground (
    arith,
    length-without k (entry_ids es),
    entry_ids-delete_entry k es,
    length-map (λ d. d.id) (delete_entry k es),
    length-map (λ d. d.id) es,
  )

module _ {F : Type 0} ⦃fl : Floats F⦄ {V : Type 0} (backend : Backend F V)
    (settings : Settings F) where
  evict-IsLoaded :
      (capacity : ℕ) (k : String) (st : Store V)
      → IsLoaded capacity st
      → IsLoaded capacity (evict backend settings k st)
  unfolding evict
  evict-IsLoaded capacity k st w = elim (Option-cases (find (λ e. str_eq e.id k) st.entries)) [
    | inl gone ↦
        rw (gone, evict, w.loaded)
          (record {
            rows = drop_row k w.rows;
            loaded = refl;
            synced =
                rw
                  (
                    row_ids-drop_row k w.rows,
                    without-fresh k (row_ids w.rows)
                        (w.synced.same k ∙ find-absent k st.entries gone),
                  )
                  w.synced;
            bounded = w.bounded;
          })
    | inr (e, there) ↦
        rw (there, evict, w.loaded)
          (record {
            rows = drop_row k w.rows;
            loaded = refl;
            synced =
                rw (row_ids-drop_row k w.rows, entry_ids-delete_entry k st.entries)
                  (IsSynced-without k w.synced);
            bounded = omega (arith, length-delete_entry k st.entries, w.bounded);
          })
  ]

  serve-IsLoaded :
      (capacity : ℕ) (k : String) (cosine : F) (now : ℕ) (st : Store V)
      → IsLoaded capacity st
      → IsLoaded capacity (serve backend settings k cosine now st).1
  serve-IsLoaded capacity k cosine now st w =
      elim (Option-cases (find (λ e. str_eq e.id k) st.entries)) [
        | inl gone ↦ rw (gone, serve) w
        | inr (e, there) ↦
            rw (there, serve)
              (record {
                rows = w.rows;
                loaded = w.loaded;
                synced = rw (ids-hit_entry k now st.entries) w.synced;
                bounded = omega (arith, length-map (hit_entry k now) st.entries, w.bounded);
              })
      ]

  accept-IsLoaded :
      (capacity : ℕ) (normalized : String) (now : ℕ) (best : Row V × F) (st : Store V)
      → IsLoaded capacity st
      → IsLoaded capacity (accept backend settings normalized now best st).1
  accept-IsLoaded capacity normalized now (best, cosine) st w =
      let disc = discriminators normalized settings.cache_discriminative_terms in
      elim (Bool-cases (flt cosine settings.cache_similarity_threshold)) [
        | inl far ↦ rw far w
        | inr near ↦ elim (Bool-cases (same_set disc best.row_discriminators)) [
          | inr vetoed ↦ rw (near, vetoed) w
          | inl alike ↦ elim (Bool-cases (same_manifest best.manifest st.current_manifest)) [
            | inr stale ↦ rw (near, alike, stale) (evict-IsLoaded capacity best.id st w)
            | inl current ↦
                rw (near, alike, current) (serve-IsLoaded capacity best.id cosine now st w)
          ]
        ]
      ]

  lookup_in-IsLoaded :
      (capacity : ℕ) (rows : List (Row V)) (normalized : String) (vec : V) (now : ℕ) (st : Store V)
      → IsLoaded capacity st
      → IsLoaded capacity (lookup_in backend settings rows normalized vec now st).1
  lookup_in-IsLoaded capacity [] normalized vec now st w = w
  lookup_in-IsLoaded capacity (r ∷ rs) normalized vec now st w =
      elim (Bool-cases (backend.is_zero vec)) [
        | inl zero_norm ↦ rw zero_norm w
        | inr q ↦ rw q (
            accept-IsLoaded capacity normalized now
              (best_row backend settings (backend.l2_normalize vec) r rs) st w)
      ]

  lookup_semantic-IsWell :
      (capacity : ℕ) (normalized : String) (vec : V) (now : ℕ) (st : Store V)
      → IsWell capacity st
      → IsWell capacity (lookup_semantic backend settings normalized vec now st).1
  unfolding lookup_semantic
  lookup_semantic-IsWell capacity normalized vec now st w =
      let st' = ensure_loaded backend settings st in
      IsLoaded-IsWell (
        lookup_in-IsLoaded capacity (loaded_rows st') normalized vec now st'
          (ensure_loaded-IsLoaded backend settings capacity st w))

  removed-IsWell :
      (capacity : ℕ) (k hash : String) (st : Store V)
      → IsWell capacity st
      → IsWell capacity (
          on_rows (drop_row k) (record st {
            redis = erase (key_of backend settings hash) st.redis;
            entries = delete_entry k st.entries;
          }))
  removed-IsWell capacity k hash st w = elim (Option-cases st.matrix) [
    | inl cold ↦ rw cold (record {
      distinct =
          rw (entry_ids-delete_entry k st.entries)
            (Distinct-without k (entry_ids st.entries) w.distinct);
      bounded = omega (arith, length-delete_entry k st.entries, w.bounded);
      agrees = subst (λ m. MatrixAgrees m (delete_entry k st.entries)) (sym cold) tt;
    })
    | inr (rows, warm) ↦ IsLoaded-IsWell (
        rw warm (record {
          rows = drop_row k rows;
          loaded = refl;
          synced =
              rw (row_ids-drop_row k rows, entry_ids-delete_entry k st.entries)
                (IsSynced-without k (subst (λ m. MatrixAgrees m st.entries) warm w.agrees));
          bounded = omega (arith, length-delete_entry k st.entries, w.bounded);
        }))
  ]

  delete_by_query-IsWell :
      (capacity : ℕ) (query : String) (st : Store V)
      → IsWell capacity st
      → IsWell capacity (delete_by_query backend settings query st).1
  unfolding delete_by_query
  delete_by_query-IsWell capacity query st w =
      let hash = exact_key backend.sha256 (normalize backend.unicode query) "" in
      elim (Option-cases (find (λ e. str_eq e.query_hash hash) st.entries)) [
        | inl gone ↦ rw (gone, delete_by_query) w
        | inr (e, there) ↦ rw (there, delete_by_query) (removed-IsWell capacity e.id hash st w)
      ]

-- One operation of the cache.
pub data Step {F : Type 0} ⦃fl : Floats F⦄ {V : Type 0} (backend : Backend F V)
    (settings : Settings F) : Store V → Store V → Type 0 where
  written :
      (new_id : String) (now : ℕ) (normalized : String) (vec : V) (response : AnswerResponse)
      {st : Store V}
      → contains (entry_ids st.entries) new_id ≡ false
      → Step backend settings st (write backend settings new_id now normalized vec response st)
  looked_up :
      (normalized : String) (vec : V) (now : ℕ) {st : Store V}
      → Step backend settings st (lookup_semantic backend settings normalized vec now st).1
  deleted :
      (query : String) {st : Store V}
      → Step backend settings st (delete_by_query backend settings query st).1
  flushed : {st : Store V} → Step backend settings st (flush backend settings st).1
  restarted : {st : Store V} → Step backend settings st (reset backend settings st)

pub data Steps {F : Type 0} ⦃fl : Floats F⦄ {V : Type 0} (backend : Backend F V)
    (settings : Settings F) : Store V → Store V → Type 0 where
  done : {st : Store V} → Steps backend settings st st
  next :
      {a b c : Store V}
      → Step backend settings a b
      → Steps backend settings b c
      → Steps backend settings a c

module _ {F : Type 0} ⦃fl : Floats F⦄ {V : Type 0} (backend : Backend F V)
    (settings : Settings F) where
  Step-IsWell :
      {a b : Store V}
      → 1 ≤ settings.cache_max_entries
      → IsWell settings.cache_max_entries a
      → Step backend settings a b
      → IsWell settings.cache_max_entries b
  unfolding flush
  Step-IsWell some_room w (written new_id now normalized vec response {st} fresh) =
      write-IsWell backend settings new_id now normalized vec response st some_room fresh w
  Step-IsWell some_room w (looked_up normalized vec now {st}) =
      lookup_semantic-IsWell backend settings settings.cache_max_entries normalized vec now st w
  Step-IsWell some_room w (deleted query {st}) =
      delete_by_query-IsWell backend settings settings.cache_max_entries query st w
  Step-IsWell some_room w flushed = record { distinct = tt; bounded = omega arith; agrees = tt }
  Step-IsWell some_room w restarted = record {
    distinct = w.distinct;
    bounded = w.bounded;
    agrees = tt;
  }

  -- After any sequence of writes, lookups, deletions, flushes and restarts, the table has at most
  -- CACHE_MAX_ENTRIES entries (at least one is allowed) with distinct ids, and a loaded matrix has
  -- one row for each of them and no other.
  pub Steps-IsWell :
      {a b : Store V}
      → 1 ≤ settings.cache_max_entries
      → IsWell settings.cache_max_entries a
      → Steps backend settings a b
      → IsWell settings.cache_max_entries b
  Steps-IsWell some_room w done = w
  Steps-IsWell some_room w (next step rest) =
      Steps-IsWell some_room (Step-IsWell some_room w step) rest
