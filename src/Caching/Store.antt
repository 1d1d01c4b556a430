-- ===== src/Caching/Store.antt =====
-- The operations of backend/app/caching/store.py. The arithmetic on vectors is a parameter. A deletion
-- in Redis that has no URL is of a dictionary that nothing reads.
use Prim.Native.String.{◌++◌ as str_append}
use production_rag_system.Prelude.{
  ℕ, String, not, List, [], ◌∷◌, ◌++◌, map, Option, none, some, erase, length, leb, str_eq, find,
  Floats, flt, if◌then◌else◌,
}
use production_rag_system.Core.Contracts.{AnswerResponse}
use production_rag_system.Core.Settings.{Settings}
use production_rag_system.Caching.RedisHot.{redis_set}
use production_rag_system.Caching.Keys.{normalize, exact_key, discriminators, same_set}
use production_rag_system.Caching.Entries.{
  CacheEntry, Row, Store, Backend, same_manifest, drop_row, delete_entry, on_rows, loaded_rows,
  coldest, hit_entry,
}

module _ {F : Type 0} ⦃fl : Floats F⦄ {V : Type 0} (backend : Backend F V)
    (settings : Settings F) where
  abbrev pub row_of : CacheEntry V → Row V
  row_of e = record {
    id = e.id;
    query_text = e.query_text;
    row_discriminators = discriminators e.query_text settings.cache_discriminative_terms;
    manifest = e.index_manifest_id;
    vector = backend.l2_normalize e.embedding;
  }

  -- Once per process: the matrix is a view of the table.
  unfoldable pub ensure_loaded : Store V → Store V
  unfolding discriminators
  ensure_loaded st = elim st.matrix [
    | some rows ↦ st
    | none ↦ record st {
      matrix = some (map row_of st.entries);
      current_manifest = backend.manifest_id;
    }
  ]

  abbrev pub key_of : String → String
  key_of query_hash = str_append settings.cache_key_prefix query_hash

  unfoldable pub evict : String → Store V → Store V
  unfolding delete_entry drop_row
  evict entry_id st = elim (find (λ e. str_eq e.id entry_id) st.entries) [
    | none ↦ on_rows (drop_row entry_id) st
    | some e ↦ on_rows (drop_row entry_id) (record st {
      redis = erase (key_of e.query_hash) st.redis;
      entries = delete_entry entry_id st.entries;
    })
  ]

  -- `np.argmax`: the first of the best, with its cosine.
  abbrev pub best_from : V → Row V → F → List (Row V) → Row V × F
  best_from q best cosine [] = (best, cosine)
  best_from q best cosine (r ∷ rs) =
      let sim = backend.dot r.vector q in
      if flt cosine sim then best_from q r sim rs else best_from q best cosine rs

  abbrev pub best_row : V → Row V → List (Row V) → Row V × F
  best_row q r rs = best_from q r (backend.dot r.vector q) rs

  -- The hit itself: the answer that the table has for the row, if it is still there.
  abbrev pub serve : String → F → ℕ → Store V → Option (AnswerResponse × F) × Store V
  serve entry_id cosine now st = elim (find (λ e. str_eq e.id entry_id) st.entries) [
    | none ↦ (none, st)
    | some e ↦
        (some (e.answer, cosine), record st { entries = map (hit_entry entry_id now) st.entries })
  ]

  -- The three tests on the best row.
  abbrev pub accept : String → ℕ → Row V × F → Store V → Option (AnswerResponse × F) × Store V
  accept normalized now (best, cosine) st =
      let query_disc = discriminators normalized settings.cache_discriminative_terms in
      if flt cosine settings.cache_similarity_threshold
      then (none, st)
      else (if not (same_set query_disc best.row_discriminators)
          then (none, st)
          else (if not (same_manifest best.manifest st.current_manifest)
              then (none, evict best.id st)
              else serve best.id cosine now st))

  abbrev pub lookup_in :
      List (Row V) → String → V → ℕ → Store V → Option (AnswerResponse × F) × Store V
  lookup_in [] normalized vec now st = (none, st)
  lookup_in (r ∷ rs) normalized vec now st =
      if backend.is_zero vec
      then (none, st)
      else accept normalized now (best_row (backend.l2_normalize vec) r rs) st

  unfoldable pub lookup_semantic : String → V → ℕ → Store V → Option (AnswerResponse × F) × Store V
  unfolding ensure_loaded evict same_set
  lookup_semantic normalized vec now st =
      let st' = ensure_loaded st in lookup_in (loaded_rows st') normalized vec now st'

  abbrev pub appended : String → String → V → Option String → List (Row V) → List (Row V)
  appended entry_id normalized vec manifest rows =
      rows
      ++ record {
        id = entry_id;
        query_text = normalized;
        row_discriminators = discriminators normalized settings.cache_discriminative_terms;
        manifest = manifest;
        vector = backend.l2_normalize vec;
      }
        ∷ []

  -- The table's rows of before stand beside the state.
  abbrev pub evict_coldest : List (CacheEntry V) → Store V → Store V
  evict_coldest [] st = st
  evict_coldest (e ∷ es) st =
      let victim = coldest e es in
      on_rows (drop_row victim.id) (record st {
        redis = erase (key_of victim.query_hash) st.redis;
        entries = delete_entry victim.id st.entries;
      })

  unfoldable pub evict_least_recently_hit : Store V → Store V
  unfolding coldest delete_entry drop_row
  evict_least_recently_hit st = evict_coldest st.entries st

  abbrev pub make_room : Store V → Store V
  make_room st =
      if leb settings.cache_max_entries (length (loaded_rows st))
      then evict_least_recently_hit st
      else st

  abbrev pub updated :
      String → String → V → AnswerResponse → Option String → CacheEntry V → CacheEntry V
  updated entry_id normalized vec response manifest e =
      if str_eq e.id entry_id
      then record e {
        query_text = normalized;
        embedding = vec;
        answer = response;
        index_manifest_id = manifest;
      }
      else e

  -- The matrix's part of a write, and the exact tier's.
  abbrev pub publish : String → String → V → AnswerResponse → String → ℕ → Store V → Store V
  publish entry_id normalized vec response query_hash now st =
      let st' =
        on_rows
          (λ rows. appended entry_id normalized vec st.current_manifest (drop_row entry_id rows))
          st in
      record st' { redis = redis_set settings (key_of query_hash) response now st'.redis }

  abbrev pub inserted : String → String → V → AnswerResponse → String → ℕ → Store V → Store V
  inserted new_id normalized vec response query_hash now st = record st {
    entries =
        st.entries
        ++ record {
          id = new_id;
          query_hash = query_hash;
          query_text = normalized;
          embedding = vec;
          answer = response;
          index_manifest_id = st.current_manifest;
          hits = 0;
          created_at = now;
          last_hit_at = none;
        }
          ∷ [];
  }

  -- `new_id` is the id that the database draws for a new row.
  unfoldable pub write : String → ℕ → String → V → AnswerResponse → Store V → Store V
  unfolding ensure_loaded evict_least_recently_hit drop_row exact_key
  write new_id now normalized vec response st =
      let st' = ensure_loaded st in
      let query_hash = exact_key backend.sha256 normalized "" in
      elim (find (λ e. str_eq e.query_hash query_hash) st'.entries) [
        | none ↦
            publish new_id normalized vec response query_hash now
              (inserted new_id normalized vec response query_hash now (make_room st'))
        | some e ↦ publish e.id normalized vec response query_hash now (record st' {
          entries = map (updated e.id normalized vec response st'.current_manifest) st'.entries;
        })
      ]

  abbrev pub reset : Store V → Store V
  reset st = record st { matrix = none; current_manifest = none }

  -- Both tiers; the count is of the table's rows.
  unfoldable pub flush : Store V → ℕ × Store V
  flush st = (length st.entries, reset (record st { entries = []; redis = [] }))

  unfoldable pub delete_by_query : String → Store V → ℕ × Store V
  unfolding normalize delete_entry drop_row exact_key
  delete_by_query query st =
      let query_hash = exact_key backend.sha256 (normalize backend.unicode query) "" in
      elim (find (λ e. str_eq e.query_hash query_hash) st.entries) [
        | none ↦ (0, st)
        | some e ↦ (
          1,
          on_rows (drop_row e.id) (record st {
            redis = erase (key_of query_hash) st.redis;
            entries = delete_entry e.id st.entries;
          }),
        )
      ]
