-- ===== src/Caching/Seam.antt =====
-- `_cache_lookup` of backend/app/rag/baseline.py: the exact tier, then the semantic one. What the
-- question was rewritten to and the embedding of the normalized question are arguments; the clock
-- of the stage is left out.
use production_rag_system.Prelude.{
  ℕ, ◌+◌, ◌<◌, String, ◌≡◌, refl, inl, inr, Option, none, some, find, str_eq, Option-cases, Floats,
}
use production_rag_system.Core.Result.{Result, ok, err, Exc}
use production_rag_system.Core.Contracts.{AnswerResponse, RewriteResult}
use production_rag_system.Core.Settings.{Settings}
use production_rag_system.Caching.RedisHot.{redis_get, redis_get-set}
use production_rag_system.Caching.Keys.{normalize, exact_key}
use production_rag_system.Caching.Store.{key_of, ensure_loaded, lookup_semantic, write, reset}
use production_rag_system.Caching.Entries.{Store, Backend}

-- The question that the cache is keyed on.
abbrev pub keyed_on : Option RewriteResult → String → String
keyed_on none query = query
keyed_on (some rr) query = rr.normalized

module _ {F : Type 0} ⦃fl : Floats F⦄ {V : Type 0} (backend : Backend F V)
    (settings : Settings F) where
  abbrev pub answer_of : Option (AnswerResponse × F) → Option AnswerResponse
  answer_of none = none
  answer_of (some (response, cosine)) = some response

  -- The hit with the vector that was embedded for it, if one was.
  unfoldable pub cache_lookup :
      String
      → Option RewriteResult
      → (String → Result Exc V)
      → ℕ
      → Store V
      → Result Exc (Option AnswerResponse × Option V) × Store V
  unfolding normalize lookup_semantic
  cache_lookup query rr embed now st =
      let normalized = normalize backend.unicode (keyed_on rr query) in
      elim (redis_get settings (key_of backend settings (exact_key backend.sha256 normalized ""))
        now st.redis) [
          | some hit ↦ (ok (some hit, none), st)
          | none ↦ elim (embed normalized) [
            | err e ↦ (err e, st)
            | ok vec ↦
                let (hit, st') = lookup_semantic backend settings normalized vec now st in
                (ok (answer_of hit, some vec), st')
          ]
        ]

  -- What the exact tier has is the answer.
  pub cache_lookup-stored :
      (query : String) (rr : Option RewriteResult) (embed : String → Result Exc V) (now : ℕ)
      (st : Store V) (response : AnswerResponse)
      → redis_get settings
          (key_of backend settings
            (exact_key backend.sha256 (normalize backend.unicode (keyed_on rr query)) ""))
          now
          st.redis
        ≡ some response
      → cache_lookup query rr embed now st ≡ (ok (some response, none), st)
  unfolding cache_lookup
  cache_lookup-stored query rr embed now st response h = rw (h, cache_lookup) refl

  -- The exact tier has what was written, until it expires there.
  pub redis-write :
      (url new_id : String) (now now' : ℕ) (normalized : String) (vec : V)
      (response : AnswerResponse) (st : Store V)
      → settings.redis_url ≡ some url
      → now' < now + settings.cache_redis_ttl_s
      → redis_get settings
          (key_of backend settings (exact_key backend.sha256 normalized ""))
          now'
          (write backend settings new_id now normalized vec response st).redis
        ≡ some response
  unfolding write
  redis-write url new_id now now' normalized vec response st configured soon =
      let hash = exact_key backend.sha256 normalized "" in
      let key = key_of backend settings hash in
      elim (Option-cases
        (find (λ e. str_eq e.query_hash hash) (ensure_loaded backend settings st).entries)) [
          | inl new ↦
              rw (new, write) (redis_get-set settings url key response now now' _ configured soon)
          | inr (e, old) ↦
              rw (old, write) (redis_get-set settings url key response now now' _ configured soon)
        ]

module _ {F : Type 0} ⦃fl : Floats F⦄ {V : Type 0} (backend : Backend F V)
    (settings : Settings F) where
  -- With a Redis configured, a question whose answer was written less than CACHE_REDIS_TTL_S before
  -- is answered at once by the exact tier, with no embedding and no change of state, after a
  -- restart too, and whatever manifest is served then.
  pub cache_lookup-write :
      (query : String) (rr : Option RewriteResult) (embed : String → Result Exc V)
      (url new_id : String) (now now' : ℕ) (vec : V) (response : AnswerResponse) (st : Store V)
      (manifest : Option String)
      → settings.redis_url ≡ some url
      → now' < now + settings.cache_redis_ttl_s
      → cache_lookup
          (record backend { manifest_id = manifest })
          settings
          query
          rr
          embed
          now'
          (reset backend settings (
            write backend settings new_id now
              (normalize backend.unicode (keyed_on rr query))
              vec
              response
              st))
        ≡ (
          ok (some response, none),
          reset backend settings (
              write backend settings new_id now
                (normalize backend.unicode (keyed_on rr query))
                vec
                response
                st),
        )
  unfolding cache_lookup
  cache_lookup-write query rr embed url new_id now now' vec response st manifest configured soon =
      rw
        (
          redis-write backend settings url new_id now now'
              (normalize backend.unicode (keyed_on rr query)) vec response st configured soon,
          cache_lookup,
        )
        refl
