-- ===== src/Caching/RedisHot.antt =====
-- `get` and `set` of backend/app/caching/redis_hot.py, on a Redis that answers where one is
-- configured. A payload is kept with the time, in seconds, at which Redis drops it.
use production_rag_system.Prelude.{
  ℕ, ◌+◌, ◌<◌, String, ◌≡◌, ap, ◌∙◌, Option, none, some, arith, Dict, lookup, insert, lookup-insert,
  eq_iff, ltb, if◌then◌else◌,
}
use production_rag_system.Core.Contracts.{AnswerResponse}
use production_rag_system.Core.Settings.{Settings}

abbrev pub Hot : Type 0
Hot = Dict (AnswerResponse × ℕ)

abbrev pub unexpired : ℕ → Option (AnswerResponse × ℕ) → Option AnswerResponse
unexpired now none = none
unexpired now (some (payload, expires_at)) = if ltb now expires_at then some payload else none

-- With no `REDIS_URL` nothing is kept and nothing found.
abbrev pub get_from : Option String → String → ℕ → Hot → Option AnswerResponse
get_from none key now hot = none
get_from (some url) key now hot = unexpired now (lookup key hot)

abbrev pub set_in : Option String → String → AnswerResponse → ℕ → Hot → Hot
set_in none key payload expires_at hot = hot
set_in (some url) key payload expires_at hot = insert key (payload, expires_at) hot

module _ {F : Type 0} (settings : Settings F) where
  abbrev pub redis_get : String → ℕ → Hot → Option AnswerResponse
  redis_get key now hot = get_from settings.redis_url key now hot

  abbrev pub redis_set : String → AnswerResponse → ℕ → Hot → Hot
  redis_set key payload now hot =
      set_in settings.redis_url key payload (now + settings.cache_redis_ttl_s) hot

  -- What was set is found until it expires.
  pub redis_get-set :
      (url key : String) (payload : AnswerResponse) (now now' : ℕ) (hot : Hot)
      → settings.redis_url ≡ some url
      → now' < now + settings.cache_redis_ttl_s
      → redis_get key now' (redis_set key payload now hot) ≡ some payload
  redis_get-set url key payload now now' hot configured soon =
      let expires_at = now + settings.cache_redis_ttl_s in
      ap (λ u. get_from u key now' (set_in u key payload expires_at hot)) configured
      ∙ (ap (unexpired now') (lookup-insert key key (payload, expires_at) hot)
          ∙ ground (arith, eq_iff key key, soon))
