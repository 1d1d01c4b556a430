-- ===== src/Api/RateLimit.antt =====
-- backend/app/core/ratelimit.py: the fixed-window counter. Redis is a table of counters with the time
-- at which each expires; a call of it may fail. Times are whole seconds, as in the window's number.
pub mod Windows
pub mod Admission
pub mod Counters
pub mod Refined
use production_rag_system.Prelude.{
  ℕ, ◌+◌, ◌-◌, ◌/◌, String, Bool, true, false, List, [], ◌∷◌, Option, none, some, Dict, insert,
  lookup, ltb, ◌==◌, max, if◌then◌else◌, decimal, concat,
}
use production_rag_system.Core.Settings.{Settings}
use production_rag_system.Auth.Accounts.{Principal}
use production_rag_system.Auth.Deps.{rate_tier}

pub record Counter : Type 0 where
  pub count : ℕ
  pub expires_at : Option ℕ

pub data Verdict : Type 0 where
  allowed : Verdict
  rate_limited : ℕ → Verdict
  redis_raised : Verdict

-- A counter whose time is over is not there.
abbrev pub live : ℕ → Option Counter → Option Counter
live now none = none
live now (some c) = elim c.expires_at [
  | none ↦ some c
  | some t ↦ if ltb now t then some c else none
]

abbrev pub incremented : Option Counter → Counter
incremented none = record { count = 1; expires_at = none }
incremented (some c) = record c { count = c.count + 1 }

-- `INCR`
unfoldable pub incr : String → ℕ → Dict Counter → ℕ × Dict Counter
incr key now redis =
    let c = incremented (live now (lookup key redis)) in (c.count, insert key c redis)

-- `EXPIRE`
unfoldable pub expire : String → ℕ → ℕ → Dict Counter → Dict Counter
expire key now window_s redis = elim (live now (lookup key redis)) [
  | none ↦ redis
  | some c ↦ insert key (record c { expires_at = some (now + window_s) }) redis
]

-- `TTL`; -1 and -2 of a key with no time and of no key are 0 here, where only the maximum with 1 is
-- read.
unfoldable pub ttl : String → ℕ → Dict Counter → ℕ
ttl key now redis = elim (live now (lookup key redis)) [
  | none ↦ 0
  | some c ↦ elim c.expires_at [ none ↦ 0 | some t ↦ t - now ]
]

unfoldable pub window_key : String → ℕ → ℕ → String
unfolding decimal
window_key bucket now window_s =
    concat ("campusrag:rl:" ∷ bucket ∷ ":" ∷ decimal (now / window_s) ∷ [])

abbrev pub counted : String → ℕ → ℕ → ℕ × Dict Counter → ℕ × Dict Counter
unfolding expire
counted key now window_s (n, redis) =
    if n == 1 then (n, expire key now window_s redis) else (n, redis)

abbrev pub judged : String → ℕ → ℕ → ℕ × Dict Counter → Verdict × Dict Counter
unfolding ttl
judged key now limit (n, redis) =
    if ltb limit n then (rate_limited (max (ttl key now redis) 1), redis) else (allowed, redis)

-- The third call stands outside of the `try`: its exception leaves `check`.
abbrev judged_blind : ℕ → ℕ × Dict Counter → Verdict × Dict Counter
judged_blind limit (n, redis) = if ltb limit n then (redis_raised, redis) else (allowed, redis)

-- What Redis does on a request: it answers, `INCR` raises, `EXPIRE` raises after the count, or `TTL`
-- raises after both.
pub data Health : Type 0 where
  healthy incr_down expire_down ttl_down : Health

-- `INCR` or `EXPIRE` that raises lets the request through.
unfoldable pub check : Health → String → ℕ → ℕ → ℕ → Dict Counter → Verdict × Dict Counter
unfolding incr expire ttl window_key
check incr_down bucket limit window_s now redis = (allowed, redis)
check healthy bucket limit window_s now redis =
    let key = window_key bucket now window_s in
    judged key now limit (counted key now window_s (incr key now redis))
check ttl_down bucket limit window_s now redis =
    let key = window_key bucket now window_s in
    judged_blind limit (counted key now window_s (incr key now redis))
check expire_down bucket limit window_s now redis =
    let key = window_key bucket now window_s in
    let (n, redis') = incr key now redis in
    if n == 1 then (allowed, redis') else judged key now limit (n, redis')

-- `redis` is none where it is not configured.
unfoldable pub rate_limit_dep :
    {F : Type 0}
    → Settings F
    → Health
    → Option Principal
    → String
    → ℕ
    → Option (Dict Counter)
    → Verdict × Option (Dict Counter)
unfolding check rate_tier
rate_limit_dep settings redis_state principal ip now none = (allowed, none)
rate_limit_dep settings redis_state principal ip now (some redis) =
    let (bucket, limit) = rate_tier settings principal ip in
    let (verdict, redis') = check redis_state bucket limit settings.rate_limit_window_s now redis in
    if settings.enable_rate_limit then (verdict, some redis') else (allowed, some redis)
