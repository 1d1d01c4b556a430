-- ===== src/Api/RateLimit/Windows.antt =====
-- One window of one bucket: how many requests pass.
use production_rag_system.Prelude.{
  ℕ, suc, ◌+◌, ◌-◌, ◌*◌, ◌/◌, ◌≤◌, ◌<◌, min, String, ◌≡◌, refl, ap, ◌∙◌, inl, inr, List, [], ◌∷◌,
  none, some, arith, Dict, lookup, insert, lookup-insert, eq_iff, All, length, ltb, max,
  if◌then◌else◌, Bool-cases, decimal, concat,
}
use native.Mathlib.Nat.{div-add-mod', mod-lt}
use production_rag_system.Api.RateLimit.{
  Counter, Verdict, allowed, rate_limited, redis_raised, incr, expire, ttl, window_key, counted,
  judged, healthy, check,
}

-- The requests of one bucket, by their times.
pub checks : String → ℕ → ℕ → List ℕ → Dict Counter → List Verdict
checks bucket limit window_s [] redis = []
checks bucket limit window_s (t ∷ ts) redis =
    let (verdict, redis') = check healthy bucket limit window_s t redis in
    verdict ∷ checks bucket limit window_s ts redis'

abbrev pub count_allowed : List Verdict → ℕ
count_allowed [] = 0
count_allowed (allowed ∷ vs) = suc (count_allowed vs)
count_allowed (rate_limited retry_after ∷ vs) = count_allowed vs
count_allowed (redis_raised ∷ vs) = count_allowed vs

-- One request, under the key of its window.
abbrev pub step : String → ℕ → ℕ → ℕ → Dict Counter → Verdict × Dict Counter
unfolding incr expire ttl
step key limit window_s now redis =
    judged key now limit (counted key now window_s (incr key now redis))

pub step-check :
    (bucket : String) (limit window_s t : ℕ) (redis : Dict Counter)
    → check healthy bucket limit window_s t redis
      ≡ step (window_key bucket t window_s) limit window_s t redis
unfolding check
step-check bucket limit window_s t redis = refl

module _ (key : String) (limit window_s : ℕ) where
  -- The window's counter has counted `n` requests, and lives until `end`.
  abbrev HasCounted : ℕ → ℕ → Dict Counter → Type 0
  HasCounted n end redis = lookup key redis ≡ some (record { count = n; expires_at = some end })

  step-next :
      (n end t : ℕ) (redis : Dict Counter)
      → HasCounted n end redis
      → 1 ≤ n
      → t < end
      → ((step key limit window_s t redis).0
          ≡ (if ltb limit (n + 1) then rate_limited (max (end - t) 1) else allowed))
        × HasCounted (n + 1) end (step key limit window_s t redis).1
  unfolding incr expire ttl
  step-next n end t redis h pos early = ground (
    arith,
    lookup-insert key key (record { count = n + 1; expires_at = some end }) redis,
    eq_iff key key,
  )

  step-first :
      (t : ℕ) (redis : Dict Counter)
      → lookup key redis ≡ none
      → 1 ≤ window_s
      → ((step key limit window_s t redis).0
          ≡ (if ltb limit 1 then rate_limited (max window_s 1) else allowed))
        × HasCounted 1 (t + window_s) (step key limit window_s t redis).1
  unfolding incr expire ttl
  step-first t redis h pos = ground (
    arith,
    lookup-insert key key (record { count = 1; expires_at = none }) redis,
    lookup-insert key key (record { count = 1; expires_at = some (t + window_s) })
        (insert key (record { count = 1; expires_at = none }) redis),
    eq_iff key key,
  )

-- The window ends before its counter does.
pub window_outlived :
    (window_s t0 t : ℕ) → 1 ≤ window_s → t0 ≤ t → t / window_s ≡ t0 / window_s → t < t0 + window_s
window_outlived window_s t0 t pos later same = omega (
  arith,
  div-add-mod' t window_s,
  div-add-mod' t0 window_s,
  mod-lt t {m = window_s} (omega arith),
  ap (λ (q : ℕ). q * window_s) same,
)

module _ (bucket : String) (limit window_s : ℕ) where
  abbrev InWindow : ℕ → ℕ → Type 0
  InWindow t0 t = (t0 ≤ t) × (t / window_s ≡ t0 / window_s)

  window_key-same :
      (t0 t : ℕ)
      → t / window_s ≡ t0 / window_s
      → window_key bucket t window_s ≡ window_key bucket t0 window_s
  unfolding window_key
  window_key-same t0 t same =
      ap (λ q. concat ("campusrag:rl:" ∷ bucket ∷ ":" ∷ decimal q ∷ [])) same

  -- The verdict, and what is left of the budget.
  count-judged :
      (n k : ℕ) (v : Verdict) (retry_after : ℕ) (vs : List Verdict)
      → v ≡ (if ltb limit (n + 1) then rate_limited retry_after else allowed)
      → count_allowed vs ≡ min (limit - (n + 1)) k
      → count_allowed (v ∷ vs) ≡ min (limit - n) (suc k)
  count-judged n k v retry_after vs h rest = elim (Bool-cases (ltb limit (n + 1))) [
    | inl over ↦
        let e : v ≡ rate_limited retry_after = h ∙ rw over refl in
        ap (λ u. count_allowed (u ∷ vs)) e ∙ ground arith
    | inr under ↦
        let e : v ≡ allowed = h ∙ rw under refl in ap (λ u. count_allowed (u ∷ vs)) e ∙ ground arith
  ]

  checks-next :
      (t0 n : ℕ) (ts : List ℕ) (redis : Dict Counter)
      → 1 ≤ window_s
      → 1 ≤ n
      → HasCounted (window_key bucket t0 window_s) limit window_s n (t0 + window_s) redis
      → All (InWindow t0) ts
      → count_allowed (checks bucket limit window_s ts redis) ≡ min (limit - n) (length ts)
  unfolding checks
  checks-next t0 n [] redis pos some_before counted all = ground arith
  checks-next t0 n (t ∷ ts) redis pos some_before counted all =
      let key = window_key bucket t0 window_s in
      let (verdict, after) =
        step-next key limit window_s n (t0 + window_s) t redis counted some_before
          (window_outlived window_s t0 t pos all.0.0 all.0.1) in
      let same : check healthy bucket limit window_s t redis ≡ step key limit window_s t redis =
        step-check bucket limit window_s t redis
        ∙ ap (λ k. step k limit window_s t redis) (window_key-same t0 t all.0.1) in
      ap (λ r. count_allowed (r.0 ∷ checks bucket limit window_s ts r.1)) same
      ∙ count-judged n (length ts) (step key limit window_s t redis).0 (max (t0 + window_s - t) 1)
          (checks bucket limit window_s ts (step key limit window_s t redis).1) verdict
          (checks-next t0 (n + 1) ts (step key limit window_s t redis).1 pos (omega arith) after
            all.1)

  -- Of the requests of one bucket in one window of at least a second, from the first that is
  -- counted there on and with a Redis that answers, exactly the smaller of the limit and their
  -- number pass.
  pub checks-count :
      (t0 : ℕ) (ts : List ℕ) (redis : Dict Counter)
      → 1 ≤ window_s
      → lookup (window_key bucket t0 window_s) redis ≡ none
      → All (InWindow t0) ts
      → count_allowed (checks bucket limit window_s (t0 ∷ ts) redis) ≡ min limit (suc (length ts))
  unfolding checks
  checks-count t0 ts redis pos fresh all =
      let key = window_key bucket t0 window_s in
      let (verdict, after) = step-first key limit window_s t0 redis fresh pos in
      ap (λ r. count_allowed (r.0 ∷ checks bucket limit window_s ts r.1))
        (step-check bucket limit window_s t0 redis)
      ∙ count-judged 0 (length ts) (step key limit window_s t0 redis).0 (max window_s 1)
          (checks bucket limit window_s ts (step key limit window_s t0 redis).1) verdict
          (checks-next t0 1 ts (step key limit window_s t0 redis).1 pos (omega arith) after all)
      ∙ ap (λ l. min l (suc (length ts))) (omega arith)
