-- ===== src/Api/RateLimit/Admission.antt =====
-- What backend/app/core/ratelimit.py promises, with no counters and no keys: a request passes where
-- fewer requests of its bucket than the limit were counted in its window, and one that does not is
-- told to wait until a whole window is over since the first of them.
use production_rag_system.Prelude.{
  ℕ, suc, ◌+◌, ◌-◌, ◌/◌, String, Bool, ◌&&◌, List, [], ◌∷◌, ◌++◌, Dict, filterb, length, str_eq,
  ltb, ◌==◌, max, if◌then◌else◌,
}
use production_rag_system.Api.RateLimit.{
  Counter, Verdict, allowed, rate_limited, Health, healthy, incr_down, check,
}

-- `missed` is a request whose count Redis did not take.
pub record Request : Type 0 where
  pub bucket : String
  pub limit : ℕ
  pub at : ℕ
  pub missed : Bool

-- The requests that were counted, by their buckets and times, the first of them first.
abbrev pub Log : Type 0
Log = List (String × ℕ)

module _ (window_s : ℕ) where
  abbrev pub in_window : String → ℕ → String × ℕ → Bool
  in_window bucket number (b, at) = str_eq b bucket && at / window_s == number

  abbrev pub seen : String → ℕ → Log → Log
  seen bucket number = filterb (in_window bucket number)

  abbrev pub start_of : ℕ → Log → ℕ
  start_of now [] = now
  start_of now ((b, at) ∷ log) = at

  abbrev pub judge : ℕ → ℕ → Log → Verdict
  judge limit now earlier =
      if ltb limit (suc (length earlier))
      then rate_limited (max (start_of now earlier + window_s - now) 1)
      else allowed

  -- The verdicts on a sequence of requests.
  unfoldable pub admits : Log → List Request → List Verdict
  admits log [] = []
  admits log (r ∷ rs) =
      let counted =
        judge r.limit r.at (seen r.bucket (r.at / window_s) log)
        ∷ admits (log ++ (r.bucket, r.at) ∷ []) rs in
      let passed = allowed ∷ admits log rs in if r.missed then passed else counted

  abbrev pub health_of : Request → Health
  health_of r = if r.missed then incr_down else healthy

  -- What `check` says of the same requests.
  unfoldable pub verdicts : Dict Counter → List Request → List Verdict
  unfolding check
  verdicts redis [] = []
  verdicts redis (r ∷ rs) =
      let (verdict, redis') = check (health_of r) r.bucket r.limit window_s r.at redis in
      verdict ∷ verdicts redis' rs
