-- ===== src/Api/RateLimit/Refined.antt =====
-- The counters give the verdicts that the requests themselves call for.
use production_rag_system.Prelude.{
  ℕ, ◌/◌, ◌≤◌, String, ◌≡◌, refl, sym, ap, ap₂, subst, ◌∙◌, inl, inr, Bool, List, [], ◌∷◌, ◌++◌,
  arith, Dict, lookup, All, All-append, Sub-All, Sub-filterb, All-filterb, str_eq, if◌then◌else◌,
  Bool-cases,
}
use production_rag_system.Api.RateLimit.{
  Counter, Verdict, allowed, window_key, counted, Health, healthy, incr_down, check,
}
use production_rag_system.Api.RateLimit.Windows.{step-check}
use production_rag_system.Api.RateLimit.Admission.{
  Request, Log, in_window, seen, judge, admits, verdicts,
}
use production_rag_system.Api.RateLimit.Counters.{
  key_of, counter_of, step-counter, IsAlive-window, counter_of-seen,
}

module _ (window_s : ℕ) where
  -- Each key holds the counter of its bucket and window, and no request lies ahead.
  record Represents (log : Log) (now : ℕ) (redis : Dict Counter) : Type 0 where
    held :
        (bucket : String) (number : ℕ)
        → lookup (key_of bucket number) redis
          ≡ counter_of window_s (seen window_s bucket number log)
    past : All (λ e. e.1 ≤ now) log

  later_past :
      (now then_at : ℕ) (log : Log)
      → now ≤ then_at
      → All (λ e. e.1 ≤ now) log
      → All (λ e. e.1 ≤ then_at) log
  later_past now then_at [] h past = tt
  later_past now then_at (e ∷ log) h past =
      (omega (arith, past.0), later_past now then_at log h past.1)

  -- A request that is counted gets the verdict that the log calls for, and the counters go on to
  -- stand for the log.
  check-Represents :
      (log : Log) (past : ℕ) (redis : Dict Counter) (bucket : String) (limit now : ℕ)
      → 1 ≤ window_s
      → past ≤ now
      → Represents log past redis
      → ((check healthy bucket limit window_s now redis).0
          ≡ judge window_s limit now (seen window_s bucket (now / window_s) log))
        × Represents
            (log ++ (bucket, now) ∷ [])
            now
            (check healthy bucket limit window_s now redis).1
  unfolding window_key
  check-Represents log past redis bucket limit now pos later inv =
      let earlier = seen window_s bucket (now / window_s) log in
      let key = key_of bucket (now / window_s) in
      let before = later_past past now log later inv.past in
      let alive =
        IsAlive-window window_s bucket now earlier pos
          (All-filterb (in_window window_s bucket (now / window_s)) log)
          (Sub-All (λ e. e.1 ≤ now) (Sub-filterb (in_window window_s bucket (now / window_s)) log)
            before) in
      let (verdict, counters) =
        step-counter window_s key limit now earlier redis pos (inv.held bucket (now / window_s))
          alive bucket in
      let same = step-check bucket limit window_s now redis in
      let log' = log ++ (bucket, now) ∷ [] in
      let moved = counter_of window_s (earlier ++ (bucket, now) ∷ []) in
      subst
        (λ (r : Verdict × Dict Counter).
          (r.0 ≡ judge window_s limit now earlier) × Represents log' now r.1)
        (sym same)
        (
          verdict,
          record {
            held = λ c number.
                counters (key_of c number)
                ∙ (ap (λ o. if str_eq key (key_of c number) then moved else o) (inv.held c number)
                    ∙ sym (counter_of-seen window_s bucket c now number log));
            past = All-append (λ e. e.1 ≤ now) log ((bucket, now) ∷ []) before (omega arith, tt);
          },
        )

  -- The requests come in the order of their times.
  abbrev pub IsTimely : ℕ → List Request → Type 0
  IsTimely past [] = Unit
  IsTimely past (r ∷ rs) = (past ≤ r.at) × IsTimely r.at rs

  verdicts-admits :
      (rs : List Request) (log : Log) (past : ℕ) (redis : Dict Counter)
      → 1 ≤ window_s
      → Represents log past redis
      → IsTimely past rs
      → verdicts window_s redis rs ≡ admits window_s log rs
  unfolding verdicts admits check
  verdicts-admits [] log past redis pos inv timely = refl
  verdicts-admits (r ∷ rs) log past redis pos inv timely =
      let result = λ (h : Health).
        (check h r.bucket r.limit window_s r.at redis).0
        ∷ verdicts window_s (check h r.bucket r.limit window_s r.at redis).1 rs in
      let log' = log ++ (r.bucket, r.at) ∷ [] in
      let judged_now = judge window_s r.limit r.at (seen window_s r.bucket (r.at / window_s) log) in
      let spec = λ (missed : Bool).
        if missed then allowed ∷ admits window_s log rs else judged_now ∷ admits window_s log' rs in
      elim (Bool-cases r.missed) [
        | inl missed ↦
            let kept : Represents log r.at redis = record {
              held = inv.held;
              past = later_past past r.at log timely.0 inv.past;
            } in
            ap (λ b. result (if b then incr_down else healthy)) missed
            ∙ (ap (λ l. allowed ∷ l) (verdicts-admits rs log r.at redis pos kept timely.1)
                ∙ ap spec (sym missed))
        | inr counted ↦
            let (verdict, kept) =
              check-Represents log past redis r.bucket r.limit r.at pos timely.0 inv in
            ap (λ b. result (if b then incr_down else healthy)) counted
            ∙ (ap₂ ◌∷◌ verdict (
                  verdicts-admits rs log' r.at
                    (check healthy r.bucket r.limit window_s r.at redis).1 pos kept timely.1)
                ∙ ap spec (sym counted))
      ]

  -- For a window of at least a second and requests in the order of their times, to any buckets
  -- under any limits and from an empty Redis that misses some of the counts: the verdicts of check
  -- are those of the specification, which has no counters, keys or expiries and asks how many
  -- requests of the bucket were counted in the window and when the first of them was.
  pub verdicts_refine :
      (rs : List Request)
      → 1 ≤ window_s
      → IsTimely 0 rs
      → verdicts window_s [] rs ≡ admits window_s [] rs
  verdicts_refine rs pos timely =
      verdicts-admits rs [] 0 [] pos (record { held = λ bucket number. refl; past = tt }) timely
