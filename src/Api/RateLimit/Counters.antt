-- ===== src/Api/RateLimit/Counters.antt =====
-- The counters that stand for a log of requests, and how one request moves them.
use production_rag_system.Prelude.{
  ℕ, suc, ◌+◌, ◌/◌, ◌≤◌, ◌<◌, String, ◌≡◌, sym, ap, ◌∙◌, inl, inr, Bool, true, [], ◌∷◌, ◌++◌,
  Option, none, some, arith, Dict, lookup, insert, lookup-insert, eq_iff, ==_iff, All,
  filterb-append, length, length-append, str_eq, if◌then◌else◌, Bool-cases, decimal, concat,
}
use mathlib.Core.List.{append-nil}
use text.Mathlib.TextLemmas.{append_cancel_left}
use production_rag_system.Prelude.Decimal.Read.{field_injective}
use production_rag_system.Api.RateLimit.{Counter, incr, expire, ttl}
use production_rag_system.Api.RateLimit.Windows.{step, window_outlived}
use production_rag_system.Api.RateLimit.Admission.{Log, in_window, seen, judge}

abbrev pub key_of : String → ℕ → String
key_of bucket number = concat ("campusrag:rl:" ∷ bucket ∷ ":" ∷ decimal number ∷ [])

-- Two buckets and windows have the same key only if they are the same.
pub key_of_injective : (b c : String) (m n : ℕ) → key_of b m ≡ key_of c n → (b ≡ c) × (m ≡ n)
key_of_injective b c m n h = field_injective b c m n (append_cancel_left "campusrag:rl:" _ _ h)

module _ (window_s : ℕ) where
  abbrev pub counter_of : Log → Option Counter
  counter_of [] = none
  counter_of ((b, at) ∷ log) =
      some (record { count = suc (length log); expires_at = some (at + window_s) })

  abbrev pub IsAlive : ℕ → Log → Type 0
  IsAlive now [] = Unit
  IsAlive now ((b, at) ∷ log) = now < at + window_s

  -- One request against the counter of its key.
  pub step-counter :
      (key : String) (limit now : ℕ) (earlier : Log) (redis : Dict Counter)
      → 1 ≤ window_s
      → lookup key redis ≡ counter_of earlier
      → IsAlive now earlier
      → (bucket : String)
      → ((step key limit window_s now redis).0 ≡ judge window_s limit now earlier)
        × ((k : String)
            → lookup k (step key limit window_s now redis).1 ≡ (
                if str_eq key k
                then counter_of (earlier ++ (bucket, now) ∷ [])
                else lookup k redis))
  unfolding incr expire ttl
  step-counter key limit now [] redis pos h alive bucket =
      let fresh : Counter = record { count = 1; expires_at = none } in
      let begun : Counter = record { count = 1; expires_at = some (now + window_s) } in
      (
        ground (
          arith,
          lookup-insert key key fresh redis,
          lookup-insert key key begun (insert key fresh redis),
          eq_iff key key,
        ),
        λ k. ground (
          arith,
          lookup-insert key key fresh redis,
          lookup-insert key k fresh redis,
          lookup-insert key k begun (insert key fresh redis),
          eq_iff key key,
        ),
      )
  step-counter key limit now ((b, at) ∷ log) redis pos h alive bucket =
      let more : Counter = record {
        count = suc (length log) + 1;
        expires_at = some (at + window_s);
      } in
      (
        ground (arith, lookup-insert key key more redis, eq_iff key key),
        λ k. ground (
          arith,
          lookup-insert key k more redis,
          eq_iff key key,
          length-append log ((bucket, now) ∷ []),
        ),
      )

  pub IsAlive-window :
      (bucket : String) (now : ℕ) (earlier : Log)
      → 1 ≤ window_s
      → All (λ e. in_window window_s bucket (now / window_s) e ≡ true) earlier
      → All (λ e. e.1 ≤ now) earlier
      → IsAlive now earlier
  IsAlive-window bucket now [] pos same past = tt
  IsAlive-window bucket now ((b, at) ∷ log) pos same past =
      let number : at / window_s ≡ now / window_s =
        ground (arith, same.0, ==_iff (at / window_s) (now / window_s)) in
      window_outlived window_s at now pos past.0 (sym number)

  in_window-own :
      (bucket : String) (now : ℕ) → in_window window_s bucket (now / window_s) (bucket, now) ≡ true
  in_window-own bucket now =
      ground (arith, eq_iff bucket bucket, ==_iff (now / window_s) (now / window_s))

  in_window-key :
      (b c : String) (now number : ℕ)
      → in_window window_s c number (b, now) ≡ true
      → (b ≡ c) × (now / window_s ≡ number)
  in_window-key b c now number h =
      (ground (arith, h, eq_iff b c), ground (arith, h, ==_iff (now / window_s) number))

  key-in_window :
      (b c : String) (now number : ℕ)
      → str_eq (key_of b (now / window_s)) (key_of c number) ≡ in_window window_s c number (b, now)
  key-in_window b c now number = elim (Bool-cases (in_window window_s c number (b, now))) [
    | inl own ↦
        let (bucket, window) = in_window-key b c now number own in
        let same : key_of b (now / window_s) ≡ key_of c number =
          ap (λ x. key_of x (now / window_s)) bucket ∙ ap (key_of c) window in
        ground (arith, eq_iff (key_of b (now / window_s)) (key_of c number), same) ∙ sym own
    | inr other ↦ elim (Bool-cases (str_eq (key_of b (now / window_s)) (key_of c number))) [
      | inr apart ↦ apart ∙ sym other
      | inl same ↦
          let (bucket, window) =
            key_of_injective b c (now / window_s) number
              (ground (arith, same, eq_iff (key_of b (now / window_s)) (key_of c number))) in
          absurd (ground (arith, other, bucket, window, eq_iff b c, ==_iff (now / window_s) number))
    ]
  ]

  pub counter_of-seen :
      (b c : String) (now number : ℕ) (log : Log)
      → counter_of (seen window_s c number (log ++ (b, now) ∷ [])) ≡ (
          if str_eq (key_of b (now / window_s)) (key_of c number)
          then counter_of (seen window_s b (now / window_s) log ++ (b, now) ∷ [])
          else counter_of (seen window_s c number log))
  counter_of-seen b c now number log =
      let old = seen window_s c number log in
      let own = λ (t : Bool). if t then (b, now) ∷ [] else [] in
      let earlier = counter_of (seen window_s b (now / window_s) log ++ (b, now) ∷ []) in
      ap counter_of (filterb-append (in_window window_s c number) log ((b, now) ∷ []))
      ∙ (elim (Bool-cases (in_window window_s c number (b, now))) [
        | inl same ↦
            let (bucket, window) = in_window-key b c now number same in
            ap (λ t. counter_of (old ++ own t)) same
            ∙ (ap (λ l. counter_of (l ++ (b, now) ∷ []))
                  (ap (λ x. seen window_s x number log) (sym bucket)
                    ∙ ap (λ q. seen window_s b q log) (sym window))
                ∙ ap (λ (t : Bool). if t then earlier else counter_of old)
                    (sym (key-in_window b c now number ∙ same)))
        | inr other ↦
            ap (λ t. counter_of (old ++ own t)) other
            ∙ (ap counter_of (append-nil old)
                ∙ ap (λ (t : Bool). if t then earlier else counter_of old)
                    (sym (key-in_window b c now number ∙ other)))
      ])
