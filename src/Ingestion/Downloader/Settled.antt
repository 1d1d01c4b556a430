-- ===== src/Ingestion/Downloader/Settled.antt =====
-- Which of the requests of backend/app/ingestion/downloader.py decides what `fetch` returns.
use production_rag_system.Prelude.{
  ℕ, zero, suc, ◌+◌, ◌-◌, ◌<◌, ◌≤◌, String, ◌≡◌, refl, sym, ap, subst, ◌∙◌, Bool, true, false,
  arith, List,
}
use production_rag_system.Core.Result.{Result, ok, err}
use production_rag_system.Core.Settings.{Settings}
use production_rag_system.Ingestion.Schemas.{SourceRow, Corpus}
use production_rag_system.Ingestion.Downloader.{
  HttpError, transient, other_http, Response, answered, get_retrying, after_request, fetch,
}

-- A timeout, a failure of the transport, or a status of 500 and more.
abbrev pub is_transient : Result HttpError Response → Bool
is_transient (ok response) = false
is_transient (err (other_http message)) = false
is_transient (err (transient message)) = true

-- The number of the request that comes `j` after the one with the number `first`.
abbrev pub later : ℕ → ℕ → ℕ
later zero first = first
later (suc j) first = later j (first + 1)

later_sum : (j first : ℕ) → later j first ≡ j + first
later_sum zero first = omega arith
later_sum (suc j) first = later_sum j (first + 1) ∙ omega arith

module _ {F : Type 0} (settings : Settings F) (sha256 : List ℕ → String) (row : SourceRow)
    (get : ℕ → Result HttpError Response) where
  -- The request with this number, with the statuses that count as failures.
  abbrev pub attempted : ℕ → Result HttpError Response
  attempted number = answered settings sha256 row (get number)

  -- With `left` requests after the one with the number `first`, the one that is `j` later decides.
  record Decides (first left j : ℕ) (r : Result HttpError Response) : Type 0 where
    within : j ≤ left
    failed_before : (i : ℕ) → i < j → is_transient (attempted (later i first)) ≡ true
    last_if_failed : is_transient (attempted (later j first)) ≡ true → j ≡ left
    result : r ≡ attempted (later j first)

  Decides-now :
      (first left : ℕ) (r : Result HttpError Response)
      → (is_transient (attempted first) ≡ true → 0 ≡ left)
      → r ≡ attempted first
      → Decides first left 0 r
  Decides-now first left r last same = record {
    within = omega arith;
    failed_before = λ i h. absurd (omega (arith, h));
    last_if_failed = last;
    result = same;
  }

  Decides-later :
      (first left j : ℕ) (r next : Result HttpError Response)
      → is_transient (attempted first) ≡ true
      → r ≡ next
      → Decides (first + 1) left j next
      → Decides first (suc left) (suc j) r
  Decides-later first left j r next failed same d = record {
    within = omega (arith, d.within);
    failed_before = earlier;
    last_if_failed = λ h. ap suc (d.last_if_failed h);
    result = same ∙ d.result;
  }
    where
      earlier : (i : ℕ) → i < suc j → is_transient (attempted (later i first)) ≡ true
      earlier zero h = failed
      earlier (suc i) h = d.failed_before i (omega (arith, h))

  get_retrying-Decides :
      (left first : ℕ)
      → (j : ℕ) × Decides first left j (get_retrying settings sha256 row get left first)
  unfolding get_retrying
  get_retrying-Decides zero first = (0, Decides-now first 0 (attempted first) (λ h. refl) refl)
  get_retrying-Decides (suc left) first =
      by_result (attempted first) refl (get_retrying-Decides left (first + 1))
    where
      later_one : Result HttpError Response
      later_one = get_retrying settings sha256 row get left (first + 1)

      chosen : Result HttpError Response → Result HttpError Response
      chosen r = elim r [
        | ok response ↦ ok response
        | err (other_http message) ↦ err (other_http message)
        | err (transient message) ↦ later_one
      ]

      by_result :
          (a : Result HttpError Response)
          → attempted first ≡ a
          → ((j : ℕ) × Decides (first + 1) left j later_one)
          → (j : ℕ) × Decides first (suc left) j (chosen (attempted first))
      by_result (ok response) e rest = (
        0,
        Decides-now first (suc left) (chosen (attempted first))
            (λ h. absurd (ground (arith, h, ap is_transient e))) (ap chosen e ∙ sym e),
      )
      by_result (err (other_http message)) e rest = (
        0,
        Decides-now first (suc left) (chosen (attempted first))
            (λ h. absurd (ground (arith, h, ap is_transient e))) (ap chosen e ∙ sym e),
      )
      by_result (err (transient message)) e rest = (
        suc rest.0,
        Decides-later first left rest.0 (chosen (attempted first)) later_one (ap is_transient e)
            (ap chosen e) rest.1,
      )

  -- Of the first INGEST_MAX_RETRIES requests, and of at least one, some request decides: all before
  -- it timed out, failed in transport or came to a status of 500 and more, and it is the last one
  -- allowed if it did so too; what fetch writes and returns is what it makes of that request.
  pub fetch-settles :
      (st : Corpus)
      → (j : ℕ) × (j ≤ settings.ingest_max_retries - 1)
        × ((i : ℕ) → i < j → is_transient (attempted (i + 1)) ≡ true)
        × (is_transient (attempted (j + 1)) ≡ true → j ≡ settings.ingest_max_retries - 1)
        × (fetch settings sha256 row get st
            ≡ after_request settings sha256 row st (attempted (j + 1)))
  unfolding fetch
  fetch-settles st = (j, d.within, before, last, same)
    where
      found :
          (j : ℕ) × Decides 1
            (settings.ingest_max_retries - 1)
            j
            (get_retrying settings sha256 row get (settings.ingest_max_retries - 1) 1)
      found = get_retrying-Decides (settings.ingest_max_retries - 1) 1

      j : ℕ
      j = found.0

      d :
          Decides 1
            (settings.ingest_max_retries - 1)
            j
            (get_retrying settings sha256 row get (settings.ingest_max_retries - 1) 1)
      d = found.1

      failing : ℕ → Type 0
      failing number = is_transient (attempted number) ≡ true

      before : (i : ℕ) → i < j → failing (i + 1)
      before i h = subst failing (later_sum i 1) (d.failed_before i h)

      last : failing (j + 1) → j ≡ settings.ingest_max_retries - 1
      last h = d.last_if_failed (subst failing (sym (later_sum j 1)) h)

      same :
          after_request settings sha256 row st
            (get_retrying settings sha256 row get (settings.ingest_max_retries - 1) 1)
          ≡ after_request settings sha256 row st (attempted (j + 1))
      same =
          ap (λ k. after_request settings sha256 row st k) (d.result ∙ ap attempted (later_sum j 1))
