-- ===== src/Tests/CachingTests.antt =====
-- The theorems on backend/app/caching at concrete inputs.
use production_rag_system.Prelude.{ℕ, ◌*◌, ◌≡◌, refl, true, false, [], ◌∷◌, none, some, arith, ◌==◌}
use production_rag_system.Core.Contracts.{AnswerResponse}
use production_rag_system.Caching.Store.{write, lookup_semantic, reset}
use production_rag_system.Caching.Entries.{Store, CacheEntry, Backend}
use production_rag_system.Caching.Loaded.{IsWell}
use production_rag_system.Caching.Reached.{Step, Steps, Steps-IsWell}
use production_rag_system.Caching.Hits.{IsHit, lookup_semantic-IsHit}
use production_rag_system.Caching.Keys.{normalize}
use production_rag_system.Caching.Seam.{cache_lookup, cache_lookup-write}
use production_rag_system.Core.Result.{ok, err, external}
use production_rag_system.Samples.{thousandths, defaults, ascii}

-- Vectors of one number, so that the cosine of two is their product.
abbrev backend : Backend ℕ ℕ
backend = record {
  l2_normalize = λ v. v;
  is_zero = λ v. v == 0;
  dot = λ v w. v * w;
  sha256 = λ s. s;
  manifest_id = some "m1";
  unicode = ascii;
}

abbrev answer : AnswerResponse
answer = record {
  answer = "In May [1].";
  citations = [];
  refused = false;
  refusal_reason = none;
  pipeline_flags = record {
    hybrid = false;
    rerank = false;
    query_rewrite = false;
    compression = false;
    cache = true;
    memory = false;
  };
  session_id = none;
  memory_summarized = false;
  cache_hit = false;
  tokens_in = 10;
  tokens_out = 4;
  degraded = false;
  request_id = none;
  latency_ms = none;
}

abbrev cold : Store ℕ
cold = record { matrix = none; current_manifest = none; entries = []; redis = [] }

cold-IsWell : IsWell 10000 cold
cold-IsWell = record { distinct = tt; bounded = ground arith; agrees = tt }

abbrev entry : CacheEntry ℕ
entry = record {
  id = "e1";
  query_hash = "bs fee 2024";
  query_text = "bs fee 2024";
  embedding = 30;
  answer = answer;
  index_manifest_id = some "m1";
  hits = 0;
  created_at = 5;
  last_hit_at = none;
}

abbrev warm : Store ℕ
warm = record cold { entries = entry ∷ [] }

warm-IsWell : IsWell 10000 warm
warm-IsWell = record { distinct = (refl, tt); bounded = ground arith; agrees = tt }

Steps-IsWell_example : IsWell 10000 (
    write backend defaults "e2" 8 "ms fee 2024" 31 answer
      (lookup_semantic backend defaults "phd fee" 40 7 warm).1)
unfolding lookup_semantic
Steps-IsWell_example = Steps-IsWell backend defaults (ground arith) warm-IsWell (
    Steps.next (Step.looked_up "phd fee" 40 7)
      (Steps.next (Step.written "e2" 8 "ms fee 2024" 31 answer refl) Steps.done))

lookup_semantic-IsHit_example : IsHit backend defaults "fee of bs 2024" 40 warm answer 1200
unfolding lookup_semantic
lookup_semantic-IsHit_example =
    lookup_semantic-IsHit backend defaults "fee of bs 2024" 40 9 warm answer 1200 refl

abbrev written : Store ℕ
written = write backend defaults "e1" 5 (normalize ascii "BS fee 2024?") 30 answer cold

-- After a reindex: the manifest is another one.
cache_lookup-write_example :
    cache_lookup
      (record backend { manifest_id = some "m2" })
      defaults
      "BS fee 2024?"
      none
      (λ s. err (external "not called"))
      9
      (reset backend defaults written)
    ≡ (ok (some answer, none), reset backend defaults written)
cache_lookup-write_example =
    cache_lookup-write backend defaults "BS fee 2024?" none (λ s. err (external "not called"))
      "rediss://cache" "e1" 5 9 30 answer cold (some "m2") refl (ground arith)
