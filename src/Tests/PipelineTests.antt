-- ===== src/Tests/PipelineTests.antt =====
-- The theorems on backend/app/rag/baseline.py at concrete inputs: one question whose answer cites
-- the one document that is found.
use production_rag_system.Prelude.{
  ℕ, zero, suc, ◌*◌, ◌<◌, ◌≤◌, ◌≡◌, refl, true, false, List, [], ◌∷◌, ◌++◌, none, some, arith, ◌==◌,
  length, All,
}
use production_rag_system.Core.Result.{ok, err, Exc, external}
use production_rag_system.Core.Contracts.{AnswerResponse}
use production_rag_system.Caching.Store.{write}
use production_rag_system.Caching.Entries.{Store, Backend}
use production_rag_system.Rag.State.{Document, Services, Bm25Index}
use production_rag_system.Rag.Errors.{call_with_retry}
use production_rag_system.Rag.Dense.{dense_retrieve}
use production_rag_system.Rag.Hybrid.Degraded.{has_failed, dense_half}
use production_rag_system.Rag.Citations.{CitedRow, extract_quote}
use production_rag_system.Rag.Flags.{apply_flags}
use production_rag_system.Rag.Stream.{
  ChainRun, on_chat_model_stream, other, is_retried, raised_by, stream_chain_with_retry, tokens_of,
}
use production_rag_system.Rag.Stream.Settled.{stream-settles}
use production_rag_system.Rag.Generator.{World, CacheWrite}
use production_rag_system.Rag.Events.Protocol.{open_stream, closed, follow}
use production_rag_system.Rag.Baseline.{pipeline_events}
use production_rag_system.Rag.Baseline.Responses.{Providers, Ask}
use production_rag_system.Rag.Baseline.Answer.{answer}
use production_rag_system.Rag.Baseline.Outcomes.{IsClean}
use production_rag_system.Rag.Baseline.Guarantees.{
  cache_key, out, pipeline_events-IsClosed, pipeline_events-writes_behind,
}
use production_rag_system.Rag.Baseline.Again.{cached_again}
use production_rag_system.Rag.Baseline.Degraded.{answer-degraded}
use production_rag_system.Samples.{thousandths, defaults, ascii, fresh}

abbrev backend : Backend ℕ ℕ
backend = record {
  l2_normalize = λ v. v;
  is_zero = λ v. v == 0;
  dot = λ v w. v * w;
  sha256 = λ s. s;
  manifest_id = some "m1";
  unicode = ascii;
}

abbrev fee_document : Document
fee_document = record {
  id = "c1";
  page_content = "The fee is due in May.";
  metadata = record {
    doc_id = "d1";
    title = "Fee rules";
    text = none;
    section_heading = some "Fees";
    page_start = none;
    page_end = none;
    anchor = none;
  };
}

abbrev fee_row : CitedRow
fee_row = record {
  chunk_id = "c1";
  text = "The fee is due in May.";
  section_heading = some "Fees";
  page_start = none;
  page_end = none;
  doc_id = "d1";
  title = "Fee rules";
  url = "https://pu.example/fees";
}

abbrev found : Services ℕ ℕ
found = record {
  unicode = ascii;
  load_pickle = err (external "no index");
  search = λ attempt query k namespace vec. ok ((fee_document, 700) ∷ []);
  index_error = none;
  fetch = λ ids namespace. ok [];
  score = λ pairs. ok [];
  is_retryable = λ e. false;
  message = λ e. "down";
  elapsed_ms = 7;
}

abbrev spoken : ChainRun
spoken = record {
  yielded =
      other
      ∷ on_chat_model_stream "In May"
      ∷ on_chat_model_stream ""
      ∷ on_chat_model_stream " [1]."
      ∷ [];
  failure = none;
}

abbrev env : Providers ℕ ℕ
env = record {
  services = found;
  backend = backend;
  encode = λ s. 1 ∷ 2 ∷ [];
  decode = λ ts. "";
  rewrites = λ i. err (external "down");
  embed = λ s. ok 3;
  model = λ name system human i. spoken;
  execute = λ ids. fee_row ∷ [];
  count_tokens = λ s. 5;
  now = 10;
  lookup_ms = 1;
  retrieval_ms = 9;
  compress_ms = 0;
  generate_ms = 20;
  cite_ms = 2;
}

abbrev ask : Ask
ask = record {
  k = 5;
  namespace = some "pu";
  flags = record {
    hybrid = false;
    rerank = false;
    query_rewrite = false;
    compression = false;
    cache = true;
    memory = false;
  };
  memory = none;
  session_id = some "s1";
}

abbrev cold : Store ℕ
cold = record { matrix = none; current_manifest = none; entries = []; redis = [] }

abbrev start : World ℕ ℕ
start = record { rag = fresh; store = cold; scheduled = [] }

-- What the first run answers, and hands over to the cache.
abbrev given : AnswerResponse
given = record {
  answer = "In May [1].\n\nverify with the office";
  citations =
      record {
        chunk_id = "c1";
        doc_id = "d1";
        title = "Fee rules";
        marker = some 1;
        section_heading = some "Fees";
        page_start = none;
        page_end = none;
        url = some "https://pu.example/fees";
        quote = "The fee is due in May.";
      }
      ∷ [];
  refused = false;
  refusal_reason = none;
  pipeline_flags = ask.flags;
  session_id = some "s1";
  memory_summarized = false;
  cache_hit = false;
  tokens_in = 2;
  tokens_out = 2;
  degraded = false;
  request_id = none;
  latency_ms = none;
}

abbrev behind : CacheWrite ℕ
behind = record { normalized = "fee date"; vec = 3; response = given }

scheduled_one : (out env defaults "fee date?" ask start).world.scheduled ≡ [] ++ behind ∷ []
unfolding pipeline_events extract_quote
scheduled_one = refl

given_first : answer (out env defaults "fee date?" ask start) ≡ ok given
unfolding pipeline_events answer extract_quote
given_first = refl

pipeline_events-IsClosed_example :
    ((out env defaults "fee date?" ask start).raised ≡ none
      → follow open_stream (out env defaults "fee date?" ask start).events ≡ closed)
    × ((e : Exc)
        → (out env defaults "fee date?" ask start).raised ≡ some e
        → follow open_stream (out env defaults "fee date?" ask start).events ≡ open_stream)
pipeline_events-IsClosed_example = pipeline_events-IsClosed env defaults "fee date?" ask start

pipeline_events-writes_behind_example :
    (writes : List (CacheWrite ℕ)) × ((out env defaults "fee date?" ask start).world.scheduled
      ≡ [] ++ writes)
    × (length writes ≤ 1)
    × All
        (λ c.
          (answer (out env defaults "fee date?" ask start) ≡ ok c.response)
          × IsClean true (cache_key env defaults "fee date?" ask start) c.response c)
        writes
pipeline_events-writes_behind_example =
    pipeline_events-writes_behind env defaults "fee date?" ask start

-- The question comes back from another session, in another namespace.
abbrev other_ask : Ask
other_ask = record ask { k = 3; namespace = some "hec"; memory = none; session_id = some "s2" }

abbrev later : World ℕ ℕ
later = record start {
  store = write backend (apply_flags defaults ask.flags) "e1" 20 "fee date" 3 given cold;
}

cached_again_example :
    (r : AnswerResponse) × (answer (out env defaults "fee date?" ask start) ≡ ok r)
    × (answer (out env defaults "fee date?" other_ask later)
        ≡ ok (record r { cache_hit = true; pipeline_flags = ask.flags }))
    × ((out env defaults "fee date?" other_ask later).world ≡ later)
cached_again_example =
    cached_again env defaults "fee date?" ask 3 (some "hec") none (some "s2") start behind later
      "rediss://cache" "e1" 20 cold refl (ground arith) scheduled_one refl

-- With the rewrite, the hybrid retrieval and the reranking on; the model that rewrites is down, which
-- leaves the question as it is, and so is the vector search, but not the index.
abbrev rewriting_ask : Ask
rewriting_ask = record ask {
  flags = record ask.flags { query_rewrite = true; hybrid = true; rerank = true };
}

abbrev index : Bm25Index ℕ
index = record { bm25 = some (λ tokens. 30 ∷ []); chunk_ids = "c1" ∷ [] }

abbrev sparse_env : Providers ℕ ℕ
sparse_env = record env {
  services = record found {
    search = λ attempt query k namespace vec. err (external "down");
    fetch = λ ids namespace.
        ok (("c1", record fee_document.metadata { text = some fee_document.page_content }) ∷ []);
    score = λ pairs. ok (900 ∷ []);
  };
}

abbrev indexed : World ℕ ℕ
indexed = record start { rag = record start.rag { bm25_cache = some index } }

dense_down : has_failed (dense_half sparse_env.services defaults "fee date" (some "pu") none) ≡ true
unfolding call_with_retry dense_retrieve
dense_down = refl

abbrev sparse_answer : AnswerResponse
sparse_answer = record given { pipeline_flags = rewriting_ask.flags }

given_sparse :
    answer (pipeline_events sparse_env defaults "fee date?" rewriting_ask indexed)
    ≡ ok sparse_answer
unfolding pipeline_events answer extract_quote
given_sparse = refl

answer-degraded_example : sparse_answer.degraded ≡ false
answer-degraded_example =
    answer-degraded sparse_env defaults "fee date?" rewriting_ask indexed sparse_answer refl
      given_sparse refl

-- A chain that fails once before its first token.
abbrev flaky : ℕ → ChainRun
flaky i = elim i [
  | zero ↦ record { yielded = other ∷ []; failure = some (external "429") }
  | suc n ↦ spoken
]

flaky_once : (j : ℕ) → j < 1 → is_retried (λ e. true) (λ e. "down") flaky (flaky j) ≡ true
flaky_once zero h = refl
flaky_once (suc j) h = absurd (omega arith)

stream-settles_example :
    (tokens_of (stream_chain_with_retry (λ e. true) (λ e. "down") flaky 2).yielded
      ≡ tokens_of (flaky 1).yielded)
    × ((stream_chain_with_retry (λ e. true) (λ e. "down") flaky 2).failure
        ≡ raised_by (λ e. true) (λ e. "down") flaky (flaky 1))
stream-settles_example =
    stream-settles (λ e. true) (λ e. "down") flaky 2 1 (omega arith) flaky_once (λ h. refl)
