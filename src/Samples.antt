-- ===== src/Samples.antt =====
-- Test data for the modules under Tests: floats in thousandths, the settings with the defaults of
-- backend/app/core/settings.py, and a small corpus.
use Prim.Native.Char.{code}
use production_rag_system.Prelude.{
  ℕ, zero, suc, ◌+◌, ◌*◌, ◌/◌, ◌-◌, ◌≡◌, ◌⊎◌, true, false, ◌&&◌, List, [], ◌∷◌, Option, none, some,
  arith, leb, if◌then◌else◌, Floats,
}
use production_rag_system.Prelude.Text.{Unicode}
use production_rag_system.Core.Result.{ok, err, external}
use production_rag_system.Core.Contracts.{RetrievedChunk}
use production_rag_system.Core.Settings.{Settings}
use production_rag_system.Rag.State.{Services, RagState}

pub leb_total : (a b : ℕ) → (leb a b ≡ true) ⊎ (leb b a ≡ true)
leb_total a b = ground arith

pub leb_trans : (a b c : ℕ) → leb a b ≡ true → leb b c ≡ true → leb a c ≡ true
leb_trans a b c h g = ground arith

abbrev quotient : ℕ → ℕ → ℕ
quotient a zero = 0
quotient a (suc b) = a * 1000 / suc b

-- Non-negative numbers in thousandths.
instance abbrev pub thousandths : Floats ℕ
thousandths = record {
  zero = 0;
  add = λ a b. a + b;
  ratio = quotient;
  one = 1000;
  neg = λ a. 0;
  div = quotient;
  exp = λ a. 1000 + a;
  le = leb;
  le_total = leb_total;
  le_trans = leb_trans;
}

abbrev pub defaults : Settings ℕ
defaults = record {
  embed_max_chunk_tokens = 8000;
  clean_header_footer_page_ratio = 600;
  clean_min_block_chars = 2;
  ingest_max_retries = 3;
  fixed_chunk_tokens = 1000;
  structure_max_section_tokens = 800;
  enable_hybrid = false;
  retrieval_mode = none;
  hybrid_dense_top_k = 20;
  hybrid_sparse_top_k = 20;
  hybrid_fused_top_k = 12;
  hybrid_rrf_k = 60;
  enable_rerank = false;
  rerank_top_n = 5;
  rerank_candidate_k = 12;
  rerank_apply_sigmoid = true;
  refusal_rerank_threshold = 10;
  enable_query_rewrite = false;
  rewrite_num_variants = 2;
  rewrite_rrf_k = 60;
  rewrite_merged_top_k = 12;
  enable_compression = false;
  compression_score_floor = 250;
  compression_min_chunks = 2;
  compression_token_budget = 2200;
  compression_dedupe_jaccard = 700;
  compression_dedupe_ngram = 5;
  enable_cache = false;
  redis_url = some "rediss://cache";
  cache_redis_ttl_s = 86400;
  cache_key_prefix = "campusrag:cache:";
  cache_similarity_threshold = 860;
  cache_discriminative_terms = "bs" ∷ "ms" ∷ "phd" ∷ [];
  cache_max_entries = 10000;
  enable_memory = false;
  memory_token_budget = 50000;
  memory_window_pairs = 5;
  memory_keep_last_pairs = 2;
  memory_summarize_every_pairs = 3;
  memory_session_title_max_chars = 60;
  enable_rate_limit = true;
  rate_limit_window_s = 60;
  llm_deep_model = "gpt-4o";
  llm_model = "gpt-4o-mini";
  llm_max_retries = 2;
  retrieval_namespaces = "pu" ∷ "hec" ∷ [];
  refusal_dense_threshold = 250;
  refusal_suggestion_count = 3;
  max_query_tokens = 200;
  citation_quote_max_words = 25;
  disclaimer_text = "verify with the office";
  access_token_ttl_min = 15;
  refresh_token_ttl_days = 7;
  auth_email_domain_allowlist = [];
  login_max_failures = 10;
  login_lockout_window_min = 15;
  reset_token_ttl_min = 30;
  reset_max_per_window = 3;
  rate_limit_anon_per_min = 5;
  rate_limit_student_per_min = 20;
  rate_limit_admin_per_min = 60;
  rate_limit_api_key_per_min = 30;
}

abbrev digit_value : ℕ → Option ℕ
digit_value c = if leb b'0' c && leb c b'9' then some (c - b'0') else none

abbrev pub ascii : Unicode
ascii = record {
  lower = λ s. s;
  is_word = λ c. leb b'a' (code c) && leb (code c) b'z';
  digit = λ c. digit_value (code c);
}

abbrev pub fees : RetrievedChunk ℕ
fees = record {
  chunk_id = "c1";
  doc_id = "d1";
  title = "Fee rules";
  text = "The fee is due in May. Late fees apply.";
  section_heading = some "Fees";
  page_start = some 3;
  page_end = some 4;
  anchor = none;
  dense_score = some 700;
  sparse_score = none;
  fused_score = none;
  rerank_score = some 600;
}

abbrev pub hostel : RetrievedChunk ℕ
hostel = record fees {
  chunk_id = "c2";
  doc_id = "d2";
  title = "Hostel rules";
  text = "Hostel rooms are shared.";
  dense_score = some 500;
  rerank_score = some 400;
}

abbrev pub exams : RetrievedChunk ℕ
exams = record fees {
  chunk_id = "c3";
  doc_id = "d1";
  title = "Exam rules";
  text = "Exams start in June.";
  dense_score = none;
  rerank_score = none;
}

-- A model that scores three pairs, and a vector store that is down.
abbrev pub services : Services ℕ (List ℕ)
services = record {
  unicode = ascii;
  load_pickle = err (external "no index");
  search = λ attempt query k namespace vec. err (external "down");
  index_error = none;
  fetch = λ ids namespace. ok [];
  score = λ pairs. ok (100 ∷ 900 ∷ 500 ∷ []);
  is_retryable = λ e. true;
  message = λ e. "down";
  elapsed_ms = 7;
}

abbrev pub fresh : RagState ℕ
fresh = record { bm25_cache = none; degraded = false; rewrite_result = none; rerank_ms = none }
