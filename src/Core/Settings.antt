-- ===== src/Core/Settings.antt =====
-- backend/app/core/settings.py: the settings that the modelled parts read, in the file's order.
use production_rag_system.Prelude.{ℕ, String, Bool, List, Option}

pub data RetrievalMode : Type 0 where
  dense_only bm25_only hybrid : RetrievalMode

pub record Settings (F : Type 0) : Type 0 where
  pub embed_max_chunk_tokens : ℕ
  pub clean_header_footer_page_ratio : F
  pub clean_min_block_chars : ℕ
  pub ingest_max_retries : ℕ
  pub fixed_chunk_tokens : ℕ
  pub structure_max_section_tokens : ℕ
  pub enable_hybrid : Bool
  pub retrieval_mode : Option RetrievalMode
  pub hybrid_dense_top_k : ℕ
  pub hybrid_sparse_top_k : ℕ
  pub hybrid_fused_top_k : ℕ
  pub hybrid_rrf_k : ℕ
  pub enable_rerank : Bool
  pub rerank_top_n : ℕ
  pub rerank_candidate_k : ℕ
  pub rerank_apply_sigmoid : Bool
  pub refusal_rerank_threshold : F
  pub enable_query_rewrite : Bool
  pub rewrite_num_variants : ℕ
  pub rewrite_rrf_k : ℕ
  pub rewrite_merged_top_k : ℕ
  pub enable_compression : Bool
  pub compression_score_floor : F
  pub compression_min_chunks : ℕ
  pub compression_token_budget : ℕ
  pub compression_dedupe_jaccard : F
  pub compression_dedupe_ngram : ℕ
  pub enable_cache : Bool
  pub redis_url : Option String
  pub cache_redis_ttl_s : ℕ
  pub cache_key_prefix : String
  pub cache_similarity_threshold : F
  pub cache_discriminative_terms : List String
  pub cache_max_entries : ℕ
  pub enable_memory : Bool
  pub memory_token_budget : ℕ
  pub memory_window_pairs : ℕ
  pub memory_keep_last_pairs : ℕ
  pub memory_summarize_every_pairs : ℕ
  pub memory_session_title_max_chars : ℕ
  pub enable_rate_limit : Bool
  pub rate_limit_window_s : ℕ
  pub llm_deep_model : String
  pub llm_model : String
  pub llm_max_retries : ℕ
  pub retrieval_namespaces : List String
  pub refusal_dense_threshold : F
  pub refusal_suggestion_count : ℕ
  pub max_query_tokens : ℕ
  pub citation_quote_max_words : ℕ
  pub disclaimer_text : String
  pub access_token_ttl_min : ℕ
  pub refresh_token_ttl_days : ℕ
  pub auth_email_domain_allowlist : List String
  pub login_max_failures : ℕ
  pub login_lockout_window_min : ℕ
  pub reset_token_ttl_min : ℕ
  pub reset_max_per_window : ℕ
  pub rate_limit_anon_per_min : ℕ
  pub rate_limit_student_per_min : ℕ
  pub rate_limit_admin_per_min : ℕ
  pub rate_limit_api_key_per_min : ℕ
