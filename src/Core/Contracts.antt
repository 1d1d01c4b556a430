-- ===== src/Core/Contracts.antt =====
-- backend/app/core/contracts.py: the records that the parts of the pipeline hand to one another.
-- `F` is the type of `float`s. A `model_copy()` is the record itself, since records are values.
use production_rag_system.Prelude.{ℕ, String, Bool, List, Option}

pub record Chunk : Type 0 where
  pub chunk_id : String
  pub doc_id : String
  pub seq : ℕ
  pub text : String
  pub section_heading : Option String
  pub page_start : Option ℕ
  pub page_end : Option ℕ
  pub anchor : Option String
  pub token_count : ℕ

pub record RetrievedChunk (F : Type 0) : Type 0 where
  pub chunk_id : String
  pub doc_id : String
  pub title : String
  pub text : String
  pub section_heading : Option String
  pub page_start : Option ℕ
  pub page_end : Option ℕ
  pub anchor : Option String
  pub dense_score : Option F
  pub sparse_score : Option F
  pub fused_score : Option F
  pub rerank_score : Option F

pub data Language : Type 0 where
  en ur_mix : Language

pub record RewriteResult : Type 0 where
  pub normalized : String
  pub variants : List String
  pub language : Option Language
  pub failed : Bool

pub record Citation : Type 0 where
  pub chunk_id : String
  pub doc_id : String
  pub title : String
  pub marker : Option ℕ
  pub section_heading : Option String
  pub page_start : Option ℕ
  pub page_end : Option ℕ
  pub url : Option String
  pub quote : String

pub data Role : Type 0 where
  user assistant system : Role

pub record ChatMessage : Type 0 where
  pub role : Role
  pub content : String

pub record MemoryContext : Type 0 where
  pub summary : Option String
  pub pairs : List ChatMessage
  pub summarized : Bool
  pub window_pairs : ℕ
  pub effective_tokens : ℕ

pub record PipelineFlags : Type 0 where
  pub hybrid : Bool
  pub rerank : Bool
  pub query_rewrite : Bool
  pub compression : Bool
  pub cache : Bool
  pub memory : Bool

pub record AnswerResponse : Type 0 where
  pub answer : String
  pub citations : List Citation
  pub refused : Bool
  pub refusal_reason : Option String
  pub pipeline_flags : PipelineFlags
  pub session_id : Option String
  pub memory_summarized : Bool
  pub cache_hit : Bool
  pub tokens_in : ℕ
  pub tokens_out : ℕ
  pub degraded : Bool
  pub request_id : Option String
  pub latency_ms : Option ℕ
