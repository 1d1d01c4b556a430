-- ===== src/Rag/Flags.antt =====
-- backend/app/rag/flags.py: the toggles of a request laid over the settings.
use production_rag_system.Core.Contracts.{PipelineFlags}
use production_rag_system.Core.Settings.{Settings}

-- `model_copy(update={…})`
unfoldable pub apply_flags : {F : Type 0} → Settings F → PipelineFlags → Settings F
apply_flags settings flags = record settings {
  enable_hybrid = flags.hybrid;
  enable_rerank = flags.rerank;
  enable_query_rewrite = flags.query_rewrite;
  enable_compression = flags.compression;
  enable_cache = flags.cache;
}
