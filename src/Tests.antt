-- ===== src/Tests.antt =====
-- The theorems at concrete inputs.
mod RagTests
mod AuthTests
mod CachingTests
mod MemoryTests
mod PipelineTests
mod ApiTests
mod CleaningTests
mod IngestionTests
