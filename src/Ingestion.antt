-- ===== src/Ingestion.antt =====
-- backend/app/ingestion: the sources of the corpus, from a row of sources.csv to the extracted blocks.
pub mod Schemas
pub mod Registry
pub mod Bytes
pub mod Downloader
pub mod Legacy
pub mod Status
pub mod Cleaning
pub mod Run
pub mod Batch
