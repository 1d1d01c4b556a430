-- ===== src/Lib.antt =====
-- CampusRAG: the backend of a retrieval-augmented question answering service (backend/app).
--
-- A question is rewritten into a few queries (backend/app/rag/rewrite.py); each is answered by a
-- dense and a sparse search whose lists are fused by reciprocal ranks (backend/app/rag/hybrid.py,
-- backend/app/rag/retriever.py); the fused pools are merged, and a cross-encoder sorts what is
-- left (backend/app/rag/rerank.py). A gate refuses what was found with too little confidence
-- (backend/app/rag/refusal.py); an answer's `[n]` markers are resolved to the chunks that the
-- prompt numbered (backend/app/rag/citations.py). Between the gate and the prompt the chunks are
-- compressed (backend/app/rag/compression.py). backend/app/rag/baseline.py runs these parts as one
-- stream of frames. An answer is cached for the exact question and for
-- those that are near (backend/app/caching/store.py). Accounts, sessions and keys are
-- backend/app/auth/service.py's. The newest pairs of a conversation go into the prompt
-- (backend/app/memory/window.py, backend/app/memory/service.py). backend/app/api/ask.py lets a
-- request in (backend/app/core/ratelimit.py), finds the caller's session, takes its lock, and wraps
-- the pipeline's frames into a turn that keeps the transcript.
--
-- The corpus is made by backend/app/ingestion: each row of sources.csv is registered, downloaded,
-- checked for drift, extracted and recorded.
--
-- The files and what they model:
--   Core.Contracts, Core.Settings: backend/app/core/contracts.py, backend/app/core/settings.py,
--     as records
--   Core.Result: exceptions as values
--   Rag.State: the globals, context variables and clients of the retrieval seam, with the monad
--     that passes the state; a function that raises keeps what it wrote before
--   Rag.Dense, Rag.Retriever: backend/app/rag/retriever.py
--   Rag.Fusion, Rag.Hybrid: backend/app/rag/hybrid.py, with rrf_merge of
--     backend/app/rag/rewrite.py in Rag.Fusion, and urdu_safe_tokenize of
--     backend/app/indexing/bm25.py
--   Rag.Rerank: backend/app/rag/rerank.py
--   Rag.Rewrite: backend/app/rag/rewrite.py and fanout_queries of backend/app/core/contracts.py
--   Rag.Citations: backend/app/rag/citations.py, backend/app/rag/refusal.py and extract_quote of
--     backend/app/rag/context.py
--   Rag.Errors: backend/app/rag/errors.py
--   Rag.Compression: backend/app/rag/compression.py; Picked and Stages hold the lemmas on what
--     is picked
--   Rag.Prompt: backend/app/rag/prompt.py and backend/app/rag/context.py
--   Rag.Events, Rag.Flags: backend/app/rag/events.py, emit of backend/app/memory/stages.py and
--     backend/app/rag/flags.py; Protocol is the order of the frames
--   Rag.Stream: _stream_chain_with_retry of backend/app/rag/baseline.py
--   Rag.Generator: a generator of frames as a function of the world, with the monad that passes it
--   Rag.Baseline: _pipeline_events and answer of backend/app/rag/baseline.py, in Responses,
--     Generation and Answer; Outcomes, Made, Ends and Staged show what a run comes to, Guarantees,
--     Again and Degraded what follows from that
--   Auth.Tables: the rows of backend/app/db/models/user.py and backend/app/db/models/auth.py,
--     errors of backend/app/core/exceptions.py
--   Auth.Tokens: backend/app/core/security.py
--   Auth.Accounts, Auth.Service, Auth.Deps: backend/app/auth/service.py and
--     backend/app/auth/deps.py, each handler a function of the four tables and of the time;
--     Lockout, Sessions and Ended hold the lemmas
--   Caching.Keys: backend/app/caching/keys.py
--   Caching.RedisHot: get and set of backend/app/caching/redis_hot.py
--   Caching.Entries, Caching.Store: the state and the operations of backend/app/caching/store.py; Ids,
--     Loaded, Bounded and Reached hold the invariant of the table and the matrix, Hits what a hit
--     stands for
--   Caching.Seam: _cache_lookup of backend/app/rag/baseline.py
--   Memory.Window, Memory.Service: backend/app/memory/window.py, backend/app/memory/service.py
--     with backend/app/db/models/chat.py; Pairs holds what a prompt's window is, Folding what is
--     handed over for a summary, Totals the running totals
--   Api.Request, Api.Locks: AskRequest, _flags_for_request, _pipeline_settings, _resolve_owned and
--     the opening of a turn of ask in backend/app/api/ask.py, verify of
--     backend/app/memory/cookies.py; Owned and Exclusive hold what holds of opened turns
--   Api.Turn: _memory_events and _run_summary_stage of backend/app/api/ask.py, as a generator that is
--     asked for a number of frames; Ready, Written and Kept hold what a turn leaves behind
--   Api.Transport: _sse_stream and _collect of backend/app/api/ask.py, build_row of
--     backend/app/observability/request_log.py; Same and Logged hold the lemmas
--   Api.RateLimit: backend/app/core/ratelimit.py; Windows counts what passes, Admission is the
--     specification of a sequence of requests, Refined the refinement, from what Redis holds of the
--     requests so far
--   Ingestion.Registry, Ingestion.Downloader, Ingestion.Status: backend/app/ingestion/registry.py,
--     backend/app/ingestion/downloader.py and backend/app/ingestion/status.py, on the table of
--     documents and the two directories of files; Bytes has the operations on bytes, and
--     Downloader.Settled holds which request decides
--   Ingestion.Legacy: backend/app/ingestion/loaders/legacy.py
--   Ingestion.Cleaning: backend/app/ingestion/cleaning.py; Pages counts the pages of a line,
--     Boilerplate, Ink and Joined hold what is taken out and what is left, Cleaned what becomes of
--     the blocks
--   Ingestion.Run: ingest_one of backend/app/ingestion/run.py, a function by clauses for each of its
--     stages; Quiet, Underway, Isolated, Drift and Converted hold what a run leaves
--   Ingestion.Batch: the rest of backend/app/ingestion/run.py, and build_report
--   Memory.Overtaken: the transcript where a write-behind comes after the next question
--   Prelude: lists, dictionaries in the order of insertion, stable sorting, text, floats,
--     decimal numerals and the values that they are read back as
--   Samples, Tests: the theorems at concrete inputs
--
-- Conventions. A `float` is an element of a type F with the operations of Prelude.FloatOps, of
-- whose order only totality and transitivity are used; no law of the arithmetic is assumed.
-- Third-party code (BM25Okapi, Pinecone, the cross-encoder, the language models, the tokenizer,
-- the database driver, PyJWT, bcrypt) is a parameter, a field of Services or an argument. A
-- Python `sorted` with a key and `reverse=True` is the stable sort sort_desc. A retry loop is
-- recursion on the attempts left, so it needs no other fuel; every other loop is structural.
--
-- Not modelled: the loaders, which a run of the ingestion takes as parameters, the chunkers and
-- the evaluations, logs, traces and metrics, routing and request schemas, the database schema, the
-- loading of models, and the frontend. Tasks of `asyncio.gather` run in the order of their list;
-- what they share is the process's globals, and each has its own copy of the context variables.
-- The cache's Redis answers where a URL is configured; what its wrappers make of a failure, a miss
-- or a write that is lost, is left out. A raw file of the ingestion can always be written.
pub mod Api
pub mod Auth
pub mod Caching
pub mod Core
pub mod Ingestion
pub mod Memory
pub mod Prelude
pub mod Rag
pub mod Samples
pub mod Tests
