-- ===== src/Tests/RagTests.antt =====
-- The theorems on backend/app/rag at concrete inputs.
use production_rag_system.Prelude.{
  ℕ, min, contains_n, NoRepeat, ◌≡◌, refl, true, false, List, [], ◌∷◌, none, some, Dict, length,
  map, All, contains, Distinct, ◌≤◌, ◌&&◌, max, not, arith, eq_iff, if◌then◌else◌,
}
use production_rag_system.Core.Result.{ok}
use production_rag_system.Core.Contracts.{RetrievedChunk, Citation, RewriteResult}
use production_rag_system.Core.Settings.{Settings}
use production_rag_system.Rag.Fusion.{SparseHit, rrf_fuse, rrf_merge}
use production_rag_system.Rag.Fusion.Scores.{IsKeyed}
use production_rag_system.Rag.Fusion.Fused.{IsFused, rrf_fuse-IsFused}
use production_rag_system.Rag.Fusion.Union.{IsMerged, rrf_merge-IsMerged}
use production_rag_system.Rag.Rerank.{rerank_chunks, calibrate, rerank_scores}
use production_rag_system.Rag.Rerank.Order.{IsReranked, rerank_chunks-IsReranked}
use production_rag_system.Rag.Citations.{
  parse_citations, extract_marker_numbers, markers, outside, pre_llm_gate, dense_scores,
  suggestion_citations,
}
use production_rag_system.Rag.Citations.Resolved.{IsGrounded, parse_citations-IsGrounded}
use production_rag_system.Rag.Citations.Markers.{in_range, extract_marker_numbers-exact}
use production_rag_system.Rag.Citations.Gates.{
  reached, or_only_zero, pre_llm_gate-exact, doc_ids, chunk_doc_ids, suggestion_citations-valid,
}
use production_rag_system.Rag.State.{RagState, Bm25Index}
use production_rag_system.Rag.Compression.{compress_chunks}
use production_rag_system.Rag.Compression.Kept.{IsCompressed, compress_chunks-IsKept}
use production_rag_system.Samples.{
  thousandths, defaults, ascii, fees, hostel, exams, services, fresh,
}

abbrev hits : List (SparseHit ℕ)
hits =
    record { cid = "c2"; score = 30; rank = 1 } ∷ record { cid = "c3"; score = 20; rank = 2 } ∷ []

abbrev hydrated : Dict (RetrievedChunk ℕ)
hydrated = ("c3", exams) ∷ []

hydrated-IsKeyed : IsKeyed hydrated
hydrated-IsKeyed j c h = ground (arith, eq_iff "c3" j)

rrf_fuse-IsFused_example :
    (out : List (RetrievedChunk ℕ)) × (rrf_fuse (fees ∷ hostel ∷ []) hits hydrated defaults
      ≡ ok out)
    × IsFused (fees ∷ hostel ∷ []) hits hydrated defaults out
rrf_fuse-IsFused_example =
    rrf_fuse-IsFused (fees ∷ hostel ∷ []) hits hydrated defaults hydrated-IsKeyed

rrf_merge-IsMerged_example :
    (out : List (RetrievedChunk ℕ)) × (rrf_merge
        ((fees ∷ hostel ∷ []) ∷ (exams ∷ fees ∷ []) ∷ [])
        defaults
      ≡ ok out)
    × IsMerged ((fees ∷ hostel ∷ []) ∷ (exams ∷ fees ∷ []) ∷ []) defaults out
rrf_merge-IsMerged_example =
    rrf_merge-IsMerged ((fees ∷ hostel ∷ []) ∷ (exams ∷ fees ∷ []) ∷ []) defaults

rerank_chunks-IsReranked_example :
    (scored : List (RetrievedChunk ℕ × ℕ)) × (out : List (RetrievedChunk ℕ)) × ((rerank_chunks
        services defaults "late fee"
        (fees ∷ hostel ∷ exams ∷ [])
        fresh).0
      ≡ ok out)
    × (map (λ e. e.0) scored ≡ fees ∷ hostel ∷ exams ∷ [])
    × (map (λ e. e.1) scored ≡ calibrate (100 ∷ 900 ∷ 500 ∷ []) defaults)
    × IsReranked services defaults scored out
rerank_chunks-IsReranked_example =
    rerank_chunks-IsReranked services defaults "late fee" fees (hostel ∷ exams ∷ [])
      (100 ∷ 900 ∷ 500 ∷ []) fresh refl refl

parse_citations-IsGrounded_example :
    (citations : List Citation) × (parse_citations ascii 25
        (λ ids. [])
        "Due in May [1], in June [3] and [9]."
        (fees ∷ hostel ∷ exams ∷ [])
      ≡ some citations)
    × All (IsGrounded (fees ∷ hostel ∷ exams ∷ []) 25) citations
parse_citations-IsGrounded_example =
    parse_citations-IsGrounded (fees ∷ hostel ∷ exams ∷ []) 25 ascii (λ ids. [])
      "Due in May [1], in June [3] and [9]."

extract_marker_numbers-exact_example :
    NoRepeat (extract_marker_numbers ascii "[2] [0] [2] [7]" 3)
    × All (λ m. in_range 3 m ≡ true) (extract_marker_numbers ascii "[2] [0] [2] [7]" 3)
    × ((j : ℕ)
        → contains_n (extract_marker_numbers ascii "[2] [0] [2] [7]" 3) j
          ≡ (contains_n (markers ascii outside "[2] [0] [2] [7]") j && in_range 3 j))
extract_marker_numbers-exact_example = extract_marker_numbers-exact ascii "[2] [0] [2] [7]" 3

pre_llm_gate-exact_example :
    (pre_llm_gate [] defaults ≡ true)
    × (pre_llm_gate (fees ∷ exams ∷ []) defaults ≡ (
        if defaults.enable_rerank
        then not (
            reached defaults.refusal_rerank_threshold
              (or_only_zero (rerank_scores (fees ∷ exams ∷ []))))
        else not (reached defaults.refusal_dense_threshold (dense_scores (fees ∷ exams ∷ [])))))
pre_llm_gate-exact_example = pre_llm_gate-exact fees (exams ∷ []) defaults

suggestion_citations-valid_example :
    (length (suggestion_citations 25 (fees ∷ hostel ∷ exams ∷ []) 3) ≤ max 3 1)
    × Distinct (doc_ids (suggestion_citations 25 (fees ∷ hostel ∷ exams ∷ []) 3))
    × All
        (λ j. contains (chunk_doc_ids (fees ∷ hostel ∷ exams ∷ [])) j ≡ true)
        (doc_ids (suggestion_citations 25 (fees ∷ hostel ∷ exams ∷ []) 3))
suggestion_citations-valid_example = suggestion_citations-valid 25 (fees ∷ hostel ∷ exams ∷ []) 3

abbrev rewritten : RewriteResult
rewritten = record {
  normalized = "late fee";
  variants = " late fee " ∷ "fine for late payment" ∷ "" ∷ [];
  language = none;
  failed = false;
}

abbrev rewriting : Settings ℕ
rewriting = record defaults { enable_hybrid = true; enable_query_rewrite = true }

compress_chunks-IsKept_example :
    IsCompressed (fees ∷ hostel ∷ exams ∷ []) (
      compress_chunks
        (λ s. 1000)
        services.score
        defaults
        ascii
        "late fee"
        (fees ∷ hostel ∷ exams ∷ []))
    × (min defaults.compression_min_chunks (length (fees ∷ hostel ∷ exams ∷ []))
        ≤ length (
            compress_chunks
              (λ s. 1000)
              services.score
              defaults
              ascii
              "late fee"
              (fees ∷ hostel ∷ exams ∷ [])))
compress_chunks-IsKept_example =
    compress_chunks-IsKept (λ s. 1000) services.score defaults ascii "late fee"
      (fees ∷ hostel ∷ exams ∷ [])

-- An index whose every chunk scores 30, in memory; the vector store of `services` is down.
abbrev index : Bm25Index ℕ
index = record { bm25 = some (λ tokens. 30 ∷ 20 ∷ []); chunk_ids = "c2" ∷ "c3" ∷ [] }

abbrev indexed : RagState ℕ
indexed = record fresh { bm25_cache = some index }
