-- ===== src/Rag/Events/Protocol.antt =====
-- The order of a stream's frames, as a consumer sees it: stages and tokens, then the citations,
-- then `meta`, then `done`; or, before the citations, one `error`. Nothing follows the last frame.
use production_rag_system.Prelude.{String, ◌≡◌, refl, List, [], ◌∷◌, ◌++◌, map}
use production_rag_system.Rag.Events.{SseEvent, stage, token, citations, meta, done, error}

pub data Phase : Type 0 where
  open_stream cited described closed broken : Phase

abbrev pub advance : Phase → SseEvent → Phase
advance open_stream (stage s status ms) = open_stream
advance open_stream (token t) = open_stream
advance open_stream (citations cs) = cited
advance open_stream (error message) = closed
advance cited (meta m) = described
advance described done = closed
advance _ _ = broken

abbrev pub follow : Phase → List SseEvent → Phase
follow p [] = p
follow p (e ∷ es) = follow (advance p e) es

pub follow-append :
    (p : Phase) (es fs : List SseEvent) → follow p (es ++ fs) ≡ follow (follow p es) fs
follow-append p [] fs = refl
follow-append p (e ∷ es) fs = follow-append (advance p e) es fs

pub follow-tokens : (ts : List String) → follow open_stream (map token ts) ≡ open_stream
follow-tokens [] = refl
follow-tokens (t ∷ ts) = follow-tokens ts
