-- ===== src/Api/Turn/Ready.antt =====
-- The frames of a run in order, seen from a frame on: `meta` is known once it was shown.
use production_rag_system.Prelude.{ℕ, String, ◌≡◌, ◌≢◌, refl, List, [], ◌∷◌, Option, none, some}
use production_rag_system.Core.Contracts.{Citation}
use production_rag_system.Rag.Events.{SseEvent, Meta, Stage, Status, stage, token, citations, meta}
use production_rag_system.Rag.Events.Protocol.{
  Phase, open_stream, cited, described, closed, broken, advance, follow,
}

pub follow-broken : (es : List SseEvent) → follow broken es ≡ broken
follow-broken [] = refl
follow-broken (e ∷ es) = follow-broken es

pub follow-closed : (e : SseEvent) (es : List SseEvent) → follow closed (e ∷ es) ≡ broken
follow-closed e es = follow-broken es

-- Before the last frame: `meta` is known once it was shown.
abbrev pub IsReady : Phase → Option Meta → Type 0
IsReady open_stream payload = payload ≡ none
IsReady cited payload = payload ≡ none
IsReady described none = ⊥
IsReady described (some m) = Unit {0}
IsReady _ payload = ⊥

pub never : {q : Phase} → q ≡ broken → q ≢ closed
never b c = cc

pub not_ready : (p : Phase) (payload : Option Meta) → IsReady p payload → p ≢ closed
not_ready open_stream payload r c = cc
not_ready cited payload r c = cc
not_ready described payload r c = cc
not_ready closed payload r c = r
not_ready broken payload r c = r

pub IsReady-token :
    (p : Phase) (t : String) (evs : List SseEvent) (payload : Option Meta)
    → IsReady p payload
    → follow p (token t ∷ evs) ≡ closed
    → IsReady (advance p (token t)) payload
IsReady-token open_stream t evs payload r h = r
IsReady-token cited t evs payload r h = absurd (never (follow-broken evs) h)
IsReady-token described t evs payload r h = absurd (never (follow-broken evs) h)
IsReady-token closed t evs payload r h = absurd r
IsReady-token broken t evs payload r h = absurd r

pub IsReady-stage :
    (p : Phase) (s : Stage) (status : Status) (ms : Option ℕ) (evs : List SseEvent)
    (payload : Option Meta)
    → IsReady p payload
    → follow p (stage s status ms ∷ evs) ≡ closed
    → IsReady (advance p (stage s status ms)) payload
IsReady-stage open_stream s status ms evs payload r h = r
IsReady-stage cited s status ms evs payload r h = absurd (never (follow-broken evs) h)
IsReady-stage described s status ms evs payload r h = absurd (never (follow-broken evs) h)
IsReady-stage closed s status ms evs payload r h = absurd r
IsReady-stage broken s status ms evs payload r h = absurd r

pub IsReady-citations :
    (p : Phase) (cs : List Citation) (evs : List SseEvent) (payload : Option Meta)
    → IsReady p payload
    → follow p (citations cs ∷ evs) ≡ closed
    → IsReady (advance p (citations cs)) payload
IsReady-citations open_stream cs evs payload r h = r
IsReady-citations cited cs evs payload r h = absurd (never (follow-broken evs) h)
IsReady-citations described cs evs payload r h = absurd (never (follow-broken evs) h)
IsReady-citations closed cs evs payload r h = absurd r
IsReady-citations broken cs evs payload r h = absurd r

pub IsReady-meta :
    (p : Phase) (m : Meta) (evs : List SseEvent) (payload : Option Meta)
    → IsReady p payload
    → follow p (meta m ∷ evs) ≡ closed
    → IsReady (advance p (meta m)) (some m)
IsReady-meta open_stream m evs payload r h = absurd (never (follow-broken evs) h)
IsReady-meta cited m evs payload r h = tt
IsReady-meta described m evs payload r h = absurd (never (follow-broken evs) h)
IsReady-meta closed m evs payload r h = absurd r
IsReady-meta broken m evs payload r h = absurd r
