-- ===== src/Rag/Baseline/Outcomes.antt =====
-- What a run of the pipeline comes to: it raises, it ends in an `error` frame, or it answers; and how
-- that of a part is made from that of the next.
use production_rag_system.Prelude.{
  String, subst, ◌≢◌, ◌≡◌, ap, ◌∙◌, sym, Bool, true, false, List, [], ◌∷◌, ◌++◌, map, Option, none,
  some, All, length, ◌≤◌, arith, ℕ,
}
use mathlib.Core.List.{append-nil}
use Prim.Native.String.{◌++◌ as str_append}
use production_rag_system.Core.Result.{ok, err, Exc, provider_error}
use production_rag_system.Core.Contracts.{AnswerResponse}
use production_rag_system.Rag.Events.{
  SseEvent, Meta, token, meta, error, citations, done, Stage, Status, stage, token,
}
use production_rag_system.Rag.Events.Protocol.{
  open_stream, closed, follow, follow-append, follow-tokens,
}
use production_rag_system.Rag.Generator.{World, CacheWrite, Run, yields}
use production_rag_system.Rag.Baseline.Responses.{accumulate, nonempty}
use production_rag_system.Rag.Baseline.Answer.{collected, collected-tokens}

abbrev pub IsStage : SseEvent → Type 0
IsStage (stage s status ms) = Unit {0}
IsStage _ = ⊥

-- A write-behind of this response under this key, where the response is fit to be cached.
pub record IsClean {V : Type 0} (enabled : Bool) (key : String) (response : AnswerResponse)
    (c : CacheWrite V) : Type 0 where
  pub cache_on : enabled ≡ true
  pub keyed : c.normalized ≡ key
  pub same : c.response ≡ response
  pub not_refused : response.refused ≡ false
  pub not_degraded : response.degraded ≡ false
  pub is_cited : nonempty response.citations ≡ true
  pub generated : response.cache_hit ≡ false

-- At most one clean write was scheduled on top of what was scheduled before.
pub record Schedules {F V : Type 0} (enabled : Bool) (key : String) (response : AnswerResponse)
    (before : World F V) (after : World F V) : Type 0 where
  pub writes : List (CacheWrite V)
  pub added : after.scheduled ≡ before.scheduled ++ writes
  pub at_most_one : length writes ≤ 1
  pub clean : All (IsClean enabled key response) writes

-- `P` holds of the response; `text` is what the consumer has collected before the run's frames.
pub data Outcome {F V : Type 0} (P : AnswerResponse → Type 0) (enabled : Bool) (key text : String)
    (w : World F V) (r : Run F V) : Type 0 where
  raises :
      (e : Exc)
      → r.raised ≡ some e
      → follow open_stream r.events ≡ open_stream
      → r.world.scheduled ≡ w.scheduled
      → Outcome P enabled key text w r
  fails :
      (message : String)
      → r.raised ≡ none
      → follow open_stream r.events ≡ closed
      → collected text none r.events r.raised ≡ err (provider_error message)
      → r.world.scheduled ≡ w.scheduled
      → Outcome P enabled key text w r
  answers :
      (response : AnswerResponse)
      → P response
      → r.raised ≡ none
      → follow open_stream r.events ≡ closed
      → collected text none r.events r.raised ≡ ok response
      → Schedules enabled key response w r.world
      → Outcome P enabled key text w r

pub raised-answer :
    (es : List SseEvent) (text : String) (payload : Option Meta) (e : Exc) (a : AnswerResponse)
    → collected text payload es (some e) ≢ ok a
unfolding collected
raised-answer [] text payload e a h = cc
raised-answer (token t ∷ es) text payload e a h = raised-answer es (str_append text t) payload e a h
raised-answer (meta m ∷ es) text payload e a h = raised-answer es text (some m) e a h
raised-answer (error message ∷ es) text payload e a h = cc
raised-answer (stage s status ms ∷ es) text payload e a h = raised-answer es text payload e a h
raised-answer (citations cs ∷ es) text payload e a h = raised-answer es text payload e a h
raised-answer (done ∷ es) text payload e a h = raised-answer es text payload e a h

-- With the cache off nothing is written, so the key does not matter.
pub unkeyed-All :
    {V : Type 0} (key key' : String) (a : AnswerResponse) (cs : List (CacheWrite V))
    → All (IsClean false key a) cs
    → All (IsClean false key' a) cs
unkeyed-All key key' a [] h = tt
unkeyed-All key key' a (c ∷ cs) h = absurd (ground (arith, h.0.cache_on))

module _ {F V : Type 0} where
  -- The tokens of the model before the rest of a run.
  pub Outcome-tokens :
      (P : AnswerResponse → Type 0) (enabled : Bool) (key text : String) (ts : List String)
      (w : World F V) (r : Run F V)
      → Outcome P enabled key (accumulate text ts) w r
      → Outcome P enabled key text w (yields (map token ts) r)
  Outcome-tokens P enabled key text ts w r (raises e h p s) =
      raises e h (follow-append open_stream (map token ts) r.events ∙ rw (follow-tokens ts) p) s
  Outcome-tokens P enabled key text ts w r (fails m h p c s) =
      fails m h (follow-append open_stream (map token ts) r.events ∙ rw (follow-tokens ts) p)
        (collected-tokens ts text r.events r.raised ∙ c) s
  Outcome-tokens P enabled key text ts w r (answers a made h p c s) =
      answers a made h (follow-append open_stream (map token ts) r.events ∙ rw (follow-tokens ts) p)
        (collected-tokens ts text r.events r.raised ∙ c) s

  -- A response that the consumer collects is the one that was answered.
  pub Outcome-answer :
      (P : AnswerResponse → Type 0) (enabled : Bool) (key text : String) (w : World F V)
      (r : Run F V) (a : AnswerResponse)
      → Outcome P enabled key text w r
      → collected text none r.events r.raised ≡ ok a
      → P a
  Outcome-answer P enabled key text w r a (raises e h p q) got =
      absurd
        (raised-answer r.events text none e a (ap (collected text none r.events) (sym h) ∙ got))
  Outcome-answer P enabled key text w r a (fails m h p c q) got = absurd (cc (c, got))
  Outcome-answer P enabled key text w r a (answers b made h p c q) got =
      let same : b ≡ a = cc (c, got) in subst P same made

  -- Stage frames tell the collecting consumer nothing.
  pub Outcome-stage :
      (P : AnswerResponse → Type 0) (enabled : Bool) (key text : String) (s : Stage)
      (status : Status) (ms : Option ℕ) (w : World F V) (r : Run F V)
      → Outcome P enabled key text w r
      → Outcome P enabled key text w (yields (stage s status ms ∷ []) r)
  unfolding collected
  Outcome-stage P enabled key text s status ms w r (raises e h p q) = raises e h p q
  Outcome-stage P enabled key text s status ms w r (fails m h p c q) = fails m h p c q
  Outcome-stage P enabled key text s status ms w r (answers a made h p c q) = answers a made h p c q

  pub Outcome-stages :
      (P : AnswerResponse → Type 0) (enabled : Bool) (key text : String) (es : List SseEvent)
      (w : World F V) (r : Run F V)
      → All IsStage es
      → Outcome P enabled key text w r
      → Outcome P enabled key text w (yields es r)
  Outcome-stages P enabled key text [] w r h o = o
  Outcome-stages P enabled key text (stage s status ms ∷ es) w r h o =
      Outcome-stage P enabled key text s status ms w (yields es r)
        (Outcome-stages P enabled key text es w r h.1 o)
  Outcome-stages P enabled key text (_ ∷ es) w r h o = absurd h.0

  -- The run started from a world with the same tasks.
  pub Outcome-from :
      (P : AnswerResponse → Type 0) (enabled : Bool) (key text : String) (w w' : World F V)
      (r : Run F V)
      → w'.scheduled ≡ w.scheduled
      → Outcome P enabled key text w' r
      → Outcome P enabled key text w r
  Outcome-from P enabled key text w w' r e (raises x h p q) = raises x h p (q ∙ e)
  Outcome-from P enabled key text w w' r e (fails m h p c q) = fails m h p c (q ∙ e)
  Outcome-from P enabled key text w w' r e (answers a made h p c q) = answers a made h p c (record {
    writes = q.writes;
    added = q.added ∙ ap (λ l. l ++ q.writes) e;
    at_most_one = q.at_most_one;
    clean = q.clean;
  })

  pub Outcome-weaken :
      (P Q : AnswerResponse → Type 0) (enabled : Bool) (key text : String) (w : World F V)
      (r : Run F V)
      → ((a : AnswerResponse) → P a → Q a)
      → Outcome P enabled key text w r
      → Outcome Q enabled key text w r
  Outcome-weaken P Q enabled key text w r f (raises e h p q) = raises e h p q
  Outcome-weaken P Q enabled key text w r f (fails m h p c q) = fails m h p c q
  Outcome-weaken P Q enabled key text w r f (answers a made h p c q) = answers a (f a made) h p c q

  pub Outcome-unkeyed :
      (P : AnswerResponse → Type 0) (key key' text : String) (w : World F V) (r : Run F V)
      → Outcome P false key text w r
      → Outcome P false key' text w r
  Outcome-unkeyed P key key' text w r (raises e h p q) = raises e h p q
  Outcome-unkeyed P key key' text w r (fails m h p c q) = fails m h p c q
  Outcome-unkeyed P key key' text w r (answers a made h p c q) = answers a made h p c (record {
    writes = q.writes;
    added = q.added;
    at_most_one = q.at_most_one;
    clean = unkeyed-All key key' a q.writes q.clean;
  })

  pub Schedules-none :
      (enabled : Bool) (key : String) (response : AnswerResponse) (w : World F V)
      → Schedules enabled key response w w
  Schedules-none enabled key response w = record {
    writes = [];
    added = sym (append-nil w.scheduled);
    at_most_one = omega arith;
    clean = tt;
  }
