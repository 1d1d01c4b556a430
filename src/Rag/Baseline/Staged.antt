-- ===== src/Rag/Baseline/Staged.antt =====
-- What the whole pipeline comes to, from the lookup of the cache on.
use production_rag_system.Prelude.{
  String, refl, ap, sym, subst, inl, inr, Bool, false, [], ◌∷◌, Option, none, some, Bool-cases,
  Floats, if◌then◌else◌,
}
use text.Mathlib.TextLemmas.{nil-append}
use production_rag_system.Core.Result.{Result, ok, err, Exc}
use production_rag_system.Core.Contracts.{AnswerResponse, RewriteResult}
use production_rag_system.Core.Settings.{Settings}
use production_rag_system.Caching.Entries.{Store}
use production_rag_system.Caching.Seam.{cache_lookup}
use production_rag_system.Rag.Events.{Stage, emit, emit_ms, started}
use production_rag_system.Rag.State.{RagState}
use production_rag_system.Rag.Generator.{World, Run, yields, resume, ◌>>◌}
use production_rag_system.Rag.Baseline.{retrieved, search, after_lookup, rewritten, staged}
use production_rag_system.Rag.Baseline.Responses.{Providers, Ask, cached_response, replay_cached}
use production_rag_system.Rag.Baseline.Answer.{collected}
use production_rag_system.Rag.Baseline.Outcomes.{
  Outcome, raises, answers, Outcome-stages, Outcome-from, Outcome-weaken, Outcome-unkeyed,
  Schedules-none,
}
use production_rag_system.Rag.Baseline.Made.{IsMade, key_for}
use production_rag_system.Rag.Baseline.Ends.{search-Outcome}

module _ {F : Type 0} ⦃fl : Floats F⦄ {V : Type 0} (env : Providers F V) (settings : Settings F)
    (query : String) (ask : Ask) where
  -- What follows the lookup of the cache.
  abbrev pub looked_up :
      Result Exc (Option AnswerResponse × Option V) × Store V → World F V → Run F V
  looked_up c w =
      resume c.0
        (λ found.
          (emit_ms Stage.cache_lookup (some env.lookup_ms) ∷ [])
          >> after_lookup env settings query ask (rewritten env settings query ask) found)
        (record w { store = c.1 })

-- `P` holds of a response that was generated from a state, and of a hit that is replayed.
module _ {F : Type 0} ⦃fl : Floats F⦄ {V : Type 0} (env : Providers F V) (settings : Settings F)
    (query : String) (ask : Ask) (P : RagState F → AnswerResponse → Type 0)
    (made : (rr : Option RewriteResult) (vec : Option V) (s : RagState F) (a : AnswerResponse)
      → IsMade env settings query ask (retrieved env settings query ask rr vec s).1.degraded a
      → P s a)
    (replayed : (hit : AnswerResponse) (s : RagState F) → P s (cached_response hit ask.flags)) where
  abbrev Staged : World F V → Run F V → Type 0
  Staged w r =
      Outcome (P w.rag) settings.enable_cache
        (key_for env settings query ask (rewritten env settings query ask)) "" w r

  searched-Outcome :
      (rr : Option RewriteResult) (vec : Option V) (w : World F V)
      → Outcome
          (P w.rag)
          settings.enable_cache
          (key_for env settings query ask rr)
          ""
          w
          (search env settings query ask rr vec w)
  searched-Outcome rr vec w =
      Outcome-weaken
        (IsMade env settings query ask (retrieved env settings query ask rr vec w.rag).1.degraded)
        (P w.rag) settings.enable_cache (key_for env settings query ask rr) "" w
        (search env settings query ask rr vec w) (made rr vec w.rag)
        (search-Outcome env settings query ask rr vec w)

  after_lookup-Outcome :
      (found : Option AnswerResponse × Option V) (w : World F V)
      → Staged w (after_lookup env settings query ask (rewritten env settings query ask) found w)
  unfolding after_lookup collected replay_cached
  after_lookup-Outcome (some hit, vec) w =
      let response = cached_response hit ask.flags in
      answers response (replayed hit w.rag) refl refl
        (ap (λ t. ok (record response { answer = t })) (nil-append hit.answer))
        (Schedules-none settings.enable_cache
          (key_for env settings query ask (rewritten env settings query ask)) response w)
  after_lookup-Outcome (none, vec) w = searched-Outcome (rewritten env settings query ask) vec w

  looked_up-Outcome :
      (c : Result Exc (Option AnswerResponse × Option V) × Store V) (w : World F V)
      → Staged w (looked_up env settings query ask c w)
  looked_up-Outcome (ok found, st) w =
      let w' : World F V = record w { store = st } in
      let key = key_for env settings query ask (rewritten env settings query ask) in
      let rest = after_lookup env settings query ask (rewritten env settings query ask) found w' in
      Outcome-stages (P w.rag) settings.enable_cache key ""
        (emit_ms Stage.cache_lookup (some env.lookup_ms) ∷ []) w rest (tt, tt)
        (Outcome-from (P w.rag) settings.enable_cache key "" w w' rest refl
          (after_lookup-Outcome found w'))
  looked_up-Outcome (err e, st) w = raises e refl refl refl

  pub staged-Outcome : (w : World F V) → Staged w (staged env settings query ask w)
  unfolding staged
  staged-Outcome w = elim (Bool-cases settings.enable_cache) [
    | inl on ↦
        let c =
          cache_lookup env.backend settings query (rewritten env settings query ask) env.embed
            env.now w.store in
        subst
          (λ (b : Bool). Staged w (
            (if b
                then (λ v. yields (emit Stage.cache_lookup started ∷ []) (
                    looked_up env settings query ask
                      (cache_lookup env.backend settings query (rewritten env settings query ask)
                        env.embed env.now v.store)
                      v))
                else search env settings query ask none none)
              w))
          (sym on)
          (Outcome-stages (P w.rag) settings.enable_cache
            (key_for env settings query ask (rewritten env settings query ask)) ""
            (emit Stage.cache_lookup started ∷ []) w (looked_up env settings query ask c w) (tt, tt)
            (looked_up-Outcome c w))
    | inr off ↦
        let key = key_for env settings query ask none in
        let key' = key_for env settings query ask (rewritten env settings query ask) in
        let rest = search env settings query ask none none w in
        let found : Outcome (P w.rag) false key "" w rest =
          subst (λ (b : Bool). Outcome (P w.rag) b key "" w rest) off
            (searched-Outcome none none w) in
        subst
          (λ (b : Bool). Outcome (P w.rag) b key' "" w (
            (if b
                then (λ v. yields (emit Stage.cache_lookup started ∷ []) (
                    looked_up env settings query ask
                      (cache_lookup env.backend settings query (rewritten env settings query ask)
                        env.embed env.now v.store)
                      v))
                else search env settings query ask none none)
              w))
          (sym off) (Outcome-unkeyed (P w.rag) key key' "" w rest found)
  ]
