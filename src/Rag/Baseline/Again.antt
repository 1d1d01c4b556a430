-- ===== src/Rag/Baseline/Again.antt =====
-- A question that is asked again after its answer was cached.
use production_rag_system.Prelude.{
  String, ◌≡◌, refl, ◌∙◌, sym, ap, subst, All, List, [], ◌∷◌, ◌++◌, Option, none, some, Floats, ℕ,
  ◌+◌, ◌<◌, Bool, true, if◌then◌else◌,
}
use text.Mathlib.TextLemmas.{nil-append}
use production_rag_system.Core.Result.{Result, ok, Exc}
use production_rag_system.Core.Contracts.{AnswerResponse, MemoryContext}
use production_rag_system.Core.Settings.{Settings}
use production_rag_system.Caching.RedisHot.{redis_get}
use production_rag_system.Caching.Store.{write, key_of}
use production_rag_system.Caching.Entries.{Store}
use production_rag_system.Caching.Keys.{normalize, exact_key}
use production_rag_system.Caching.Seam.{keyed_on, cache_lookup, cache_lookup-stored, redis-write}
use production_rag_system.Rag.Flags.{apply_flags}
use production_rag_system.Rag.Generator.{World, CacheWrite, Run, yields}
use production_rag_system.Rag.Events.{Stage, emit, started}
use production_rag_system.Rag.Baseline.Staged.{looked_up}
use production_rag_system.Rag.Baseline.{
  pipeline_events, search, staged, after_lookup, truncate_query, rewritten,
}
use production_rag_system.Rag.Baseline.Responses.{Providers, Ask, cached_response, replay_cached}
use production_rag_system.Rag.Baseline.Answer.{answer, collected}
use production_rag_system.Rag.Baseline.Outcomes.{IsClean}
use production_rag_system.Rag.Baseline.Guarantees.{cache_key, out, pipeline_events-writes_behind}

append-cancel {ℓ} : {A : Type ℓ} (xs ys zs : List A) → xs ++ ys ≡ xs ++ zs → ys ≡ zs
append-cancel [] ys zs h = h
append-cancel (x ∷ xs) ys zs h = append-cancel xs ys zs (cc)

module _ {F : Type 0} ⦃fl : Floats F⦄ {V : Type 0} (env : Providers F V) (settings : Settings F)
    (query : String) (ask : Ask) (w : World F V) (hit : AnswerResponse) where
  abbrev Replays : Run F V → Type 0
  Replays r =
      (collected "" none r.events r.raised ≡ ok (cached_response hit ask.flags)) × (r.world ≡ w)

  abbrev found : Result Exc (Option AnswerResponse × Option V) × Store V
  found =
      cache_lookup env.backend settings query (rewritten env settings query ask) env.embed env.now
        w.store

  staged-Replays :
      settings.enable_cache ≡ true
      → found ≡ (ok (some hit, none), w.store)
      → Replays (staged env settings query ask w)
  unfolding staged after_lookup replay_cached collected
  staged-Replays on h =
      let replayed =
        λ (c : Result Exc (Option AnswerResponse × Option V) × Store V) (v : World F V).
          yields (emit Stage.cache_lookup started ∷ []) (looked_up env settings query ask c v) in
      let cached : World F V → Run F V = λ v.
        replayed
          (cache_lookup env.backend settings query (rewritten env settings query ask) env.embed
            env.now v.store)
          v in
      subst
        (λ (b : Bool). Replays ((if b then cached else search env settings query ask none none) w))
        (sym on)
        (subst (λ c. Replays (replayed c w)) (sym h)
          (
            ap (λ t. ok (record (cached_response hit ask.flags) { answer = t }))
                (nil-append hit.answer),
            refl,
          ))

module _ {F : Type 0} ⦃fl : Floats F⦄ {V : Type 0} (env : Providers F V) (settings : Settings F)
    (query : String) where
  -- The one write that was scheduled is of the answer.
  scheduled-answer :
      (ask : Ask) (w : World F V) (c : CacheWrite V)
      → (out env settings query ask w).world.scheduled ≡ w.scheduled ++ c ∷ []
      → (answer (out env settings query ask w) ≡ ok c.response)
        × IsClean ask.flags.cache (cache_key env settings query ask w) c.response c
  scheduled-answer ask w c h =
      let (writes, added, few, clean) = pipeline_events-writes_behind env settings query ask w in
      let one : writes ≡ c ∷ [] = append-cancel w.scheduled writes (c ∷ []) (sym added ∙ h) in
      (subst
        (λ cs.
          All
            (λ d.
              (answer (out env settings query ask w) ≡ ok d.response)
              × IsClean ask.flags.cache (cache_key env settings query ask w) d.response d)
            cs)
        one clean).0

  -- A question that is asked again with the same flags once the write-behind of its answer is done,
  -- less than CACHE_REDIS_TTL_S before and to a Redis that is configured, in any session, with any
  -- k, namespace and memory that rewrite it alike: the answer is the one that was given, word for
  -- word and with its citations and its session id, marked as a hit; nothing is retrieved,
  -- generated or scheduled.
  pub cached_again :
      (ask : Ask) (k : ℕ) (namespace : Option String) (memory : Option MemoryContext)
      (session_id : Option String) (w : World F V) (c : CacheWrite V) (w' : World F V)
      (url new_id : String) (now : ℕ) (st : Store V)
      → settings.redis_url ≡ some url
      → env.now < now + settings.cache_redis_ttl_s
      → (out env settings query ask w).world.scheduled ≡ w.scheduled ++ c ∷ []
      → w'.store
        ≡ write env.backend
            (apply_flags settings ask.flags)
            new_id
            now
            c.normalized
            c.vec
            c.response
            st
      → let again : Ask = record ask {
        k = k;
        namespace = namespace;
        memory = memory;
        session_id = session_id;
      } in
        (r : AnswerResponse) × (answer (out env settings query ask w) ≡ ok r)
        × (answer (out env settings query again w')
            ≡ ok (record r { cache_hit = true; pipeline_flags = ask.flags }))
        × ((out env settings query again w').world ≡ w')
  unfolding pipeline_events answer apply_flags
  cached_again ask k namespace memory session_id w c w' url new_id now st configured soon scheduled
        written =
      let (given, clean) = scheduled-answer ask w c scheduled in
      let settings' = apply_flags settings ask.flags in
      let question = truncate_query env settings query in
      let first = rewritten env settings' question ask in
      let again : Ask = record ask {
        k = k;
        namespace = namespace;
        memory = memory;
        session_id = session_id;
      } in
      let key = key_of env.backend settings' (
        exact_key env.backend.sha256 (normalize env.backend.unicode (keyed_on first question))
          "") in
      let keyed : c.normalized ≡ normalize env.backend.unicode (keyed_on first question) =
        clean.keyed in
      let stored : redis_get settings' key env.now w'.store.redis ≡ some c.response =
        subst (λ (s : Store V). redis_get settings' key env.now s.redis ≡ some c.response)
          (ap (λ t. write env.backend settings' new_id now t c.vec c.response st) (sym keyed)
            ∙ sym written)
          (redis-write env.backend settings' url new_id now env.now
            (normalize env.backend.unicode (keyed_on first question)) c.vec c.response st configured
            soon) in
      let hit =
        cache_lookup-stored env.backend settings' question first env.embed env.now w'.store
          c.response stored in
      let replayed = staged-Replays env settings' question again w' c.response clean.cache_on hit in
      (c.response, given, replayed.0, replayed.1)
