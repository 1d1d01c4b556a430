-- ===== src/Rag/Baseline/Guarantees.antt =====
-- What holds of every run of `_pipeline_events`: the order of its frames, what `answer` makes of
-- them, and what is handed over to the cache.
use production_rag_system.Prelude.{
  String, inl, inr, ◌⊎◌, true, false, ◌≡◌, refl, ◌∙◌, sym, ap, List, [], ◌∷◌, ◌++◌, none, some, ◌≤◌,
  length, All, arith, Floats,
}
use mathlib.Core.List.{append-nil}
use production_rag_system.Core.Result.{ok, Exc}
use production_rag_system.Core.Contracts.{AnswerResponse}
use production_rag_system.Core.Settings.{Settings}
use production_rag_system.Rag.Events.Protocol.{open_stream, closed, follow}
use production_rag_system.Rag.Flags.{apply_flags}
use production_rag_system.Rag.Generator.{World, CacheWrite, Run}
use production_rag_system.Rag.Baseline.{pipeline_events, truncate_query, rewritten}
use production_rag_system.Rag.Baseline.Responses.{Providers, Ask, nonempty}
use production_rag_system.Rag.Baseline.Answer.{answer}
use production_rag_system.Rag.Baseline.Outcomes.{
  Outcome, raises, fails, answers, IsClean, Outcome-answer,
}
use production_rag_system.Rag.Baseline.Made.{key_for}
use production_rag_system.Rag.Baseline.Staged.{staged-Outcome}

module _ {F : Type 0} ⦃fl : Floats F⦄ {V : Type 0} (env : Providers F V) (settings : Settings F)
    (query : String) (ask : Ask) (w : World F V) where
  -- The key that this request's answer is cached under.
  abbrev pub cache_key : String
  cache_key =
      key_for env (apply_flags settings ask.flags) (truncate_query env settings query) ask
        (rewritten env (apply_flags settings ask.flags) (truncate_query env settings query) ask)

  abbrev pub out : Run F V
  out = pipeline_events env settings query ask w

  -- A response is the request's own, or a hit that may be another session's.
  abbrev pub IsServed : AnswerResponse → Type 0
  IsServed r =
      (r.pipeline_flags ≡ ask.flags)
      × ((r.cache_hit ≡ true) ⊎ ((r.cache_hit ≡ false) × (r.session_id ≡ ask.session_id)))

  out-Outcome : Outcome IsServed ask.flags.cache cache_key "" w out
  unfolding pipeline_events apply_flags
  out-Outcome =
      staged-Outcome env (apply_flags settings ask.flags) (truncate_query env settings query) ask
        (λ s. IsServed) (λ rr vec s a made. (made.2, inr (made.1, made.3)))
        (λ hit s. (refl, inl refl)) w

  -- A response that `answer` returns echoes the request's flags; if it is no cache hit, it has the
  -- request's session id.
  pub answer-IsServed : (r : AnswerResponse) → answer out ≡ ok r → IsServed r
  unfolding answer
  answer-IsServed r = Outcome-answer IsServed ask.flags.cache cache_key "" w out r out-Outcome

  -- A run that does not raise ends with its `done` or `error` frame, after stages and tokens, the
  -- citations and `meta` in this order, and no frame follows; a run that raises has shown stages
  -- and tokens alone.
  pub pipeline_events-IsClosed :
      (out.raised ≡ none → follow open_stream out.events ≡ closed)
      × ((e : Exc) → out.raised ≡ some e → follow open_stream out.events ≡ open_stream)
  pipeline_events-IsClosed = elim out-Outcome [
    | raises e h p q ↦ (λ h'. absurd (ground arith), λ e' h'. p)
    | fails m h p c q ↦ (λ h'. p, λ e' h'. absurd (ground arith))
    | answers a made h p c q ↦ (λ h'. p, λ e' h'. absurd (ground arith))
  ]

  -- Each write-behind that the run schedules is of the response that `answer` returns, under the
  -- request's key, and only with the cache on, of a response that was generated, is not refused, not
  -- degraded and has citations. There is one at most.
  pub pipeline_events-writes_behind :
      (writes : List (CacheWrite V)) × (out.world.scheduled ≡ w.scheduled ++ writes)
      × (length writes ≤ 1)
      × All
          (λ c. (answer out ≡ ok c.response) × IsClean ask.flags.cache cache_key c.response c)
          writes
  unfolding answer
  pipeline_events-writes_behind = elim out-Outcome [
    | raises e h p q ↦ ([], q ∙ sym (append-nil w.scheduled), omega arith, tt)
    | fails m h p c q ↦ ([], q ∙ sym (append-nil w.scheduled), omega arith, tt)
    | answers a made h p c q ↦ (q.writes, q.added, q.at_most_one, answered a c q.writes q.clean)
  ]
    where
      answered :
          (a : AnswerResponse)
          → answer out ≡ ok a
          → (cs : List (CacheWrite V)) → All (IsClean ask.flags.cache cache_key a) cs
          → All
              (λ c. (answer out ≡ ok c.response) × IsClean ask.flags.cache cache_key c.response c)
              cs
      answered a h [] clean = tt
      answered a h (c ∷ cs) clean = (
        (
          h ∙ ap ok (sym clean.0.same),
          record {
            cache_on = clean.0.cache_on;
            keyed = clean.0.keyed;
            same = refl;
            not_refused = ap (λ r. r.refused) clean.0.same ∙ clean.0.not_refused;
            not_degraded = ap (λ r. r.degraded) clean.0.same ∙ clean.0.not_degraded;
            is_cited = ap (λ r. nonempty r.citations) clean.0.same ∙ clean.0.is_cited;
            generated = ap (λ r. r.cache_hit) clean.0.same ∙ clean.0.generated;
          },
        ),
        answered a h cs clean.1,
      )
