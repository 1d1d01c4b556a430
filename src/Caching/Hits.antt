-- ===== src/Caching/Hits.antt =====
-- What a hit of the semantic tier stands for.
use production_rag_system.Prelude.{
  ℕ, zero, suc, Bool, false, get_elem?, if◌then◌else◌, ap, String, ◌≡◌, refl, sym, ◌∙◌, subst, inl,
  inr, true, List, [], ◌∷◌, some, arith, find, All, str_eq, Bool-cases, Option-cases, Floats, fle,
  flt,
}
use production_rag_system.Core.Contracts.{AnswerResponse}
use production_rag_system.Core.Settings.{Settings}
use production_rag_system.Caching.Keys.{discriminators, same_set}
use production_rag_system.Caching.Store.{
  ensure_loaded, best_from, best_row, serve, accept, lookup_in, lookup_semantic,
}
use production_rag_system.Caching.Entries.{
  CacheEntry, Row, Store, Backend, loaded_rows, same_manifest,
}
use production_rag_system.Caching.Loaded.{entries-ensure_loaded}

module _ {F : Type 0} ⦃fl : Floats F⦄ where
  fle_refl : (a : F) → fle a a ≡ true
  fle_refl a = elim (fl.le_total a a) [ inl h ↦ h | inr h ↦ h ]

  lt→le : (a b : F) → flt a b ≡ true → fle a b ≡ true
  lt→le a b h = elim (fl.le_total a b) [ inl le ↦ le | inr ge ↦ absurd (ground arith) ]

module _ {F : Type 0} ⦃fl : Floats F⦄ {V : Type 0} (backend : Backend F V)
    (settings : Settings F) where
  module _ (normalized : String) (vec : V) (st : Store V) (response : AnswerResponse)
      (cosine : F) where
    -- The row that was hit, and the entry whose answer it is.
    pub record IsHit : Type 0 where
      pub row : Row V
      pub place : ℕ
      pub there : get_elem? (loaded_rows (ensure_loaded backend settings st)) place ≡ some row
      pub entry : CacheEntry V
      pub stored : find (λ e. str_eq e.id row.id) st.entries ≡ some entry
      pub answer : entry.answer ≡ response
      pub near : fle settings.cache_similarity_threshold cosine ≡ true
      pub alike :
          same_set
            (discriminators normalized settings.cache_discriminative_terms)
            row.row_discriminators
          ≡ true
      pub measured : cosine ≡ backend.dot row.vector (backend.l2_normalize vec)
      pub greatest :
          All
            (λ r. fle (backend.dot r.vector (backend.l2_normalize vec)) cosine ≡ true)
            (loaded_rows (ensure_loaded backend settings st))
      pub current :
          same_manifest row.manifest (ensure_loaded backend settings st).current_manifest ≡ true

  serve-some :
      (k : String) (cosine : F) (now : ℕ) (st : Store V) (response : AnswerResponse) (c : F)
      → (serve backend settings k cosine now st).0 ≡ some (response, c)
      → (e : CacheEntry V) × (find (λ d. str_eq d.id k) st.entries ≡ some e)
        × (e.answer ≡ response)
        × (cosine ≡ c)
  serve-some k cosine now st response c h =
      elim (Option-cases (find (λ d. str_eq d.id k) st.entries)) [
        | inl gone ↦ absurd (ground arith)
        | inr (e, there) ↦ (e, there, ground arith, ground arith)
      ]

  -- The best row's cosine is its own, and no row's is greater.
  abbrev IsGreatest : V → F → List (Row V) → Row V × F → Type 0
  IsGreatest q cosine rs (best, c) =
      (c ≡ backend.dot best.vector q)
      × (fle cosine c ≡ true)
      × All (λ r. fle (backend.dot r.vector q) c ≡ true) rs

  best_from-IsGreatest :
      (q : V) (best : Row V) (cosine : F) (rs : List (Row V))
      → cosine ≡ backend.dot best.vector q
      → IsGreatest q cosine rs (best_from backend settings q best cosine rs)
  best_from-IsGreatest q best cosine [] own = (own, fle_refl cosine, tt)
  best_from-IsGreatest q best cosine (r ∷ rs) own =
      let sim = backend.dot r.vector q in
      elim (Bool-cases (flt cosine sim)) [
        | inl more ↦
            let (own', below, all) = best_from-IsGreatest q r sim rs refl in
            let step : best_from backend settings q r sim rs
                ≡ best_from backend settings q best cosine (r ∷ rs) =
              rw more refl in
            subst (IsGreatest q cosine (r ∷ rs)) step
              (own', fl.le_trans cosine sim _ (lt→le cosine sim more) below, (below, all))
        | inr less ↦
            let (own', below, all) = best_from-IsGreatest q best cosine rs own in
            let step : best_from backend settings q best cosine rs
                ≡ best_from backend settings q best cosine (r ∷ rs) =
              rw less refl in
            subst (IsGreatest q cosine (r ∷ rs)) step
              (own', below, (fl.le_trans sim cosine _ (ground arith) below, all))
      ]

  -- It is the one it started with, or one of the rows.
  best_from-place :
      (q : V) (best : Row V) (cosine : F) (rs : List (Row V))
      → (i : ℕ) × (get_elem? (best ∷ rs) i ≡ some (best_from backend settings q best cosine rs).0)
  best_from-place q best cosine [] = (0, refl)
  best_from-place q best cosine (r ∷ rs) =
      by_test (flt cosine (backend.dot r.vector q))
        (best_from backend settings q r (backend.dot r.vector q) rs)
        (best_from backend settings q best cosine rs)
        (best_from-place q r (backend.dot r.vector q) rs) (best_from-place q best cosine rs)
    where
      by_test :
          (b : Bool) (x y : Row V × F)
          → ((i : ℕ) × (get_elem? (r ∷ rs) i ≡ some x.0))
          → ((i : ℕ) × (get_elem? (best ∷ rs) i ≡ some y.0))
          → (i : ℕ) × (get_elem? (best ∷ r ∷ rs) i ≡ some (if b then x else y).0)
      by_test true x y (i, e) kept = (suc i, e)
      by_test false x y moved (zero, e) = (0, e)
      by_test false x y moved (suc i, e) = (suc (suc i), e)

  accept-some :
      (normalized : String) (vec : V) (now : ℕ) (best : Row V) (cosine : F) (st : Store V)
      (response : AnswerResponse) (c : F)
      → (accept backend settings normalized now (best, cosine) st).0 ≡ some (response, c)
      → (e : CacheEntry V) × (find (λ d. str_eq d.id best.id) st.entries ≡ some e)
        × (e.answer ≡ response)
        × (cosine ≡ c)
        × (fle settings.cache_similarity_threshold cosine ≡ true)
        × (same_set
              (discriminators normalized settings.cache_discriminative_terms)
              best.row_discriminators
            ≡ true)
        × (same_manifest best.manifest st.current_manifest ≡ true)
  accept-some normalized vec now best cosine st response c h =
      let disc = discriminators normalized settings.cache_discriminative_terms in
      elim (Bool-cases (flt cosine settings.cache_similarity_threshold)) [
        | inl far ↦ absurd (ground arith)
        | inr near ↦ elim (Bool-cases (same_set disc best.row_discriminators)) [
          | inr vetoed ↦ absurd (ground arith)
          | inl alike ↦ elim (Bool-cases (same_manifest best.manifest st.current_manifest)) [
            | inr stale ↦ absurd (ground arith)
            | inl current ↦
                let (e, there, answer, same) =
                  serve-some best.id cosine now st response c (ground arith) in
                (e, there, answer, same, ground arith, alike, current)
          ]
        ]
      ]

  lookup_in-IsHit :
      (rows : List (Row V)) (normalized : String) (vec : V) (now : ℕ) (st : Store V)
      (response : AnswerResponse) (c : F)
      → loaded_rows (ensure_loaded backend settings st) ≡ rows
      → (lookup_in backend settings rows normalized vec now (ensure_loaded backend settings st)).0
        ≡ some (response, c)
      → IsHit normalized vec st response c
  lookup_in-IsHit [] normalized vec now st response c loaded h = absurd (ground arith)
  lookup_in-IsHit (r ∷ rs) normalized vec now st response c loaded h =
      let q = backend.l2_normalize vec in
      let st' = ensure_loaded backend settings st in
      let best = best_row backend settings q r rs in
      let (place, there) = best_from-place q r (backend.dot r.vector q) rs in
      let (own, below, all) = best_from-IsGreatest q r (backend.dot r.vector q) rs refl in
      elim (Bool-cases (backend.is_zero vec)) [
        | inl zero_norm ↦ absurd (ground arith)
        | inr real ↦
            let (e, held, answer, same, near, alike, current) =
              accept-some normalized vec now best.0 best.1 st' response c (ground arith) in
            record {
              row = best.0;
              place = place;
              there = ap (λ l. get_elem? l place) loaded ∙ there;
              entry = e;
              stored =
                  subst (λ es. find (λ d. str_eq d.id best.0.id) es ≡ some e)
                    (entries-ensure_loaded backend settings st) held;
              answer = answer;
              near = subst (λ x. fle settings.cache_similarity_threshold x ≡ true) same near;
              alike = alike;
              measured = sym same ∙ own;
              greatest =
                  subst (λ x. All (λ r'. fle (backend.dot r'.vector q) x ≡ true) (loaded_rows st'))
                    same
                    (subst (All (λ r'. fle (backend.dot r'.vector q) best.1 ≡ true)) (sym loaded)
                      (below, all));
              current = current;
            }
      ]

  -- A hit of the semantic tier is the stored answer of a row that stands in the matrix, whose
  -- cosine is the greatest there and reaches CACHE_SIMILARITY_THRESHOLD, whose discriminators are
  -- the question's, and whose answer was made on the manifest that the cache has loaded.
  pub lookup_semantic-IsHit :
      (normalized : String) (vec : V) (now : ℕ) (st : Store V) (response : AnswerResponse)
      (cosine : F)
      → (lookup_semantic backend settings normalized vec now st).0 ≡ some (response, cosine)
      → IsHit normalized vec st response cosine
  unfolding lookup_semantic
  lookup_semantic-IsHit normalized vec now st response cosine h =
      lookup_in-IsHit (loaded_rows (ensure_loaded backend settings st)) normalized vec now st
        response cosine refl h
