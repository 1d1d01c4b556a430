-- ===== src/Api/Locks/Owned.antt =====
-- Whose session a turn is opened in.
use production_rag_system.Prelude.{
  String, ◌≡◌, refl, sym, ap, ◌∙◌, inl, inr, subst, Bool, true, false, List, [], ◌∷◌, Option, none,
  some, arith, find, contains, str_eq, eq_iff, Bool-cases, Option-cases, if◌then◌else◌,
}
use production_rag_system.Core.Result.{Result, ok, err}
use production_rag_system.Core.Settings.{Settings}
use production_rag_system.Auth.Accounts.{Principal}
use production_rag_system.Memory.Window.{ChatSession}
use production_rag_system.Memory.Service.{Db, owned_by, get_owned}
use production_rag_system.Api.Request.{
  AskRequest, CookieClaims, ApiError, flags_for_request, verify, resolve_owned, same_session,
  found_or_404,
}
use production_rag_system.Api.Turn.{TurnState}
use production_rag_system.Api.Locks.{stateful, acquire, acquire_found, open_turn}

find_sound : {A : Type 0} (p : A → Bool) (xs : List A) (x : A) → find p xs ≡ some x → p x ≡ true
find_sound p [] x h = absurd (ground arith)
find_sound p (y ∷ ys) x h = elim (Bool-cases (p y)) [
  | inl e ↦ ground (arith, e, h)
  | inr e ↦ find_sound p ys x (ground (arith, e, h))
]

-- A session that is not archived, of that owner, or of nobody for an unknown caller.
abbrev IsLive : String → Option String → ChatSession → Type 0
IsLive session_id user_id s = (s.id ≡ session_id) × (s.is_archived ≡ false) × (s.user_id ≡ user_id)

owner-known :
    (owner : Option String) (user_id : String)
    → elim owner [ none ↦ false | some o ↦ str_eq o user_id ] ≡ true
    → owner ≡ some user_id
owner-known none user_id h = absurd (ground arith)
owner-known (some o) user_id h = ap some (ground (arith, h, eq_iff o user_id))

owner-none :
    (owner : Option String) → elim owner [ none ↦ true | some o ↦ false ] ≡ true → owner ≡ none
owner-none none h = refl
owner-none (some o) h = absurd (ground arith)

owned_by-owner :
    (user_id : Option String) (s : ChatSession) → owned_by user_id s ≡ true → s.user_id ≡ user_id
owned_by-owner (some user_id) s h = owner-known s.user_id user_id h
owned_by-owner none s h = owner-none s.user_id h

guarded-IsLive :
    (user_id : Option String) (t s : ChatSession)
    → (if t.is_archived then none else (if owned_by user_id t then some t else none)) ≡ some s
    → IsLive t.id user_id s
guarded-IsLive user_id t s h = elim (Bool-cases t.is_archived) [
  | inl a ↦ absurd (ground (arith, a, h))
  | inr a ↦ elim (Bool-cases (owned_by user_id t)) [
    | inr o ↦ absurd (ground (arith, a, o, h))
    | inl o ↦
        let same : t ≡ s = ground (arith, a, o, h) in
        subst (IsLive t.id user_id) same (refl, a, owned_by-owner user_id t o)
  ]
]

get_owned-found :
    (session_id : String) (user_id : Option String) (found : Option ChatSession) (s : ChatSession)
    → ((t : ChatSession) → found ≡ some t → t.id ≡ session_id)
    → elim found [
      | none ↦ none
      | some t ↦ if t.is_archived then none else (if owned_by user_id t then some t else none)
    ]
      ≡ some s
    → IsLive session_id user_id s
get_owned-found session_id user_id none s known h = absurd (ground arith)
get_owned-found session_id user_id (some t) s known h =
    subst (λ i. IsLive i user_id s) (known t refl) (guarded-IsLive user_id t s h)

get_owned-IsLive :
    (session_id : String) (user_id : Option String) (db : Db) (s : ChatSession)
    → get_owned session_id user_id db ≡ some s
    → IsLive session_id user_id s
unfolding get_owned
get_owned-IsLive session_id user_id db s h =
    get_owned-found session_id user_id (find (λ t. str_eq t.id session_id) db.sessions) s
      (λ t e.
        ground
          (arith, eq_iff t.id session_id, find_sound (λ t. str_eq t.id session_id) db.sessions t e))
      h

found-404 : (o : Option ChatSession) (s : ChatSession) → found_or_404 o ≡ ok s → o ≡ some s
found-404 none s h = absurd (ground arith)
found-404 (some t) s h = ground (arith, h)

same-known : (sid : Option String) (id : String) → same_session sid id ≡ true → sid ≡ some id
same-known none id h = absurd (ground arith)
same-known (some sid) id h = ap some (ground (arith, h, eq_iff sid id))

-- What lets a caller into a session: the account that it is of, or a cookie that names it.
abbrev pub IsOwn :
    (String → Option CookieClaims) → Option String → Option Principal → ChatSession → Type 0
IsOwn decode cookie (some principal) s = s.user_id ≡ some principal.user_id
IsOwn decode cookie none s = (s.user_id ≡ none) × (verify decode cookie ≡ some s.id)

module _ (decode : String → Option CookieClaims) (cookie : Option String) where
  resolve_owned-IsOwn :
      (session_id : String) (principal : Option Principal) (db : Db) (s : ChatSession)
      → resolve_owned decode cookie session_id principal db ≡ ok s
      → (s.id ≡ session_id) × (s.is_archived ≡ false) × IsOwn decode cookie principal s
  unfolding resolve_owned
  resolve_owned-IsOwn session_id (some principal) db s h =
      get_owned-IsLive session_id (some principal.user_id) db s
        (found-404 (get_owned session_id (some principal.user_id) db) s h)
  resolve_owned-IsOwn session_id none db s h =
      elim (Bool-cases (same_session (verify decode cookie) session_id)) [
        | inr other ↦ absurd (ground (arith, other, h))
        | inl same ↦
            let (named, live, free) =
              get_owned-IsLive session_id none db s
                (found-404 (get_owned session_id none db) s (ground (arith, same, h))) in
            (
              named,
              live,
              (free, same-known (verify decode cookie) session_id same ∙ ap some (sym named)),
            )
      ]

  acquire_found-is :
      (found : Result ApiError ChatSession) (session : ChatSession) (st st' : TurnState)
      → acquire_found found st ≡ ok (stateful session, st')
      → found ≡ ok session
  unfolding acquire
  acquire_found-is (err e) session st st' h = absurd (ground arith)
  acquire_found-is (ok s) session st st' h = elim (Bool-cases (contains st.locked s.id)) [
    | inl busy ↦ absurd (ground (arith, busy, h))
    | inr free ↦ ap ok (ground (arith, free, h))
  ]

module _ {F : Type 0} (settings : Settings F) (decode : String → Option CookieClaims) where
  -- A turn with memory is opened only where the flag is on, in the session that the request names,
  -- which is not archived and is the caller's: of the account that is signed in, or, for an unknown
  -- caller, of no account and named by the caller's cookie.
  pub open_turn-IsOwn :
      (req : AskRequest) (cookie : Option String) (principal : Option Principal)
      (st st' : TurnState) (session : ChatSession)
      → open_turn settings decode req cookie principal st ≡ ok (stateful session, st')
      → (settings.enable_memory ≡ true)
        × (req.session_id ≡ some session.id)
        × (session.is_archived ≡ false)
        × IsOwn decode cookie principal session
  unfolding open_turn flags_for_request
  open_turn-IsOwn req cookie principal st st' session h = elim (Option-cases req.session_id) [
    | inl e ↦ absurd (ground (arith, e, h))
    | inr (id, e) ↦ elim (Bool-cases settings.enable_memory) [
      | inr off ↦ absurd (ground (arith, e, off, h))
      | inl on ↦
          let (named, live, own) = resolve_owned-IsOwn decode cookie id principal st.db session (
            acquire_found-is decode cookie (resolve_owned decode cookie id principal st.db) session
              st st' (ground (arith, e, on, h))) in
          (on, e ∙ ap some (sym named), live, own)
    ]
  ]
