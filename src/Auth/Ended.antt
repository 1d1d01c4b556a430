-- ===== src/Auth/Ended.antt =====
-- No access token outlives its session: a rotation, a logout and a reset end it at once.
use production_rag_system.Prelude.{
  ℕ, String, ◌≡◌, refl, subst, inl, inr, Bool, false, ◌&&◌, List, [], ◌∷◌, map, Option, none, some,
  arith, Bool-cases, Option-cases, All, All-map, contains, find, str_eq, eq_iff,
}
use production_rag_system.Core.Result.{Result, ok, err, Result-cases}
use production_rag_system.Core.Settings.{Settings}
use production_rag_system.Auth.Tables.{User, RefreshToken, Session, AuthError, is_live}
use production_rag_system.Auth.Tokens.{
  Crypto, Claims, access, refresh, decode_token, decode_reset, reset_subject,
}
use production_rag_system.Auth.Accounts.{user_by_id}
use production_rag_system.Auth.Service.{
  live_token, rotate_refresh, revoke_if, revoke_family, has_session, is_sid, resolve_claims,
  resolve_jwt, apply_reset, reset_user, reset_password,
}
use production_rag_system.Auth.Sessions.{
  find-none, find-true, anyb-false, jtis, rotate_row-ok, rotation-dead,
}

-- A request is refused: with an error whose status is 401.
abbrev pub IsRefused : {A : Type 0} → Result AuthError A → Type 0
IsRefused r = (e : AuthError) × (r ≡ err e) × (e.status ≡ 401)

-- The user that the claims name.
abbrev pub IsUser : Crypto → Claims → String → Type 0
IsUser crypto claims user_id =
    (sub : String) × (claims.sub ≡ some sub) × (crypto.parse_uuid sub ≡ some user_id)

module _ (now : ℕ) where
  -- The rows that would let the claims in.
  abbrev admits : Option String → String → RefreshToken → Bool
  admits sid user_id t = str_eq t.user_id user_id && (is_sid sid t && is_live now t)

  has_session-false :
      (sid : Option String) (user_id : String) (ts : List RefreshToken)
      → All (λ t. admits sid user_id t ≡ false) ts
      → (us : List User) → All (λ u. has_session now sid user_id ts u ≡ false) us
  has_session-false sid user_id ts dead [] = tt
  has_session-false sid user_id ts dead (u ∷ us) = (
    elim (Bool-cases (str_eq u.id user_id)) [
      | inl same ↦
          let eq : u.id ≡ user_id = ground (arith, eq_iff u.id user_id) in
          rw (same, eq, anyb-false (admits sid user_id) ts dead) (ground arith)
      | inr other ↦ rw other refl
    ],
    has_session-false sid user_id ts dead us,
  )

module _ {F : Type 0} (crypto : Crypto) (settings : Settings F) (now : ℕ) where
  resolve_claims-IsRefused :
      (claims : Claims) (s : Session)
      → ((user_id : String)
          → IsUser crypto claims user_id
          → All (λ t. admits now claims.sid user_id t ≡ false) s.refresh_tokens)
      → IsRefused (resolve_claims crypto settings now claims s)
  resolve_claims-IsRefused claims s dead = elim (Option-cases claims.sub) [
    | inl e ↦ rw (e, resolve_claims) (_, refl, refl)
    | inr (sub, e) ↦ elim (Option-cases (crypto.parse_uuid sub)) [
      | inl e' ↦ rw (e, e', resolve_claims) (_, refl, refl)
      | inr (user_id, e') ↦
          rw
            (
              e,
              e',
              resolve_claims,
              find-none _ s.users (
                  has_session-false now claims.sid user_id s.refresh_tokens
                    (dead user_id (sub, e, e')) s.users),
            )
            (_, refl, refl)
    ]
  ]

  -- A token whose claims name rows that are all dead.
  resolve_jwt-IsRefused :
      (token : String) (claims : Claims) (s : Session)
      → decode_token crypto now token access ≡ ok claims
      → ((user_id : String)
          → IsUser crypto claims user_id
          → All (λ t. admits now claims.sid user_id t ≡ false) s.refresh_tokens)
      → IsRefused (resolve_jwt crypto settings now token s)
  unfolding resolve_jwt
  resolve_jwt-IsRefused token claims s decoded dead =
      rw (decoded, resolve_jwt) (resolve_claims-IsRefused claims s dead)

module _ {F : Type 0} (crypto : Crypto) (settings : Settings F) (now : ℕ) where
  revoked-dead :
      (now' : ℕ) (sid user_id : String) (ts : List RefreshToken)
      → All
          (λ t. admits now' (some sid) user_id t ≡ false)
          (map (revoke_if crypto settings now (λ t. str_eq t.jti sid)) ts)
  revoked-dead now' sid user_id [] = tt
  revoked-dead now' sid user_id (t ∷ ts) = (ground arith, revoked-dead now' sid user_id ts)

  -- After a logout of the session `sid`, any access token of it that still decodes is refused with
  -- 401, at any time.
  pub revoke_family-ends_access :
      (sid token : String) (claims : Claims) (s : Session) (now' : ℕ)
      → decode_token crypto now' token access ≡ ok claims
      → claims.sid ≡ some sid
      → IsRefused (resolve_jwt crypto settings now' token (revoke_family crypto settings now sid s))
  unfolding revoke_family
  revoke_family-ends_access sid token claims s now' decoded family =
      resolve_jwt-IsRefused crypto settings now' token claims
        (revoke_family crypto settings now sid s) decoded
        (λ user_id is. rw family (revoked-dead now' sid user_id s.refresh_tokens))

  -- After a rotation with an id that is new to the table, any access token that was issued beside
  -- the rotated refresh token is refused with 401, at any time.
  pub rotate_refresh-ends_access :
      (token jti access_jti : String) (claims : Claims) (pair : String × String) (s s' : Session)
      → decode_token crypto now token refresh ≡ ok claims
      → rotate_refresh crypto settings now token jti access_jti s ≡ (ok pair, s')
      → contains (jtis s) jti ≡ false
      → (now' : ℕ) (old_access : String) (old_claims : Claims)
      → decode_token crypto now' old_access access ≡ ok old_claims
      → old_claims.sid ≡ some claims.jti
      → IsRefused (resolve_jwt crypto settings now' old_access s')
  unfolding rotate_refresh
  rotate_refresh-ends_access token jti access_jti claims pair s s' decoded done fresh now'
        old_access old_claims d family =
      let r =
        rotate_row-ok crypto settings now (live_token crypto settings now claims.jti s) jti
          access_jti pair s s' (ground arith) in
      resolve_jwt-IsRefused crypto settings now' old_access old_claims s' d (λ user_id is.
        rw family (
          All-map (λ t h. ground arith) s'.refresh_tokens
            (rotation-dead crypto settings now claims jti access_jti pair s s' fresh r now')))

  reset-dead :
      (now' : ℕ) (sid : Option String) (user_id : String) (ts : List RefreshToken)
      → All
          (λ t. admits now' sid user_id t ≡ false)
          (map (revoke_if crypto settings now (λ t. str_eq t.user_id user_id)) ts)
  reset-dead now' sid user_id [] = tt
  reset-dead now' sid user_id (t ∷ ts) = (ground arith, reset-dead now' sid user_id ts)

  reset_user-ok :
      (owner : Option User) (token password : String) (s s' : Session)
      → reset_user crypto settings now owner token password s ≡ (ok tt, s')
      → (user : User) × (owner ≡ some user) × (apply_reset crypto settings now user password s ≡ s')
  reset_user-ok none token password s s' h = absurd (ground arith)
  reset_user-ok (some user) token password s s' h = elim (Bool-cases user.is_active) [
    | inr off ↦ absurd (ground arith)
    | inl on ↦ elim (Result-cases (decode_reset crypto now token user.hashed_password)) [
      | inl (claims, e) ↦ (user, refl, ground arith)
      | inr (error, e) ↦ absurd (ground arith)
    ]
  ]

  find-id :
      (user_id : String) (us : List User) (u : User)
      → find (λ v. str_eq v.id user_id) us ≡ some u
      → u.id ≡ user_id
  find-id user_id us u h =
      ground (arith, eq_iff u.id user_id, find-true (λ v. str_eq v.id user_id) us u h)

  one_user :
      (claims : Claims) (a b : String) → IsUser crypto claims a → IsUser crypto claims b → a ≡ b
  one_user claims a b (sub, e, f) (sub', e', f') = ground arith

  -- In the state that a reset of a user's password leaves, any access token of that user is refused
  -- with 401, whatever the time.
  pub reset_password-ends_sessions :
      (token password user_id : String) (s s' : Session)
      → reset_subject crypto token ≡ ok user_id
      → reset_password crypto settings now token password s ≡ (ok tt, s')
      → (now' : ℕ) (old_access : String) (claims : Claims)
      → decode_token crypto now' old_access access ≡ ok claims
      → IsUser crypto claims user_id
      → IsRefused (resolve_jwt crypto settings now' old_access s')
  unfolding reset_password
  reset_password-ends_sessions token password user_id s s' subject done now' old_access claims d
        is =
      let (user, owner, after) =
        reset_user-ok (user_by_id user_id s) token password s s' (ground arith) in
      let same = find-id user_id s.users user owner in
      resolve_jwt-IsRefused crypto settings now' old_access claims s' d (λ other is'.
        let one : other ≡ user_id = one_user claims other user_id is' is in
        subst (λ w. All (λ t. admits now' claims.sid other t ≡ false) w.refresh_tokens) after
          (rw (same, one) (reset-dead now' claims.sid user_id s.refresh_tokens)))
