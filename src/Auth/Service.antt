-- ===== src/Auth/Service.antt =====
-- backend/app/auth/service.py, what follows a login: the reset of a password, the rotation and the end
-- of sessions, the resolution of tokens and keys, as handlers on the session's tables.
use production_rag_system.Prelude.{
  ℕ, ◌-◌, ◌*◌, String, Bool, false, ◌&&◌, not, List, [], ◌∷◌, ◌++◌, map, Option, none, some, length,
  filterb, anyb, find, ltb, str_eq, if◌then◌else◌,
}
use production_rag_system.Core.Result.{Result, ok, err}
use production_rag_system.Core.Settings.{Settings}
use production_rag_system.Auth.Tables.{
  User, RefreshToken, ApiKey, Session, Handler, AuthError, fail, is_none, is_live,
  unknown_reset_user, revoked_family, inactive_user, bad_token, bad_api_key, unknown_user,
}
use production_rag_system.Auth.Tokens.{
  Crypto, Claims, access, refresh, encode_access, encode_refresh, reset_subject, decode_reset,
  decode_token,
}
use production_rag_system.Auth.Accounts.{
  Kind, Principal, kind_of, user_by_email, user_by_id, new_token,
}

-- `RefreshToken.jti == claims.get("sid")` is false of no `sid`.
abbrev pub is_sid : Option String → RefreshToken → Bool
is_sid none t = false
is_sid (some sid) t = str_eq t.jti sid

-- A row of the join of users and refresh tokens on the user id.
abbrev pub has_session : ℕ → Option String → String → List RefreshToken → User → Bool
has_session now sid user_id tokens u =
    str_eq u.id user_id
    && (u.is_active && anyb (λ t. str_eq t.user_id u.id && (is_sid sid t && is_live now t)) tokens)

abbrev pub principal_of : User → Principal
principal_of u = record {
  kind = kind_of u.role;
  user_id = u.id;
  email = u.email;
  role = u.role;
  api_key_id = none;
}

module _ {F : Type 0} (crypto : Crypto) (settings : Settings F) (now : ℕ) where
  abbrev pub revoke_if : (RefreshToken → Bool) → RefreshToken → RefreshToken
  revoke_if p t = if p t && is_none t.revoked_at then record t { revoked_at = some now } else t

  abbrev pub with_password : String → String → User → User
  with_password user_id hashed u =
      if str_eq u.id user_id then record u { hashed_password = hashed } else u

  abbrev pub apply_reset : User → String → Session → Session
  apply_reset user password s = record s {
    users = map (with_password user.id (crypto.hash_password password)) s.users;
    refresh_tokens = map (revoke_if (λ t. str_eq t.user_id user.id)) s.refresh_tokens;
  }

  abbrev pub reset_user : Option User → String → String → Handler (Unit {0})
  reset_user none token password s = (fail 400 unknown_reset_user, s)
  reset_user (some user) token password s =
      if user.is_active
      then (elim (decode_reset crypto now token user.hashed_password) [
        | err e ↦ (err e, s)
        | ok claims ↦ (ok tt, apply_reset user password s)
      ])
      else (fail 400 unknown_reset_user, s)

  unfoldable pub reset_password : String → String → Handler (Unit {0})
  unfolding reset_subject decode_reset
  reset_password token password s = elim (reset_subject crypto token) [
    | err e ↦ (err e, s)
    | ok user_id ↦ reset_user (user_by_id user_id s) token password s
  ]

  -- The row of the token's `jti` that is neither revoked nor expired.
  abbrev pub live_token : String → Session → Option RefreshToken
  live_token jti s = find (λ t. str_eq t.jti jti && is_live now t) s.refresh_tokens

  -- `old.revoked_at = now; old.replaced_by_jti = jti`
  abbrev pub replace : String → String → RefreshToken → RefreshToken
  replace old_jti jti t =
      if str_eq t.jti old_jti
      then record t { revoked_at = some now; replaced_by_jti = some jti }
      else t

  abbrev pub rotated : User → String → String → String → Session → (String × String) × Session
  rotated user old_jti jti access_jti s = (
    (
      encode_access crypto settings now user access_jti jti,
      encode_refresh crypto settings now user jti,
    ),
    record s {
      refresh_tokens =
          map (replace old_jti jti) s.refresh_tokens ++ new_token crypto settings now user jti ∷ [];
    },
  )

  abbrev pub rotate_for : Option User → String → String → String → Handler (String × String)
  rotate_for none old_jti jti access_jti s = (fail 401 inactive_user, s)
  rotate_for (some user) old_jti jti access_jti s =
      let (pair, s') = rotated user old_jti jti access_jti s in
      if user.is_active then (ok pair, s') else (fail 401 inactive_user, s)

  abbrev pub rotate_row : Option RefreshToken → String → String → Handler (String × String)
  rotate_row none jti access_jti s = (fail 401 revoked_family, s)
  rotate_row (some old) jti access_jti s =
      rotate_for (user_by_id old.user_id s) old.jti jti access_jti s

  unfoldable pub rotate_refresh : String → String → String → Handler (String × String)
  unfolding decode_token encode_access encode_refresh
  rotate_refresh token jti access_jti s = elim (decode_token crypto now token refresh) [
    | err e ↦ (err e, s)
    | ok claims ↦ rotate_row (live_token claims.jti s) jti access_jti s
  ]

  unfoldable pub revoke_family : String → Session → Session
  revoke_family sid s = record s {
    refresh_tokens = map (revoke_if (λ t. str_eq t.jti sid)) s.refresh_tokens;
  }

  abbrev pub resolve_claims : Claims → Session → Result AuthError Principal
  resolve_claims claims s = elim claims.sub [
    | none ↦ fail 401 bad_token
    | some sub ↦ elim (crypto.parse_uuid sub) [
      | none ↦ fail 401 bad_token
      | some user_id ↦ elim (find (has_session now claims.sid user_id s.refresh_tokens) s.users) [
        | none ↦ fail 401 revoked_family
        | some u ↦ ok (principal_of u)
      ]
    ]
  ]

  unfoldable pub resolve_jwt : String → Session → Result AuthError Principal
  unfolding decode_token
  resolve_jwt token s = elim (decode_token crypto now token access) [
    | err e ↦ err e
    | ok claims ↦ resolve_claims claims s
  ]

  abbrev is_live_key : String → String → ApiKey → Bool
  is_live_key hash user_id k =
      str_eq k.user_id user_id && (str_eq k.key_hash hash && is_none k.revoked_at)

  abbrev first_key : String → List User → List ApiKey → Option (User × ApiKey)
  first_key hash [] keys = none
  first_key hash (u ∷ us) keys =
      let rest = first_key hash us keys in
      if u.is_active
      then (elim (find (is_live_key hash u.id) keys) [ none ↦ rest | some k ↦ some (u, k) ])
      else rest

  unfoldable pub resolve_api_key : String → Session → Result AuthError Principal
  resolve_api_key raw s = elim (first_key (crypto.api_key_hash raw) s.users s.api_keys) [
    | none ↦ fail 401 bad_api_key
    | some (u, k) ↦ ok (record {
      kind = Kind.api_key;
      user_id = u.id;
      email = u.email;
      role = u.role;
      api_key_id = some k.id;
    })
  ]

  -- Expired tokens and attempts before the window go; the counts are of what went.
  unfoldable pub prune : Session → (ℕ × ℕ) × Session
  prune s =
      let tokens = filterb (λ t. not (ltb t.expires_at now)) s.refresh_tokens in
      let attempts =
        filterb (λ a. not (ltb a.attempted_at (now - settings.login_lockout_window_min * 60)))
          s.login_attempts in
      (
        (length s.refresh_tokens - length tokens, length s.login_attempts - length attempts),
        record s { refresh_tokens = tokens; login_attempts = attempts },
      )

  -- `new_api_key()` draws `raw`.
  unfoldable pub issue_key : String → String → String → String → Handler String
  issue_key key_id email label raw s = elim (user_by_email email s) [
    | none ↦ (fail 404 unknown_user, s)
    | some user ↦ (
      ok raw,
      record s {
        api_keys =
            s.api_keys
            ++ record {
              id = key_id;
              user_id = user.id;
              key_hash = crypto.api_key_hash raw;
              label = some label;
              revoked_at = none;
            }
              ∷ [];
      },
    )
  ]

  abbrev has_label : String → ApiKey → Bool
  has_label label k = elim k.label [
    | none ↦ false
    | some l ↦ str_eq l label && is_none k.revoked_at
  ]

  unfoldable pub revoke_key : String → Session → ℕ × Session
  revoke_key label s = (
    length (filterb (has_label label) s.api_keys),
    record s {
      api_keys =
          map (λ k. if has_label label k then record k { revoked_at = some now } else k) s.api_keys;
    },
  )
