-- ===== src/Auth/Accounts.antt =====
-- backend/app/auth/service.py, accounts and logins: each handler is a function of the session's tables
-- and of the time. A `uuid4()` that a handler draws is its argument. The mail of a reset is not
-- modelled: the token that it would send is the result.
use production_rag_system.Prelude.{
  ℕ, ◌-◌, ◌*◌, String, Bool, true, false, ◌&&◌, ◌||◌, not, [], ◌∷◌, ◌++◌, Option, none, some,
  length, filterb, anyb, find, leb, ltb, str_eq, if◌then◌else◌,
}
use Prim.Native.String.{◌++◌ as str_append}
use production_rag_system.Core.Result.{ok}
use production_rag_system.Core.Settings.{Settings}
use production_rag_system.Auth.Tables.{
  User, UserRole, RefreshToken, LoginAttempt, Session, Handler, fail, domain_not_allowed,
  duplicate_email, lockout, bad_credentials,
}
use production_rag_system.Auth.Tokens.{
  Crypto, encode_access, encode_refresh, refresh_expiry, encode_reset,
}

pub data Kind : Type 0 where
  student admin api_key : Kind

pub record Principal : Type 0 where
  pub kind : Kind
  pub user_id : String
  pub email : String
  pub role : UserRole
  pub api_key_id : Option String

abbrev pub kind_of : UserRole → Kind
kind_of UserRole.student = Kind.student
kind_of UserRole.admin = Kind.admin

abbrev pub user_by_email : String → Session → Option User
user_by_email email s = find (λ u. str_eq u.email email) s.users

abbrev pub user_by_id : String → Session → Option User
user_by_id user_id s = find (λ u. str_eq u.id user_id) s.users

abbrev ends_with : String → String → Bool
ends_with String.[] suffix = str_eq String.[] suffix
ends_with (String.◌∷◌ c s) suffix = str_eq (String.◌∷◌ c s) suffix || ends_with s suffix

module _ {F : Type 0} (crypto : Crypto) (settings : Settings F) (now : ℕ) where
  abbrev allowed : String → Bool
  allowed email =
      leb (length settings.auth_email_domain_allowlist) 0
      || anyb (λ d. ends_with (crypto.lower email) (crypto.lower d))
          settings.auth_email_domain_allowlist

  -- The unique index on `email` refuses a duplicate.
  unfoldable pub register : String → String → String → Handler User
  register user_id email password s =
      let user : User = record {
        id = user_id;
        email = email;
        hashed_password = crypto.hash_password password;
        role = UserRole.student;
        is_active = true;
      } in
      let taken = anyb (λ u. str_eq u.email email) s.users in
      if not (allowed email)
      then (fail 403 domain_not_allowed, s)
      else (if taken
          then (fail 409 duplicate_email, s)
          else (ok user, record s { users = s.users ++ user ∷ [] }))

  abbrev pub is_recent_failure : String → LoginAttempt → Bool
  is_recent_failure email a =
      str_eq a.email_or_ip email
      && (not a.success && ltb (now - settings.login_lockout_window_min * 60) a.attempted_at)

  unfoldable pub recent_failures : Session → String → ℕ
  recent_failures s email = length (filterb (is_recent_failure email) s.login_attempts)

  abbrev pub add_attempt : String → Bool → Session → Session
  add_attempt key success s = record s {
    login_attempts =
        s.login_attempts
        ++ record { email_or_ip = key; attempted_at = now; success = success } ∷ [];
  }

  abbrev pub new_token : User → String → RefreshToken
  new_token user jti = record {
    user_id = user.id;
    jti = jti;
    expires_at = refresh_expiry crypto settings now;
    revoked_at = none;
    replaced_by_jti = none;
  }

  -- The pair of the access and the refresh token, and the row of the latter.
  unfoldable pub issue_pair : User → String → String → Session → (String × String) × Session
  unfolding encode_access encode_refresh
  issue_pair user jti access_jti s = (
    (
      encode_access crypto settings now user access_jti jti,
      encode_refresh crypto settings now user jti,
    ),
    record s { refresh_tokens = s.refresh_tokens ++ new_token user jti ∷ [] },
  )

  abbrev pub hash_of : Option User → Option String
  hash_of none = none
  hash_of (some u) = some u.hashed_password

  abbrev pub granted : Option User → Bool → String → String → String → Handler (String × String)
  granted none verified email jti access_jti s =
      (fail 401 bad_credentials, add_attempt email false s)
  granted (some user) verified email jti access_jti s =
      if verified && user.is_active
      then (let (pair, s') = issue_pair user jti access_jti (add_attempt email true s) in
          (ok pair, s'))
      else (fail 401 bad_credentials, add_attempt email false s)

  unfoldable pub authenticate : String → String → String → String → Handler (String × String)
  unfolding recent_failures issue_pair
  authenticate email password jti access_jti s =
      let user = user_by_email email s in
      let verified = crypto.verify_password password (hash_of user) in
      if leb settings.login_max_failures (recent_failures s email)
      then (fail 429 lockout, s)
      else granted user verified email jti access_jti s

  abbrev pub reset_key : String → String
  reset_key email = str_append "reset:" email

  -- The token that is mailed to the user, if any; the caller answers the same in every case.
  unfoldable pub request_reset : String → Session → Option String × Session
  unfolding recent_failures encode_reset
  request_reset email s =
      let s' = add_attempt (reset_key email) false s in
      if leb settings.reset_max_per_window (recent_failures s (reset_key email))
      then (none, s)
      else (elim (user_by_email email s) [
        | none ↦ (none, s')
        | some user ↦
            if user.is_active
            then (some (encode_reset crypto settings now user.id user.hashed_password), s')
            else (none, s')
      ])
