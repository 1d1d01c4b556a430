-- ===== src/Auth/Tables.antt =====
-- The rows that backend/app/auth reads and writes (backend/app/db/models/user.py and auth.py), and
-- the errors of backend/app/core/exceptions.py. Ids are texts, times are seconds. A handler's
-- session is the four tables; what it has not committed when it raises is rolled back.
use production_rag_system.Prelude.{
  ℕ, String, Bool, true, false, ◌&&◌, List, Option, none, some, ltb,
}
use production_rag_system.Core.Result.{Result, err}

pub data UserRole : Type 0 where
  student admin : UserRole

pub record User : Type 0 where
  pub id : String
  pub email : String
  pub hashed_password : String
  pub role : UserRole
  pub is_active : Bool

pub record RefreshToken : Type 0 where
  pub user_id : String
  pub jti : String
  pub expires_at : ℕ
  pub revoked_at : Option ℕ
  pub replaced_by_jti : Option String

pub record LoginAttempt : Type 0 where
  pub email_or_ip : String
  pub attempted_at : ℕ
  pub success : Bool

pub record ApiKey : Type 0 where
  pub id : String
  pub user_id : String
  pub key_hash : String
  pub label : Option String
  pub revoked_at : Option ℕ

pub record Session : Type 0 where
  pub users : List User
  pub refresh_tokens : List RefreshToken
  pub login_attempts : List LoginAttempt
  pub api_keys : List ApiKey

-- The `reason` of an `AuthError`; `status` is its first argument there.
pub data Reason : Type 0 where
  domain_not_allowed duplicate_email lockout bad_credentials unknown_reset_user bad_reset_token
        wrong_typ :
      Reason
  expired bad_token revoked_family inactive_user bad_api_key unknown_user no_credentials forbidden :
      Reason

pub record AuthError : Type 0 where
  pub status : ℕ
  pub reason : Reason

abbrev pub Handler : Type 0 → Type 0
Handler A = Session → Result AuthError A × Session

abbrev pub fail {ℓ} : {A : Type ℓ} → ℕ → Reason → Result AuthError A
fail status reason = err (record { status = status; reason = reason })

-- `revoked_at IS NULL AND expires_at > now`
abbrev pub is_none {ℓ} : {A : Type ℓ} → Option A → Bool
is_none none = true
is_none (some a) = false

abbrev pub is_live : ℕ → RefreshToken → Bool
is_live now t = is_none t.revoked_at && ltb now t.expires_at
