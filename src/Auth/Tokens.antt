-- ===== src/Auth/Tokens.antt =====
-- backend/app/core/security.py: the claims of the three kinds of token. The signatures are PyJWT's
-- and the password hashes bcrypt's, so both are a parameter, `Crypto`.
use production_rag_system.Prelude.{
  ℕ, ◌+◌, ◌*◌, String, Bool, true, false, Option, none, some, if◌then◌else◌,
}
use Prim.Native.String.{◌++◌}
use production_rag_system.Core.Result.{Result, ok, err}
use production_rag_system.Core.Settings.{Settings}
use production_rag_system.Auth.Tables.{
  User, AuthError, fail, expired, bad_token, wrong_typ, bad_reset_token,
}

pub data Typ : Type 0 where
  access refresh reset : Typ

abbrev pub same_typ : Typ → Typ → Bool
same_typ access access = true
same_typ refresh refresh = true
same_typ reset reset = true
same_typ _ _ = false

pub record Claims : Type 0 where
  pub sub : Option String
  pub jti : String
  pub sid : Option String
  pub typ : Typ
  pub exp : ℕ

-- `jwt.ExpiredSignatureError`, or another `jwt.PyJWTError`.
pub data JwtError : Type 0 where
  expired_signature invalid : JwtError

-- `decode key now token` verifies the signature and the expiry; `peek` does not. `secret` is
-- `settings.JWT_SECRET`.
pub record Crypto : Type 0 where
  pub secret : String
  pub encode : String → Claims → String
  pub decode : String → ℕ → String → Result JwtError Claims
  pub peek : String → Option Claims
  pub parse_uuid : String → Option String
  pub hash_password : String → String
  pub verify_password : String → Option String → Bool
  pub api_key_hash : String → String
  pub lower : String → String

module _ {F : Type 0} (crypto : Crypto) (settings : Settings F) (now : ℕ) where
  -- `uuid4()` makes `jti`.
  unfoldable pub encode_access : User → String → String → String
  encode_access user jti sid = crypto.encode crypto.secret (record {
    sub = some user.id;
    jti = jti;
    sid = some sid;
    typ = access;
    exp = now + settings.access_token_ttl_min * 60;
  })

  abbrev pub refresh_expiry : ℕ
  refresh_expiry = now + settings.refresh_token_ttl_days * 86400

  unfoldable pub encode_refresh : User → String → String
  encode_refresh user jti =
      crypto.encode crypto.secret
        (record { sub = some user.id; jti = jti; sid = none; typ = refresh; exp = refresh_expiry })

  unfoldable pub encode_reset : String → String → String
  encode_reset user_id hashed_password = crypto.encode (crypto.secret ++ hashed_password) (record {
    sub = some user_id;
    jti = "";
    sid = none;
    typ = reset;
    exp = now + settings.reset_token_ttl_min * 60;
  })

module _ (crypto : Crypto) where
  -- The user id of a reset token, before its signature can be checked.
  unfoldable pub reset_subject : String → Result AuthError String
  reset_subject token = elim (crypto.peek token) [
    | none ↦ fail 400 bad_reset_token
    | some claims ↦ elim claims.sub [
      | none ↦ fail 400 bad_reset_token
      | some sub ↦ elim (crypto.parse_uuid sub) [
        | none ↦ fail 400 bad_reset_token
        | some user_id ↦ ok user_id
      ]
    ]
  ]

  unfoldable pub decode_reset : ℕ → String → String → Result AuthError Claims
  decode_reset now token hashed_password =
      elim (crypto.decode (crypto.secret ++ hashed_password) now token) [
        | err e ↦ fail 400 bad_reset_token
        | ok claims ↦ if same_typ claims.typ reset then ok claims else fail 400 wrong_typ
      ]

  unfoldable pub decode_token : ℕ → String → Typ → Result AuthError Claims
  decode_token now token expect = elim (crypto.decode crypto.secret now token) [
    | err expired_signature ↦ fail 401 expired
    | err invalid ↦ fail 401 bad_token
    | ok claims ↦ if same_typ claims.typ expect then ok claims else fail 401 wrong_typ
  ]
