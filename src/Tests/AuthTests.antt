-- ===== src/Tests/AuthTests.antt =====
-- The theorems on backend/app/auth at concrete inputs.
use production_rag_system.Prelude.{
  String, ◌≡◌, refl, ◌⊎◌, true, false, [], ◌∷◌, none, some, arith, str_eq, if◌then◌else◌,
}
use production_rag_system.Core.Result.{Result, ok, err}
use production_rag_system.Auth.Tables.{UserRole, Session, AuthError, fail, revoked_family}
use production_rag_system.Auth.Tokens.{Crypto, Claims, Typ, JwtError, invalid, decode_token}
use production_rag_system.Auth.Service.{rotate_refresh, reset_password, resolve_jwt}
use production_rag_system.Auth.Sessions.{rotate_refresh-once}
use production_rag_system.Auth.Ended.{
  IsRefused, rotate_refresh-ends_access, reset_password-ends_sessions,
}
use production_rag_system.Auth.Lockout.{IsLocked, IsRejected, IsGranted, authenticate-outcomes}
use production_rag_system.Samples.{defaults}

abbrev refresh_claims : Claims
refresh_claims = record { sub = some "u1"; jti = "j1"; sid = none; typ = Typ.refresh; exp = 10000 }

abbrev access_claims : Claims
access_claims = record {
  sub = some "u1";
  jti = "x1";
  sid = some "j1";
  typ = Typ.access;
  exp = 10000;
}

abbrev reset_claims : Claims
reset_claims = record { sub = some "u1"; jti = ""; sid = none; typ = Typ.reset; exp = 10000 }

-- Three tokens that decode to the claims above.
abbrev decode_sample : String → Result JwtError Claims
decode_sample token =
    if str_eq token "refresh 1"
    then ok refresh_claims
    else (if str_eq token "access 1"
        then ok access_claims
        else (if str_eq token "reset 1" then ok reset_claims else err invalid))

abbrev crypto : Crypto
crypto = record {
  secret = "secret";
  encode = λ key claims. "signed";
  decode = λ key now token. decode_sample token;
  peek = λ token. some reset_claims;
  parse_uuid = λ sub. some sub;
  hash_password = λ password. password;
  verify_password = λ password hashed. (elim hashed [ none ↦ false | some h ↦ str_eq password h ]);
  api_key_hash = λ raw. raw;
  lower = λ s. s;
}

abbrev session : Session
session = record {
  users =
      record {
        id = "u1";
        email = "a@pu.edu";
        hashed_password = "pw";
        role = UserRole.student;
        is_active = true;
      }
      ∷ [];
  refresh_tokens =
      record {
        user_id = "u1";
        jti = "j1";
        expires_at = 10000;
        revoked_at = none;
        replaced_by_jti = none;
      }
      ∷ [];
  login_attempts = [];
  api_keys = [];
}

abbrev after_rotation : Result AuthError (String × String) × Session
after_rotation = (
  ok ("signed", "signed"),
  record session {
    refresh_tokens =
        record {
          user_id = "u1";
          jti = "j1";
          expires_at = 10000;
          revoked_at = some 100;
          replaced_by_jti = some "j2";
        }
        ∷ record {
          user_id = "u1";
          jti = "j2";
          expires_at = 604900;
          revoked_at = none;
          replaced_by_jti = none;
        }
        ∷ [];
  },
)

rotate_refresh-once_example :
    rotate_refresh crypto defaults 200 "refresh 1" "j3" "x3" after_rotation.1
    ≡ (fail 401 revoked_family, after_rotation.1)
unfolding rotate_refresh
rotate_refresh-once_example =
    rotate_refresh-once crypto defaults 100 "refresh 1" "j2" "x2" refresh_claims
      ("signed", "signed") session after_rotation.1 refl refl refl 200 "j3" "x3" refl

rotate_refresh-ends_access_example :
    IsRefused (resolve_jwt crypto defaults 200 "access 1" after_rotation.1)
unfolding rotate_refresh
rotate_refresh-ends_access_example =
    rotate_refresh-ends_access crypto defaults 100 "refresh 1" "j2" "x2" refresh_claims
      ("signed", "signed") session after_rotation.1 refl refl refl 200 "access 1" access_claims refl
      refl

abbrev after_reset : Session
after_reset = record session {
  users =
      record {
        id = "u1";
        email = "a@pu.edu";
        hashed_password = "new";
        role = UserRole.student;
        is_active = true;
      }
      ∷ [];
  refresh_tokens =
      record {
        user_id = "u1";
        jti = "j1";
        expires_at = 10000;
        revoked_at = some 100;
        replaced_by_jti = none;
      }
      ∷ [];
}

reset_password-ends_sessions_example :
    IsRefused (resolve_jwt crypto defaults 200 "access 1" after_reset)
unfolding reset_password decode_token
reset_password-ends_sessions_example =
    reset_password-ends_sessions crypto defaults 100 "reset 1" "new" "u1" session after_reset refl
      refl 200 "access 1" access_claims refl ("u1", refl, refl)

authenticate-outcomes_example :
    IsLocked crypto defaults 1000 "a@pu.edu" "wrong" "j2" "x2" session
    ⊎ (IsRejected crypto defaults 1000 "a@pu.edu" "wrong" "j2" "x2" session
        ⊎ IsGranted crypto defaults 1000 "a@pu.edu" "wrong" "j2" "x2" session)
authenticate-outcomes_example =
    authenticate-outcomes crypto defaults 1000 "a@pu.edu" "wrong" "j2" "x2" session (ground arith)
      (ground arith)
