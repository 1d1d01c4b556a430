-- ===== src/Auth/Deps.antt =====
-- backend/app/auth/deps.py: who the caller is, and the caller's rate tier.
use production_rag_system.Prelude.{ℕ, String, Bool, true, false, Option, none, some, if◌then◌else◌}
use Prim.Native.String.{◌++◌ as str_append}
use production_rag_system.Core.Result.{Result, ok, err}
use production_rag_system.Core.Settings.{Settings}
use production_rag_system.Auth.Tables.{Session, AuthError, fail, no_credentials, forbidden}
use production_rag_system.Auth.Tokens.{Crypto}
use production_rag_system.Auth.Accounts.{Kind, Principal}
use production_rag_system.Auth.Service.{resolve_jwt, resolve_api_key}

unfoldable pub get_current_user_optional :
    {F : Type 0}
    → Crypto
    → Settings F
    → ℕ
    → Option String
    → Option String
    → Session
    → Result AuthError (Option Principal)
unfolding resolve_jwt resolve_api_key
get_current_user_optional crypto settings now (some token) key s =
    elim (resolve_jwt crypto settings now token s) [ ok p ↦ ok (some p) | err e ↦ err e ]
get_current_user_optional crypto settings now none (some key) s =
    elim (resolve_api_key crypto settings now key s) [ ok p ↦ ok (some p) | err e ↦ err e ]
get_current_user_optional crypto settings now none none s = ok none

unfoldable pub get_current_user : Option Principal → Result AuthError Principal
get_current_user none = fail 401 no_credentials
get_current_user (some p) = ok p

abbrev same_kind : Kind → Kind → Bool
same_kind Kind.student Kind.student = true
same_kind Kind.admin Kind.admin = true
same_kind Kind.api_key Kind.api_key = true
same_kind _ _ = false

-- `require_role("admin")`
unfoldable pub require_role : Kind → Principal → Result AuthError Principal
require_role role p = if same_kind p.kind role then ok p else fail 403 forbidden

unfoldable pub rate_tier : {F : Type 0} → Settings F → Option Principal → String → String × ℕ
rate_tier settings none ip = (str_append "ip:" ip, settings.rate_limit_anon_per_min)
rate_tier settings (some p) ip = elim p.kind [
  | Kind.api_key ↦ (
    str_append "apikey:" (elim p.api_key_id [ none ↦ "None" | some i ↦ i ]),
    settings.rate_limit_api_key_per_min,
  )
  | Kind.admin ↦ (str_append "user:" p.user_id, settings.rate_limit_admin_per_min)
  | Kind.student ↦ (str_append "user:" p.user_id, settings.rate_limit_student_per_min)
]
