-- ===== src/Api/Request.antt =====
-- backend/app/api/ask.py: the request, the flags that it runs with and the settings of its model,
-- and whose session it may use. The cookie of an anonymous caller is backend/app/memory/cookies.py:
-- its claims as PyJWT decodes them.
use production_rag_system.Prelude.{
  String, Bool, false, not, ◌&&◌, Option, none, some, str_eq, if◌then◌else◌,
}
use production_rag_system.Prelude.Text.{is_empty}
use production_rag_system.Core.Result.{Result, ok, err}
use production_rag_system.Core.Contracts.{PipelineFlags}
use production_rag_system.Core.Settings.{Settings}
use production_rag_system.Auth.Accounts.{Principal}
use production_rag_system.Memory.Window.{ChatSession}
use production_rag_system.Memory.Service.{Db, get_owned}

pub record AskRequest : Type 0 where
  pub question : String
  pub session_id : Option String
  pub namespace : Option String
  pub deep : Bool
  pub skip_cache : Bool

module _ {F : Type 0} (settings : Settings F) where
  unfoldable pub flags_for_request : AskRequest → PipelineFlags
  flags_for_request req = record {
    hybrid = settings.enable_hybrid;
    rerank = settings.enable_rerank;
    query_rewrite = settings.enable_query_rewrite;
    compression = settings.enable_compression;
    cache = settings.enable_cache && not req.skip_cache;
    memory = settings.enable_memory;
  }

  unfoldable pub pipeline_settings : AskRequest → Settings F
  pipeline_settings req =
      if req.deep then record settings { llm_model = settings.llm_deep_model } else settings

-- The claims of a cookie: `typ`, and `sid` where it reads as a UUID.
pub record CookieClaims : Type 0 where
  pub typ : String
  pub sid : Option String

-- `decode` is `jwt.decode`: none where the token does not verify.
unfoldable pub verify : (String → Option CookieClaims) → Option String → Option String
verify decode none = none
verify decode (some cookie) = if is_empty cookie then none else elim (decode cookie) [
  | none ↦ none
  | some claims ↦ if str_eq claims.typ "anon_session" then claims.sid else none
]

pub data ApiError : Type 0 where
  session_not_found session_busy : ApiError

abbrev pub same_session : Option String → String → Bool
same_session none session_id = false
same_session (some sid) session_id = str_eq sid session_id

abbrev pub found_or_404 : Option ChatSession → Result ApiError ChatSession
found_or_404 none = err session_not_found
found_or_404 (some s) = ok s

-- A caller who is known by the user id, any other by the session that the cookie names.
unfoldable pub resolve_owned :
    (String → Option CookieClaims)
    → Option String
    → String
    → Option Principal
    → Db
    → Result ApiError ChatSession
unfolding verify get_owned
resolve_owned decode cookie session_id (some principal) db =
    found_or_404 (get_owned session_id (some principal.user_id) db)
resolve_owned decode cookie session_id none db =
    if same_session (verify decode cookie) session_id
    then found_or_404 (get_owned session_id none db)
    else err session_not_found
