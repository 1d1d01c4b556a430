-- ===== src/Api/Locks.antt =====
-- How `ask` of backend/app/api/ask.py opens a turn: without a session, or under the lock of one. The
-- locks are those of `lock_for` of backend/app/memory/service.py, one for each session.
pub mod Owned
pub mod Exclusive
use production_rag_system.Prelude.{
  String, Bool, true, false, not, ◌||◌, List, [], ◌∷◌, Option, none, some, contains, if◌then◌else◌,
}
use production_rag_system.Core.Result.{Result, ok, err}
use production_rag_system.Core.Settings.{Settings}
use production_rag_system.Auth.Accounts.{Principal}
use production_rag_system.Memory.Window.{ChatSession}
use production_rag_system.Api.Request.{
  AskRequest, CookieClaims, ApiError, session_busy, flags_for_request, resolve_owned,
}
use production_rag_system.Api.Turn.{TurnState}

pub data Route : Type 0 where
  stateless : Route
  stateful : ChatSession → Route

-- `if lock.locked(): raise …; await lock.acquire()`, with no wait in between.
unfoldable pub acquire : ChatSession → TurnState → Result ApiError (Route × TurnState)
acquire session st =
    if contains st.locked session.id
    then err session_busy
    else ok (stateful session, record st { locked = session.id ∷ st.locked })

abbrev pub acquire_found :
    Result ApiError ChatSession → TurnState → Result ApiError (Route × TurnState)
unfolding acquire
acquire_found (err e) st = err e
acquire_found (ok session) st = acquire session st

module _ {F : Type 0} (settings : Settings F) (decode : String → Option CookieClaims) where
  unfoldable pub open_turn :
      AskRequest
      → Option String
      → Option Principal
      → TurnState
      → Result ApiError (Route × TurnState)
  unfolding flags_for_request resolve_owned acquire
  open_turn req cookie principal st = elim req.session_id [
    | none ↦ ok (stateless, st)
    | some session_id ↦
        if (flags_for_request settings req).memory
        then acquire_found (resolve_owned decode cookie session_id principal st.db) st
        else ok (stateless, st)
  ]
