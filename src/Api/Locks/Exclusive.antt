-- ===== src/Api/Locks/Exclusive.antt =====
-- The turns that run at the same time, and the sessions that they may use.
use production_rag_system.Prelude.{
  String, ◌≡◌, ◌≢◌, refl, sym, ap, subst, ◌∙◌, inl, inr, Bool, true, false, List, [], ◌∷◌, Option,
  arith, contains, Distinct, str_eq, Bool-cases, Option-cases, if◌then◌else◌,
}
use production_rag_system.Core.Result.{Result, ok, err}
use production_rag_system.Core.Settings.{Settings}
use production_rag_system.Auth.Accounts.{Principal}
use production_rag_system.Memory.Window.{ChatSession}
use production_rag_system.Api.Request.{
  AskRequest, CookieClaims, ApiError, session_busy, resolve_owned,
}
use production_rag_system.Api.Turn.{TurnState, release}
use production_rag_system.Api.Locks.{Route, stateful, acquire, acquire_found, open_turn}

-- The server with the sessions of the turns that run.
pub record Server : Type 0 where
  pub state : TurnState
  pub running : List String

-- A turn opens or leaves, or the tables and the tasks change without the locks.
pub data Step {F : Type 0} (settings : Settings F) (decode : String → Option CookieClaims)
    : Server → Server → Type 0 where
  opens :
      (req : AskRequest) (cookie : Option String) (principal : Option Principal)
      (session : ChatSession) (v : Server) (state : TurnState)
      → open_turn settings decode req cookie principal v.state ≡ ok (stateful session, state)
      → Step settings decode v (record { state = state; running = session.id ∷ v.running })
  leaves :
      (id : String) (v : Server)
      → contains v.running id ≡ true
      → Step settings decode v (record {
        state = record v.state { locked = release id v.state.locked };
        running = release id v.running;
      })
  works :
      (v : Server) (state : TurnState)
      → state.locked ≡ v.state.locked
      → Step settings decode v (record { state = state; running = v.running })

pub data Reaches {F : Type 0} (settings : Settings F) (decode : String → Option CookieClaims)
    : Server → Server → Type 0 where
  here : (v : Server) → Reaches settings decode v v
  further :
      {u v w : Server}
      → Reaches settings decode u v
      → Step settings decode v w
      → Reaches settings decode u w

-- Each session has one running turn at most, and the locks are held by the running turns.
pub record IsExclusive (v : Server) : Type 0 where
  pub one_each : Distinct v.running
  pub held : v.state.locked ≡ v.running

contains-release :
    (x id : String) (l : List String) → contains l x ≡ false → contains (release id l) x ≡ false
contains-release x id [] h = refl
contains-release x id (s ∷ ss) h = ground (arith, contains-release x id ss)

Distinct-release : (id : String) (l : List String) → Distinct l → Distinct (release id l)
Distinct-release id [] h = tt
Distinct-release id (s ∷ ss) h = elim (Bool-cases (str_eq s id)) [
  | inl same ↦ rw same h.1
  | inr other ↦ rw other (contains-release s id ss h.0, Distinct-release id ss h.1)
]

acquire-free :
    (session session' : ChatSession) (st st' : TurnState)
    → acquire session st ≡ ok (stateful session', st')
    → (contains st.locked session'.id ≡ false) × (st'.locked ≡ session'.id ∷ st.locked)
unfolding acquire
acquire-free session session' st st' h = elim (Bool-cases (contains st.locked session.id)) [
  | inl taken ↦ absurd (busy (ap (λ b. picked b) (sym taken) ∙ h))
  | inr free ↦
      let same = ap (λ b. picked b) (sym free) ∙ h in
      let e : session ≡ session' = cc (same) in
      (
        subst (λ s. contains st.locked s.id ≡ false) e free,
        subst (λ s. st'.locked ≡ s.id ∷ st.locked) e (cc (same)),
      )
]
  where
    picked : Bool → Result ApiError (Route × TurnState)
    picked b =
        if b
        then err session_busy
        else ok (stateful session, record st { locked = session.id ∷ st.locked })

    busy : picked true ≢ ok (stateful session', st')
    busy e = cc (e)

acquire_found-free :
    (found : Result ApiError ChatSession) (session : ChatSession) (st st' : TurnState)
    → acquire_found found st ≡ ok (stateful session, st')
    → (contains st.locked session.id ≡ false) × (st'.locked ≡ session.id ∷ st.locked)
unfolding acquire_found acquire
acquire_found-free (err e) session st st' h = absurd (ground arith)
acquire_found-free (ok found) session st st' h = acquire-free found session st st' h

module _ {F : Type 0} (settings : Settings F) (decode : String → Option CookieClaims) where
  open_turn-free :
      (req : AskRequest) (cookie : Option String) (principal : Option Principal)
      (session : ChatSession) (st st' : TurnState)
      → open_turn settings decode req cookie principal st ≡ ok (stateful session, st')
      → (contains st.locked session.id ≡ false) × (st'.locked ≡ session.id ∷ st.locked)
  unfolding open_turn
  open_turn-free req cookie principal session st st' h = elim (Option-cases req.session_id) [
    | inl e ↦ absurd (ground arith)
    | inr (id, e) ↦
        ground (
          arith,
          acquire_found-free (resolve_owned decode cookie id principal st.db) session st st',
        )
  ]

  Step-IsExclusive : {v w : Server} → Step settings decode v w → IsExclusive v → IsExclusive w
  Step-IsExclusive (opens req cookie principal session v state h) inv =
      let (free, held) = open_turn-free req cookie principal session v.state state h in
      record {
        one_each = (subst (λ l. contains l session.id ≡ false) inv.held free, inv.one_each);
        held = held ∙ ap (λ l. session.id ∷ l) inv.held;
      }
  Step-IsExclusive (leaves id v h) inv = record {
    one_each = Distinct-release id v.running inv.one_each;
    held = ap (release id) inv.held;
  }
  Step-IsExclusive (works v state h) inv = record { one_each = inv.one_each; held = h ∙ inv.held }

  -- However turns open and leave, and whatever else changes but the locks, each session has at most
  -- one running turn and the locks that are held are just those of the running turns, if that was
  -- so at the start.
  pub Reaches-IsExclusive :
      {v w : Server} → Reaches settings decode v w → IsExclusive v → IsExclusive w
  Reaches-IsExclusive (here v) inv = inv
  Reaches-IsExclusive (further path step) inv = Step-IsExclusive step (Reaches-IsExclusive path inv)
