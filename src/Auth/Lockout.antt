-- ===== src/Auth/Lockout.antt =====
-- The lockout of `authenticate`: what each outcome does to the counter of recent failures.
use production_rag_system.Prelude.{
  ℕ, ◌+◌, ◌≤◌, ◌<◌, String, ◌≡◌, refl, ◌∙◌, ◌⊎◌, inl, inr, Bool, true, false, ◌&&◌, List, [], ◌∷◌,
  ◌++◌, some, arith, Bool-cases, Option-cases, length, filterb, leb, eq_iff, if◌then◌else◌,
}
use production_rag_system.Core.Result.{ok}
use production_rag_system.Core.Settings.{Settings}
use production_rag_system.Auth.Tables.{User, LoginAttempt, Session, fail, lockout, bad_credentials}
use production_rag_system.Auth.Tokens.{Crypto}
use production_rag_system.Auth.Accounts.{
  user_by_email, is_recent_failure, recent_failures, add_attempt, authenticate, issue_pair,
}

length-filterb-snoc {ℓ} :
    {A : Type ℓ} (p : A → Bool) (xs : List A) (x : A)
    → length (filterb p (xs ++ x ∷ [])) ≡ length (filterb p xs) + (if p x then 1 else 0)
length-filterb-snoc p [] x = ground arith
length-filterb-snoc p (y ∷ ys) x = ground (arith, length-filterb-snoc p ys x)

module _ {F : Type 0} (crypto : Crypto) (settings : Settings F) (now : ℕ)
    (email password jti access_jti : String) (s : Session) where
  abbrev pub before : ℕ
  before = recent_failures crypto settings now s email

  pub record IsLocked : Type 0 where
    pub reached : settings.login_max_failures ≤ before
    pub refused :
        authenticate crypto settings now email password jti access_jti s ≡ (fail 429 lockout, s)

  -- A failure is counted, and nothing else is written.
  pub record IsRejected : Type 0 where
    pub open_yet : before < settings.login_max_failures
    pub after : Session
    pub refused :
        authenticate crypto settings now email password jti access_jti s
        ≡ (fail 401 bad_credentials, after)
    pub counted : recent_failures crypto settings now after email ≡ before + 1
    pub same_tokens : after.refresh_tokens ≡ s.refresh_tokens
    pub same_users : after.users ≡ s.users

  pub record IsGranted : Type 0 where
    pub open_yet : before < settings.login_max_failures
    pub user : User
    pub found : user_by_email email s ≡ some user
    pub verified : crypto.verify_password password (some user.hashed_password) ≡ true
    pub active : user.is_active ≡ true
    pub pair : String × String
    pub after : Session
    pub granted :
        authenticate crypto settings now email password jti access_jti s ≡ (ok pair, after)
    pub counted : recent_failures crypto settings now after email ≡ before

module _ {F : Type 0} (crypto : Crypto) (settings : Settings F) (now : ℕ)
    (email password jti access_jti : String) (s : Session) where
  recent_failures-add :
      (success : Bool)
      → 1 ≤ settings.login_lockout_window_min
      → 1 ≤ now
      → recent_failures crypto settings now (add_attempt crypto settings now email success s) email
        ≡ recent_failures crypto settings now s email + (if success then 0 else 1)
  unfolding recent_failures
  recent_failures-add success wide late =
      let p = is_recent_failure crypto settings now email in
      let a : LoginAttempt = record {
        email_or_ip = email;
        attempted_at = now;
        success = success;
      } in
      ground (arith, length-filterb-snoc p s.login_attempts a, eq_iff email email)

  issued :
      (user : User)
      → recent_failures crypto settings now
          (issue_pair crypto settings now user jti access_jti
            (add_attempt crypto settings now email true s)).1
          email
        ≡ recent_failures crypto settings now (add_attempt crypto settings now email true s) email
  unfolding issue_pair recent_failures
  issued user = refl

  -- A login is one of three: locked out, where LOGIN_MAX_FAILURES failures of that email are recent,
  -- whatever the password; rejected, which adds exactly one recent failure; or granted to an active
  -- user whose password verifies, which adds none. The window is at least a minute.
  pub authenticate-outcomes :
      1 ≤ settings.login_lockout_window_min
      → 1 ≤ now
      → IsLocked crypto settings now email password jti access_jti s
        ⊎ (IsRejected crypto settings now email password jti access_jti s
            ⊎ IsGranted crypto settings now email password jti access_jti s)
  unfolding authenticate
  authenticate-outcomes wide late =
      elim (Bool-cases
        (leb settings.login_max_failures (recent_failures crypto settings now s email))) [
          | inl locked ↦
              inl (record { reached = ground arith; refused = rw (locked, authenticate) refl })
          | inr free ↦ elim (Option-cases (user_by_email email s)) [
            | inl nobody ↦ inr (
                inl (record {
                  open_yet = ground arith;
                  after = add_attempt crypto settings now email false s;
                  refused = rw (free, nobody, authenticate) refl;
                  counted = recent_failures-add false wide late;
                  same_tokens = refl;
                  same_users = refl;
                }))
            | inr (user, found) ↦
                elim (Bool-cases
                  (crypto.verify_password password (some user.hashed_password) && user.is_active)) [
                    | inl right ↦ inr (
                        inr (record {
                          open_yet = ground arith;
                          user = user;
                          found = found;
                          verified = ground arith;
                          active = ground arith;
                          pair =
                              (issue_pair crypto settings now user jti access_jti
                                (add_attempt crypto settings now email true s)).0;
                          after =
                              (issue_pair crypto settings now user jti access_jti
                                (add_attempt crypto settings now email true s)).1;
                          granted = rw (free, found, right, authenticate) refl;
                          counted =
                              issued user ∙ (recent_failures-add true wide late ∙ omega arith);
                        }))
                    | inr wrong ↦ inr (
                        inl (record {
                          open_yet = ground arith;
                          after = add_attempt crypto settings now email false s;
                          refused = rw (free, found, wrong, authenticate) refl;
                          counted = recent_failures-add false wide late;
                          same_tokens = refl;
                          same_users = refl;
                        }))
                  ]
          ]
        ]
