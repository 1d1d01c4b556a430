-- ===== src/Auth/Sessions.antt =====
-- When a session ends: after a rotation, a logout or a reset no token of it is accepted.
use production_rag_system.Prelude.{
  ℕ, String, ◌≡◌, refl, subst, inl, inr, Bool, true, false, ◌&&◌, List, [], ◌∷◌, map, Option, none,
  some, arith, Bool-cases, All, All-append, contains, find, anyb, str_eq, eq_iff,
}
use production_rag_system.Core.Result.{ok}
use production_rag_system.Core.Settings.{Settings}
use production_rag_system.Auth.Tables.{User, RefreshToken, Session, fail, is_live, revoked_family}
use production_rag_system.Auth.Tokens.{Crypto, Claims, refresh, decode_token}
use production_rag_system.Auth.Accounts.{user_by_id}
use production_rag_system.Auth.Service.{
  live_token, replace, rotated, rotate_for, rotate_row, rotate_refresh,
}

pub find-none {ℓ} :
    {A : Type ℓ} (p : A → Bool) (xs : List A) → All (λ x. p x ≡ false) xs → find p xs ≡ none
find-none p [] h = refl
find-none p (x ∷ xs) h = ground (arith, h.0, find-none p xs h.1)

pub find-true {ℓ} :
    {A : Type ℓ} (p : A → Bool) (xs : List A) (x : A) → find p xs ≡ some x → p x ≡ true
find-true p [] x h = absurd (ground arith)
find-true p (y ∷ ys) x h = elim (Bool-cases (p y)) [
  | inl holds ↦ ground arith
  | inr fails ↦ find-true p ys x (ground arith)
]

pub anyb-false {ℓ} :
    {A : Type ℓ} (p : A → Bool) (xs : List A) → All (λ x. p x ≡ false) xs → anyb p xs ≡ false
anyb-false p [] h = refl
anyb-false p (x ∷ xs) h = ground (arith, h.0, anyb-false p xs h.1)

abbrev pub jtis : Session → List String
jtis s = map (λ t. t.jti) s.refresh_tokens

find-contains :
    (now : ℕ) (jti : String) (ts : List RefreshToken) (old : RefreshToken)
    → find (λ t. str_eq t.jti jti && is_live now t) ts ≡ some old
    → contains (map (λ t. t.jti) ts) jti ≡ true
find-contains now jti [] old h = absurd (ground arith)
find-contains now jti (t ∷ ts) old h = ground (arith, find-contains now jti ts old)

module _ {F : Type 0} (crypto : Crypto) (settings : Settings F) (now : ℕ) where
  -- The rows that a rotation of `jti` leaves: none of them is a live one of `jti`.
  replaced-dead :
      (now' : ℕ) (jti new : String) (ts : List RefreshToken)
      → All
          (λ t. (str_eq t.jti jti && is_live now' t) ≡ false)
          (map (replace crypto settings now jti new) ts)
  replaced-dead now' jti new [] = tt
  replaced-dead now' jti new (t ∷ ts) = (ground arith, replaced-dead now' jti new ts)

  -- What a rotation that succeeds has done.
  pub record IsRotation (jti access_jti : String) (row : Option RefreshToken)
      (pair : String × String) (s s' : Session) : Type 0 where
    old : RefreshToken
    user : User
    found : row ≡ some old
    owner : user_by_id old.user_id s ≡ some user
    active : user.is_active ≡ true
    is_pair : (rotated crypto settings now user old.jti jti access_jti s).0 ≡ pair
    is_after : (rotated crypto settings now user old.jti jti access_jti s).1 ≡ s'

  rotate_for-ok :
      (old : RefreshToken) (owner : Option User) (jti access_jti : String) (pair : String × String)
      (s s' : Session)
      → user_by_id old.user_id s ≡ owner
      → rotate_for crypto settings now owner old.jti jti access_jti s ≡ (ok pair, s')
      → IsRotation jti access_jti (some old) pair s s'
  rotate_for-ok old none jti access_jti pair s s' o h = absurd (ground arith)
  rotate_for-ok old (some user) jti access_jti pair s s' o h = elim (Bool-cases user.is_active) [
    | inl on ↦ record {
      old = old;
      user = user;
      found = refl;
      owner = o;
      active = on;
      is_pair = ground arith;
      is_after = ground arith;
    }
    | inr off ↦ absurd (ground arith)
  ]

  pub rotate_row-ok :
      (row : Option RefreshToken) (jti access_jti : String) (pair : String × String)
      (s s' : Session)
      → rotate_row crypto settings now row jti access_jti s ≡ (ok pair, s')
      → IsRotation jti access_jti row pair s s'
  rotate_row-ok none jti access_jti pair s s' h = absurd (ground arith)
  rotate_row-ok (some old) jti access_jti pair s s' h =
      rotate_for-ok old (user_by_id old.user_id s) jti access_jti pair s s' refl h

  pub rotation-dead :
      (claims : Claims) (jti access_jti : String) (pair : String × String) (s s' : Session)
      → contains (jtis s) jti ≡ false
      → IsRotation jti access_jti (live_token crypto settings now claims.jti s) pair s s'
      → (now' : ℕ)
      → All (λ t. (str_eq t.jti claims.jti && is_live now' t) ≡ false) s'.refresh_tokens
  rotation-dead claims jti access_jti pair s s' fresh r now' =
      let same : r.old.jti ≡ claims.jti = ground (
        arith,
        eq_iff r.old.jti claims.jti,
        find-true (λ t. str_eq t.jti claims.jti && is_live now t) s.refresh_tokens r.old r.found,
      ) in
      let there = find-contains now claims.jti s.refresh_tokens r.old r.found in
      subst
        (λ after.
          All (λ t. (str_eq t.jti claims.jti && is_live now' t) ≡ false) after.refresh_tokens)
        r.is_after
        (rw same (
          All-append _ (map (replace crypto settings now claims.jti jti) s.refresh_tokens) _
            (replaced-dead now' claims.jti jti s.refresh_tokens)
            (ground (arith, eq_iff jti claims.jti), tt)))

  -- A refresh token works once: with an id that is new to the table, any second use of a rotated
  -- token, at any time, is refused with 401 (revoked_family), and changes nothing.
  pub rotate_refresh-once :
      (token jti access_jti : String) (claims : Claims) (pair : String × String) (s s' : Session)
      → decode_token crypto now token refresh ≡ ok claims
      → rotate_refresh crypto settings now token jti access_jti s ≡ (ok pair, s')
      → contains (jtis s) jti ≡ false
      → (now' : ℕ) (jti' access_jti' : String) → decode_token crypto now' token refresh ≡ ok claims
      → rotate_refresh crypto settings now' token jti' access_jti' s'
        ≡ (fail 401 revoked_family, s')
  unfolding rotate_refresh
  rotate_refresh-once token jti access_jti claims pair s s' decoded done fresh now' jti' access_jti'
        again =
      let r =
        rotate_row-ok (live_token crypto settings now claims.jti s) jti access_jti pair s s'
          (ground arith) in
      rw
        (
          again,
          find-none _ s'.refresh_tokens
              (rotation-dead claims jti access_jti pair s s' fresh r now'),
          rotate_refresh,
        )
        refl
