-- ===== src/Auth/Sessions.antt =====
-- domains/auth/service.py: what a token is good for after a sign-in and after a sign-out, and what
-- a locked name is refused.
use drc_pay.Base.{
  ℕ, ◌+◌, ◌≤◌, ◌<◌, String, string_eq, ◌≡◌, refl, Bool, true, false, Option, none, some, leb,
  if◌then◌else◌, beq_refl, Bool-cases, inl, inr, arith,
}
use drc_pay.Dict.{lookup, lookup-insert, lookup-erase}
use drc_pay.Auth.{
  AuthService, MerchantCredential, Readings, session_ttl, lockout, max_failures, locked,
  record_failure, failure_count, cleared, session_for, with_session, mint, may_enter,
  check_password, login, logout, resolve, resolve_session,
}

module _ (token_hash : String → String) (token : String) where
  -- After a sign-out the token resolves to nobody, at any time.
  pub resolve-logout :
      (utc : ℕ) (a : AuthService)
      → (resolve token_hash token utc (logout token_hash token a)).0 ≡ none
  unfolding resolve logout
  resolve-logout utc a = rw (lookup-erase, beq_refl) refl

  pub resolve-with_session :
      (merchant_id : String) (utc later : ℕ) (a : AuthService)
      → (resolve token_hash token later
          (with_session (session_for (token_hash token) merchant_id utc) a)).0
        ≡ (if leb (utc + session_ttl) later then none else some merchant_id)
  unfolding resolve resolve_session
  resolve-with_session merchant_id utc later a =
      rw (lookup-insert, beq_refl)
        (elim (Bool-cases (leb (utc + session_ttl) later)) [
          | inl p ↦ rw p refl
          | inr p ↦ rw p refl
        ])

module _ (verify : String → String → Bool) (token_hash : String → String)
    (active : Option (String → Bool)) (token : String) (r : Readings) (username password : String)
    (a : AuthService) where
  locked-record_failure :
      (now : ℕ)
      → max_failures ≤ failure_count (lookup username a.failures) + 1
      → r.before < now + lockout
      → locked username r.before (record_failure username now a) ≡ true
  unfolding locked record_failure
  locked-record_failure now n h = rw (lookup-insert, beq_refl) (ground arith)

  -- After a failure that is at least the fifth recorded for a name, a sign-in with that name is
  -- refused until the lock ends, whatever the password, and changes nothing.
  pub login-record_failure :
      (now : ℕ)
      → max_failures ≤ failure_count (lookup username a.failures) + 1
      → r.before < now + lockout
      → let a' = record_failure username now a in
        login verify token_hash active token r username password a' ≡ (none, a')
  unfolding login
  login-record_failure now n h = rw (locked-record_failure now n h) refl

  pub login-eq :
      (c : MerchantCredential)
      → locked username r.before a ≡ false
      → lookup username a.credentials ≡ some c
      → verify c.password_hash password ≡ true
      → may_enter verify token_hash active c.merchant_id ≡ true
      → login verify token_hash active token r username password a ≡ (
        some token,
        with_session (session_for (token_hash token) c.merchant_id r.utc) (cleared username a),
      )
  unfolding login check_password mint
  login-eq c l k v m = rw l (rw k (rw v (rw m refl)))

  -- A merchant who may enter, whose name is not locked and whose password is right gets the token,
  -- and the token resolves to the merchant until the session's time is over, and to nobody after.
  pub resolve-login :
      (c : MerchantCredential)
      → locked username r.before a ≡ false
      → lookup username a.credentials ≡ some c
      → verify c.password_hash password ≡ true
      → may_enter verify token_hash active c.merchant_id ≡ true
      → let x = login verify token_hash active token r username password a in
        (x.0 ≡ some token)
        × ((later : ℕ)
            → (resolve token_hash token later x.1).0
              ≡ (if leb (r.utc + session_ttl) later then none else some c.merchant_id))
  resolve-login c l k v m = rw (login-eq c l k v m) (
    refl,
    λ later. resolve-with_session token_hash token c.merchant_id r.utc later (cleared username a),
  )
