-- ===== src/Http/SignupKeep.antt =====
-- http/onboarding_routes.py, admin_merchants_routes.py, auth_routes.py and dependencies.py together:
-- the way of a new merchant from the sign-up to its first request.
use drc_pay.Http.Guards.{row}
use drc_pay.Auth.Sessions.{login-eq}
use drc_pay.Auth.{
  resolve_session, may_enter, resolve, session_ttl, cleared, mint, session_for, check_password,
  with_session, login, AuthService, locked, Readings, MerchantCredential,
}
use drc_pay.Staff.{StaffPrincipal}
use drc_pay.Dict.{Dict, lookup-insert, lookup, insert}
use drc_pay.Application.Onboarding.{
  OnboardingError, Registry, set_status, with_status, next_short_code, approve, signup, signup_as,
  registered, new_merchant,
}
use drc_pay.Http.Admin.{found_or_404, on_registry, registry_of, approve_merchant, with_registry}
use drc_pay.Merchants.{Status, Merchant}
use drc_pay.Http.Session.{
  merchant_row, or_status, site_login, active_row, after_prefix, carried_token, merchant_active,
  current_merchant, auth_login, strip_text, require_admin, Site,
}
use drc_pay.Http.SignupRoute.{
  valid_settlement, valid_names, signup_args, on_signup, or_409, post_signup, SignupRequest,
}
use drc_pay.Base.{
  ◌≡◌, refl, ap, ◌∙◌, Bool, true, false, ◌&&◌, Option, none, some, ◌==◌, string_eq, nat_eq,
  beq_refl, arith, inr, ◌⊎◌, leb, ℕ, String, ◌+◌, ◌<◌,
}
use drc_pay.Exec.{Result, http_exception, bind-eq, ok, err, Exec, ◌>>=◌, pure}

set_status-eq :
    (status : Status) (id : String) (r : Registry) (m : Merchant)
    → lookup id r.merchants ≡ some m
    → set_status status id r ≡ (
      inr (with_status status m),
      record r { merchants = insert m.id (with_status status m) r.merchants },
    )
unfolding set_status
set_status-eq status id r m h = rw (h, set_status) refl

row-eq :
    {V : Type 0} (id : String) (rows : Site → Dict String V) (s : Site) (v : V)
    → lookup id (rows s) ≡ some v
    → row id rows s ≡ (ok v, s)
row-eq id rows s v h = rw (h, row) refl

approve_found :
    (id : String) (r : Registry) (m : Merchant)
    → lookup id r.merchants ≡ some m
    → approve id r ≡ (
      inr (with_status Status.active m),
      record r { merchants = insert m.id (with_status Status.active m) r.merchants },
    )
unfolding approve
approve_found id r m h = set_status-eq Status.active id r m h

resolve_live :
    (token_hash : String → String) (token id : String) (utc later : ℕ) (a : AuthService)
    → later < utc + session_ttl
    → resolve token_hash token later (with_session (session_for (token_hash token) id utc) a)
      ≡ (some id, with_session (session_for (token_hash token) id utc) a)
unfolding resolve resolve_session
resolve_live token_hash token id utc later a l =
    let e : leb (utc + session_ttl) later ≡ false = ground arith in
    rw (lookup-insert, beq_refl) (rw e refl)

module _ (decimal : ℕ → Bool) (numeric : String → Result (Option ℕ)) (id hash : String)
    (b : SignupRequest) (s : Site) (code : String) where
  abbrev pub newcomer : Merchant
  newcomer = new_merchant (signup_args id hash b) code

  -- the stores after the sign-up
  abbrev pub joined : Site
  joined = with_registry s (registered (signup_args id hash b) newcomer (registry_of s))

  -- the stores after an approval that follows
  abbrev pub approved : Site
  approved = with_registry joined (record (registry_of joined) {
    merchants = insert id (with_status Status.active newcomer) joined.merchants;
  })

  signup-eq :
      next_short_code numeric s.merchants ≡ ok code
      → lookup (strip_text b.username) s.auth.credentials ≡ none
      → signup numeric (signup_args id hash b) (registry_of s)
        ≡ (ok (inr newcomer), registered (signup_args id hash b) newcomer (registry_of s))
  unfolding signup
  signup-eq n f = rw f (ap (signup_as (signup_args id hash b) (registry_of s)) n)

  post_signup-eq :
      next_short_code numeric s.merchants ≡ ok code
      → (valid_names b && valid_settlement decimal b) ≡ true
      → lookup (strip_text b.username) s.auth.credentials ≡ none
      → post_signup decimal numeric id hash b s ≡ (ok newcomer, joined)
  unfolding post_signup
  post_signup-eq n v f = rw v (
      bind-eq (on_signup (signup numeric (signup_args id hash b))) or_409 (
        ap (λ (x : Result (OnboardingError ⊎ Merchant) × Registry). (x.0, with_registry s x.1))
          (signup-eq n f)))

  -- the stores of an approval
  abbrev pub registry_approved : Registry
  registry_approved = record (registry_of joined) {
    merchants = insert id (with_status Status.active newcomer) joined.merchants;
  }

  joined_row : lookup id joined.merchants ≡ some newcomer
  joined_row = lookup-insert id id newcomer s.merchants ∙ rw (beq_refl id) refl

  approved_row : lookup id approved.merchants ≡ some (with_status Status.active newcomer)
  approved_row =
      lookup-insert id id (with_status Status.active newcomer) joined.merchants
      ∙ rw (beq_refl id) refl

  decided :
      approve id (registry_of joined)
      ≡ (inr (with_status Status.active newcomer), registry_approved)
  decided = approve_found id (registry_of joined) newcomer joined_row

  approve-eq :
      (admin : StaffPrincipal)
      → (admin.role == "admin") ≡ true
      → approve_merchant id admin joined ≡ (ok (with_status Status.active newcomer), approved)
  unfolding approve_merchant require_admin
  approve-eq admin r = rw r (
      bind-eq (on_registry (approve id)) found_or_404 (
        ap (λ (x : (OnboardingError ⊎ Merchant) × Registry). (ok x.0, with_registry joined x.1))
          decided))

  -- the account of the new merchant
  abbrev pub account : MerchantCredential
  account = record { merchant_id = id; username = strip_text b.username; password_hash = hash }

  joined_account : lookup (strip_text b.username) joined.auth.credentials ≡ some account
  joined_account =
      lookup-insert (strip_text b.username) (strip_text b.username) account s.auth.credentials
      ∙ rw (beq_refl (strip_text b.username)) refl

  module _ (verify : String → String → Bool) (token_hash : String → String) (token : String)
      (r : Readings) (right : verify hash b.password ≡ true)
      (unlocked : locked (strip_text b.username) r.before s.auth ≡ false) where
    refused_login :
        auth_login verify token_hash token r (strip_text b.username) b.password joined ≡ (
          err (http_exception 401),
          record joined { auth = cleared (strip_text b.username) joined.auth },
        )
    unfolding auth_login login check_password mint merchant_active locked
    refused_login = rw unlocked (rw joined_account (rw right (rw joined_row refl)))

    -- the sign-in service after the first sign-in
    abbrev pub signed_in : AuthService
    signed_in =
        with_session (session_for (token_hash token) id r.utc)
          (cleared (strip_text b.username) approved.auth)

    may_come : may_enter verify token_hash (some (merchant_active approved.merchants)) id ≡ true
    unfolding may_enter merchant_active
    may_come = ap active_row approved_row

    still_unlocked : locked (strip_text b.username) r.before approved.auth ≡ false
    unfolding locked
    still_unlocked = unlocked

    -- the stores after the first sign-in
    abbrev pub entered : Site
    entered = record approved { auth = signed_in }

    given :
        site_login verify token_hash token r (strip_text b.username) b.password approved
        ≡ (ok (some token), entered)
    given =
        ap (λ (x : Option String × AuthService). (ok x.0, record approved { auth = x.1 }))
          (login-eq verify token_hash (some (merchant_active approved.merchants)) token r
            (strip_text b.username) b.password approved.auth account still_unlocked joined_account
            right may_come)

    first_login :
        auth_login verify token_hash token r (strip_text b.username) b.password approved
        ≡ (ok (token, with_status Status.active newcomer), entered)
    unfolding auth_login
    first_login =
        let k3 : Merchant → Exec Site (String × Merchant) = λ m. pure (token, m) in
        let k2 : MerchantCredential → Exec Site (String × Merchant) =
          λ c. merchant_row c.merchant_id >>= λ m. pure (token, m) in
        let k1 : Option String → Exec Site (String × Merchant) = λ g. or_status 401 g >>= λ t.
        (λ v. or_status 401 (lookup (strip_text b.username) v.auth.credentials) v) >>= λ c.
        merchant_row c.merchant_id >>= λ m. pure (t, m) in
        bind-eq (site_login verify token_hash token r (strip_text b.username) b.password) k1 given
        ∙ (bind-eq (λ v. or_status 401 (lookup (strip_text b.username) v.auth.credentials) v) k2
              (ap (λ o. or_status 401 o entered) joined_account)
            ∙ bind-eq (merchant_row id) k3 (
                row-eq id (λ v. v.merchants) entered (with_status Status.active newcomer)
                  approved_row))

    first_request :
        (utc : ℕ)
        → (token == "") ≡ false
        → utc < r.utc + session_ttl
        → current_merchant token_hash utc "" token entered
          ≡ (ok (with_status Status.active newcomer), record approved { auth = signed_in })
    unfolding current_merchant carried_token after_prefix
    first_request utc t l = rw t (
        rw
          (resolve_live token_hash token id r.utc utc
            (cleared (strip_text b.username) approved.auth) l)
          (rw approved_row refl))

    -- A sign-up with valid fields and a new username, for which a short code is drawn, makes a merchant with
    -- that code who cannot sign in with the right password; after the approval by an administrator the
    -- sign-in gives the token, and until the session's time is over a request with the token as its
    -- cookie is the merchant's.
    pub post_signup-approve-login :
        (admin : StaffPrincipal) (utc : ℕ)
        → next_short_code numeric s.merchants ≡ ok code
        → (valid_names b && valid_settlement decimal b) ≡ true
        → lookup (strip_text b.username) s.auth.credentials ≡ none
        → (admin.role == "admin") ≡ true
        → (token == "") ≡ false
        → utc < r.utc + session_ttl
        → (post_signup decimal numeric id hash b s ≡ (ok newcomer, joined))
          × ((auth_login verify token_hash token r (strip_text b.username) b.password joined).0
              ≡ err (http_exception 401))
          × (approve_merchant id admin joined ≡ (ok (with_status Status.active newcomer), approved))
          × (auth_login verify token_hash token r (strip_text b.username) b.password approved
              ≡ (ok (token, with_status Status.active newcomer), entered))
          × (current_merchant token_hash utc "" token entered
              ≡ (ok (with_status Status.active newcomer), entered))
    post_signup-approve-login admin utc n v f a t l = (
      post_signup-eq n v f,
      ap (λ x. x.0) refused_login,
      approve-eq admin a,
      first_login,
      first_request utc t l,
    )
