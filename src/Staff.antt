-- ===== src/Staff.antt =====
-- backend/src/drc_pay_api/domains/staff/ and application/staff_accounts.py, with the stores of
-- adapters/memory.py: the operators of the platform sign in as merchants do, and manage accounts. The
-- check and the making of password hashes, the hash of a token, drawn values and the clocks are
-- parameters.
pub mod Accounts
pub mod AccountsKeep
use drc_pay.Auth.{lockout, session_ttl, failure_count, entry_locked, Readings}
use drc_pay.Dict.{values, lookup, insert, erase, Dict}
use drc_pay.Base.{
  [], ◌==◌, ◌∷◌, leb, none, string_eq, ◌+◌, if◌then◌else◌, some, List, Bool, ℕ, Option, String,
}

-- `StaffCredential`; the role is the text that the account was made with
pub record StaffCredential : Type 0 where
  pub staff_id : String
  pub username : String
  pub password_hash : String
  pub role : String

pub record StaffSession : Type 0 where
  pub token_hash : String
  pub staff_id : String
  pub expires_at : ℕ

-- `StaffPrincipal`
pub record StaffPrincipal : Type 0 where
  pub staff_id : String
  pub username : String
  pub role : String

-- the fields of `StaffAuthService`
pub record StaffAuth : Type 0 where
  pub credentials : Dict String StaffCredential
  pub sessions : Dict String StaffSession
  pub failures : Dict String (ℕ × ℕ)

-- `_locked`
unfoldable pub staff_locked : String → ℕ → StaffAuth → Bool
staff_locked username now a = entry_locked (lookup username a.failures) now

-- `_record_failure`
unfoldable pub staff_failure : String → ℕ → StaffAuth → StaffAuth
staff_failure username now a = record a {
  failures =
      insert username (failure_count (lookup username a.failures) + 1, now + lockout) a.failures;
}

abbrev pub staff_session : String → String → ℕ → StaffSession
staff_session hash staff_id utc = record {
  token_hash = hash;
  staff_id = staff_id;
  expires_at = utc + session_ttl;
}

-- the password is right: the failures are forgotten and a session is saved
unfoldable pub staff_mint :
    (String → String) → String → Readings → String → StaffCredential → StaffAuth → StaffAuth
staff_mint token_hash token r username c a = record a {
  failures = erase username a.failures;
  sessions =
      insert (token_hash token) (staff_session (token_hash token) c.staff_id r.utc) a.sessions;
}

module _ (verify : String → String → Bool) (token_hash : String → String) where
  unfoldable pub staff_check :
      String
      → Readings
      → String
      → String
      → Option StaffCredential
      → StaffAuth
      → Option String × StaffAuth
  unfolding staff_mint staff_failure
  staff_check token r username password none a = (none, staff_failure username r.after a)
  staff_check token r username password (some c) a =
      if verify c.password_hash password
      then (some token, staff_mint token_hash token r username c a)
      else (none, staff_failure username r.after a)

  -- `login`
  unfoldable pub staff_login :
      String → Readings → String → String → StaffAuth → Option String × StaffAuth
  unfolding staff_check staff_locked
  staff_login token r username password a =
      if staff_locked username r.before a
      then (none, a)
      else staff_check token r username password (lookup username a.credentials) a

module _ (token_hash : String → String) where
  -- `logout`
  unfoldable pub staff_logout : String → StaffAuth → StaffAuth
  staff_logout token a = record a { sessions = erase (token_hash token) a.sessions }

  unfoldable pub staff_session_live :
      Option StaffSession → ℕ → StaffAuth → Option String × StaffAuth
  staff_session_live none utc a = (none, a)
  staff_session_live (some s) utc a =
      if leb s.expires_at utc
      then (none, record a { sessions = erase s.token_hash a.sessions })
      else (some s.staff_id, a)

  -- `resolve`
  unfoldable pub staff_resolve : String → ℕ → StaffAuth → Option String × StaffAuth
  unfolding staff_session_live
  staff_resolve token utc a = staff_session_live (lookup (token_hash token) a.sessions) utc a

-- `InMemoryStaffCredentialStore.get_by_id`
unfoldable pub credential_by_id : String → List StaffCredential → Option StaffCredential
credential_by_id id [] = none
credential_by_id id (c ∷ cs) = if c.staff_id == id then some c else credential_by_id id cs

abbrev pub principal : StaffCredential → StaffPrincipal
principal c = record { staff_id = c.staff_id; username = c.username; role = c.role }

abbrev pub principal_of : Option StaffCredential → Option StaffPrincipal
principal_of none = none
principal_of (some c) = some (principal c)

-- `authorization[len("Bearer "):] if authorization.startswith("Bearer ") else cookie`, for a header
-- that has been taken apart
abbrev pub carried : Option String → String → String
carried none cookie = cookie
carried (some bearer) cookie = bearer

-- `get_current_admin` of http/dependencies.py; none stands for the status 401
unfoldable pub current_admin :
    (String → String) → ℕ → Option String → String → StaffAuth → Option StaffPrincipal × StaffAuth
unfolding staff_resolve credential_by_id
current_admin token_hash utc bearer cookie a =
    if carried bearer cookie == ""
    then (none, a)
    else (let (id, a') = staff_resolve token_hash (carried bearer cookie) utc a in
        (
          elim id [
            | none ↦ none
            | some i ↦ principal_of (credential_by_id i (values a'.credentials))
          ],
          a',
        ))
