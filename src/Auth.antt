-- ===== src/Auth.antt =====
-- backend/src/drc_pay_api/domains/auth/service.py and models.py, with the stores of
-- adapters/memory.py: merchants sign in with a password, and stay signed in by a token. The check of
-- a password hash, the hash of a token, the drawn token and the readings of the two clocks, in
-- microseconds, are parameters.
pub mod Sessions
use drc_pay.Base.{
  ℕ, ◌+◌, String, string_eq, Bool, true, false, ◌&&◌, not, Option, none, some, leb, ltb,
  if◌then◌else◌,
}
use drc_pay.Dict.{Dict, lookup, insert, erase}

-- SESSION_TTL
abbrev pub session_ttl : ℕ
session_ttl = 86400000000

-- _MAX_FAILURES
abbrev pub max_failures : ℕ
max_failures = 5

-- _LOCKOUT_SECONDS
abbrev pub lockout : ℕ
lockout = 60000000

pub record MerchantCredential : Type 0 where
  pub merchant_id : String
  pub username : String
  pub password_hash : String

pub record MerchantSession : Type 0 where
  pub token_hash : String
  pub merchant_id : String
  pub expires_at : ℕ

-- the fields of `AuthService`
pub record AuthService : Type 0 where
  pub credentials : Dict String MerchantCredential
  pub sessions : Dict String MerchantSession
  pub failures : Dict String (ℕ × ℕ)

abbrev pub entry_locked : Option (ℕ × ℕ) → ℕ → Bool
entry_locked none now = false
entry_locked (some (count, until)) now = leb max_failures count && ltb now until

-- `_locked`
unfoldable pub locked : String → ℕ → AuthService → Bool
locked username now a = entry_locked (lookup username a.failures) now

abbrev pub failure_count : Option (ℕ × ℕ) → ℕ
failure_count none = 0
failure_count (some (count, _)) = count

-- `_record_failure`
unfoldable pub record_failure : String → ℕ → AuthService → AuthService
record_failure username now a = record a {
  failures =
      insert username (failure_count (lookup username a.failures) + 1, now + lockout) a.failures;
}

-- `self._failures.pop(username, None)`
abbrev pub cleared : String → AuthService → AuthService
cleared username a = record a { failures = erase username a.failures }

-- a live session's row
abbrev pub session_for : String → String → ℕ → MerchantSession
session_for hash merchant_id utc = record {
  token_hash = hash;
  merchant_id = merchant_id;
  expires_at = utc + session_ttl;
}

abbrev pub with_session : MerchantSession → AuthService → AuthService
with_session s a = record a { sessions = insert s.token_hash s a.sessions }

-- the readings that one sign-in takes: of the monotonic clock before and after the password is
-- checked, and of the calendar
pub record Readings : Type 0 where
  pub before : ℕ
  pub after : ℕ
  pub utc : ℕ

module _ (verify : String → String → Bool) (token_hash : String → String)
    (is_merchant_active : Option (String → Bool)) where
  unfoldable pub may_enter : String → Bool
  may_enter merchant_id = elim is_merchant_active [ none ↦ true | some active ↦ active merchant_id ]

  -- the part after the password has been found correct
  unfoldable pub mint :
      String → Readings → MerchantCredential → AuthService → Option String × AuthService
  unfolding may_enter
  mint token r c a =
      if may_enter c.merchant_id
      then (some token, with_session (session_for (token_hash token) c.merchant_id r.utc) a)
      else (none, a)

  unfoldable pub check_password :
      String
      → Readings
      → String
      → String
      → Option MerchantCredential
      → AuthService
      → Option String × AuthService
  unfolding mint
  check_password token r username password none a = (none, record_failure username r.after a)
  check_password token r username password (some c) a =
      if verify c.password_hash password
      then mint token r c (cleared username a)
      else (none, record_failure username r.after a)

  -- `login`
  unfoldable pub login :
      String → Readings → String → String → AuthService → Option String × AuthService
  unfolding check_password
  login token r username password a =
      if locked username r.before a
      then (none, a)
      else check_password token r username password (lookup username a.credentials) a

module _ (token_hash : String → String) where
  unfoldable pub logout : String → AuthService → AuthService
  logout token a = record a { sessions = erase (token_hash token) a.sessions }

  unfoldable pub resolve_session :
      Option MerchantSession → ℕ → AuthService → Option String × AuthService
  resolve_session none utc a = (none, a)
  resolve_session (some s) utc a =
      if leb s.expires_at utc
      then (none, record a { sessions = erase s.token_hash a.sessions })
      else (some s.merchant_id, a)

  -- `resolve`
  unfoldable pub resolve : String → ℕ → AuthService → Option String × AuthService
  unfolding resolve_session
  resolve token utc a = resolve_session (lookup (token_hash token) a.sessions) utc a
