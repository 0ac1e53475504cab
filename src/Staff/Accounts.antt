-- ===== src/Staff/Accounts.antt =====
-- backend/src/drc_pay_api/application/staff_accounts.py, with the stores of adapters/memory.py: making,
-- changing and removing accounts.
use drc_pay.Dict.{lookup, insert, Dict}
use drc_pay.Text.{codes, is_digit}
use drc_pay.Staff.{StaffSession, StaffAuth, StaffCredential}
use drc_pay.Base.{
  is_some, ◌+◌, inr, not, if◌then◌else◌, nat_eq, [], ◌==◌, length, string_eq, ◌||◌, inl, leb, ◌∷◌,
  none, ◌⊎◌, ◌&&◌, true, some, Bool, Option, String, List, ℕ,
}

pub data StaffError : Type 0 where
  staff_not_found last_staff_account invalid_staff_account staff_username_taken : StaffError

-- a text of 3 to 32 letters, digits, `.`, `_` and `-`: `_USERNAME_RE`
abbrev pub is_handle_char : ℕ → Bool
is_handle_char c =
    is_digit c
    || (leb b'a' c && leb c b'z')
    || (leb b'A' c && leb c b'Z')
    || c == b'.'
    || c == b'_'
    || c == b'-'

abbrev pub all_handle_chars : List ℕ → Bool
all_handle_chars [] = true
all_handle_chars (c ∷ s) = is_handle_char c && all_handle_chars s

abbrev pub is_handle : List ℕ → Bool
is_handle s = all_handle_chars s && leb 3 (length s) && leb (length s) 32

-- MIN_PASSWORD
abbrev pub min_password : ℕ
min_password = 8

-- `validate` does not raise
unfoldable pub valid_account : String → String → String → Bool
valid_account username password role =
    is_handle (codes username) && leb min_password (length (codes password)) && role == "admin"

abbrev pub with_credential : StaffCredential → StaffAuth → StaffAuth
with_credential c a = record a { credentials = insert c.username c a.credentials }

-- `create_staff`; `id` and `hash` are the drawn id and the password's hash
unfoldable pub create_staff :
    String
    → String
    → String
    → String
    → String
    → StaffAuth
    → (StaffError ⊎ StaffCredential) × StaffAuth
unfolding valid_account
create_staff id hash username password role a =
    let c : StaffCredential = record {
      staff_id = id;
      username = username;
      password_hash = hash;
      role = role;
    } in
    if not (valid_account username password role)
    then (inl invalid_staff_account, a)
    else if is_some (lookup username a.credentials)
    then (inl staff_username_taken, a)
    else (inr c, with_credential c a)

abbrev pub kept_id : Option StaffCredential → String → String
kept_id none id = id
kept_id (some c) id = c.staff_id

-- `upsert_staff`
unfoldable pub upsert_staff :
    String
    → String
    → String
    → String
    → String
    → StaffAuth
    → (StaffError ⊎ StaffCredential) × StaffAuth
unfolding valid_account
upsert_staff id hash username password role a =
    let c : StaffCredential = record {
      staff_id = kept_id (lookup username a.credentials) id;
      username = username;
      password_hash = hash;
      role = role;
    } in
    if not (valid_account username password role)
    then (inl invalid_staff_account, a)
    else (inr c, with_credential c a)

-- `InMemoryStaffSessionStore.delete_for_staff`
unfoldable pub delete_sessions : String → Dict String StaffSession → Dict String StaffSession
delete_sessions id [] = []
delete_sessions id ((h, s) ∷ d) =
    let rest = delete_sessions id d in if s.staff_id == id then rest else (h, s) ∷ rest

-- the number that it returns
unfoldable pub count_sessions : String → Dict String StaffSession → ℕ
count_sessions id [] = 0
count_sessions id ((h, s) ∷ d) = (if s.staff_id == id then 1 else 0) + count_sessions id d

-- `InMemoryStaffCredentialStore.delete`
unfoldable pub delete_credentials :
    String → Dict String StaffCredential → Dict String StaffCredential
delete_credentials id [] = []
delete_credentials id ((u, c) ∷ d) =
    let rest = delete_credentials id d in if c.staff_id == id then rest else (u, c) ∷ rest

abbrev pub removed : String → StaffAuth → StaffAuth
removed id a = record a {
  credentials = delete_credentials id a.credentials;
  sessions = delete_sessions id a.sessions;
}

unfoldable pub remove_found : Option StaffCredential → StaffAuth → (StaffError ⊎ ℕ) × StaffAuth
unfolding delete_credentials delete_sessions count_sessions
remove_found none a = (inl staff_not_found, a)
remove_found (some c) a =
    if leb (length a.credentials) 1
    then (inl last_staff_account, a)
    else (inr (count_sessions c.staff_id a.sessions), removed c.staff_id a)

-- `remove_staff`
unfoldable pub remove_staff : String → StaffAuth → (StaffError ⊎ ℕ) × StaffAuth
unfolding remove_found
remove_staff username a = remove_found (lookup username a.credentials) a
