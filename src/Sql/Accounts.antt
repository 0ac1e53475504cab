-- ===== src/Sql/Accounts.antt =====
-- adapters/sql.py: `SqlMerchantStore`, `SqlCredentialStore`, `SqlSessionStore`, `SqlStaffCredentialStore` and
-- `SqlStaffSessionStore`. A merchant's status column holds one of the four lifecycle texts.
use drc_pay.Auth.{MerchantCredential, MerchantSession}
use drc_pay.Staff.{StaffCredential, StaffSession}
use drc_pay.Merchants.{Merchant, Status}
use drc_pay.Exec.{key_error, Result, ok, err}
use drc_pay.Sql.Table.{Table, always_fits}
use drc_pay.Sql.Keyed.{Mapping, keyed_get, keyed_first, keyed_all, keyed_save, keyed_delete}
use drc_pay.Base.{
  ℕ, refl, ap, Bool, false, not, ◌&&◌, Option, none, some, List, [], ◌∷◌, ◌==◌, string_eq, nat_eq,
  String, length,
}

-- Two rows clash that have different keys and the same value of a unique column.
abbrev pub same_column : {Row : Type 0} → (Row → String) → (Row → String) → Row → Row → Bool
same_column key column x r = not (key x == key r) && column x == column r

-- `MerchantRow`, `MerchantCredentialRow`, `MerchantSessionRow`, `StaffCredentialRow` and `StaffSessionRow`
-- have the fields of the objects that they stand for.
abbrev pub merchant_key : Merchant → String
merchant_key r = r.id

abbrev pub credential_key : MerchantCredential → String
credential_key r = r.merchant_id

abbrev pub session_key : MerchantSession → String
session_key r = r.token_hash

abbrev pub staff_key : StaffCredential → String
staff_key r = r.staff_id

abbrev pub staff_session_key : StaffSession → String
staff_session_key r = r.token_hash

-- the columns that are declared `unique`
abbrev pub same_short_code : Merchant → Merchant → Bool
same_short_code = same_column merchant_key (λ r. r.short_code)

abbrev pub same_username : MerchantCredential → MerchantCredential → Bool
same_username = same_column credential_key (λ r. r.username)

abbrev pub same_staff_name : StaffCredential → StaffCredential → Bool
same_staff_name = same_column staff_key (λ r. r.username)

abbrev pub no_other : {Row : Type 0} → Row → Row → Bool
no_other x r = false

-- the assignments of each `save`, to the row that is there or that is made for the id
abbrev pub merchant_filled : Merchant → Merchant → Merchant
merchant_filled m row = record row {
  name = m.name;
  short_code = m.short_code;
  settlement_msisdn = m.settlement_msisdn;
  settlement_provider = m.settlement_provider;
  status = m.status;
  operator_till = m.operator_till;
}

abbrev pub credential_filled : MerchantCredential → MerchantCredential → MerchantCredential
credential_filled c row = record row { username = c.username; password_hash = c.password_hash }

abbrev pub session_filled : MerchantSession → MerchantSession → MerchantSession
session_filled s row = record row { merchant_id = s.merchant_id; expires_at = s.expires_at }

abbrev pub staff_filled : StaffCredential → StaffCredential → StaffCredential
staff_filled c row = record row {
  username = c.username;
  password_hash = c.password_hash;
  role = c.role;
}

abbrev pub staff_session_filled : StaffSession → StaffSession → StaffSession
staff_session_filled s row = record row { staff_id = s.staff_id; expires_at = s.expires_at }

-- `MerchantRow(id=...)` and the like
abbrev pub blank_merchant : String → Merchant
blank_merchant id = record {
  id = id;
  name = "";
  short_code = "";
  settlement_msisdn = "";
  settlement_provider = none;
  status = Status.active;
  operator_till = none;
}

abbrev pub merchant_rows : Mapping merchant_key Merchant
merchant_rows = record {
  id_of = merchant_key;
  to_domain = λ r. r;
  blank = blank_merchant;
  filled = merchant_filled;
  key-blank = λ k. refl;
  key-filled = λ a r. refl;
  read-filled = λ a r e. ap (λ k. record a { id = k }) e;
}

abbrev pub credential_rows : Mapping credential_key MerchantCredential
credential_rows = record {
  id_of = credential_key;
  to_domain = λ r. r;
  blank = λ k. record { merchant_id = k; username = ""; password_hash = "" };
  filled = credential_filled;
  key-blank = λ k. refl;
  key-filled = λ a r. refl;
  read-filled = λ a r e. ap (λ k. record a { merchant_id = k }) e;
}

abbrev pub session_rows : Mapping session_key MerchantSession
session_rows = record {
  id_of = session_key;
  to_domain = λ r. r;
  blank = λ k. record { token_hash = k; merchant_id = ""; expires_at = 0 };
  filled = session_filled;
  key-blank = λ k. refl;
  key-filled = λ a r. refl;
  read-filled = λ a r e. ap (λ k. record a { token_hash = k }) e;
}

abbrev pub staff_rows : Mapping staff_key StaffCredential
staff_rows = record {
  id_of = staff_key;
  to_domain = λ r. r;
  blank = λ k. record { staff_id = k; username = ""; password_hash = ""; role = "" };
  filled = staff_filled;
  key-blank = λ k. refl;
  key-filled = λ a r. refl;
  read-filled = λ a r e. ap (λ k. record a { staff_id = k }) e;
}

abbrev pub staff_session_rows : Mapping staff_session_key StaffSession
staff_session_rows = record {
  id_of = staff_session_key;
  to_domain = λ r. r;
  blank = λ k. record { token_hash = k; staff_id = ""; expires_at = 0 };
  filled = staff_session_filled;
  key-blank = λ k. refl;
  key-filled = λ a r. refl;
  read-filled = λ a r e. ap (λ k. record a { token_hash = k }) e;
}

module _ {D : Type 0} (db : Table merchant_key same_short_code always_fits D) where
  abbrev pub found_or_error : Option Merchant → Result Merchant
  found_or_error none = err key_error
  found_or_error (some m) = ok m

  -- `SqlMerchantStore.get`
  unfoldable pub sql_merchant : String → D → Result Merchant
  unfolding keyed_get
  sql_merchant id d = found_or_error (keyed_get merchant_rows db id d)

  unfoldable pub sql_by_short_code : String → D → Option Merchant
  unfolding keyed_first
  sql_by_short_code code d = keyed_first merchant_rows db (λ r. r.short_code == code) d

  unfoldable pub sql_save_merchant : Merchant → D → Option D
  unfolding keyed_save
  sql_save_merchant = keyed_save merchant_rows db

  unfoldable pub sql_merchants : D → List Merchant
  unfolding keyed_all
  sql_merchants = keyed_all merchant_rows db

module _ {D : Type 0} (db : Table credential_key same_username always_fits D) where
  -- `SqlCredentialStore`
  unfoldable pub sql_credential_by_username : String → D → Option MerchantCredential
  unfolding keyed_first
  sql_credential_by_username username d =
      keyed_first credential_rows db (λ r. r.username == username) d

  unfoldable pub sql_save_credential : MerchantCredential → D → Option D
  unfolding keyed_save
  sql_save_credential = keyed_save credential_rows db

module _ {D : Type 0} (db : Table session_key no_other always_fits D) where
  -- `SqlSessionStore`
  unfoldable pub sql_session : String → D → Option MerchantSession
  unfolding keyed_get
  sql_session = keyed_get session_rows db

  unfoldable pub sql_save_session : MerchantSession → D → Option D
  unfolding keyed_save
  sql_save_session = keyed_save session_rows db

  unfoldable pub sql_delete_session : String → D → D
  unfolding keyed_delete
  sql_delete_session = keyed_delete session_rows db

module _ {D : Type 0} (db : Table staff_key same_staff_name always_fits D) where
  -- `SqlStaffCredentialStore`
  unfoldable pub sql_staff_by_username : String → D → Option StaffCredential
  unfolding keyed_first
  sql_staff_by_username username d = keyed_first staff_rows db (λ r. r.username == username) d

  unfoldable pub sql_staff : String → D → Option StaffCredential
  unfolding keyed_get
  sql_staff = keyed_get staff_rows db

  unfoldable pub sql_save_staff : StaffCredential → D → Option D
  unfolding keyed_save
  sql_save_staff = keyed_save staff_rows db

  unfoldable pub sql_all_staff : D → List StaffCredential
  unfolding keyed_all
  sql_all_staff = keyed_all staff_rows db

  unfoldable pub sql_delete_staff : String → D → D
  unfolding keyed_delete
  sql_delete_staff = keyed_delete staff_rows db

module _ {D : Type 0} (db : Table staff_session_key no_other always_fits D) where
  -- `SqlStaffSessionStore`
  unfoldable pub sql_staff_session : String → D → Option StaffSession
  unfolding keyed_get
  sql_staff_session = keyed_get staff_session_rows db

  unfoldable pub sql_save_staff_session : StaffSession → D → Option D
  unfolding keyed_save
  sql_save_staff_session = keyed_save staff_session_rows db

  unfoldable pub sql_delete_staff_session : String → D → D
  unfolding keyed_delete
  sql_delete_staff_session = keyed_delete staff_session_rows db

  -- the loop of `delete_for_staff`
  unfoldable pub remove_each : List StaffSession → D → D
  remove_each [] d = d
  remove_each (r ∷ rows) d = remove_each rows (db.remove r.token_hash d)

  -- `delete_for_staff`
  unfoldable pub sql_delete_for_staff : String → D → ℕ × D
  unfolding remove_each
  sql_delete_for_staff staff_id d =
      let rows = db.select (λ r. r.staff_id == staff_id) d in (length rows, remove_each rows d)
