-- ===== src/Http/Admin.antt =====
-- backend/src/drc_pay_api/http/admin_routes.py and admin_merchants_routes.py: the staff sign in, manage
-- accounts, and approve or reject merchants. The handlers take the staff member that
-- `get_current_admin` has found.
use drc_pay.Dict.{lookup, values}
use drc_pay.Application.Onboarding.{reject, approve, OnboardingError, Registry}
use drc_pay.Merchants.{Merchant, Status}
use drc_pay.Staff.{principal, staff_login, staff_logout, StaffPrincipal, StaffCredential}
use drc_pay.Http.Session.{or_status, strip_text, on_staff, Site, require_admin, carried_token}
use drc_pay.Auth.{Readings}
use drc_pay.Staff.Accounts.{create_staff, StaffError, invalid_staff_account, staff_username_taken}
use drc_pay.Base.{
  filter, map, Bool, Option, none, some, List, ◌==◌, string_eq, nat_eq, if◌then◌else◌, inl, inr,
  ◌⊎◌, ℕ, String,
}
use drc_pay.Exec.{http_exception, Result, ok, err, Exec, ◌>>=◌, ◌>>◌, pure}

module _ (verify : String → String → Bool) (token_hash : String → String) where
  -- `admin_login`: the token, and who it is
  unfoldable pub admin_login :
      String → Readings → String → String → Exec Site (String × StaffPrincipal)
  admin_login token r username password = do
    given ← on_staff (staff_login verify token_hash token r username password)
    t ← or_status 401 given
    c ← λ s. or_status 401 (lookup username s.staff.credentials) s
    pure (t, principal c)

-- `admin_logout`
unfoldable pub admin_logout : (String → String) → String → String → Site → Site
unfolding carried_token
admin_logout token_hash authorization cookie s =
    if carried_token authorization cookie == ""
    then s
    else record s { staff = staff_logout token_hash (carried_token authorization cookie) s.staff }

-- `list_staff`
unfoldable pub list_staff : StaffPrincipal → Exec Site (List StaffPrincipal)
unfolding require_admin
list_staff admin = do require_admin admin; λ s. (ok (map principal (values s.staff.credentials)), s)

-- the statuses that the handler gives the errors of `create_staff`
abbrev pub staff_status : StaffError → ℕ
staff_status staff_username_taken = 409
staff_status invalid_staff_account = 422
staff_status _ = 500

abbrev pub staff_made : (StaffError ⊎ StaffCredential) → Exec Site StaffPrincipal
staff_made (inl e) s = (err (http_exception (staff_status e)), s)
staff_made (inr c) s = (ok (principal c), s)

-- `CreateStaffRequest`
pub record CreateStaffRequest : Type 0 where
  pub username : String
  pub password : String
  pub role : String

-- `create_staff` of the routes; `id` and `hash` are the drawn id and the password's hash
unfoldable pub post_staff :
    String → String → CreateStaffRequest → StaffPrincipal → Exec Site StaffPrincipal
unfolding require_admin
post_staff id hash body admin = do
  require_admin admin
  made ←
      on_staff
        (create_staff id hash (strip_text body.username) body.password (strip_text body.role))
  staff_made made

-- `_STATUSES`
unfoldable pub status_of : String → Option Status
status_of name =
    if name == "pending"
    then some Status.pending
    else if name == "active"
    then some Status.active
    else if name == "rejected"
    then some Status.rejected
    else if name == "suspended"
    then some Status.suspended
    else none

abbrev pub status_index : Status → ℕ
status_index Status.pending = 0
status_index Status.active = 1
status_index Status.rejected = 2
status_index Status.suspended = 3

abbrev pub has_status : Status → Merchant → Bool
has_status status m = status_index m.status == status_index status

-- the filter by status, or none
abbrev pub listed_merchants : String → Option Status → List Merchant → Result (List Merchant)
listed_merchants name none ms = if name == "all" then ok ms else err (http_exception 422)
listed_merchants name (some status) ms = ok (filter (has_status status) ms)

-- `list_merchants` of the admin
unfoldable pub admin_list_merchants : String → StaffPrincipal → Exec Site (List Merchant)
unfolding require_admin status_of
admin_list_merchants name admin = do
  require_admin admin
  λ s. (listed_merchants name (status_of name) (values s.merchants), s)

-- a call of application/onboarding.py on the stores of merchants and credentials
abbrev pub registry_of : Site → Registry
registry_of s = record { merchants = s.merchants; credentials = s.auth.credentials }

abbrev pub with_registry : Site → Registry → Site
with_registry s r = record s {
  merchants = r.merchants;
  auth = record s.auth { credentials = r.credentials };
}

abbrev pub on_registry : {A : Type 0} → (Registry → A × Registry) → Exec Site A
on_registry f s = let (a, r) = f (registry_of s) in (ok a, with_registry s r)

abbrev pub found_or_404 : (OnboardingError ⊎ Merchant) → Exec Site Merchant
found_or_404 (inl _) s = (err (http_exception 404), s)
found_or_404 (inr m) s = (ok m, s)

-- `approve_merchant`
unfoldable pub approve_merchant : String → StaffPrincipal → Exec Site Merchant
unfolding require_admin
approve_merchant id admin = do
  require_admin admin
  decided ← on_registry (approve id)
  found_or_404 decided

-- `reject_merchant`
unfoldable pub reject_merchant : String → StaffPrincipal → Exec Site Merchant
unfolding require_admin
reject_merchant id admin = do
  require_admin admin
  decided ← on_registry (reject id)
  found_or_404 decided
