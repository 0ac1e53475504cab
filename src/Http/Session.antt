-- ===== src/Http/Session.antt =====
-- backend/src/drc_pay_api/http/dependencies.py and auth_routes.py, with what container.py builds for
-- them: who a request comes from, and how merchants sign in and out. The password check, the hash and
-- the draw of a token and the clocks are parameters. A cookie that a handler sets is the token that it
-- returns.
use drc_pay.Http.Guards.{row}
use drc_pay.Merchants.{is_active, Merchant}
use drc_pay.Staff.{current_admin, StaffPrincipal, StaffAuth, carried}
use drc_pay.Dict.{lookup, Dict}
use drc_pay.Text.{is_space}
use drc_pay.Base.{
  Bool, false, not, ◌&&◌, Option, none, some, ◌==◌, string_eq, nat_eq, if◌then◌else◌, ⊤, ℕ, String,
}
use drc_pay.Exec.{http_exception, ok, err, Exec, ◌>>=◌, ◌>>◌, pure, require}
use Prim.Native.Char.{code}
use drc_pay.Auth.{Readings, AuthService, resolve, login, logout}

-- `strip`, on a text
unfoldable pub lstrip_text : String → String
lstrip_text String.[] = String.[]
lstrip_text (String.◌∷◌ c s) =
    let rest = lstrip_text s in if is_space (code c) then rest else String.◌∷◌ c s

unfoldable pub rstrip_text : String → String
rstrip_text String.[] = String.[]
rstrip_text (String.◌∷◌ c s) =
    let rest = rstrip_text s in
    if is_space (code c) && rest == "" then String.[] else String.◌∷◌ c rest

abbrev pub strip_text : String → String
strip_text s = rstrip_text (lstrip_text s)

-- `(fields.get(name) or [""])[0]`
abbrev pub or_empty : Option String → String
or_empty none = ""
or_empty (some s) = s

-- the stores of merchants and of both kinds of account
pub record Site : Type 0 where
  pub merchants : Dict String Merchant
  pub auth : AuthService
  pub staff : StaffAuth

-- the rest of a text after a prefix
unfoldable pub after_prefix : String → String → Option String
after_prefix String.[] s = some s
after_prefix (String.◌∷◌ c p) String.[] = none
after_prefix (String.◌∷◌ c p) (String.◌∷◌ d s) =
    let rest = after_prefix p s in if code c == code d then rest else none

-- the token of the header, or else of the cookie
unfoldable pub carried_token : String → String → String
unfolding after_prefix
carried_token authorization cookie = carried (after_prefix "Bearer " authorization) cookie

abbrev pub active_row : Option Merchant → Bool
active_row none = false
active_row (some m) = is_active m

-- `Container._merchant_active`
unfoldable pub merchant_active : Dict String Merchant → String → Bool
merchant_active merchants id = active_row (lookup id merchants)

-- a call of the merchants' or of the staff's sign-in service
abbrev pub on_auth : {A : Type 0} → (AuthService → A × AuthService) → Exec Site A
on_auth f s = let (a, auth) = f s.auth in (ok a, record s { auth = auth })

abbrev pub on_staff : {A : Type 0} → (StaffAuth → A × StaffAuth) → Exec Site A
on_staff f s = let (a, staff) = f s.staff in (ok a, record s { staff = staff })

abbrev pub or_status : {A : Type 0} → ℕ → Option A → Exec Site A
or_status n none s = (err (http_exception n), s)
or_status n (some a) s = (ok a, s)

module _ (token_hash : String → String) (utc : ℕ) where
  -- `get_current_merchant`
  unfoldable pub current_merchant : String → String → Exec Site Merchant
  unfolding carried_token
  current_merchant authorization cookie = do
    require (not (carried_token authorization cookie == "")) (http_exception 401)
    id ← on_auth (resolve token_hash (carried_token authorization cookie) utc)
    merchant_id ← or_status 401 id
    λ s. or_status 401 (lookup merchant_id s.merchants) s

  -- `get_current_admin`, as a dependency of a handler
  unfoldable pub current_staff : String → String → Exec Site StaffPrincipal
  unfolding after_prefix
  current_staff authorization cookie = do
    admin ← on_staff (current_admin token_hash utc (after_prefix "Bearer " authorization) cookie)
    or_status 401 admin

-- `require_admin`
unfoldable pub require_admin : StaffPrincipal → Exec Site ⊤
require_admin admin = require (admin.role == "admin") (http_exception 403)

abbrev pub merchant_row : String → Exec Site Merchant
merchant_row id = row id (λ s. s.merchants)

module _ (verify : String → String → Bool) (token_hash : String → String) where
  -- `container.auth.login`
  abbrev pub site_login : String → Readings → String → String → Exec Site (Option String)
  site_login token r username password s =
      on_auth
        (login verify token_hash (some (merchant_active s.merchants)) token r username password) s

  -- `login`: the token, and the merchant
  unfoldable pub auth_login : String → Readings → String → String → Exec Site (String × Merchant)
  unfolding merchant_active
  auth_login token r username password = do
    given ← site_login token r username password
    t ← or_status 401 given
    c ← λ s. or_status 401 (lookup username s.auth.credentials) s
    m ← merchant_row c.merchant_id
    pure (t, m)

  -- `login_form`, for the fields of the form: the token of the cookie, or the redirect to the failure
  unfoldable pub login_form :
      String → Readings → Option String → Option String → Exec Site (Option String)
  unfolding merchant_active
  login_form token r username password =
      site_login token r (strip_text (or_empty username)) (or_empty password)

-- `me`
unfoldable pub me : Merchant → Exec Site Merchant
me merchant = merchant_row merchant.id

-- `logout`
unfoldable pub auth_logout : (String → String) → String → String → Site → Site
unfolding carried_token
auth_logout token_hash authorization cookie s =
    if carried_token authorization cookie == ""
    then s
    else record s { auth = logout token_hash (carried_token authorization cookie) s.auth }
