-- ===== src/Http/SignupRoute.antt =====
-- backend/src/drc_pay_api/http/onboarding_routes.py: a business registers itself. The drawn id, the
-- password's hash, and the digits that `\d` stands for in a pattern are parameters.
use drc_pay.Http.Admin.{registry_of, with_registry}
use drc_pay.Merchants.{Merchant}
use drc_pay.Staff.Accounts.{min_password, is_handle}
use drc_pay.Application.Onboarding.{signup, OnboardingError, Registry, Signup}
use drc_pay.Http.Session.{Site, strip_text}
use drc_pay.Text.{codes}
use drc_pay.Base.{
  Bool, true, false, not, ◌&&◌, ◌||◌, Option, none, some, List, [], ◌∷◌, ◌==◌, string_eq, nat_eq,
  if◌then◌else◌, inl, inr, ◌⊎◌, length, leb, ℕ, String,
}
use drc_pay.Exec.{Result, http_exception, ok, err, Exec, ◌>>=◌, ◌>>◌, require}
use Prim.Native.Char.{code}

-- `SignupRequest`
pub record SignupRequest : Type 0 where
  pub name : String
  pub settlement_msisdn : String
  pub settlement_provider : Option String
  pub operator_till : Option String
  pub username : String
  pub password : String

abbrev pub all_of : (ℕ → Bool) → List ℕ → Bool
all_of p [] = true
all_of p (c ∷ s) = p c && all_of p s

-- `^\+?243\d{9}$` after its optional sign
unfoldable pub is_drc_number : (ℕ → Bool) → List ℕ → Bool
is_drc_number decimal (a ∷ b ∷ c ∷ s) =
    a == b'2' && b == b'4' && c == b'3' && all_of decimal s && length s == 9
is_drc_number decimal _ = false

-- one sign may go before it
abbrev pub unsigned_text : String → String
unsigned_text String.[] = String.[]
unsigned_text (String.◌∷◌ c s) = if code c == b'+' then s else String.◌∷◌ c s

-- `^\d{3,12}$`
unfoldable pub is_till : (ℕ → Bool) → List ℕ → Bool
is_till decimal s = all_of decimal s && leb 3 (length s) && leb (length s) 12

-- `provider in PROVIDER_DISPLAY_NAMES`
unfoldable pub known_provider : String → Bool
known_provider p = p == "VODACOM_MPESA_COD" || p == "AIRTEL_COD" || p == "ORANGE_COD"

-- `_clean(value) if value else None`
abbrev pub cleaned : Option String → Option String
cleaned none = none
cleaned (some v) = if v == "" then none else some (strip_text v)

abbrev pub none_or_passes : (String → Bool) → Option String → Bool
none_or_passes p none = true
none_or_passes p (some v) = p v

-- the checks of the name and the username, of the password, and of the three others
unfoldable pub valid_names : SignupRequest → Bool
valid_names b =
    not (strip_text b.name == "")
    && leb (length (codes (strip_text b.name))) 80
    && is_handle (codes (strip_text b.username))
    && leb min_password (length (codes b.password))

unfoldable pub valid_settlement : (ℕ → Bool) → SignupRequest → Bool
unfolding is_drc_number is_till known_provider
valid_settlement decimal b =
    is_drc_number decimal (codes (unsigned_text (strip_text b.settlement_msisdn)))
    && none_or_passes known_provider (cleaned b.settlement_provider)
    && none_or_passes (λ t. is_till decimal (codes t)) (cleaned b.operator_till)

-- the arguments of `onboarding.signup`
abbrev pub signup_args : String → String → SignupRequest → Signup
signup_args id hash b = record {
  id = id;
  password_hash = hash;
  name = strip_text b.name;
  settlement_msisdn = unsigned_text (strip_text b.settlement_msisdn);
  settlement_provider = cleaned b.settlement_provider;
  operator_till = cleaned b.operator_till;
  username = strip_text b.username;
}

abbrev pub or_409 : (OnboardingError ⊎ Merchant) → Exec Site Merchant
or_409 (inl _) s = (err (http_exception 409), s)
or_409 (inr m) s = (ok m, s)

abbrev pub on_signup : {A : Type 0} → Exec Registry A → Exec Site A
on_signup f s = let (a, r) = f (registry_of s) in (a, with_registry s r)

-- `signup` of the routes
unfoldable pub post_signup :
    (ℕ → Bool) → (String → Result (Option ℕ)) → String → String → SignupRequest → Exec Site Merchant
unfolding valid_names valid_settlement
post_signup decimal numeric id hash b = do
  require (valid_names b && valid_settlement decimal b) (http_exception 422)
  made ← on_signup (signup numeric (signup_args id hash b))
  or_409 made
