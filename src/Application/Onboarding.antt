-- ===== src/Application/Onboarding.antt =====
-- application/onboarding.py: a merchant signs itself up, and is approved or rejected. The drawn id and
-- the password's hash are parameters. A short code is a text; `numeric` is `isdigit` with `int`,
-- which raises ValueError for a text such as a superscript digit.
pub mod Search
pub mod Codes
use drc_pay.Text.{show_nat}
use drc_pay.Exec.{err, Exec, ok, Result}
use drc_pay.Auth.{MerchantCredential}
use drc_pay.Merchants.{get_by_short_code, Status, Merchant}
use drc_pay.Base.{
  zero, inr, none, inl, [], false, length, is_some, ltb, string_eq, if◌then◌else◌, ◌+◌, true, ◌∷◌,
  some, ◌⊎◌, filter, Bool, suc, Option, List, String, ℕ,
}
use drc_pay.Dict.{values, lookup, insert, Dict}

pub data OnboardingError : Type 0 where
  username_taken merchant_not_found : OnboardingError

pub record Registry : Type 0 where
  pub merchants : Dict String Merchant
  pub credentials : Dict String MerchantCredential

abbrev pub larger : ℕ → Option ℕ → ℕ
larger n none = n
larger n (some k) = if ltb n k then k else n

-- `max(numeric, default=1000)` over the short codes that are numbers
unfoldable pub max_code : (String → Result (Option ℕ)) → ℕ → List Merchant → Result ℕ
max_code numeric n [] = ok n
max_code numeric n (m ∷ ms) = elim (numeric m.short_code) [
  | ok k ↦ max_code numeric (larger n k) ms
  | err e ↦ err e
]

-- `while merchants.get_by_short_code(str(candidate)) is not None: candidate += 1`, on fuel
unfoldable pub first_free : ℕ → ℕ → Dict String Merchant → ℕ
first_free zero candidate rows = candidate
first_free (suc f) candidate rows =
    let rest = first_free f (candidate + 1) rows in
    if is_some (get_by_short_code (show_nat candidate "") rows) then rest else candidate

-- `_next_short_code`; the fuel is one more than the number of merchants
unfoldable pub next_short_code : (String → Result (Option ℕ)) → Dict String Merchant → Result String
unfolding max_code first_free
next_short_code numeric rows = elim (max_code numeric 1000 (values rows)) [
  | ok top ↦ ok (show_nat (first_free (suc (length rows)) (top + 1) rows) "")
  | err e ↦ err e
]

-- the arguments of `signup`, with the drawn id and the password's hash
pub record Signup : Type 0 where
  pub id : String
  pub password_hash : String
  pub name : String
  pub settlement_msisdn : String
  pub settlement_provider : Option String
  pub operator_till : Option String
  pub username : String

-- its `Merchant(...)`
abbrev pub new_merchant : Signup → String → Merchant
new_merchant s code = record {
  id = s.id;
  name = s.name;
  short_code = code;
  settlement_msisdn = s.settlement_msisdn;
  settlement_provider = s.settlement_provider;
  status = Status.pending;
  operator_till = s.operator_till;
}

abbrev pub registered : Signup → Merchant → Registry → Registry
registered s m r = record {
  merchants = insert m.id m r.merchants;
  credentials =
      insert s.username
        (record { merchant_id = m.id; username = s.username; password_hash = s.password_hash })
        r.credentials;
}

-- the rest of `signup`, once the code is drawn
abbrev pub signup_as :
    Signup → Registry → Result String → Result (OnboardingError ⊎ Merchant) × Registry
signup_as s r (err e) = (err e, r)
signup_as s r (ok code) = (ok (inr (new_merchant s code)), registered s (new_merchant s code) r)

-- `signup`
unfoldable pub signup :
    (String → Result (Option ℕ)) → Signup → Exec Registry (OnboardingError ⊎ Merchant)
unfolding next_short_code
signup numeric s r =
    if is_some (lookup s.username r.credentials)
    then (ok (inl username_taken), r)
    else signup_as s r (next_short_code numeric r.merchants)

abbrev pub with_status : Status → Merchant → Merchant
with_status status m = record m { status = status }

-- `_require`, and the assignment and save after it
unfoldable pub set_status : Status → String → Registry → (OnboardingError ⊎ Merchant) × Registry
set_status status id r = elim (lookup id r.merchants) [
  | none ↦ (inl merchant_not_found, r)
  | some m ↦ (
    inr (with_status status m),
    record r { merchants = insert m.id (with_status status m) r.merchants },
  )
]

unfoldable pub approve : String → Registry → (OnboardingError ⊎ Merchant) × Registry
unfolding set_status
approve = set_status Status.active

unfoldable pub reject : String → Registry → (OnboardingError ⊎ Merchant) × Registry
unfolding set_status
reject = set_status Status.rejected

abbrev pub is_pending : Status → Bool
is_pending Status.pending = true
is_pending _ = false

-- `pending`
unfoldable pub pending_merchants : Registry → List Merchant
pending_merchants r = filter (λ m. is_pending m.status) (values r.merchants)
