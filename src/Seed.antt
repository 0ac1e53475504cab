-- ===== src/Seed.antt =====
-- backend/src/drc_pay_api/seed.py: the demo merchants and logins, the bootstrap admin, and the seeding of a
-- deployment. The stores are parameters by their `save`, which gives none where it raises.
use drc_pay.Auth.{MerchantCredential}
use drc_pay.Merchants.{Merchant, Status}
use drc_pay.Staff.{StaffCredential, StaffAuth}
use drc_pay.Staff.Accounts.{upsert_staff, StaffError}
use drc_pay.Base.{
  not, ◌||◌, Option, none, some, List, [], ◌∷◌, map, ◌==◌, string_eq, String, if◌then◌else◌, ◌⊎◌,
}

abbrev pub demo_merchant : String → String → String → String → String → Option String → Merchant
demo_merchant id name code msisdn provider till = record {
  id = id;
  name = name;
  short_code = code;
  settlement_msisdn = msisdn;
  settlement_provider = some provider;
  status = Status.active;
  operator_till = till;
}

-- DEMO_MERCHANTS
abbrev pub demo_merchants : List Merchant
demo_merchants =
    demo_merchant "m_alpha" "Alpha Gas Station" "1001" "243973456789" "AIRTEL_COD" (some "507412")
    ∷ demo_merchant "m_beta" "Beta Pop-up Store" "1002" "243893456789" "ORANGE_COD" none
    ∷ demo_merchant "m_gamma" "Gamma Market" "1003" "243813456789" "VODACOM_MPESA_COD"
        (some "660145")
    ∷ []

-- DEMO_LOGINS: the merchant's id, the username and the password
abbrev pub seeded_logins : List (String × (String × String))
seeded_logins =
    ("m_alpha", ("alpha", "alpha-demo"))
    ∷ ("m_beta", ("beta", "beta-demo"))
    ∷ ("m_gamma", ("gamma", "gamma-demo"))
    ∷ []

-- the loop of the seeding functions
unfoldable pub save_each : {A S : Type 0} → (A → S → Option S) → List A → S → Option S
save_each save [] s = some s
save_each save (a ∷ l) s = elim (save a s) [ none ↦ none | some t ↦ save_each save l t ]

module _ (hash_password : String → String) where
  -- `_demo_credentials`
  unfoldable pub seeded_credentials : List MerchantCredential
  seeded_credentials =
      map
        (λ (login : String × (String × String)). record {
          merchant_id = login.0;
          username = login.1.0;
          password_hash = hash_password login.1.1;
        })
        seeded_logins

  -- `_demo_staff`, with DEMO_ADMIN
  unfoldable pub seeded_staff : List StaffCredential
  seeded_staff =
      record {
        staff_id = "s_admin";
        username = "admin";
        password_hash = hash_password "admin-demo";
        role = "admin";
      }
      ∷ []

  module _ {S : Type 0} where
    unfoldable pub seed_demo_merchants : (Merchant → S → Option S) → S → Option S
    unfolding save_each
    seed_demo_merchants save = save_each save demo_merchants

    unfoldable pub seed_demo_credentials : (MerchantCredential → S → Option S) → S → Option S
    unfolding save_each seeded_credentials
    seed_demo_credentials save = save_each save seeded_credentials

    unfoldable pub seed_demo_staff : (StaffCredential → S → Option S) → S → Option S
    unfolding save_each seeded_staff
    seed_demo_staff save = save_each save seeded_staff

-- `ensure_bootstrap_admin`: none where nothing is configured
unfoldable pub ensure_bootstrap_admin :
    String
    → (String → String)
    → String
    → String
    → StaffAuth
    → Option (StaffError ⊎ StaffCredential) × StaffAuth
unfolding upsert_staff
ensure_bootstrap_admin id hash_password username password a =
    if username == "" || password == ""
    then (none, a)
    else (let (r, b) = upsert_staff id (hash_password password) username password "admin" a in
        (some r, b))

-- the settings that the seeding looks at
pub record SeedSettings : Type 0 where
  pub database_url : String
  pub environment : String
  pub admin_username : String

-- the three `save`s, and the bootstrap of the admin, over one database
pub record SeedStores (S : Type 0) : Type 0 where
  pub save_merchant : Merchant → S → Option S
  pub save_credential : MerchantCredential → S → Option S
  pub save_staff : StaffCredential → S → Option S
  pub bootstrap : S → Option S

infixl 5 ◌>>=◌
abbrev ◌>>=◌ : {A B : Type 0} → Option A → (A → Option B) → Option B
none >>= f = none
some a >>= f = f a

-- `main`, which prints too
unfoldable pub seed_main :
    {S : Type 0} → (String → String) → SeedSettings → SeedStores S → S → Option S
unfolding seed_demo_merchants seed_demo_credentials seed_demo_staff
seed_main hash_password settings stores s =
    if settings.database_url == ""
    then some s
    else (stores.bootstrap s >>= λ t.
        if not (settings.environment == "local" || settings.environment == "sandbox")
        then some t
        else (seed_demo_merchants hash_password stores.save_merchant t >>= λ u.
            seed_demo_credentials hash_password stores.save_credential u >>= λ v.
            if not (settings.admin_username == "")
            then some v
            else seed_demo_staff hash_password stores.save_staff v))
