-- ===== src/Http/Operations.antt =====
-- backend/src/drc_pay_api/http/webhook_routes.py and demo_routes.py: the receiver of the rail's
-- callbacks as a route, and the demo's controls. The passwords of the demo's accounts are a parameter.
use drc_pay.Dict.{lookup, Dict}
use drc_pay.Merchants.{Merchant}
use drc_pay.Container.{Stores, Container}
use drc_pay.Sweep.{
  run_reconciliation, resolved_failure, resolved_success, StatusPoller, Disposition,
  ReconciliationItem,
}
use drc_pay.Transactions.Models.{World, PaymentRail}
use drc_pay.Application.Outcomes.{bad_signature, process_callback, Body, Receipt}
use drc_pay.Base.{
  filter, Bool, true, false, Option, none, some, List, [], ◌∷◌, ◌==◌, string_eq, nat_eq,
  if◌then◌else◌, length, ℕ, String,
}
use drc_pay.Exec.{http_exception, ok, err, Exec, ◌>>=◌, ◌>>◌, pure, require}

abbrev pub or_401 : {R : Type 0} → Receipt → Exec (World R) Receipt
or_401 bad_signature w = (err (http_exception 401), w)
or_401 receipt w = (ok receipt, w)

-- `pawapay_webhook`
unfoldable pub pawapay_webhook :
    {R Q : Type 0} → PaymentRail R → (Q → Bool) → (Q → Body) → Q → Exec (World R) Receipt
pawapay_webhook rail verified loads request = do
  receipt ← process_callback rail verified loads request
  or_401 receipt

-- `ReconcileResponse`
pub record ReconcileResponse : Type 0 where
  pub swept : ℕ
  pub resolved : ℕ
  pub items : List ReconciliationItem

abbrev pub has_moved : Disposition → Bool
has_moved resolved_success = true
has_moved resolved_failure = true
has_moved _ = false

-- `summary.resolved` and `summary.total`
unfoldable pub summary : List ReconciliationItem → ReconcileResponse
summary items = record {
  swept = length items;
  resolved = length (filter (λ i. has_moved i.disposition) items);
  items = items;
}

-- `demo_reconcile`
unfoldable pub demo_reconcile :
    {R : Type 0} → Container R → Option (StatusPoller R) → Exec (World R) ReconcileResponse
unfolding summary
demo_reconcile c poller = do
  require c.demo_controls_enabled (http_exception 404)
  items ← run_reconciliation c.rail poller
  pure (summary items)

-- `DemoLogin`
pub record DemoLogin : Type 0 where
  pub username : String
  pub password : String
  pub provider : Option String

abbrev pub provider_at : Option Merchant → Option String
provider_at none = none
provider_at (some m) = m.settlement_provider

abbrev pub demo_logins : List (String × String × String) → Dict String Merchant → List DemoLogin
demo_logins [] merchants = []
demo_logins ((id, user, password) ∷ rest) merchants =
    record { username = user; password = password; provider = provider_at (lookup id merchants) }
    ∷ demo_logins rest merchants

-- `demo_credentials`
unfoldable pub demo_credentials :
    {R : Type 0}
    → Container R
    → String
    → List (String × String × String)
    → Exec (Stores R) (List DemoLogin)
demo_credentials c environment accounts = do
  require c.demo_controls_enabled (http_exception 404)
  λ s. (ok (if environment == "local" then demo_logins accounts s.merchants else []), s)
