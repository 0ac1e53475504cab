-- ===== src/Lib.antt =====
-- The payment core of backend/src/drc_pay_api: money and a double-entry ledger, the state machine of
-- a payment, the two ways in which one is carried out (routed through the pawaPay rail in two legs,
-- or on-net between two wallets of one operator), the entry that every channel calls, the receiver of
-- the rail's callbacks, and the sweep that polls for outcomes whose callback never came.
--
-- Base, Base.Lists, Int: Booleans, equality as an interface, lists, Python's integers with floor
--   division. Dict: a Python dict. Exec: calls that mutate shared objects and may raise; what was
--   written before a raise stays written.
-- Ledger: domains/ledger/money.py and ledger.py. Money, Amounts and Posting are the code, Balance and
--   RoundTrip have the proofs.
-- Merchants, Charges: domains/merchants/models.py and domains/charges/models.py.
-- Transactions: domains/transactions/. States, Models, Pricing, Steps, Orchestrator and OnNet are the
--   code; Store is the transaction store and the ledger of adapters/memory.py. Fees is about
--   Pricing. Books says which postings each state calls for; Invariant states the invariant of store
--   and ledger together, and its form while one payment is worked on; Focus, Rules, Routed,
--   RoutedKeeps, NewRows, StartKeeps and OnNetKeeps have the proofs, step by step, then by handler.
-- Pawapay: integrations/pawapay/. Status is status.py and callbacks.py, Providers is providers.py, Rail
--   and Simulator are the two instances of the rail, rail.py and simulator.py. Client is the polls of
--   client.py, Requests its financial requests, its predictor and its choice of the callbacks' key.
--   Signatures is signatures.py, with Scan for its regular expressions and Signatures.Accepts for the
--   proofs.
-- Application: Payments is application/payments.py and routing.py, Outcomes is outcomes.py and
--   webhooks.py, Onboarding is onboarding.py, PaymentCodes is payment_codes.py. OutcomesKeep has the
--   proofs about Outcomes, PlayOut and PaymentsKeep those about Payments, Onboarding.Codes and
--   Onboarding.Search those about short codes.
-- Sweep: jobs/reconciliation/sweep.py; Sweep.Keeps has the proofs about one payment, Sweep.Pass those
--   about a whole pass.
-- Sql: adapters/sql.py. Table is what the stores use of the database toolkit, a parameter with its
--   laws; Rows is the rows and their reading, Transactions, Ledger and Charges are
--   the stores, Keyed is what the stores of merchants, credentials and sessions share, Accounts is these
--   stores, and Names has the proofs about their unique columns. Calls, Holds and
--   Refine set the transaction store against that of adapters/memory.py, Grouping and LedgerRead the
--   ledger.
-- Auth: domains/auth/, and its stores of adapters/memory.py; Auth.Sessions has its proofs. Times are
--   in microseconds; the password check, the token's hash and the clocks are parameters.
-- Staff: domains/staff/, Staff.Accounts is application/staff_accounts.py, AccountsKeep its proofs.
-- Text, Text.Digits: texts by their code points, decimal digits. Ledger.Amounts: the reading and
--   writing of amounts in money.py; Python's Decimal of a text is a parameter.
-- Container: the part of container.py that the channels share, with the stores they read and write.
-- Ussd: ussd/session.py; Ussd.Limiter is the limiter of http/ussd_routes.py and Ussd.Route its route,
--   Ussd.Entries, Ussd.Keeps and Ussd.Pays have the proofs about the session.
-- Http: Guards is what handlers share, MerchantApi is http/merchant_api.py, PublicRoutes is
--   http/public_routes.py, Keeps and Orders have the proofs about MerchantApi, PublicKeeps and Paid those
--   about PublicRoutes. Gate is the middleware and the start of main.py. Session is http/dependencies.py and
--   http/auth_routes.py, Admin is http/admin_routes.py and http/admin_merchants_routes.py, SignupRoute
--   is http/onboarding_routes.py, Operations is http/webhook_routes.py and http/demo_routes.py;
--   SignupKeep has the proofs about sign-up, approval and sign-in together.
-- Seed: seed.py. Wiring: the choices of container.py.
-- Tests, ChannelTests, StoreTests, GateTests: concrete payments, sign-ins, requests, databases and
--   callbacks.
--
-- A handler of the code is a function on a world (rows, postings, the rail's state). The rail is a
-- parameter: each call returns an answer or raises, and an answer `rejected` is RailRejected. Also
-- parameters are the predictor, the poller, the signature check (as the receiver calls it), the JSON
-- reader, Python's reading of numbers and the drawn ids. A currency is a key of CURRENCY_EXPONENTS. The
-- code mutates the stored object and then saves it; the model writes at the save. The recorder is absent,
-- as it is in the receiver and the sweep. Integers have no bound, as in Python; a number in the database
-- has 64 bits, and a commit of any other raises. Loops go over lists, but for two on fuel: the digits of
-- n are written with fuel n + 1, more than their number, and the search for a short code tries at most
-- one code more than there are merchants.
--
-- Not modelled: foreign keys, the engine and a lost connection of adapters/sql.py; QR images, the
-- fields of HTTP responses and the texts of USSD messages; configuration from the environment, the
-- timer of the sweep in main.py and create_staff.py, which only call what is modelled. Hashes, base64
-- and the cryptography library are parameters of the signature check.
pub mod Base
pub mod Int
pub mod Text
pub mod Dict
pub mod Exec
pub mod Ledger
pub mod Merchants
pub mod Transactions
pub mod Pawapay
pub mod Application
pub mod Sweep
pub mod Sql
pub mod Charges
pub mod Auth
pub mod Container
pub mod Ussd
pub mod Http
pub mod Staff
pub mod Seed
pub mod Wiring
pub mod Tests
pub mod ChannelTests
pub mod StoreTests
pub mod GateTests
