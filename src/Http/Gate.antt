-- ===== src/Http/Gate.antt =====
-- backend/src/drc_pay_api/main.py: what `create_app` refuses to start with, the shared-password gate and
-- the cache headers. base64 and UTF-8 are parameters; texts are lists of code points.
use drc_pay.Base.{
  ℕ, ◌≡◌, ◌≢◌, refl, String, ◌==◌, string_eq, nat_eq, Bool, true, false, not, ◌&&◌, ◌||◌, Option,
  none, some, is_some, List, [], ◌∷◌, if◌then◌else◌, Bool-cases, inl, inr,
}
use drc_pay.Text.{codes, is_empty}
use drc_pay.Pawapay.Scan.{Chars, same_chars, after_text}
use drc_pay.Pawapay.Signatures.{Checked, good, bad, ◌>>=◌, type_error, is_ascii}
use drc_pay.Pawapay.Signatures.Accepts.{same_chars_iff}

-- the settings that `create_app` looks at
pub record Settings : Type 0 where
  pub environment : String
  pub basic_auth_password : Chars
  pub ussd_shared_secret : Chars

-- the `RuntimeError`s of `create_app`
pub data StartupError : Type 0 where
  unknown_environment no_password no_ussd_secret : StartupError

-- the checks of `create_app` before anything is built
unfoldable pub startup_error : Settings → Option StartupError
startup_error s =
    if not (s.environment == "local" || s.environment == "sandbox" || s.environment == "production")
    then some unknown_environment
    else if s.environment == "sandbox" && is_empty s.basic_auth_password
    then some no_password
    else if s.environment == "production" && is_empty s.ussd_shared_secret
    then some no_ussd_secret
    else none

abbrev pub starts_with : String → Chars → Bool
starts_with p path = is_some (after_text (codes p) path)

-- `path.startswith` of several prefixes
abbrev pub starts_with_any : List String → Chars → Bool
starts_with_any [] path = false
starts_with_any (p ∷ ps) path = starts_with p path || starts_with_any ps path

abbrev pub session_gated_prefixes : List String
session_gated_prefixes = "/auth" ∷ "/admin" ∷ "/transactions" ∷ "/merchants" ∷ "/charges" ∷ []

abbrev pub public_prefixes : List String
public_prefixes =
    "/pay" ∷ "/ussd" ∷ "/public" ∷ "/customer" ∷ "/signup" ∷ "/console" ∷ "/staff" ∷ []

abbrev pub auth_exempt : Chars → Bool
auth_exempt path =
    same_chars path (codes "/health")
    || same_chars path (codes "/demo/credentials")
    || same_chars path (codes "/")

-- `gated`
unfoldable pub is_gated : Chars → Bool
unfolding after_text
is_gated path =
    not (auth_exempt path)
    && not (starts_with "/webhooks/" path)
    && not (starts_with_any public_prefixes path)
    && not (starts_with_any session_gated_prefixes path)

-- `partition(":")`, without the colon
unfoldable pub partition : Chars → Chars × Chars
partition [] = ([], [])
partition (c ∷ s) = let (a, b) = partition s in if c == b':' then ([], s) else (c ∷ a, b)

-- `secrets.compare_digest` of two texts
abbrev pub compare_texts : Chars → Chars → Checked Bool
compare_texts s t = if is_ascii s && is_ascii t then good (same_chars s t) else bad type_error

-- the response that a middleware makes, or that of the routes
pub data GateAnswer : Type 0 where
  refused_401 passed_on : GateAnswer

module _ (b64decode : Chars → Option (List ℕ)) (utf8 : List ℕ → Option Chars) where
  abbrev pub decoded : Option (List ℕ) → Option Chars
  decoded none = none
  decoded (some bytes) = utf8 bytes

  -- the user and the password of the header, or none where the code answers False
  unfoldable pub basic_credentials : Chars → Option (Chars × Chars)
  unfolding after_text partition
  basic_credentials authorization = elim (after_text (codes "Basic ") authorization) [
    | none ↦ none
    | some encoded ↦ elim (decoded (b64decode encoded)) [
      | none ↦ none
      | some text ↦ some (partition text)
    ]
  ]

  abbrev pub credentials_ok : Option (Chars × Chars) → Chars → Checked Bool
  credentials_ok none password = good false
  credentials_ok (some (user, supplied)) password = do
    known ← compare_texts user (codes "drcpay")
    if known then compare_texts supplied password else good false

  -- `_basic_auth_ok`
  unfoldable pub basic_auth_ok : Chars → Chars → Checked Bool
  unfolding basic_credentials
  basic_auth_ok authorization password = credentials_ok (basic_credentials authorization) password

  abbrev pub answer_for : Bool → GateAnswer
  answer_for true = passed_on
  answer_for false = refused_401

  -- `_gate`
  unfoldable pub gate : Settings → Chars → Chars → Chars → Checked GateAnswer
  unfolding is_gated basic_auth_ok
  gate s method path authorization =
      if not (is_empty s.basic_auth_password)
        && not (same_chars method (codes "OPTIONS"))
        && is_gated path
      then (basic_auth_ok authorization s.basic_auth_password >>= λ known. good (answer_for known))
      else good passed_on

-- `_cache_discipline`: the `Cache-Control` that it sets
unfoldable pub cache_control : Chars → Option String
cache_control path =
    if starts_with_any session_gated_prefixes path || same_chars path (codes "/demo/credentials")
    then some "no-store"
    else if same_chars path (codes "/") || starts_with_any ("/console" ∷ "/customer" ∷ []) path
    then some "no-cache"
    else none

same_text : (s t : Chars) → compare_texts s t ≡ good true → s ≡ t
same_text s t h = elim (Bool-cases (is_ascii s && is_ascii t)) [
  | inl a ↦ (let p : good (same_chars s t) ≡ good true = rw a at h in (same_chars_iff s t).0 (cc))
  | inr a ↦ cc (rw a at h)
]

module _ (b64decode : Chars → Option (List ℕ)) (utf8 : List ℕ → Option Chars) where
  known_credentials :
      (c : Option (Chars × Chars)) (password : Chars)
      → credentials_ok b64decode utf8 c password ≡ good true
      → c ≡ some (codes "drcpay", password)
  known_credentials none password h = cc
  known_credentials (some (user, supplied)) password h = elim (Bool-cases (is_ascii user)) [
    | inl a ↦ elim (Bool-cases (same_chars user (codes "drcpay"))) [
      | inl u ↦
          let k : compare_texts supplied password ≡ good true = rw u at (rw a at h) in
          cc ((same_chars_iff user (codes "drcpay")).0 u, same_text supplied password k)
      | inr u ↦ cc (rw u at (rw a at h))
    ]
    | inr a ↦ cc (rw a at h)
  ]

  let_through :
      (known : Checked Bool)
      → (known >>= λ b. good (answer_for b64decode utf8 b)) ≡ good passed_on
      → known ≡ good true
  let_through (good true) h = refl
  let_through (good false) h = cc
  let_through (bad e) h = cc

  sandbox_password :
      (s : Settings)
      → startup_error s ≡ none
      → s.environment ≡ "sandbox"
      → is_empty s.basic_auth_password ≡ false
  unfolding startup_error
  sandbox_password s st e = elim (Bool-cases (is_empty s.basic_auth_password)) [
    | inl p ↦ cc (rw p at (rw e at st))
    | inr p ↦ p
  ]

  -- Where the program has started in the sandbox, a request that is no preflight and is for none of the
  -- exempt paths is passed on only with the user `drcpay` and the password of the settings.
  pub sandbox-gate :
      (s : Settings) (method path authorization : Chars)
      → startup_error s ≡ none
      → s.environment ≡ "sandbox"
      → method ≢ codes "OPTIONS"
      → is_gated path ≡ true
      → gate b64decode utf8 s method path authorization ≡ good passed_on
      → basic_credentials b64decode utf8 authorization
        ≡ some (codes "drcpay", s.basic_auth_password)
  unfolding gate basic_auth_ok
  sandbox-gate s method path authorization st e m g h =
      let method_other : same_chars method (codes "OPTIONS") ≡ false =
        elim (Bool-cases (same_chars method (codes "OPTIONS"))) [
          | inl p ↦ absurd (m ((same_chars_iff method (codes "OPTIONS")).0 p))
          | inr p ↦ p
        ] in
      known_credentials (basic_credentials b64decode utf8 authorization) s.basic_auth_password (
        let_through
          (credentials_ok b64decode utf8 (basic_credentials b64decode utf8 authorization)
            s.basic_auth_password)
          (rw g at (rw method_other at (rw (sandbox_password s st e) at h))))
