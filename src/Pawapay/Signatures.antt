-- ===== src/Pawapay/Signatures.antt =====
-- backend/src/drc_pay_api/integrations/pawapay/signatures.py: the check of a signed callback. Hashes, base64
-- and the cryptography library are parameters; texts are lists of code points, and a callback's
-- headers are Latin-1.
pub mod Accepts
use drc_pay.Pawapay.Scan.{
  Chars, same_chars, lower, upper_chars, all_chars, digest_parts, InputParts, input_parts, words,
  lstrip_quotes, rstrip_quotes, find_params, last_value, find_signature,
}
use drc_pay.Base.{
  ℕ, ◌+◌, ◌-◌, ◌*◌, suc, zero, ⊤, Bool, true, false, not, ◌&&◌, ◌||◌, Option, none, some, List, [],
  ◌∷◌, ◌++◌, map, leb, ltb, ◌==◌, nat_eq, if◌then◌else◌, length,
}
use drc_pay.Text.{is_digit, is_empty, strip, read_digits, codes}

-- `SignatureError`, and the errors of Python's own that the code does not catch
pub data Refusal : Type 0 where
  signature_error type_error value_error : Refusal

pub data Checked (A : Type 0) : Type 0 where
  good : A → Checked A
  bad : Refusal → Checked A

infixl 5 ◌>>=◌
abbrev pub ◌>>=◌ : {A B : Type 0} → Checked A → (A → Checked B) → Checked B
good a >>= f = f a
bad e >>= f = bad e

infixl 5 ◌>>◌
abbrev pub ◌>>◌ : {A B : Type 0} → Checked A → Checked B → Checked B
m >> k = m >>= λ _. k

-- `if not c: raise e`
abbrev pub ensure : Bool → Refusal → Checked ⊤
ensure true e = good tt
ensure false e = bad e

-- a value, or `SignatureError`
abbrev pub present : {A : Type 0} → Option A → Checked A
present none = bad signature_error
present (some a) = good a

-- the hashes, base64, and the cryptography library with its keys; `load_key` gives none where it raises
pub record Crypto (Key : Type 0) : Type 0 where
  pub sha256 : List ℕ → List ℕ
  pub sha512 : List ℕ → List ℕ
  pub b64encode : List ℕ → Chars
  pub b64decode : Chars → Option (List ℕ)
  pub load_key : Chars → Option Key
  pub is_elliptic : Key → Bool
  pub encode_dss : ℕ → ℕ → List ℕ
  pub verifies : Key → List ℕ → Chars → Bool

-- the callback's request
pub record Callback : Type 0 where
  pub method : Chars
  pub path : Chars
  pub host : Chars
  pub headers : List (Chars × Chars)
  pub raw_body : List ℕ

abbrev pub max_age_seconds : ℕ
max_age_seconds = 300

-- `_get`
unfoldable pub get_header : Chars → List (Chars × Chars) → Checked Chars
get_header name [] = bad signature_error
get_header name ((key, value) ∷ headers) =
    if same_chars (lower key) name then good value else get_header name headers

abbrev pub is_ascii : Chars → Bool
is_ascii s = all_chars (λ c. leb c 127) s

-- `hmac.compare_digest` of two texts, the first of which is ASCII
abbrev pub compare_digest : Chars → Chars → Checked Bool
compare_digest expected s = if is_ascii s then good (same_chars expected s) else bad type_error

-- `str.isdigit` of a Latin-1 text: the superscripts 1, 2 and 3 are digits too
abbrev pub is_digits : Chars → Bool
is_digits s =
    not (is_empty s) && all_chars (λ c. is_digit c || c == 0xb2 || c == 0xb3 || c == 0xb9) s

-- `int` of such a text, which takes the decimal digits only, and at most 4300 of them
abbrev pub int_of : Chars → Checked ℕ
int_of s =
    if all_chars is_digit s && leb (length s) 4300 then good (read_digits 0 s) else bad value_error

abbrev pub starts_with_at : Chars → Bool
starts_with_at [] = false
starts_with_at (c ∷ s) = c == b'@'

-- `_component_value`
unfoldable pub component_value : Callback → Chars → Checked Chars
unfolding get_header
component_value r component =
    if same_chars component (codes "@method")
    then good (upper_chars r.method)
    else if same_chars component (codes "@authority")
    then good (lower r.host)
    else if same_chars component (codes "@path")
    then good r.path
    else if starts_with_at component
    then bad signature_error
    else get_header component r.headers >>= λ v. good (strip v)

-- a line of the base, with its name in quotes
abbrev pub base_line : Chars → Chars → Chars
base_line name value = b'"' ∷ name ++ (codes "\": " ++ value)

-- `_build_signature_base`, whose lines end with that of the parameters
unfoldable pub build_signature_base : Callback → List Chars → Chars → Checked Chars
unfolding component_value
build_signature_base r [] params_value = good (base_line (codes "@signature-params") params_value)
build_signature_base r (c ∷ covered) params_value = do
  value ← component_value r c
  rest ← build_signature_base r covered params_value
  good (base_line c value ++ 10 ∷ rest)

-- what `_parse_signature_input` returns
pub record SignatureInput : Type 0 where
  pub label : Chars
  pub covered : List Chars
  pub params_value : Chars
  pub params : List (Chars × Chars)

abbrev pub nonempty : {A : Type 0} → List A → Bool
nonempty [] = false
nonempty (_ ∷ _) = true

abbrev pub covered_of : InputParts → List Chars
covered_of p = map (λ w. rstrip_quotes (lstrip_quotes w)) (words [] p.listed)

-- `_parse_signature_input`
unfoldable pub parse_signature_input : Chars → Checked SignatureInput
unfolding input_parts words lstrip_quotes rstrip_quotes find_params
parse_signature_input value = do
  p ← present (input_parts value)
  ensure (nonempty (covered_of p)) signature_error
  good (record {
    label = p.label;
    covered = covered_of p;
    params_value = b'(' ∷ p.listed ++ b')' ∷ p.params;
    params = find_params 0 p.params;
  })

-- `created`, as a number
unfoldable pub created_at : SignatureInput → Checked ℕ
unfolding last_value
created_at input = do
  created ← present (last_value (codes "created") input.params)
  ensure (is_digits created) signature_error
  int_of created

-- `abs(now - created) <= _MAX_AGE_SECONDS`
abbrev pub is_fresh : ℕ → ℕ → Bool
is_fresh now created = leb now (created + max_age_seconds) && leb created (now + max_age_seconds)

abbrev pub take : ℕ → List ℕ → List ℕ
take zero s = []
take (suc n) [] = []
take (suc n) (c ∷ s) = c ∷ take n s

abbrev pub drop : ℕ → List ℕ → List ℕ
drop zero s = s
drop (suc n) [] = []
drop (suc n) (c ∷ s) = drop n s

-- `int.from_bytes(..., "big")`, after a number
abbrev pub from_bytes : ℕ → List ℕ → ℕ
from_bytes n [] = n
from_bytes n (b ∷ s) = from_bytes (256 * n + b) s

module _ {Key : Type 0} (k : Crypto Key) where
  -- `_DIGESTS.get`
  abbrev pub digest_fn : Chars → Option (List ℕ → List ℕ)
  digest_fn algorithm =
      if same_chars algorithm (codes "sha-256")
      then some k.sha256
      else if same_chars algorithm (codes "sha-512")
      then some k.sha512
      else none

  -- `_check_content_digest`
  unfoldable pub check_content_digest : Chars → List ℕ → Checked ⊤
  unfolding digest_parts
  check_content_digest content_digest raw_body = do
    (algorithm, value) ← present (digest_parts content_digest)
    digest ← present (digest_fn (lower algorithm))
    same ← compare_digest (k.b64encode (digest raw_body)) value
    ensure same signature_error

  -- `_parse_signature`
  unfoldable pub parse_signature : Chars → Chars → Checked (List ℕ)
  unfolding find_signature
  parse_signature value label = do
    text ← present (find_signature label value)
    elim (k.b64decode text) [ none ↦ bad value_error | some raw ↦ good raw ]

  -- the signature in the encoding of the cryptography library
  unfoldable pub der_sig : List ℕ → List ℕ
  der_sig raw =
      if length raw == 64
      then k.encode_dss (from_bytes 0 (take 32 raw)) (from_bytes 0 (drop 32 raw))
      else raw

  -- from the key on
  unfoldable pub check_signature : Chars → List ℕ → Chars → Checked ⊤
  unfolding der_sig
  check_signature pem raw base = do
    key ← present (k.load_key pem)
    ensure (k.is_elliptic key) signature_error
    ensure (k.verifies key (der_sig raw) base) signature_error

  -- from the freshness on
  unfoldable pub check_input : Chars → Callback → ℕ → SignatureInput → Checked ⊤
  unfolding created_at build_signature_base parse_signature check_signature
  check_input pem r now input = do
    created ← created_at input
    ensure (is_fresh now created) signature_error
    base ← build_signature_base r input.covered input.params_value
    sent ← get_header (codes "signature") r.headers
    raw ← parse_signature sent input.label
    check_signature pem raw base

  -- `verify_pawapay_signature`
  unfoldable pub verify_pawapay_signature : Chars → Callback → ℕ → Checked ⊤
  unfolding check_content_digest parse_signature_input check_input get_header
  verify_pawapay_signature pem r now = do
    ensure (not (is_empty pem)) signature_error
    content_digest ← get_header (codes "content-digest") r.headers
    check_content_digest content_digest r.raw_body
    header ← get_header (codes "signature-input") r.headers
    input ← parse_signature_input header
    check_input pem r now input
