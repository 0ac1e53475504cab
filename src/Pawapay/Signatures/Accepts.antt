-- ===== src/Pawapay/Signatures/Accepts.antt =====
-- integrations/pawapay/signatures.py: which callbacks are accepted.
use drc_pay.Base.{
  ℕ, ◌+◌, ◌≤◌, ◌<◌, ◌≡◌, ◌≢◌, ◌↔◌, ◌⊎◌, inl, inr, refl, sym, ◌∙◌, Bool, true, false, not, Option,
  none, some, List, [], ◌∷◌, nat_eq, Bool-cases, Option-cases, arith,
}
use mathlib.Core.Path.{subst}
use drc_pay.Text.{is_empty, codes}
use drc_pay.Pawapay.Scan.{Chars, same_chars, lower, digest_parts}
use drc_pay.Pawapay.Signatures.{
  Refusal, signature_error, Checked, good, bad, ◌>>=◌, ensure, present, Crypto, Callback,
  get_header, is_ascii, SignatureInput, parse_signature_input, created_at, is_fresh,
  build_signature_base, digest_fn, check_content_digest, parse_signature, der_sig, check_signature,
  check_input, verify_pawapay_signature,
}

pub same_chars_iff : (s t : Chars) → (same_chars s t ≡ true) ↔ (s ≡ t)
same_chars_iff [] [] = ground arith
same_chars_iff [] (y ∷ ys) = ground arith
same_chars_iff (x ∷ xs) [] = ground arith
same_chars_iff (x ∷ xs) (y ∷ ys) = ground (arith, same_chars_iff xs ys)

Checked-cases :
    {A : Type 0} (m : Checked A) → ((a : A) × (m ≡ good a)) ⊎ ((e : Refusal) × (m ≡ bad e))
Checked-cases (good a) = inl (a, refl)
Checked-cases (bad e) = inr (e, refl)

bind_good :
    {A B : Type 0} (m : Checked A) (f : A → Checked B) (b : B)
    → (m >>= f) ≡ good b
    → (a : A) × (m ≡ good a) × (f a ≡ good b)
bind_good (good a) f b h = (a, refl, h)
bind_good (bad e) f b h = cc

ensure_good :
    {A : Type 0} (b : Bool) (e : Refusal) (m : Checked A) (a : A)
    → (ensure b e >>= λ _. m) ≡ good a
    → (b ≡ true) × (m ≡ good a)
ensure_good true e m a h = (refl, h)
ensure_good false e m a h = cc

present_good : {A : Type 0} (o : Option A) (a : A) → present o ≡ good a → o ≡ some a
present_good none a h = cc
present_good (some b) a h = cc

-- The digest in the header is that of the body.
pub record IsDigested {Key : Type 0} (k : Crypto Key) (content_digest : Chars) (body : List ℕ)
    : Type 0 where
  pub algorithm : Chars
  pub value : Chars
  pub digest : List ℕ → List ℕ
  pub digest_read : digest_parts content_digest ≡ some (algorithm, value)
  pub known : digest_fn k (lower algorithm) ≡ some digest
  pub ascii : is_ascii value ≡ true
  pub matches : k.b64encode (digest body) ≡ value

-- The signature is that of the base, under the key of the text.
pub record IsVerified {Key : Type 0} (k : Crypto Key) (pem : Chars) (raw : List ℕ) (base : Chars)
    : Type 0 where
  pub key : Key
  pub loaded : k.load_key pem ≡ some key
  pub elliptic : k.is_elliptic key ≡ true
  pub verified : k.verifies key (der_sig k raw) base ≡ true

-- What the parsed `Signature-Input` says is fresh, and the signature is that of its components.
pub record IsSignedInput {Key : Type 0} (k : Crypto Key) (pem : Chars) (r : Callback) (now : ℕ)
    (input : SignatureInput) : Type 0 where
  pub created : ℕ
  pub base : Chars
  pub sent : Chars
  pub raw : List ℕ
  pub created_read : created_at input ≡ good created
  pub not_older : now ≤ created + 300
  pub not_newer : created ≤ now + 300
  pub base_built : build_signature_base r input.covered input.params_value ≡ good base
  pub signature_header : get_header (codes "signature") r.headers ≡ good sent
  pub signature_read : parse_signature k sent input.label ≡ good raw
  pub verified : IsVerified k pem raw base

-- There is a key, the body is the one that was digested, and the callback is signed and fresh.
pub record IsSigned {Key : Type 0} (k : Crypto Key) (pem : Chars) (r : Callback) (now : ℕ)
    : Type 0 where
  pub content_digest : Chars
  pub header : Chars
  pub input : SignatureInput
  pub has_key : is_empty pem ≡ false
  pub digest_header : get_header (codes "content-digest") r.headers ≡ good content_digest
  pub digested : IsDigested k content_digest r.raw_body
  pub input_header : get_header (codes "signature-input") r.headers ≡ good header
  pub input_read : parse_signature_input header ≡ good input
  pub signed : IsSignedInput k pem r now input

module _ {Key : Type 0} (k : Crypto Key) where
  check_content_digest-IsDigested :
      (cd : Chars) (body : List ℕ) → check_content_digest k cd body ≡ good tt → IsDigested k cd body
  unfolding check_content_digest
  check_content_digest-IsDigested cd body h = elim (Option-cases (digest_parts cd)) [
    | inl e ↦ cc (rw e at h)
    | inr ((algorithm, value), e) ↦ elim (Option-cases (digest_fn k (lower algorithm))) [
      | inl f ↦ cc (rw f at (rw e at h))
      | inr (digest, f) ↦ elim (Bool-cases (is_ascii value)) [
        | inl g ↦ elim (Bool-cases (same_chars (k.b64encode (digest body)) value)) [
          | inl m ↦ record {
            algorithm = algorithm;
            value = value;
            digest = digest;
            digest_read = e;
            known = f;
            ascii = g;
            matches = (same_chars_iff (k.b64encode (digest body)) value).0 m;
          }
          | inr m ↦ cc (rw m at (rw g at (rw f at (rw e at h))))
        ]
        | inr g ↦ cc (rw g at (rw f at (rw e at h)))
      ]
    ]
  ]

  check_signature-IsVerified :
      (pem : Chars) (raw : List ℕ) (base : Chars)
      → check_signature k pem raw base ≡ good tt
      → IsVerified k pem raw base
  unfolding check_signature
  check_signature-IsVerified pem raw base h = elim (Option-cases (k.load_key pem)) [
    | inl e ↦ cc (rw e at h)
    | inr (key, e) ↦ elim (Bool-cases (k.is_elliptic key)) [
      | inl f ↦ elim (Bool-cases (k.verifies key (der_sig k raw) base)) [
        | inl g ↦ record { key = key; loaded = e; elliptic = f; verified = g }
        | inr g ↦ cc (rw g at (rw f at (rw e at h)))
      ]
      | inr f ↦ cc (rw f at (rw e at h))
    ]
  ]

  module _ (pem : Chars) (r : Callback) (now : ℕ) where
    check_input-IsSignedInput :
        (input : SignatureInput)
        → check_input k pem r now input ≡ good tt
        → IsSignedInput k pem r now input
    unfolding check_input
    check_input-IsSignedInput input h =
        let (created, created_read, h1) =
          bind_good (created_at input)
            (λ c. ensure (is_fresh now c) signature_error >>= λ _.
              build_signature_base r input.covered input.params_value >>= λ b.
              get_header (codes "signature") r.headers >>= λ s.
              parse_signature k s input.label >>= λ x. check_signature k pem x b)
            tt h in
        let (fresh, h2) =
          ensure_good (is_fresh now created) signature_error
            (build_signature_base r input.covered input.params_value >>= λ b.
              get_header (codes "signature") r.headers >>= λ s.
              parse_signature k s input.label >>= λ x. check_signature k pem x b)
            tt h1 in
        let (base, base_built, h3) =
          bind_good (build_signature_base r input.covered input.params_value)
            (λ b. get_header (codes "signature") r.headers >>= λ s.
              parse_signature k s input.label >>= λ x. check_signature k pem x b)
            tt h2 in
        let (sent, signature_header, h4) =
          bind_good (get_header (codes "signature") r.headers)
            (λ s. parse_signature k s input.label >>= λ x. check_signature k pem x base) tt h3 in
        let (raw, signature_read, h5) =
          bind_good (parse_signature k sent input.label) (λ x. check_signature k pem x base) tt
            h4 in
        record {
          created = created;
          base = base;
          sent = sent;
          raw = raw;
          created_read = created_read;
          not_older = ground (arith, fresh);
          not_newer = ground (arith, fresh);
          base_built = base_built;
          signature_header = signature_header;
          signature_read = signature_read;
          verified = check_signature-IsVerified pem raw base h5;
        }

    verify_pawapay_signature-IsSigned :
        verify_pawapay_signature k pem r now ≡ good tt → IsSigned k pem r now
    unfolding verify_pawapay_signature
    verify_pawapay_signature-IsSigned h =
        let (has_key, h1) =
          ensure_good (not (is_empty pem)) signature_error
            (get_header (codes "content-digest") r.headers >>= λ d.
              check_content_digest k d r.raw_body >>= λ _.
              get_header (codes "signature-input") r.headers >>= λ x.
              parse_signature_input x >>= λ i. check_input k pem r now i)
            tt h in
        let (cd, digest_header, h2) =
          bind_good (get_header (codes "content-digest") r.headers)
            (λ d. check_content_digest k d r.raw_body >>= λ _.
              get_header (codes "signature-input") r.headers >>= λ x.
              parse_signature_input x >>= λ i. check_input k pem r now i)
            tt h1 in
        let (u, digested, h3) =
          bind_good (check_content_digest k cd r.raw_body)
            (λ _. get_header (codes "signature-input") r.headers >>= λ x.
              parse_signature_input x >>= λ i. check_input k pem r now i)
            tt h2 in
        let (header, input_header, h4) =
          bind_good (get_header (codes "signature-input") r.headers)
            (λ x. parse_signature_input x >>= λ i. check_input k pem r now i) tt h3 in
        let (input, input_read, h5) =
          bind_good (parse_signature_input header) (λ i. check_input k pem r now i) tt h4 in
        record {
          content_digest = cd;
          header = header;
          input = input;
          has_key = ground (arith, has_key);
          digest_header = digest_header;
          digested = check_content_digest-IsDigested cd r.raw_body digested;
          input_header = input_header;
          input_read = input_read;
          signed = check_input-IsSignedInput input h5;
        }

  digested-check :
      (cd : Chars) (body : List ℕ) → IsDigested k cd body → check_content_digest k cd body ≡ good tt
  unfolding check_content_digest
  digested-check cd body d = rw d.digest_read (
      rw d.known
        (rw d.ascii (rw ((same_chars_iff (k.b64encode (d.digest body)) d.value).1 d.matches) refl)))

  known_digest :
      (algorithm : Chars) (digest : List ℕ → List ℕ)
      → digest_fn k algorithm ≡ some digest
      → (digest ≡ k.sha256) ⊎ (digest ≡ k.sha512)
  known_digest algorithm digest h = elim (Bool-cases (same_chars algorithm (codes "sha-256"))) [
    | inl e ↦ (let p : some k.sha256 ≡ some digest = rw e at h in inl (cc))
    | inr e ↦ elim (Bool-cases (same_chars algorithm (codes "sha-512"))) [
      | inl f ↦ (let p : some k.sha512 ≡ some digest = rw f at (rw e at h) in inr (cc))
      | inr f ↦ cc (rw f at (rw e at h))
    ]
  ]

  mismatch-check :
      (cd : Chars) (old body : List ℕ) (d : IsDigested k cd old)
      → k.b64encode (d.digest body) ≢ k.b64encode (d.digest old)
      → check_content_digest k cd body ≡ bad signature_error
  unfolding check_content_digest
  mismatch-check cd old body d n =
      elim (Bool-cases (same_chars (k.b64encode (d.digest body)) d.value)) [
        | inl e ↦
            absurd (n ((same_chars_iff (k.b64encode (d.digest body)) d.value).0 e ∙ sym d.matches))
        | inr e ↦ rw d.digest_read (rw d.known (rw d.ascii (rw e refl)))
      ]

  verified-check :
      (pem : Chars) (raw : List ℕ) (base : Chars)
      → IsVerified k pem raw base
      → check_signature k pem raw base ≡ good tt
  unfolding check_signature
  verified-check pem raw base v = rw v.loaded (rw v.elliptic (rw v.verified refl))

  fresh_of :
      (now created : ℕ) → now ≤ created + 300 → created ≤ now + 300 → is_fresh now created ≡ true
  fresh_of now created a b = ground arith

  module _ (pem : Chars) (r : Callback) (now : ℕ) where
    input-check :
        (input : SignatureInput)
        → IsSignedInput k pem r now input
        → check_input k pem r now input ≡ good tt
    unfolding check_input
    input-check input s = rw s.created_read (
        rw (fresh_of now s.created s.not_older s.not_newer) (
          rw s.base_built (
            rw s.signature_header
              (rw s.signature_read (verified-check pem s.raw s.base s.verified)))))

    -- A callback is accepted exactly when there is a key, the digest in its header is that of its body, its
    -- `created` is at most 300 seconds from now, and the key verifies its signature over the components
    -- that it lists.
    pub verify_pawapay_signature_iff :
        (verify_pawapay_signature k pem r now ≡ good tt) ↔ IsSigned k pem r now
    unfolding verify_pawapay_signature
    verify_pawapay_signature_iff = (
      verify_pawapay_signature-IsSigned pem r now,
      λ s. rw s.has_key (
          rw s.digest_header (
            rw (digested-check s.content_digest r.raw_body s.digested)
              (rw s.input_header (rw s.input_read (input-check s.input s.signed))))),
    )

    -- A callback that is accepted is refused, with `SignatureError`, from 601 seconds later on.
    pub replayed-is_refused :
        (later : ℕ)
        → verify_pawapay_signature k pem r now ≡ good tt
        → now + 600 < later
        → verify_pawapay_signature k pem r later ≡ bad signature_error
    unfolding verify_pawapay_signature check_input
    replayed-is_refused later h l =
        let s : IsSigned k pem r now = verify_pawapay_signature-IsSigned pem r now h in
        let stale : is_fresh later s.signed.created ≡ false = ground (arith, s.signed.not_newer) in
        rw s.has_key (
          rw s.digest_header (
            rw (digested-check s.content_digest r.raw_body s.digested)
              (rw s.input_header (rw s.input_read (rw s.signed.created_read (rw stale refl))))))

    -- A callback that is accepted is refused, with `SignatureError`, once its body is another one that has
    -- other digests.
    pub tampered-is_refused :
        (body : List ℕ)
        → verify_pawapay_signature k pem r now ≡ good tt
        → k.b64encode (k.sha256 body) ≢ k.b64encode (k.sha256 r.raw_body)
        → k.b64encode (k.sha512 body) ≢ k.b64encode (k.sha512 r.raw_body)
        → verify_pawapay_signature k pem (record r { raw_body = body }) now ≡ bad signature_error
    unfolding verify_pawapay_signature
    tampered-is_refused body h n256 n512 =
        let s : IsSigned k pem r now = verify_pawapay_signature-IsSigned pem r now h in
        let d : IsDigested k s.content_digest r.raw_body = s.digested in
        let other : k.b64encode (d.digest body) ≢ k.b64encode (d.digest r.raw_body) =
          elim (known_digest (lower d.algorithm) d.digest d.known) [
            | inl e ↦ subst (λ f. k.b64encode (f body) ≢ k.b64encode (f r.raw_body)) (sym e) n256
            | inr e ↦ subst (λ f. k.b64encode (f body) ≢ k.b64encode (f r.raw_body)) (sym e) n512
          ] in
        rw s.has_key
          (rw s.digest_header (rw (mismatch-check s.content_digest r.raw_body body d other) refl))
