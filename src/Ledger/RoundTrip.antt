-- ===== src/Ledger/RoundTrip.antt =====
-- domains/ledger/money.py: an amount that is written by `to_major_str` and read by `from_user_input`.
use drc_pay.Ledger.Money.{Money, Currency, usd, cdf}
use drc_pay.Int.{pos, negsuc, ◌+ℤ◌}
use drc_pay.Text.Digits.{read_digits-show_nat, code-digit_char}
use drc_pay.Ledger.Amounts.{
  decimal_of, minus_places, precision, rescaled, from_decimal, to_major_str, from_user_input,
  plain_decimal, one_or_two, unsigned_str, fraction, plain_parts, all_digits,
}
use drc_pay.Text.{
  strip, show_nat, digit_char, codes, read_digits, rstrip, lstrip, is_space, is_digit, digits,
  is_empty,
}
use drc_pay.Base.{
  zero, ◌-◌, ◌%◌, ◌/◌, ◌*◌, suc, ◌++◌, ◌≡◌, refl, sym, ap, ◌∙◌, Bool, true, false, not, ◌&&◌, none,
  some, List, [], ◌∷◌, string_eq, nat_eq, arith, if◌then◌else◌, Bool-cases, inl, inr, ltb, ℕ,
  String, ◌+◌, ◌<◌,
}
use drc_pay.Exec.{ok}
use Prim.Native.Char.{code}
use mathlib.Core.List.{append-nil, append_assoc}

-- Text after digits goes on after them.
codes-digits :
    (f n : ℕ) (tail : String) → codes (digits f n tail) ≡ codes (digits f n "") ++ codes tail
unfolding digits
codes-digits zero n tail = refl
codes-digits (suc f) n tail = elim (Bool-cases (ltb n 10)) [
  | inl small ↦ rw small refl
  | inr large ↦ rw large (
      codes-digits f (n / 10) (String.◌∷◌ (digit_char (n % 10)) tail)
      ∙ (sym (
            append_assoc (codes (digits f (n / 10) "")) (code (digit_char (n % 10)) ∷ [])
              (codes tail))
          ∙ ap (λ l. l ++ codes tail)
              (sym (codes-digits f (n / 10) (String.◌∷◌ (digit_char (n % 10)) String.[])))))
]

is_digit-digit_char : (d : ℕ) → d < 10 → is_digit (code (digit_char d)) ≡ true
is_digit-digit_char d h = rw (code-digit_char d h) (ground arith)

all_digits-digits :
    (f n : ℕ) (tail : String)
    → all_digits (codes tail) ≡ true
    → all_digits (codes (digits f n tail)) ≡ true
unfolding digits
all_digits-digits zero n tail h = h
all_digits-digits (suc f) n tail h = elim (Bool-cases (ltb n 10)) [
  | inl small ↦ rw small (rw (is_digit-digit_char n (ground arith)) h)
  | inr large ↦ rw large (
      all_digits-digits f (n / 10) (String.◌∷◌ (digit_char (n % 10)) tail)
        (rw (is_digit-digit_char (n % 10) (omega arith)) h))
]

digits_nonempty :
    (f n : ℕ) (tail : String)
    → is_empty (codes tail) ≡ false
    → is_empty (codes (digits f n tail)) ≡ false
unfolding digits
digits_nonempty zero n tail h = h
digits_nonempty (suc f) n tail h = elim (Bool-cases (ltb n 10)) [
  | inl small ↦ rw small refl
  | inr large ↦ rw large (digits_nonempty f (n / 10) _ refl)
]

-- A text without white space is left as it is by `strip`.
abbrev spaceless : List ℕ → Bool
spaceless [] = true
spaceless (c ∷ s) = not (is_space c) && spaceless s

spaceless-digits : (s : List ℕ) → all_digits s ≡ true → spaceless s ≡ true
spaceless-digits [] h = refl
spaceless-digits (c ∷ s) h = ground (arith, spaceless-digits s)

spaceless-append :
    (s t : List ℕ) → spaceless s ≡ true → spaceless t ≡ true → spaceless (s ++ t) ≡ true
spaceless-append [] t h k = k
spaceless-append (c ∷ s) t h k = elim (Bool-cases (is_space c)) [
  | inl e ↦ cc (rw e at h)
  | inr e ↦ rw e (spaceless-append s t (rw e at h) k)
]

lstrip_same : (s : List ℕ) → spaceless s ≡ true → lstrip s ≡ s
unfolding lstrip
lstrip_same [] h = refl
lstrip_same (c ∷ s) h = elim (Bool-cases (is_space c)) [
  | inl e ↦ cc (rw e at h)
  | inr e ↦ rw e refl
]

rstrip_same : (s : List ℕ) → spaceless s ≡ true → rstrip s ≡ s
unfolding rstrip
rstrip_same [] h = refl
rstrip_same (c ∷ s) h = elim (Bool-cases (is_space c)) [
  | inl e ↦ cc (rw e at h)
  | inr e ↦ rw e (ap (λ l. c ∷ l) (rstrip_same s (rw e at h)))
]

plain_parts-digits :
    (w ds : List ℕ) (c : ℕ) (s : List ℕ)
    → all_digits ds ≡ true
    → is_digit c ≡ false
    → plain_parts w (ds ++ c ∷ s) ≡ (w ++ ds, c ∷ s)
unfolding plain_parts
plain_parts-digits w [] c s h k = rw k (ap (λ l. (l, c ∷ s)) (sym (append-nil w)))
plain_parts-digits w (d ∷ ds) c s h k = elim (Bool-cases (is_digit d)) [
  | inl e ↦ rw e (
      plain_parts-digits (w ++ d ∷ []) ds c s (rw e at h) k
      ∙ ap (λ l. (l, c ∷ s)) (append_assoc w (d ∷ []) ds))
  | inr e ↦ cc (rw e at h)
]

read_digits-append :
    (n : ℕ) (s t : List ℕ) → read_digits n (s ++ t) ≡ read_digits (read_digits n s) t
unfolding read_digits
read_digits-append n [] t = refl
read_digits-append n (c ∷ s) t = read_digits-append (10 * n + (c - b'0')) s t

module _ (n : ℕ) where
  -- the digits before the point
  whole : List ℕ
  whole = codes (show_nat (n / 100) "")

  -- the tenths and the hundredths
  cents : List ℕ
  cents = code (digit_char (n / 10 % 10)) ∷ code (digit_char (n % 10)) ∷ []

  written : codes (unsigned_str n) ≡ whole ++ b'.' ∷ cents
  unfolding whole cents show_nat
  written = codes-digits (suc (n / 100)) (n / 100) _

  whole_digits : all_digits whole ≡ true
  unfolding whole show_nat
  whole_digits = all_digits-digits (suc (n / 100)) (n / 100) "" refl

  whole_nonempty : is_empty whole ≡ false
  unfolding whole show_nat digits
  whole_nonempty = elim (Bool-cases (ltb (n / 100) 10)) [
    | inl small ↦ rw small refl
    | inr large ↦ rw large (digits_nonempty (n / 100) (n / 100 / 10) _ refl)
  ]

  cents_digits : all_digits cents ≡ true
  unfolding cents
  cents_digits =
      rw (is_digit-digit_char (n / 10 % 10) (omega arith))
        (rw (is_digit-digit_char (n % 10) (omega arith)) refl)

  read_cents : read_digits (read_digits (n / 100) []) cents ≡ n
  unfolding read_digits cents
  read_cents =
      rw (code-digit_char (n / 10 % 10) (omega arith), code-digit_char (n % 10) (omega arith))
        (omega arith)

  read_back : read_digits 0 (whole ++ cents) ≡ n
  unfolding whole
  read_back =
      read_digits-append 0 whole cents
      ∙ (ap (λ k. read_digits k cents) (read_digits-show_nat (n / 100) "") ∙ read_cents)

  one_or_two-cents : (if one_or_two cents then some cents else none) ≡ some cents
  unfolding cents
  one_or_two-cents = refl

  fraction-cents : fraction (b'.' ∷ cents) ≡ some cents
  unfolding fraction
  fraction-cents = rw cents_digits one_or_two-cents

  stripped : strip (codes (unsigned_str n)) ≡ whole ++ b'.' ∷ cents
  stripped =
      let plain : spaceless (whole ++ b'.' ∷ cents) ≡ true =
        spaceless-append whole (b'.' ∷ cents) (spaceless-digits whole whole_digits)
          (spaceless-digits cents cents_digits) in
      rw written
        (rw (lstrip_same (whole ++ b'.' ∷ cents) plain) (rstrip_same (whole ++ b'.' ∷ cents) plain))

  cents_places : minus_places cents ≡ negsuc 1
  unfolding cents
  cents_places = refl

  decimal_of-cents :
      decimal_of whole (some cents)
      ≡ some (record { negative = false; coefficient = n; places = negsuc 1 })
  decimal_of-cents = rw whole_nonempty (rw (read_back, cents_places) refl)

  parsed :
      plain_decimal (strip (codes (unsigned_str n)))
      ≡ some (record { negative = false; coefficient = n; places = negsuc 1 })
  unfolding plain_decimal
  parsed =
      ap plain_decimal stripped
      ∙ (ap (λ p. decimal_of p.0 (fraction p.1))
            (plain_parts-digits [] whole b'.' cents whole_digits refl)
          ∙ (ap (decimal_of whole) fraction-cents ∙ decimal_of-cents))

  rescaled_cents : rescaled n (pos 0) ≡ n
  unfolding rescaled
  rescaled_cents = omega arith

  from_cents :
      (c : Currency)
      → ltb n precision ≡ true
      → from_decimal (ok (record { negative = false; coefficient = n; places = negsuc 1 })) c
        ≡ ok (record { amount_minor = pos n; currency = c })
  unfolding from_decimal ◌+ℤ◌
  from_cents usd l = rw rescaled_cents (rw l refl)
  from_cents cdf l = rw rescaled_cents (rw l refl)

  -- An amount that is not negative and has at most 28 digits is read back from what is written of it.
  pub from_user_input-to_major_str :
      (c : Currency)
      → ltb n precision ≡ true
      → let m : Money = record { amount_minor = pos n; currency = c } in
        from_user_input (to_major_str m) c ≡ ok m
  unfolding from_user_input to_major_str
  from_user_input-to_major_str c l = rw (parsed, from_user_input) (from_cents c l)
