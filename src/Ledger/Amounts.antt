-- ===== src/Ledger/Amounts.antt =====
-- backend/src/drc_pay_api/domains/ledger/money.py: amounts read from text and written as text.
-- `Decimal(...)` of a caller's text is a parameter, which gives a finite number, or the error that the
-- text ends in: that of `decimal` for no number or an infinite one, the ValueError of `int` for a NaN. Both currencies have two decimal places; a context of Python's decimals holds 28 digits.
use drc_pay.Exec.{value_error, ok, arithmetic_error, err, Result}
use drc_pay.Ledger.Money.{exponent, known_currency, Money, Currency}
use drc_pay.Int.{◌+ℤ◌, ◌+ℤ◌, negsuc, pos, ℤ}
use drc_pay.Base.{
  ℕ, ◌+◌, ◌*◌, ◌/◌, ◌%◌, ◌^◌, suc, zero, String, Bool, true, false, ◌&&◌, ◌||◌, Option, none, some,
  List, [], ◌∷◌, ◌++◌, ltb, ◌==◌, nat_eq, if◌then◌else◌, length,
}
use drc_pay.Text.{codes, strip, is_digit, is_empty, read_digits, show_nat, digit_char}

-- a finite `Decimal`
pub record Decimal : Type 0 where
  pub negative : Bool
  pub coefficient : ℕ
  pub places : ℤ

-- the coefficient times this power of ten, rounded half up
unfoldable pub rescaled : ℕ → ℤ → ℕ
rescaled c (pos k) = c * 10 ^ k
rescaled c (negsuc k) = (2 * c + 10 ^ suc k) / (2 * 10 ^ suc k)

abbrev pub signed : Bool → ℕ → ℤ
signed false n = pos n
signed true zero = pos 0
signed true (suc n) = negsuc n

-- the digits that `quantize` can hold
abbrev pub precision : ℕ
precision = 10 ^ 28

-- `quantize`, `scaleb` and `int`
unfoldable pub from_decimal : Result Decimal → Currency → Result Money
unfolding rescaled
from_decimal (err e) currency = err e
from_decimal (ok d) currency =
    let n = rescaled d.coefficient (d.places +ℤ pos (exponent currency)) in
    if ltb n precision
    then ok (record { amount_minor = signed d.negative n; currency = currency })
    else err arithmetic_error

-- `Money.from_major`
unfoldable pub from_major : (String → Result Decimal) → String → String → Result Money
unfolding from_decimal
from_major decimal major name = elim (known_currency name) [
  | ok currency ↦ from_decimal (decimal major) currency
  | err e ↦ err e
]

abbrev pub all_digits : List ℕ → Bool
all_digits [] = true
all_digits (c ∷ s) = is_digit c && all_digits s

abbrev pub one_or_two : List ℕ → Bool
one_or_two [] = false
one_or_two (_ ∷ []) = true
one_or_two (_ ∷ _ ∷ []) = true
one_or_two _ = false

-- what may follow the whole part, and the digits of the fraction
unfoldable pub fraction : List ℕ → Option (List ℕ)
fraction [] = some []
fraction (sep ∷ f) =
    if (sep == b'.' || sep == b',') && all_digits f && one_or_two f then some f else none

abbrev pub minus_places : List ℕ → ℤ
minus_places [] = pos 0
minus_places (_ ∷ f) = negsuc (length f)

-- the digits before the first other character, put after `w`, and the rest
unfoldable pub plain_parts : List ℕ → List ℕ → List ℕ × List ℕ
plain_parts w [] = (w, [])
plain_parts w (c ∷ s) =
    let rest = plain_parts (w ++ c ∷ []) s in if is_digit c then rest else (w, c ∷ s)

abbrev pub decimal_of : List ℕ → Option (List ℕ) → Option Decimal
decimal_of w none = none
decimal_of w (some f) =
    if is_empty w
    then none
    else some
        (record { negative = false; coefficient = read_digits 0 (w ++ f); places = minus_places f })

-- the match of `_USER_AMOUNT_RE`, and the number that it stands for
unfoldable pub plain_decimal : List ℕ → Option Decimal
unfolding plain_parts fraction
plain_decimal s = let (w, rest) = plain_parts [] s in decimal_of w (fraction rest)

-- `Money.from_user_input`
unfoldable pub from_user_input : String → Currency → Result Money
unfolding plain_decimal
from_user_input text currency = elim (plain_decimal (strip (codes text))) [
  | none ↦ err value_error
  | some d ↦ from_decimal (ok d) currency
]

abbrev pub unsigned_str : ℕ → String
unsigned_str n = show_nat (n / 100) (
    String.◌∷◌ "."
      (String.◌∷◌ (digit_char (n / 10 % 10)) (String.◌∷◌ (digit_char (n % 10)) String.[])))

abbrev pub major_str : ℤ → String
major_str (pos n) = unsigned_str n
major_str (negsuc n) = String.◌∷◌ "-" (unsigned_str (suc n))

-- `Money.to_major_str`, for an amount that fits the context
unfoldable pub to_major_str : Money → String
to_major_str m = major_str m.amount_minor
