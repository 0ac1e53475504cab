-- ===== src/Pawapay/Scan.antt =====
-- backend/src/drc_pay_api/integrations/pawapay/signatures.py: the headers of a signed callback read by the
-- module's regular expressions. A text is the list of its code points. Header values are Latin-1, as the
-- server decodes them; a label, a name and an algorithm are matched as far as they go, since no character
-- of theirs is one of the text that follows them.
use drc_pay.Base.{
  ℕ, ◌+◌, ◌-◌, suc, zero, Bool, true, false, not, ◌&&◌, ◌||◌, Option, none, some, List, [], ◌∷◌,
  ◌++◌, leb, ◌==◌, nat_eq, if◌then◌else◌, length,
}
use drc_pay.Text.{is_space, is_digit, is_empty, lstrip, rstrip}

abbrev pub Chars : Type 0
Chars = List ℕ

abbrev pub same_chars : Chars → Chars → Bool
same_chars [] [] = true
same_chars [] (_ ∷ _) = false
same_chars (_ ∷ _) [] = false
same_chars (x ∷ xs) (y ∷ ys) = x == y && same_chars xs ys

infixl 5 ◌>>=◌
abbrev ◌>>=◌ : {A B : Type 0} → Option A → (A → Option B) → Option B
none >>= f = none
some a >>= f = f a

-- `str.lower` of a Latin-1 character
abbrev pub lower_char : ℕ → ℕ
lower_char c =
    if (leb b'A' c && leb c b'Z') || (leb 0xc0 c && leb c 0xde && not (c == 0xd7))
    then c + 32
    else c

abbrev pub lower : Chars → Chars
lower [] = []
lower (c ∷ s) = lower_char c ∷ lower s

-- `str.upper_chars` of a method, which is ASCII
abbrev pub upper_chars : Chars → Chars
upper_chars [] = []
upper_chars (c ∷ s) = (if leb b'a' c && leb c b'z' then c - 32 else c) ∷ upper_chars s

abbrev pub all_chars : (ℕ → Bool) → Chars → Bool
all_chars p [] = true
all_chars p (c ∷ s) = p c && all_chars p s

-- the characters at the front that are in a class, and the rest
unfoldable pub span : (ℕ → Bool) → Chars → Chars × Chars
span p [] = ([], [])
span p (c ∷ s) = let (front, rest) = span p s in if p c then (c ∷ front, rest) else ([], c ∷ s)

abbrev pub nonempty_span : Chars × Chars → Option (Chars × Chars)
nonempty_span ([], rest) = none
nonempty_span (c ∷ s, rest) = some (c ∷ s, rest)

-- one or more characters of a class
abbrev pub some_of : (ℕ → Bool) → Chars → Option (Chars × Chars)
some_of p s = nonempty_span (span p s)

-- the text after a character
unfoldable pub after_char : ℕ → Chars → Option Chars
after_char c [] = none
after_char c (x ∷ s) = if x == c then some s else none

abbrev pub is_letter : ℕ → Bool
is_letter c = (leb b'A' c && leb c b'Z') || (leb b'a' c && leb c b'z')

abbrev pub is_name_char : ℕ → Bool
is_name_char c = is_letter c || is_digit c || c == b'-'

abbrev pub is_label_char : ℕ → Bool
is_label_char c = is_name_char c || c == b'_'

abbrev pub only_spaces : {A : Type 0} → A → Chars → Option A
only_spaces a rest = if all_chars is_space rest then some a else none

-- the match of `\s*([A-Za-z0-9-]+)=:([^:]+):\s*$`
unfoldable pub digest_parts : Chars → Option (Chars × Chars)
unfolding lstrip span after_char
digest_parts s = do
  (algorithm, r) ← some_of is_name_char (lstrip s)
  r ← after_char b'=' r
  r ← after_char b':' r
  (value, r) ← some_of (λ c. not (c == b':')) r
  r ← after_char b':' r
  only_spaces (algorithm, value) r

-- the groups of a `Signature-Input` header
pub record InputParts : Type 0 where
  pub label : Chars
  pub listed : Chars
  pub params : Chars

-- the lazy group of what is no newline, up to the white space at the end
abbrev pub one_line : Chars → Chars → Chars → Option InputParts
one_line label listed params =
    if all_chars (λ c. not (c == 10)) params
    then some (record { label = label; listed = listed; params = params })
    else none

-- the match of `\s*([A-Za-z0-9_-]+)=(\((?P<list>[^)]*)\)(?P<params>[^\n]*?))\s*$`
unfoldable pub input_parts : Chars → Option InputParts
unfolding lstrip rstrip span after_char
input_parts s = do
  (label, r) ← some_of is_label_char (lstrip s)
  r ← after_char b'=' r
  r ← after_char b'(' r
  let (listed, rest) = span (λ c. not (c == b')')) r
  r ← after_char b')' rest
  one_line label listed (rstrip r)

abbrev pub word_done : Chars → List Chars
word_done [] = []
word_done (c ∷ s) = (c ∷ s) ∷ []

-- `split()`, with the word that has been begun
unfoldable pub words : Chars → Chars → List Chars
words w [] = word_done w
words w (c ∷ s) =
    let rest = words (if is_space c then [] else w ++ c ∷ []) s in
    if is_space c then word_done w ++ rest else rest

-- `strip('"')`, from the front and from the end
unfoldable pub lstrip_quotes : Chars → Chars
lstrip_quotes [] = []
lstrip_quotes (c ∷ s) = let rest = lstrip_quotes s in if c == b'"' then rest else c ∷ s

unfoldable pub rstrip_quotes : Chars → Chars
rstrip_quotes [] = []
rstrip_quotes (c ∷ s) =
    let rest = rstrip_quotes s in if c == b'"' && is_empty rest then [] else c ∷ rest

abbrev pub is_value_char : ℕ → Bool
is_value_char c = not (c == b'"') && not (c == b';')

abbrev pub quoted_value : Chars → Option (Chars × Chars)
quoted_value s = do (value, r) ← some_of is_value_char s; r ← after_char b'"' r; some (value, r)

-- `("?)([^";]+)\2`
abbrev pub param_value : Chars → Option (Chars × Chars)
param_value [] = none
param_value (c ∷ s) = if c == b'"' then quoted_value s else some_of is_value_char (c ∷ s)

-- the match of `;([a-z]+)=("?)([^";]+)\2` at the front: the name, the value and the rest
unfoldable pub param_at : Chars → Option ((Chars × Chars) × Chars)
unfolding span after_char
param_at s = do
  r ← after_char b';' s
  (name, r) ← some_of (λ c. leb b'a' c && leb c b'z') r
  r ← after_char b'=' r
  (value, r) ← param_value r
  some ((name, value), r)

-- how many characters after the next one a match takes
abbrev pub taken : Chars → Option ((Chars × Chars) × Chars) → ℕ
taken s none = 0
taken s (some (_, rest)) = length s - length rest

abbrev pub with_match :
    Option ((Chars × Chars) × Chars) → List (Chars × Chars) → List (Chars × Chars)
with_match none found = found
with_match (some (p, _)) found = p ∷ found

-- `re.findall` of it, where the first characters belong to the match before
unfoldable pub find_params : ℕ → Chars → List (Chars × Chars)
unfolding param_at
find_params skipped [] = []
find_params (suc skipped) (c ∷ s) = find_params skipped s
find_params zero (c ∷ s) =
    let hit = param_at (c ∷ s) in with_match hit (find_params (taken s hit) s)

-- the value of a name in the `dict` of the pairs, where a later pair wins
unfoldable pub last_value : Chars → List (Chars × Chars) → Option Chars
last_value name [] = none
last_value name ((k, v) ∷ rest) = elim (last_value name rest) [
  | some w ↦ some w
  | none ↦ if same_chars k name then some v else none
]

-- the text after another one
unfoldable pub after_text : Chars → Chars → Option Chars
after_text [] s = some s
after_text (c ∷ p) [] = none
after_text (c ∷ p) (x ∷ s) = if x == c then after_text p s else none

abbrev pub signature_at : Chars → Chars → Option Chars
signature_at label s = do
  r ← after_text label s
  r ← after_char b'=' r
  r ← after_char b':' r
  (value, r) ← some_of (λ c. not (c == b':')) r
  r ← after_char b':' r
  some value

-- `re.search(re.escape(label) + r"=:([^:]+):", value)`
unfoldable pub find_signature : Chars → Chars → Option Chars
unfolding after_text after_char span
find_signature label [] = none
find_signature label (c ∷ s) =
    let rest = find_signature label s in
    elim (signature_at label (c ∷ s)) [ some v ↦ some v | none ↦ rest ]
