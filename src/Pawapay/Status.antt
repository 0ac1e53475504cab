-- ===== src/Pawapay/Status.antt =====
-- backend/src/drc_pay_api/integrations/pawapay/status.py and callbacks.py: what a pawaPay status
-- string means, and the event that a callback's body carries.
use Prim.Native.Char.{code}
use drc_pay.Base.{
  ℕ, ◌-◌, String, Bool, true, false, ◌&&◌, ◌||◌, Option, none, some, List, [], ◌∷◌, leb, ◌==◌,
  nat_eq, string_eq, if◌then◌else◌,
}
use drc_pay.Dict.{Dict, lookup}
use drc_pay.Transactions.Models.{Leg, deposit, payout, refund}

pub data Outcome : Type 0 where
  success failure pending : Outcome

-- The code point that `str.upper` has for one: beside the ASCII letters only the dotless i and the
-- long s have a capital in ASCII. (The ligatures have two, `FF` to `ST`, in none of the words below.)
unfoldable pub upper : ℕ → ℕ
upper c =
    if leb b'a' c && leb c b'z'
    then c - 32
    else if c == 0x131
    then b'I'
    else if c == 0x17f
    then b'S'
    else c

-- `text.upper() == word`, for a word in capitals
unfoldable pub upper_is : String → String → Bool
unfolding upper
upper_is String.[] String.[] = true
upper_is String.[] (String.◌∷◌ _ _) = false
upper_is (String.◌∷◌ _ _) String.[] = false
upper_is (String.◌∷◌ c s) (String.◌∷◌ d t) = (upper (code c) == code d) && upper_is s t

unfoldable pub classify : Option String → Outcome
classify none = pending
classify (some raw) =
    if upper_is raw "COMPLETED"
    then success
    else if upper_is raw "FAILED" || upper_is raw "REJECTED"
    then failure
    else pending

-- A value of a JSON object: a text, or anything else with what `str` makes of it.
pub data Json : Type 0 where
  text : String → Json
  other : String → Json

pub record CallbackEvent : Type 0 where
  pub kind : Leg
  pub op_id : String
  pub success : Bool

-- `isinstance(op_id, str) and op_id`
abbrev pub op_field : Option Json → Option String
op_field none = none
op_field (some (other _)) = none
op_field (some (text s)) = if s == "" then none else some s

-- `str(body.get("status", ""))`
abbrev pub shown : Option Json → String
shown none = ""
shown (some (text s)) = s
shown (some (other s)) = s

abbrev pub event : Leg → String → Outcome → Option CallbackEvent
event kind op success = some (record { kind = kind; op_id = op; success = true })
event kind op failure = some (record { kind = kind; op_id = op; success = false })
event kind op pending = none

-- the loop over `_OP_FIELDS`
unfoldable pub first_event : List (Leg × String) → Dict String Json → Option CallbackEvent
first_event [] body = none
first_event ((kind, field) ∷ fields) body =
    let rest = first_event fields body in
    elim (op_field (lookup field body)) [
      | none ↦ rest
      | some op ↦ event kind op (classify (some (shown (lookup "status" body))))
    ]

unfoldable pub parse_callback : Dict String Json → Option CallbackEvent
unfolding first_event
parse_callback =
    first_event ((deposit, "depositId") ∷ (payout, "payoutId") ∷ (refund, "refundId") ∷ [])
