-- ===== src/Charges.antt =====
-- backend/src/drc_pay_api/domains/charges/models.py: a merchant's request for a payment. Its status
-- is that of the payment it is linked to.
use drc_pay.Base.{String, ◌≡◌, refl, Bool, true, false, ◌⊎◌, inl, inr, Option, none, some}
use drc_pay.Ledger.Money.{Money}
use drc_pay.Transactions.States.{
  TxState, initiated, collection_failed, payout_succeeded, refunded, manual_review,
}

-- AWAITING_PAYMENT, PROCESSING, PAID, DECLINED, REFUNDED and REVIEW
pub data ChargeStatus : Type 0 where
  awaiting_payment processing paid declined returned review : ChargeStatus

pub record Charge : Type 0 where
  pub id : String
  pub merchant_id : String
  pub amount : Money
  pub transaction_id : Option String

-- `_FROM_TX_STATE.get(tx_state, PROCESSING)`
unfoldable pub from_tx_state : TxState → ChargeStatus
from_tx_state payout_succeeded = paid
from_tx_state collection_failed = declined
from_tx_state refunded = returned
from_tx_state manual_review = review
from_tx_state _ = processing

unfoldable pub linked_status : Option String → Option TxState → ChargeStatus
unfolding from_tx_state
linked_status (some _) (some state) = from_tx_state state
linked_status _ _ = awaiting_payment

unfoldable pub charge_status : Charge → Option TxState → ChargeStatus
unfolding linked_status
charge_status charge tx_state = linked_status charge.transaction_id tx_state

unfoldable pub linked_payable : Option String → Option TxState → Bool
linked_payable none _ = true
linked_payable (some _) (some collection_failed) = true
linked_payable (some _) _ = false

unfoldable pub is_payable : Charge → Option TxState → Bool
unfolding linked_payable
is_payable charge tx_state = linked_payable charge.transaction_id tx_state

-- The statuses that the merchant sees of a charge that a customer may still pay.
abbrev pub open_status : ChargeStatus → Bool
open_status awaiting_payment = true
open_status declined = true
open_status _ = false

-- The charge is linked, and no state is given: the payment that it names is not there.
abbrev pub is_dangling : Option String → Option TxState → Bool
is_dangling (some _) none = true
is_dangling _ _ = false

payable_linked :
    (link : Option String) (state : Option TxState)
    → ((is_dangling link state ≡ false)
        × (linked_payable link state ≡ open_status (linked_status link state)))
      ⊎ ((is_dangling link state ≡ true)
          × (linked_payable link state ≡ false)
          × (linked_status link state ≡ awaiting_payment))
unfolding linked_payable linked_status from_tx_state
payable_linked none state = inl (refl, refl)
payable_linked (some _) none = inr (refl, refl, refl)
payable_linked (some _) (some initiated) = inl (refl, refl)
payable_linked (some _) (some _) = inl (refl, refl)

-- A charge, linked or not and whether a state is given or not, can be paid exactly if the status shown
-- for it is that it awaits payment or was declined; but if its link dangles, it cannot be paid and is
-- shown as awaiting payment all the same.
pub is_payable-charge_status :
    (charge : Charge) (state : Option TxState)
    → ((is_dangling charge.transaction_id state ≡ false)
        × (is_payable charge state ≡ open_status (charge_status charge state)))
      ⊎ ((is_dangling charge.transaction_id state ≡ true)
          × (is_payable charge state ≡ false)
          × (charge_status charge state ≡ awaiting_payment))
unfolding is_payable charge_status
is_payable-charge_status charge state = payable_linked charge.transaction_id state
