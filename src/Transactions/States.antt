-- ===== src/Transactions/States.antt =====
-- backend/src/drc_pay_api/domains/transactions/state_machine.py: the states of a payment, the
-- allowed transitions, and the tests on them.
use drc_pay.Base.{
  ℕ, ◌≡◌, ◌↔◌, Bool, true, false, ◌||◌, List, [], ◌∷◌, filter, arith, Eq, ◌==◌, nat_beq,
}

pub data TxState : Type 0 where
  initiated collection_pending collection_succeeded collection_failed : TxState
  payout_pending payout_succeeded payout_failed : TxState
  refund_pending refunded manual_review : TxState

abbrev index : TxState → ℕ
index initiated = 0
index collection_pending = 1
index collection_succeeded = 2
index collection_failed = 3
index payout_pending = 4
index payout_succeeded = 5
index payout_failed = 6
index refund_pending = 7
index refunded = 8
index manual_review = 9

-- enum members are compared by identity
abbrev pub state_beq : TxState → TxState → Bool
state_beq a b = nat_beq (index a) (index b)

pub state_beq_iff : (a b : TxState) → (state_beq a b ≡ true) ↔ (a ≡ b)
state_beq_iff a b = ground arith

instance abbrev pub state_eq : Eq TxState
state_eq = record { beq = state_beq; beq_iff = state_beq_iff }

-- `x in s`, for a set of states
unfoldable pub member : TxState → List TxState → Bool
member x [] = false
member x (y ∷ ys) = x == y || member x ys

-- `_TRANSITIONS`
unfoldable pub transitions : TxState → List TxState
transitions initiated = collection_pending ∷ manual_review ∷ []
transitions collection_pending =
    collection_succeeded ∷ collection_failed ∷ payout_succeeded ∷ manual_review ∷ []
transitions collection_succeeded = payout_pending ∷ manual_review ∷ []
transitions collection_failed = []
transitions payout_pending = payout_succeeded ∷ payout_failed ∷ manual_review ∷ []
transitions payout_succeeded = []
transitions payout_failed = refund_pending ∷ manual_review ∷ []
transitions refund_pending = refunded ∷ manual_review ∷ []
transitions refunded = []
transitions manual_review = payout_pending ∷ refund_pending ∷ refunded ∷ collection_failed ∷ []

-- the keys of `_TRANSITIONS`, in order
abbrev pub all_states : List TxState
all_states =
    initiated ∷ collection_pending ∷ collection_succeeded ∷ collection_failed ∷ payout_pending
    ∷ payout_succeeded ∷ payout_failed ∷ refund_pending ∷ refunded ∷ manual_review ∷ []

is_empty : List TxState → Bool
is_empty [] = true
is_empty (_ ∷ _) = false

-- `TERMINAL_STATES`
unfoldable pub terminal_states : List TxState
unfolding transitions is_empty
terminal_states = filter (λ s. is_empty (transitions s)) all_states

-- `PENDING_STATES`
unfoldable pub pending_states : List TxState
pending_states = collection_pending ∷ payout_pending ∷ refund_pending ∷ []

unfoldable pub can_transition : TxState → TxState → Bool
unfolding member transitions
can_transition src dst = member dst (transitions src)

unfoldable pub is_terminal : TxState → Bool
unfolding member terminal_states
is_terminal state = member state terminal_states
