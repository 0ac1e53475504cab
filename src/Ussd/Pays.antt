-- ===== src/Ussd/Pays.antt =====
-- ussd/session.py: which requests pay, and whom.
use drc_pay.Application.Payments.{start_merchant_payment}
use drc_pay.Container.{on_world, Container, Stores}
use drc_pay.Dict.{lookup, Dict}
use drc_pay.Exec.{◌>>=◌, pure, seq_any, state-then_pure}
use drc_pay.Ledger.Money.{Money}
use drc_pay.Merchants.{get_by_short_code, is_active, Merchant}
use drc_pay.Text.{parts}
use drc_pay.Transactions.Invariant.{IsConsistent}
use drc_pay.Transactions.Models.{World}
use drc_pay.Transactions.Store.{get}
use drc_pay.Ussd.Entries.{amount_taken, choice_taken, read_field-got, till_taken}
use drc_pay.Ussd.Keeps.{handle-KeepsWorld, state-get, KeepsWorld}
use drc_pay.Ussd.{
  amount_verdict, asked, at_amount, at_choice, at_till, choice_verdict, closing, exhausted, Field,
  got, handle, is_attested, parse_amount, read_field, start_payment, stopped, till_verdict,
  ussd_payment, UssdRequest,
}
use drc_pay.Base.{
  ◌≡◌, refl, ap, ◌∙◌, Bool, true, false, ◌⊎◌, inl, inr, none, some, List, ◌∷◌, ◌++◌, string_eq,
  nat_eq, String,
}

-- Among the entries stand, in this order, the code of an active merchant's till, an amount, and the 1
-- that confirms.
pub record IsConfirmed (merchants : Dict String Merchant) (entries : List String) (m : Merchant)
    (a : Money) : Type 0 where
  pub before : List String
  pub till : String
  pub between : List String
  pub amount : String
  pub later : List String
  pub rest : List String
  pub in_order : entries ≡ before ++ till ∷ (between ++ amount ∷ (later ++ "1" ∷ rest))
  pub known : get_by_short_code till merchants ≡ some m
  pub active : is_active m ≡ true
  pub read : parse_amount amount ≡ some a

module _ {R : Type 0} (c : Container R) (uuid : String) (r : UssdRequest) (s : Stores R) where
  -- the world after the start of a payment to the merchant
  abbrev pub started_world : Merchant → Money → World R
  started_world m a =
      (start_merchant_payment c.rail c.predictor uuid (ussd_payment c uuid r m a) s.world).1

  -- Nothing has changed, or a payment has been started that the customer confirmed.
  abbrev pub IsAnswered : Stores R → Type 0
  IsAnswered s' =
      (s' ≡ s)
      ⊎ ((m : Merchant) × (a : Money) × IsConfirmed s.merchants (parts r.text) m a
          × (s'.world ≡ started_world m a))

  world-start_payment :
      (m : Merchant) (a : Money) → (start_payment c uuid r m a s.world).1 ≡ started_world m a
  unfolding start_payment
  world-start_payment m a =
      seq_any (λ v. v ≡ started_world m a)
        (start_merchant_payment c.rail c.predictor uuid (ussd_payment c uuid r m a))
        (λ id. get id >>= λ t. pure (is_attested t.provenance)) s.world refl
        (λ id v h. state-then_pure (get id) (λ t. is_attested t.provenance) v ∙ state-get id v ∙ h)

  world-at_choice :
      (m : Merchant) (a : Money) (ps : List String)
      → (at_choice c uuid r m a (got true ps) s).1.world ≡ started_world m a
  unfolding at_choice
  world-at_choice m a ps =
      ap (λ x. x.world)
        (state-then_pure (on_world (start_payment c uuid r m a)) (closing c uuid m a) s)
      ∙ world-start_payment m a

  at_choice-IsAnswered :
      (m : Merchant) (a : Money) (ps : List String)
      → ((later rest : List String)
          → ps ≡ later ++ "1" ∷ rest
          → IsConfirmed s.merchants (parts r.text) m a)
      → IsAnswered (at_choice c uuid r m a (read_field choice_verdict 0 ps) s).1
  unfolding at_choice
  at_choice-IsAnswered m a ps confirmed = chosen (read_field choice_verdict 0 ps) refl
    where
      chosen :
          (f : Field Bool)
          → read_field choice_verdict 0 ps ≡ f
          → IsAnswered (at_choice c uuid r m a f s).1
      chosen (got true rest) e =
          let (later, p, order, v) = read_field-got choice_verdict 0 ps true rest e in
          let one : ps ≡ later ++ "1" ∷ rest =
            order ∙ ap (λ q. later ++ q ∷ rest) (choice_taken p v) in
          inr (m, a, confirmed later rest one, world-at_choice m a rest)
      chosen (got false rest) e = inl refl
      chosen (asked b) e = inl refl
      chosen exhausted e = inl refl
      chosen stopped e = inl refl

  at_amount-IsAnswered :
      (m : Merchant) (ps : List String)
      → ((a : Money) (between : List String) (amount : String) (left : List String)
          → ps ≡ between ++ amount ∷ left
          → parse_amount amount ≡ some a
          → (later rest : List String) → left ≡ later ++ "1" ∷ rest
          → IsConfirmed s.merchants (parts r.text) m a)
      → IsAnswered (at_amount c uuid r m (read_field amount_verdict 0 ps) s).1
  unfolding at_amount
  at_amount-IsAnswered m ps confirmed = given (read_field amount_verdict 0 ps) refl
    where
      given :
          (f : Field Money)
          → read_field amount_verdict 0 ps ≡ f
          → IsAnswered (at_amount c uuid r m f s).1
      given (got a left) e =
          let (between, p, order, v) = read_field-got amount_verdict 0 ps a left e in
          at_choice-IsAnswered m a left (confirmed a between p left order (amount_taken p a v))
      given (asked true) e = inl refl
      given (asked false) e = inl refl
      given exhausted e = inl refl
      given stopped e = inl refl

  at_till-IsAnswered :
      IsAnswered (at_till c uuid r (read_field (till_verdict s.merchants) 0 (parts r.text)) s).1
  unfolding at_till
  at_till-IsAnswered = dialled (read_field (till_verdict s.merchants) 0 (parts r.text)) refl
    where
      dialled :
          (f : Field Merchant)
          → read_field (till_verdict s.merchants) 0 (parts r.text) ≡ f
          → IsAnswered (at_till c uuid r f s).1
      dialled (got m ps) e =
          let (before, till, order, v) =
            read_field-got (till_verdict s.merchants) 0 (parts r.text) m ps e in
          let (known, active) = till_taken s.merchants till m v in
          at_amount-IsAnswered m ps (λ a between amount left order' read later rest order''.
            record {
              before = before;
              till = till;
              between = between;
              amount = amount;
              later = later;
              rest = rest;
              in_order =
                  order
                  ∙ ap (λ l. before ++ till ∷ l) (order' ∙ ap (λ l. between ++ amount ∷ l) order'');
              known = known;
              active = active;
              read = read;
            })
      dialled (asked true) e = inl refl
      dialled (asked false) e = inl refl
      dialled exhausted e = inl refl
      dialled stopped e = inl refl

  -- A USSD request, under a fresh id in a consistent world, leaves a consistent world and the merchants
  -- and charges as they were. It changes nothing at all, or it has started one payment, of an amount
  -- and to the active merchant of a till that the customer entered before the 1 that confirms.
  pub handle-pays_confirmed :
      IsConsistent s.world
      → lookup uuid s.world.rows ≡ none
      → KeepsWorld s (handle c uuid r s).1 × IsAnswered (handle c uuid r s).1
  unfolding handle
  handle-pays_confirmed k missing = (handle-KeepsWorld c uuid r s k missing, at_till-IsAnswered)
