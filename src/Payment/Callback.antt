-- ===== src/Payment/Callback.antt =====
-- `HandleVNPAYIPN` of payment/internal/service.go, and the HTTP handler of
-- payment/internal/webhook.go.
pub mod Once
pub mod Later
use goshop_x.Base.{
  String, Bool, true, false, not, ◌&&◌, Option, none, some, ok, err, record_not_found, pure,
  attempt, Action, Session, ◌>>=◌, ◌>>◌, same, eq_ℤ, if◌then◌else◌,
}
use goshop_x.Payment.Models.{Transaction, Callback, status_text, pending, failed, success}
use goshop_x.Payment.Gateway.{Values, verify_ipn}
use goshop_x.Payment.Tables.{
  Tables, Backend, Call, get_transaction_by_payment_id, update_transaction,
}

-- The transaction, whether this call settled it, and the response code.
pub record Answer : Type 0 where
  pub tx : Option Transaction
  pub first : Bool
  pub code : String

abbrev pub answer : Option Transaction → Bool → String → Answer
answer tx first code = record { tx = tx; first = first; code = code }

-- The transaction after a callback that fits it.
unfoldable pub settled : Callback → Transaction → Transaction
settled c tx = record tx {
  checkout_key = none;
  settled_price = c.amount_vnd;
  status = status_text (if c.success then success else failed);
}

module _ {S W A : Type 0} where
  abbrev pub on_left : Action S A → Action (S × W) A
  on_left m (s, w) = let (r, t) = m s in (r, (t, w))

  abbrev pub on_right : Action W A → Action (S × W) A
  on_right m (s, w) = let (r, v) = m w in (r, (s, v))

module _ {F : Type 0} (b : Backend F) where
  unfoldable pub settle : Callback → Transaction → Call Answer
  settle c tx = do
    updated ← attempt (update_transaction b (settled c tx))
    elim updated [
      | ok _ ↦ pure (answer (some (settled c tx)) true "00")
      | err _ ↦ pure (answer (some (settled c tx)) false "99")
    ]

  unfoldable pub answer_found : Callback → Transaction → Call Answer
  answer_found c tx =
      if not (same tx.status (status_text pending))
      then pure (answer (some tx) false "02")
      else if not (eq_ℤ tx.total_price c.amount_vnd)
      then pure (answer (some tx) false "04")
      else settle c tx

  unfoldable pub answer_callback : Callback → Call Answer
  answer_callback c = do
    found ← attempt (get_transaction_by_payment_id b c.transaction_ref)
    elim found [
      | ok tx ↦ answer_found c tx
      | err record_not_found ↦ pure (answer none false "01")
      | err _ ↦ pure (answer none false "99")
    ]

  unfoldable pub handle_vnpay_ipn : Values → Call Answer
  handle_vnpay_ipn values = elim (verify_ipn b.network b.client values) [
    | err _ ↦ pure (answer none false "97")
    | ok c ↦ answer_callback c
  ]

  -- The handler, on the state of this service and that of the others: the effects run for the call
  -- that settled the transaction, and for no other.
  unfoldable pub handle_payment_webhook :
      {W : Type 0}
      → Bool
      → (Transaction → Action W (Unit {0}))
      → Values
      → Action (Session Tables (Unit {0}) × W) String
  handle_payment_webhook is_get effects values = if not is_get then pure "99" else (do
    a ← on_left (handle_vnpay_ipn values)
    elim a.tx [
      | none ↦ pure a.code
      | some tx ↦
          if same a.code "00" && a.first
          then (do on_right (attempt (effects tx)); pure a.code)
          else pure a.code
    ])
