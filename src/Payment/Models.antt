-- ===== src/Payment/Models.antt =====
-- The records of payment/models, and `CheckoutRequest` and `Callback` of payment/vnpay/client.go.
use goshop_x.Base.{ℕ, ℤ, String, Bool, Option, same, ◌||◌}

pub data TransactionStatus : Type 0 where
  pending failed success : TransactionStatus

-- `String()`.
abbrev pub status_text : TransactionStatus → String
status_text pending = "Pending"
status_text failed = "Failed"
status_text success = "Success"

pub is_terminal : TransactionStatus → Bool
is_terminal s = same (status_text s) "Failed" || same (status_text s) "Success"

pub record Product : Type 0 where
  pub id : ℕ
  pub product_id : String
  pub price : ℤ
  pub currency : String
  pub created_at : ℕ
  pub updated_at : ℕ

pub record Transaction : Type 0 where
  pub id : ℕ
  pub created_at : ℕ
  pub order_id : ℕ
  pub user_id : ℕ
  pub checkout_key : Option String
  pub payment_id : String
  pub total_price : ℤ
  pub settled_price : ℤ
  pub currency : String
  pub status : String
  pub reservation_ids : String

pub record Customer : Type 0 where
  pub user_id : ℕ
  pub customer_id : String
  pub billing_email : String
  pub billing_name : String

pub record CheckoutRequest : Type 0 where
  pub transaction_ref : String
  pub amount_vnd : ℤ
  pub order_info : String
  pub return_url : String
  pub client_ip : String

pub record Callback : Type 0 where
  pub transaction_ref : String
  pub provider_transaction_id : String
  pub amount_vnd : ℤ
  pub success : Bool
  pub response_code : String
  pub transaction_status : String
