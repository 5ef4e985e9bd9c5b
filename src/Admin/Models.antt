-- ===== src/Admin/Models.antt =====
-- The records of admin/models/reporting.go, and the envelope of pkg/events/events.go as the consumer
-- reads it.
use goshop_x.Base.{◌^◌, [], ◌%◌, List, Option, pos, ◌+◌, ℤ, ℕ, String}

pub record Envelope : Type 0 where
  pub version : String
  pub event_id : String
  pub event_type : String
  pub occurred_at : ℕ
  pub account_id : ℕ
  pub recipient_email : String
  pub event_key : String
  -- `Data`, in its encoded form.
  pub content : String

pub record ProcessedEvent : Type 0 where
  pub event_id : String
  pub topic : String
  pub occurred_at : ℕ
  pub created_at : ℕ

pub record QuarantinedEvent : Type 0 where
  pub id : ℕ
  pub topic : String
  pub partition : ℤ
  pub offset : ℤ
  pub payload : String
  pub reason : String
  pub created_at : ℕ
  pub replayed_at : Option ℕ

pub record AuditEvent : Type 0 where
  pub event_id : String
  pub actor_account_id : ℕ
  pub target_account_id : ℕ
  pub action : String
  pub outcome : String
  pub request_id : String
  pub occurred_at : ℕ

pub record DailyMetric : Type 0 where
  pub day : ℕ
  pub gmv : ℤ
  pub revenue : ℤ
  pub order_count : ℕ
  pub payment_attempts : ℕ
  pub successful_payments : ℕ

pub record ProductDailyMetric : Type 0 where
  pub day : ℕ
  pub product_id : String
  pub quantity : ℕ
  pub gmv : ℤ

pub record OrderFact : Type 0 where
  pub event_id : String
  pub occurred_at : ℕ
  pub order_id : ℕ
  pub product_id : String
  pub quantity : ℕ
  pub gmv : ℤ
  pub status : String

pub record PaymentFact : Type 0 where
  pub event_id : String
  pub occurred_at : ℕ
  pub payment_id : String
  pub order_id : ℕ
  pub amount : ℤ
  pub status : String

pub record ProductMetric : Type 0 where
  pub product_id : String
  pub quantity : ℕ
  pub gmv : ℤ

-- `F` stands for `float64`.
pub record Dashboard (F : Type 0) : Type 0 where
  pub from : ℕ
  pub to : ℕ
  pub gmv : ℤ
  pub revenue : ℤ
  pub order_count : ℕ
  pub average_order_value : F
  pub payment_attempts : ℕ
  pub successful_payments : ℕ
  pub payment_success_rate : F
  pub top_products : List ProductMetric

-- `+=` on a `uint64`.
abbrev pub add_uint64 : ℕ → ℕ → ℕ
add_uint64 a b = (a + b) % 2 ^ 64

-- The sums of a dashboard before the averages.
abbrev pub blank_dashboard : {F : Type 0} → F → ℕ → ℕ → Dashboard F
blank_dashboard zero_float from to = record {
  from = from;
  to = to;
  gmv = pos 0;
  revenue = pos 0;
  order_count = 0;
  average_order_value = zero_float;
  payment_attempts = 0;
  successful_payments = 0;
  payment_success_rate = zero_float;
  top_products = [];
}
