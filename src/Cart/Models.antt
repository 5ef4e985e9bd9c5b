-- ===== src/Cart/Models.antt =====
-- The records of cart/models. Quantities are Go `int32` values, times are numbers of ticks.
use goshop_x.Base.{ℕ, ℤ, String, Option, List}

pub record CartItem : Type 0 where
  pub product_id : String
  pub quantity : ℤ
  pub reservation_id : String
  pub reserved_until : ℕ

pub record Cart : Type 0 where
  pub account_id : ℕ
  pub version : ℕ
  pub items : List CartItem
  pub expires_at : ℕ

pub record ProposalItem : Type 0 where
  pub product_id : String
  pub quantity : ℤ

pub record CartProposal : Type 0 where
  pub id : String
  pub idempotency_key : String
  pub account_id : ℕ
  pub base_version : ℕ
  pub items : List ProposalItem
  pub expires_at : ℕ
  pub result : Option Cart

pub record EventData : Type 0 where
  pub product_id : String
  pub quantity : ℤ
  pub reservation_id : String
  pub reservation_ids : List String
  pub cart_size : ℕ
  pub action : String
