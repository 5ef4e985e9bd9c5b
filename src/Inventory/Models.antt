-- ===== src/Inventory/Models.antt =====
-- The records of inventory/models. Quantities are Go `int32` values, times are numbers of ticks.
use goshop_x.Base.{ℕ, ℤ, String, Bool, true, false}

pub data ReservationStatus : Type 0 where
  active released committed expired : ReservationStatus

-- The constants' texts.
abbrev pub status_text : ReservationStatus → String
status_text active = "active"
status_text released = "released"
status_text committed = "committed"
status_text expired = "expired"

abbrev pub same_status : ReservationStatus → ReservationStatus → Bool
same_status active active = true
same_status released released = true
same_status committed committed = true
same_status expired expired = true
same_status _ _ = false

pub record Stock : Type 0 where
  pub product_id : String
  pub quantity : ℤ
  pub reorder_level : ℤ
  pub updated_at : ℕ

pub record Availability : Type 0 where
  pub product_id : String
  pub total_quantity : ℤ
  pub reserved_quantity : ℤ
  pub available_quantity : ℤ
  pub reorder_level : ℤ
  pub has_active_low_stock : Bool

pub record StockReservation : Type 0 where
  pub id : ℕ
  pub reservation_id : String
  pub account_id : ℕ
  pub product_id : String
  pub quantity : ℤ
  pub status : ReservationStatus
  pub source : String
  pub expires_at : ℕ
  pub created_at : ℕ
  pub updated_at : ℕ

pub record EventData : Type 0 where
  pub product_id : String
  pub reservation_id : String
  pub quantity : ℤ
  pub reorder_level : ℤ
  pub available_qty : ℤ
  pub reserved_qty : ℤ
  pub reservation_for : String
  pub status : String

pub record InventoryEventOutbox : Type 0 where
  pub id : ℕ
  pub event_key : String
  pub event_type : String
  pub payload : String
  pub created_at : ℕ
