-- ===== src/Inventory/Reserve.antt =====
-- `ReserveStock` of inventory/internal/repository.go.
use goshop_x.Base.{
  ℕ, ℤ, pos, String, Bool, Result, ok, err, record_not_found, invalid_quantity, insufficient_stock,
  Option, none, some, pure, raise, raise_if, ◌>>=◌, ◌>>◌, time_now, read_tx, write_tx,
  in_transaction, same, is_empty, append, ltb_ℤ, leb_ℤ, if◌then◌else◌,
}
use goshop_x.Inventory.Models.{
  active, same_status, status_text, Stock, Availability, StockReservation, EventData,
}
use goshop_x.Inventory.Tables.{
  Backend, Call, query_reservations, change_reservations, write_reservations,
}
use goshop_x.Inventory.Availability.{
  cleanup_expired_tx, lock_stock, sum_reserved, write_outbox, to_availability, sub32, add32,
}

-- The arguments of a call.
pub record Request : Type 0 where
  pub reservation_id : String
  pub account_id : ℕ
  pub product_id : String
  pub quantity : ℤ
  pub expires_at : ℕ
  pub source : String

abbrev pub has_id : String → StockReservation → Bool
has_id rid r = same r.reservation_id rid

-- The active reservation is given the new terms.
abbrev pub renewed : Request → ℕ → StockReservation → StockReservation
renewed q now r = record r {
  account_id = q.account_id;
  product_id = q.product_id;
  quantity = q.quantity;
  source = q.source;
  status = active;
  expires_at = q.expires_at;
  updated_at = now;
}

abbrev pub fresh : Request → ℕ → StockReservation
fresh q now = record {
  id = 0;
  reservation_id = q.reservation_id;
  account_id = q.account_id;
  product_id = q.product_id;
  quantity = q.quantity;
  status = active;
  source = q.source;
  expires_at = q.expires_at;
  created_at = now;
  updated_at = now;
}

abbrev pub reserved_event : Request → Stock → Availability → StockReservation → EventData
reserved_event q stock a r = record {
  product_id = q.product_id;
  reservation_id = r.reservation_id;
  quantity = q.quantity;
  reorder_level = stock.reorder_level;
  available_qty = a.available_quantity;
  reserved_qty = a.reserved_quantity;
  reservation_for = q.source;
  status = status_text active;
}

-- The lookup of the reservation: it counts only if it is active, and only `ErrRecordNotFound` may
-- be passed over.
abbrev pub existing_active : Result StockReservation → Result (Option StockReservation)
existing_active (ok r) = ok (if same_status r.status active then some r else none)
existing_active (err record_not_found) = ok none
existing_active (err e) = err e

module _ (b : Backend) where
  open b use {driver, reservation_orm}

  unfoldable pub find_existing : String → Call (Option StockReservation)
  find_existing rid =
      if is_empty rid
      then pure none
      else read_tx λ t. existing_active (query_reservations (reservation_orm.first (has_id rid)) t)

  unfoldable pub store_reservation : Request → ℕ → Option StockReservation → Call StockReservation
  store_reservation q now (some r) = do
    write_tx (write_reservations (reservation_orm.save (renewed q now r)))
    pure (renewed q now r)
  store_reservation q now none =
      write_tx (change_reservations (reservation_orm.create (fresh q now)))

  -- What the transaction does.
  unfoldable pub reserve_body : Request → Call (StockReservation × Availability)
  reserve_body q = do
    cleanup_expired_tx b q.product_id
    stock ← lock_stock b q.product_id
    existing ← find_existing q.reservation_id
    other ← sum_reserved b read_tx q.product_id q.reservation_id
    raise_if (ltb_ℤ (sub32 stock.quantity other) q.quantity) insufficient_stock
    now ← time_now driver
    reservation ← store_reservation q now existing
    let availability = to_availability stock (add32 other q.quantity)
    write_outbox b (append "inventory." (status_text active)) reservation.reservation_id
        (reserved_event q stock availability reservation)
    pure (reservation, availability)

  unfoldable pub reserve_stock : Request → Call (StockReservation × Availability)
  reserve_stock q =
      if leb_ℤ q.quantity (pos 0)
      then raise invalid_quantity
      else in_transaction driver (reserve_body q)
