-- ===== src/Inventory/Transition.antt =====
-- `transitionReservation` of inventory/internal/repository.go, and the two operations made of it.
pub mod Keeps
pub mod Goods
pub mod Stored
use goshop_x.Base.{
  pos, String, Bool, ◌&&◌, ◌||◌, insufficient_stock, pure, raise_if, ◌>>=◌, ◌>>◌, time_now, read_tx,
  write_tx, in_transaction, append, ltb_ℤ, if◌then◌else◌,
}
use goshop_x.Inventory.Models.{
  ReservationStatus, active, released, committed, expired, same_status, status_text, Stock,
  Availability, StockReservation, EventData,
}
use goshop_x.Inventory.Tables.{Backend, Call, query_reservations, write_reservations, write_stocks}
use goshop_x.Inventory.Availability.{
  cleanup_expired_tx, lock_stock, sum_reserved, write_outbox, to_availability, sub32,
}
use goshop_x.Inventory.Reserve.{has_id}

-- The early return: nothing is left to do.
abbrev pub is_settled : ReservationStatus → ReservationStatus → Bool
is_settled next status = same_status status next || same_status status expired

-- Only the commit of an active reservation takes goods out of the stock.
abbrev pub takes_goods : ReservationStatus → ReservationStatus → Bool
takes_goods next status = same_status next committed && same_status status active

abbrev pub transition_event :
    ReservationStatus → Stock → Availability → StockReservation → EventData
transition_event next stock a r = record {
  product_id = r.product_id;
  reservation_id = r.reservation_id;
  quantity = r.quantity;
  reorder_level = stock.reorder_level;
  available_qty = a.available_quantity;
  reserved_qty = a.reserved_quantity;
  reservation_for = r.source;
  status = status_text next;
}

module _ (b : Backend) where
  open b use {driver, stock_orm, reservation_orm}

  unfoldable pub take_goods : Stock → StockReservation → Call Stock
  take_goods stock r = do
    let left = sub32 stock.quantity r.quantity
    now ← time_now driver
    raise_if (ltb_ℤ left (pos 0)) insufficient_stock
    write_tx (write_stocks (stock_orm.save (record stock { quantity = left; updated_at = now })))
    pure (record stock { quantity = left; updated_at = now })

  unfoldable pub settle_stock : ReservationStatus → Stock → StockReservation → Call Stock
  settle_stock next stock r = if takes_goods next r.status then take_goods stock r else pure stock

  -- The new status and its event, after the stock was settled.
  unfoldable pub mark_status :
      ReservationStatus → StockReservation → Stock → Call (StockReservation × Availability)
  mark_status next r left = do
    now ← time_now driver
    let changed = record r { status = next; updated_at = now }
    write_tx (write_reservations (reservation_orm.save changed))
    reserved ← sum_reserved b read_tx r.product_id ""
    let availability = to_availability left reserved
    write_outbox b (append "inventory." (status_text next)) r.reservation_id
        (transition_event next left availability r)
    pure (changed, availability)

  -- The rest, for a reservation that is to change.
  unfoldable pub change_status :
      ReservationStatus → Stock → StockReservation → Call (StockReservation × Availability)
  change_status next stock r = do left ← settle_stock next stock r; mark_status next r left

  unfoldable pub find_locked : String → Call (StockReservation × Stock)
  find_locked rid = do
    r ← read_tx (query_reservations (reservation_orm.first (has_id rid)))
    stock ← lock_stock b r.product_id
    pure (r, stock)

  unfoldable pub transition_locked :
      ReservationStatus → StockReservation × Stock → Call (StockReservation × Availability)
  transition_locked next found =
      if is_settled next (found.0.status)
      then (do
        reserved ← sum_reserved b read_tx (found.0.product_id) ""
        pure (found.0, to_availability found.1 reserved))
      else change_status next found.1 found.0

  unfoldable pub transition_body :
      String → ReservationStatus → Call (StockReservation × Availability)
  transition_body rid next = do
    cleanup_expired_tx b ""
    found ← find_locked rid
    transition_locked next found

  unfoldable pub transition_reservation :
      String → ReservationStatus → Call (StockReservation × Availability)
  transition_reservation rid next = in_transaction driver (transition_body rid next)

  unfoldable pub release_reservation : String → Call (StockReservation × Availability)
  release_reservation rid = transition_reservation rid released

  unfoldable pub commit_reservation : String → Call (StockReservation × Availability)
  commit_reservation rid = transition_reservation rid committed
