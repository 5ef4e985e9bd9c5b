-- ===== src/Inventory/Availability.antt =====
-- What the reservations leave of a stock: `cleanupExpiredReservationsTx`, `lockStock`,
-- `sumReservedQuantityTx`, `loadAvailability`, `toAvailability`, `writeOutbox` and the operations made
-- of them, of inventory/internal/repository.go.
use goshop_x.Base.{
  ℕ, ℤ, pos, String, Bool, not, ◌&&◌, ◌||◌, Result, ok, err, Fault, record_not_found,
  stock_not_found, pure, lift, ◌>>=◌, ◌>>◌, time_now, read_tx, write_tx, read_db, in_transaction,
  same, is_empty, append, ltb, leb, ltb_ℤ, leb_ℤ, if◌then◌else◌, ◌+ℤ◌, ◌-ℤ◌, wrap32,
}
use goshop_x.Inventory.Models.{
  active, expired, same_status, Stock, Availability, StockReservation, EventData,
}
use goshop_x.Inventory.Tables.{
  Tables, Backend, Call, query_stocks, query_reservations, change_reservations, change_outbox,
}

-- `int32` arithmetic.
abbrev pub sub32 : ℤ → ℤ → ℤ
sub32 a b = wrap32 (a -ℤ b)

abbrev pub add32 : ℤ → ℤ → ℤ
add32 a b = wrap32 (a +ℤ b)

abbrev pub of_product : String → Stock → Bool
of_product p s = same s.product_id p

-- The `WHERE` of the cleanup; without a product it covers all of them.
abbrev pub is_due : ℕ → String → StockReservation → Bool
is_due now p r =
    same_status r.status active && leb r.expires_at now && (is_empty p || same r.product_id p)

abbrev pub expire : ℕ → StockReservation → StockReservation
expire now r = record r { status = expired; updated_at = now }

-- The `WHERE` of the sum; without an excluded reservation it covers all of them.
abbrev pub holds_stock : ℕ → String → String → StockReservation → Bool
holds_stock now p excluded r =
    same r.product_id p
    && same_status r.status active
    && ltb now r.expires_at
    && (is_empty excluded || not (same r.reservation_id excluded))

unfoldable pub to_availability : Stock → ℤ → Availability
to_availability stock reserved =
    let difference = sub32 stock.quantity reserved in
    let available = if ltb_ℤ difference (pos 0) then pos 0 else difference in
    record {
      product_id = stock.product_id;
      total_quantity = stock.quantity;
      reserved_quantity = reserved;
      available_quantity = available;
      reorder_level = stock.reorder_level;
      has_active_low_stock = leb_ℤ available stock.reorder_level;
    }

-- `gorm.ErrRecordNotFound` becomes `ErrStockNotFound`.
abbrev pub stock_error : Fault → Fault
stock_error record_not_found = stock_not_found
stock_error e = e

abbrev pub as_stock : Result Stock → Result Stock
as_stock (ok s) = ok s
as_stock (err e) = err (stock_error e)

module _ (b : Backend) where
  open b use {driver, stock_orm, reservation_orm, outbox_orm, marshal}

  unfoldable pub cleanup_expired_tx : String → Call ℕ
  cleanup_expired_tx p = do
    now ← time_now driver
    later ← time_now driver
    write_tx (change_reservations (reservation_orm.updates (is_due now p) (expire later)))

  unfoldable pub cleanup_expired : Call ℕ
  cleanup_expired = in_transaction driver (cleanup_expired_tx "")

  unfoldable pub lock_stock : String → Call Stock
  lock_stock p = read_tx (λ t. as_stock (query_stocks (stock_orm.first (of_product p)) t))

  -- Over the handle that the statement runs on: the transaction, or the database.
  unfoldable pub sum_reserved : ((Tables → Result ℤ) → Call ℤ) → String → String → Call ℤ
  sum_reserved read p excluded = do
    now ← time_now driver
    total ←
        read
          (query_reservations (reservation_orm.sum (holds_stock now p excluded) (λ r. r.quantity)))
    pure (wrap32 total)

  unfoldable pub load_availability : String → Call (Stock × ℤ)
  load_availability p = do
    stock ← read_db (λ t. as_stock (query_stocks (stock_orm.first (of_product p)) t))
    reserved ← sum_reserved read_db p ""
    pure (stock, reserved)

  unfoldable pub get_availability : String → Call Availability
  get_availability p = do
    cleanup_expired
    loaded ← load_availability p
    pure (to_availability loaded.0 loaded.1)

  unfoldable pub write_outbox : String → String → EventData → Call ℕ
  write_outbox event_type event_key payload = do
    body ← lift (marshal payload)
    now ← time_now driver
    write_tx (
        change_outbox (
          outbox_orm.create_unless (record {
            id = 0;
            event_key = append (append event_key ":") event_type;
            event_type = event_type;
            payload = body;
            created_at = now;
          })))
