-- ===== src/Inventory/Stocks.antt =====
-- Stock levels and listings of inventory/internal/repository.go.
use goshop_x.Base.{
  ℕ, ℤ, pos, String, Bool, true, false, ◌||◌, List, Option, none, some, invalid_quantity,
  insufficient_stock, pure, raise, raise_if, ◌>>=◌, ◌>>◌, time_now, read_db, write_db, write_tx,
  in_transaction, same, is_empty, ltb, ltb_ℤ, leb_ℤ, ◌==◌, if◌then◌else◌,
}
use goshop_x.Inventory.Models.{status_text, Stock, StockReservation}
use goshop_x.Inventory.Tables.{
  Backend, Call, query_stocks, query_reservations, change_stocks, write_stocks,
}
use goshop_x.Inventory.Availability.{lock_stock, cleanup_expired, of_product, add32}

abbrev pub stock_row : String → ℤ → ℤ → ℕ → Stock
stock_row p quantity level now = record {
  product_id = p;
  quantity = quantity;
  reorder_level = level;
  updated_at = now;
}

-- `clause.AssignmentColumns` of the upsert: on a conflict these columns take the new values.
abbrev pub assign_level : Stock → Stock → Stock
assign_level new old = record old {
  quantity = new.quantity;
  reorder_level = new.reorder_level;
  updated_at = new.updated_at;
}

-- `take > 0` sets both the offset and the limit.
abbrev pub page_of : ℕ → ℕ → Option (ℕ × ℕ)
page_of skip take = if ltb 0 take then some (skip, take) else none

-- A level of -1 leaves the reorder level alone.
abbrev pub adjusted : ℤ → ℕ → Stock → Stock
adjusted level now stock =
    if leb_ℤ (pos 0) level
    then record stock { reorder_level = level; updated_at = now }
    else record stock { updated_at = now }

module _ (b : Backend) where
  open b use {driver, stock_orm, reservation_orm}

  unfoldable pub upsert_stock : String → ℤ → ℤ → Call Stock
  upsert_stock p quantity level =
      if ltb_ℤ quantity (pos 0) || ltb_ℤ level (pos 0) then raise invalid_quantity else (do
        now ← time_now driver
        let row = stock_row p quantity level now
        write_db (write_stocks (stock_orm.create_or_assign (assign_level row) row))
        pure row)

  unfoldable pub initialize_stock : String → ℤ → ℤ → Call (Stock × Bool)
  initialize_stock p quantity level =
      if is_empty p || ltb_ℤ quantity (pos 0) || ltb_ℤ level (pos 0)
      then raise invalid_quantity
      else (do
        now ← time_now driver
        let row = stock_row p quantity level now
        n ← write_db (change_stocks (stock_orm.create_unless row))
        if n == 1 then pure (row, true) else (do
          found ← read_db (query_stocks (stock_orm.first (of_product p)))
          pure (found, false)))

  unfoldable pub adjust_body : String → ℤ → ℤ → Call Stock
  adjust_body p delta level = do
    stock ← lock_stock b p
    raise_if (ltb_ℤ (add32 stock.quantity delta) (pos 0)) insufficient_stock
    let moved = record stock { quantity = add32 stock.quantity delta }
    now ← time_now driver
    write_tx (write_stocks (stock_orm.save (adjusted level now moved)))
    pure (adjusted level now moved)

  unfoldable pub adjust_stock : String → ℤ → ℤ → Call Stock
  adjust_stock p delta level = in_transaction driver (adjust_body p delta level)

  unfoldable pub list_reservations : String → ℕ → ℕ → Call (List StockReservation)
  list_reservations status skip take = do
    cleanup_expired b
    read_db (
        query_reservations (
          reservation_orm.find (record {
            matching = λ r. is_empty status || same (status_text r.status) status;
            precedes = λ r s. ltb s.created_at r.created_at;
            page = page_of skip take;
          })))

  unfoldable pub list_low_stock : ℕ → Call (List Stock)
  list_low_stock limit = do
    cleanup_expired b
    read_db (
        query_stocks (
          stock_orm.find (record {
            matching = λ s. leb_ℤ s.quantity s.reorder_level;
            precedes = λ s t. ltb_ℤ s.quantity t.quantity;
            page = page_of 0 limit;
          })))
