-- ===== src/Inventory/Service.antt =====
-- inventory/internal/service.go: the repository's operations, and the events that they announce.
use goshop_x.Base.{
  ℕ, ℤ, pos, String, Bool, List, invalid_quantity, adjustment_reason_required, pure, raise, ◌>>=◌,
  ◌>>◌, gets, time_now, publish, is_empty, append, leb_ℤ, ◌+◌, if◌then◌else◌,
}
use goshop_x.Inventory.Models.{status_text, Stock, Availability, StockReservation, EventData}
use goshop_x.Inventory.Tables.{Backend, Call}
use goshop_x.Inventory.Availability.{get_availability, cleanup_expired}
use goshop_x.Inventory.Reserve.{reserve_stock}
use goshop_x.Inventory.Transition.{release_reservation, commit_reservation}
use goshop_x.Inventory.Stocks.{
  upsert_stock, initialize_stock, adjust_stock, list_reservations, list_low_stock,
}

abbrev pub publish_inventory_event : String → ℕ → String → EventData → Call (Unit {0})
publish_inventory_event event_type account key content =
    publish
      (record { event_type = event_type; account_id = account; event_key = key; content = content })

-- The payload of the three reservation events.
abbrev pub reservation_event : StockReservation → Availability → EventData
reservation_event r a = record {
  product_id = r.product_id;
  reservation_id = r.reservation_id;
  quantity = r.quantity;
  reorder_level = a.reorder_level;
  available_qty = a.available_quantity;
  reserved_qty = a.reserved_quantity;
  reservation_for = r.source;
  status = status_text r.status;
}

abbrev pub level_event : String → ℤ → ℤ → Availability → String → EventData
level_event p quantity level a status = record {
  product_id = p;
  reservation_id = "";
  quantity = quantity;
  reorder_level = level;
  available_qty = a.available_quantity;
  reserved_qty = a.reserved_quantity;
  reservation_for = "";
  status = status;
}

module _ (b : Backend) where
  unfoldable pub adjust : String → ℤ → ℤ → String → Call (Stock × Availability)
  adjust p delta level reason = if is_empty reason then raise adjustment_reason_required else (do
    stock ← adjust_stock b p delta level
    a ← get_availability b p
    publish_inventory_event "inventory.adjusted" 0 p
        (level_event p delta stock.reorder_level a (append "adjusted:" reason))
    pure (stock, a))

  unfoldable pub upsert : String → ℤ → ℤ → Call (Stock × Availability)
  upsert p quantity level = do
    stock ← upsert_stock b p quantity level
    a ← get_availability b p
    publish_inventory_event "inventory.stock_upserted" 0 p
        (level_event p quantity level a "upserted")
    pure (stock, a)

  -- An empty identifier is replaced by a new UUID, drawn at this point of the run.
  unfoldable pub named : String → Call String
  named rid = if is_empty rid then gets (λ s. b.new_uuid s.ticks) else pure rid

  unfoldable pub reserve :
      String → ℕ → String → ℤ → ℕ → String → Call (StockReservation × Availability)
  reserve rid account p quantity ttl source =
      if leb_ℤ quantity (pos 0) then raise invalid_quantity else (do
        id ← named rid
        now ← time_now b.driver
        made ← reserve_stock b (record {
          reservation_id = id;
          account_id = account;
          product_id = p;
          quantity = quantity;
          expires_at = now + ttl;
          source = source;
        })
        publish_inventory_event "inventory.reserved" account made.0.reservation_id
            (reservation_event made.0 made.1)
        pure made)

  unfoldable pub release : String → Call (StockReservation × Availability)
  release rid = do
    made ← release_reservation b rid
    publish_inventory_event "inventory.released" made.0.account_id made.0.reservation_id
        (reservation_event made.0 made.1)
    pure made

  unfoldable pub commit_reserved : String → Call (StockReservation × Availability)
  commit_reserved rid = do
    made ← commit_reservation b rid
    publish_inventory_event "inventory.committed" made.0.account_id made.0.reservation_id
        (reservation_event made.0 made.1)
    pure made

  -- `InitializeStock`, `GetAvailability`, `ListLowStock`, `CleanupExpiredReservations` and
  -- `ListReservations` are passed on.
  unfoldable pub initialize : String → ℤ → ℤ → Call (Stock × Bool)
  initialize = initialize_stock b

  unfoldable pub availability : String → Call Availability
  availability = get_availability b

  unfoldable pub low_stock : ℕ → Call (List Stock)
  low_stock = list_low_stock b

  unfoldable pub cleanup : Call ℕ
  cleanup = cleanup_expired b

  unfoldable pub reservations : String → ℕ → ℕ → Call (List StockReservation)
  reservations = list_reservations b
