-- ===== src/Inventory/Levels.antt =====
-- What `toAvailability` reports.
use goshop_x.Base.{ℤ, pos, ◌≡◌, ◌↔◌, ◌⊎◌, true, arith, ◌≤ℤ◌, ◌-ℤ◌, sub32_fits, IsInt32}
use goshop_x.Inventory.Models.{Stock}
use goshop_x.Inventory.Availability.{to_availability}

-- The largest number of goods that can still be given out is reported: what is left over the
-- reservations, or nothing; and the low-stock mark compares that number with the reorder level.
pub to_availability_lem :
    (stock : Stock) (reserved : ℤ)
    → IsInt32 stock.quantity
    → pos 0 ≤ℤ stock.quantity
    → IsInt32 reserved
    → pos 0 ≤ℤ reserved
    → let a = to_availability stock reserved in
      (a.total_quantity ≡ stock.quantity)
      × (a.reserved_quantity ≡ reserved)
      × (((reserved ≤ℤ stock.quantity) × (a.available_quantity ≡ stock.quantity -ℤ reserved))
          ⊎ ((stock.quantity ≤ℤ reserved) × (a.available_quantity ≡ pos 0)))
      × ((a.has_active_low_stock ≡ true) ↔ (a.available_quantity ≤ℤ stock.reorder_level))
unfolding to_availability ◌-ℤ◌
to_availability_lem stock reserved hq q0 hr r0 =
    rw (sub32_fits stock.quantity reserved hq q0 hr r0) (ground arith)
