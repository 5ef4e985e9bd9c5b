-- ===== src/Inventory/Transition/Stored.antt =====
-- What a release or a commit leaves in the table of stocks.
use goshop_x.Base.{
  ◌-ℤ◌, replace, if◌then◌else◌, pos, ◌≤ℤ◌, ◌==◌, ◌≡◌, map, same, IsInt32, List, Laws, ℕ, Bool, ℤ,
}
use goshop_x.Inventory.Models.{Stock, StockReservation, Availability}
use goshop_x.Inventory.Tables.{Backend}
use goshop_x.Inventory.Availability.{is_due, expire}

-- A quantity that the tables may hold.
abbrev pub IsQuantity : ℤ → Type 0
IsQuantity z = IsInt32 z × (pos 0 ≤ℤ z)

abbrev pub same_product : Stock → Stock → Bool
same_product x y = same x.product_id y.product_id

-- The reservations after the cleanup of what is due.
abbrev pub cleaned : ℕ → ℕ → List StockReservation → List StockReservation
cleaned now later rows = map (λ r. if is_due now "" r then expire later r else r) rows

module _ (b : Backend) where
  -- No column of a stock is generated; a reservation's id is.
  abbrev pub StockLaws : Type 0
  StockLaws = Laws b.stock_orm same_product same_product (λ r r'. r' ≡ r)

  abbrev pub ReservationLaws : Type 0
  ReservationLaws =
      Laws b.reservation_orm (λ x y. x.id == y.id) (λ x y. same x.reservation_id y.reservation_id)
        (λ r r'. r' ≡ record r { id = r'.id })

  -- The goods leave the stock, which held them.
  abbrev pub Leaves : Stock → StockReservation → List Stock → List Stock → Type 0
  Leaves stock r before after =
      (r.quantity ≤ℤ stock.quantity)
      × ((now : ℕ) × (after
            ≡ replace same_product
                (record stock { quantity = stock.quantity -ℤ r.quantity; updated_at = now })
                before))
