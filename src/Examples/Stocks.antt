-- ===== src/Examples/Stocks.antt =====
-- A stock of ten, with three of them reserved, on tables in memory.
use goshop_x.Base.{
  false, pos, ◌≡◌, refl, ◌↔◌, ◌⊎◌, true, none, [], ◌∷◌, ok, err, insufficient_stock,
  record_not_found, arith, ◌+◌, ◌==◌, ◌≤ℤ◌, ◌-ℤ◌, ◌+ℤ◌, wrap32, length, same, Session,
}
use goshop_x.Memory.{memory}
use goshop_x.Inventory.Models.{Stock, StockReservation, Availability, active, committed}
use goshop_x.Inventory.Tables.{Tables, Event, Backend}
use goshop_x.Inventory.Availability.{to_availability, cleanup_expired_tx, lock_stock, sum_reserved}
use goshop_x.Inventory.Levels.{to_availability_lem}
use goshop_x.Inventory.Reserve.{Request, reserve_stock, reserve_body, find_existing}
use goshop_x.Inventory.Transition.{transition_reservation, transition_body, find_locked}
use goshop_x.Inventory.Stocks.{adjust_stock, adjust_body}
use goshop_x.Inventory.Atomic.{
  IsUndone, reserve_stock-IsUndone, transition_reservation-IsUndone, adjust_stock-IsUndone,
}

abbrev stock : Stock
stock = record { product_id = "tea"; quantity = pos 10; reorder_level = pos 5; updated_at = 1 }

abbrev three_reserved : StockReservation
three_reserved = record {
  id = 1;
  reservation_id = "r1";
  account_id = 4;
  product_id = "tea";
  quantity = pos 3;
  status = active;
  source = "cart";
  expires_at = 100;
  created_at = 1;
  updated_at = 1;
}

abbrev backend : Backend
backend = record {
  driver = record { begin_fault = λ _. none; commit_fault = λ _. none; clock = λ i. i };
  stock_orm =
      memory (λ x y. same x.product_id y.product_id) (λ x y. same x.product_id y.product_id)
        (λ _ x. x);
  reservation_orm =
      memory (λ x y. x.id == y.id) (λ x y. same x.reservation_id y.reservation_id)
        (λ rows r. record r { id = length rows + 1 });
  outbox_orm = memory (λ x y. x.id == y.id) (λ x y. same x.event_key y.event_key) (λ _ x. x);
  marshal = λ _. ok "{}";
  new_uuid = λ _. "r9";
}

abbrev stocked : Session Tables Event
stocked = record {
  db = record { stocks = stock ∷ []; reservations = three_reserved ∷ []; outbox = [] };
  tx = none;
  ticks = 0;
  published = [];
}

abbrev three_committed : StockReservation
three_committed = record three_reserved { status = committed; updated_at = 3 }

abbrev delivered : Session Tables Event
delivered = record stocked {
  db = record {
    stocks = record stock { quantity = pos 7; updated_at = 2 } ∷ [];
    reservations = three_committed ∷ [];
    outbox =
        record {
          id = 0;
          event_key = "r1:inventory.committed";
          event_type = "inventory.committed";
          payload = "{}";
          created_at = 5;
        }
        ∷ [];
  };
  ticks = 6;
}

abbrev seven_left : Availability
seven_left = record {
  product_id = "tea";
  total_quantity = pos 7;
  reserved_quantity = pos 0;
  available_quantity = pos 7;
  reorder_level = pos 5;
  has_active_low_stock = false;
}

abbrev eight_more : Request
eight_more = record {
  reservation_id = "r2";
  account_id = 5;
  product_id = "tea";
  quantity = pos 8;
  expires_at = 100;
  source = "cart";
}

eight_refused :
    reserve_stock backend eight_more stocked
    ≡ (err insufficient_stock, record stocked { ticks = 3 })
unfolding reserve_stock reserve_body cleanup_expired_tx lock_stock sum_reserved find_existing wrap32
    ◌-ℤ◌ ◌+ℤ◌
eight_refused = refl

reserve_stock-IsUndone_example : IsUndone stocked (record stocked { ticks = 3 })
reserve_stock-IsUndone_example =
    reserve_stock-IsUndone backend eight_more stocked (record stocked { ticks = 3 })
      insufficient_stock refl eight_refused

unknown_refused :
    transition_reservation backend "r7" committed stocked
    ≡ (err record_not_found, record stocked { ticks = 2 })
unfolding transition_reservation transition_body find_locked cleanup_expired_tx
unknown_refused = refl

transition_reservation-IsUndone_example : IsUndone stocked (record stocked { ticks = 2 })
transition_reservation-IsUndone_example =
    transition_reservation-IsUndone backend "r7" committed stocked (record stocked { ticks = 2 })
      record_not_found unknown_refused

eleven_refused :
    adjust_stock backend "tea" (pos 0 -ℤ pos 11) (pos 5) stocked ≡ (err insufficient_stock, stocked)
unfolding adjust_stock adjust_body lock_stock wrap32 ◌-ℤ◌ ◌+ℤ◌
eleven_refused = refl

adjust_stock-IsUndone_example : IsUndone stocked stocked
adjust_stock-IsUndone_example =
    adjust_stock-IsUndone backend "tea" (pos 0 -ℤ pos 11) (pos 5) stocked stocked insufficient_stock
      eleven_refused

to_availability_lem_example :
    let a = to_availability stock (pos 3) in
    (a.total_quantity ≡ pos 10)
    × (a.reserved_quantity ≡ pos 3)
    × (((pos 3 ≤ℤ pos 10) × (a.available_quantity ≡ pos 10 -ℤ pos 3))
        ⊎ ((pos 10 ≤ℤ pos 3) × (a.available_quantity ≡ pos 0)))
    × ((a.has_active_low_stock ≡ true) ↔ (a.available_quantity ≤ℤ pos 5))
to_availability_lem_example =
    to_availability_lem stock (pos 3) (ground arith) (omega arith) (ground arith) (omega arith)
