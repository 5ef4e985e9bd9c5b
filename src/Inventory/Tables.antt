-- ===== src/Inventory/Tables.antt =====
-- The tables of the inventory database, the statements on them, and what the repository takes from
-- outside: the object-relational mapper, the driver with its clock, the JSON encoder and `uuid`.
use goshop_x.Base.{
  ℕ, String, List, Result, Action, Session, Driver, Orm, query_on, change_on, write_on,
}
use goshop_x.Inventory.Models.{Stock, StockReservation, EventData, InventoryEventOutbox}

pub record Tables : Type 0 where
  pub stocks : List Stock
  pub reservations : List StockReservation
  pub outbox : List InventoryEventOutbox

-- A message for the inventory topic, before its envelope is stamped.
pub record Event : Type 0 where
  pub event_type : String
  pub account_id : ℕ
  pub event_key : String
  pub content : EventData

pub record Backend : Type 0 where
  pub driver : Driver Tables
  pub stock_orm : Orm Stock
  pub reservation_orm : Orm StockReservation
  pub outbox_orm : Orm InventoryEventOutbox
  pub marshal : EventData → Result String
  pub new_uuid : ℕ → String

abbrev pub Call : Type 0 → Type 0
Call = Action (Session Tables Event)

module _ {A : Type 0} where
  abbrev pub query_stocks : (List Stock → Result A) → Tables → Result A
  query_stocks = query_on (λ t. t.stocks) (λ rows t. record t { stocks = rows })

  abbrev pub query_reservations : (List StockReservation → Result A) → Tables → Result A
  query_reservations = query_on (λ t. t.reservations) (λ rows t. record t { reservations = rows })

  abbrev pub change_stocks : (List Stock → Result (A × List Stock)) → Tables → Result (A × Tables)
  change_stocks = change_on (λ t. t.stocks) (λ rows t. record t { stocks = rows })

  abbrev pub change_reservations :
      (List StockReservation → Result (A × List StockReservation)) → Tables → Result (A × Tables)
  change_reservations = change_on (λ t. t.reservations) (λ rows t. record t { reservations = rows })

  abbrev pub change_outbox :
      (List InventoryEventOutbox → Result (A × List InventoryEventOutbox))
      → Tables
      → Result (A × Tables)
  change_outbox = change_on (λ t. t.outbox) (λ rows t. record t { outbox = rows })

abbrev pub write_stocks : (List Stock → Result (List Stock)) → Tables → Result (Unit {0} × Tables)
write_stocks = write_on (λ t. t.stocks) (λ rows t. record t { stocks = rows })

abbrev pub write_reservations :
    (List StockReservation → Result (List StockReservation)) → Tables → Result (Unit {0} × Tables)
write_reservations = write_on (λ t. t.reservations) (λ rows t. record t { reservations = rows })
