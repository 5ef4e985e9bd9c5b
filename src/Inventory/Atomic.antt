-- ===== src/Inventory/Atomic.antt =====
-- The transactions of the inventory change all of their tables or none.
use goshop_x.Base.{
  ℕ, ℤ, pos, String, ◌≡◌, inl, inr, Option, some, none, err, Fault, arith, Session, IsContained,
  contained_rules, in_transaction-eq-err, read_tx, Bool-cases, leb_ℤ,
}
use goshop_x.Inventory.Models.{ReservationStatus, Stock, StockReservation, EventData}
use goshop_x.Inventory.Tables.{Tables, Event, Backend}
use goshop_x.Inventory.Availability.{cleanup_expired_tx, lock_stock, sum_reserved, write_outbox}
use goshop_x.Inventory.Reserve.{
  Request, find_existing, store_reservation, reserve_body, reserve_stock,
}
use goshop_x.Inventory.Transition.{
  take_goods, settle_stock, change_status, mark_status, find_locked, transition_locked,
  transition_body, transition_reservation,
}
use goshop_x.Inventory.Stocks.{adjust_body, adjust_stock}

module _ (b : Backend) where
  cleanup_expired_tx-IsContained : (p : String) → IsContained (cleanup_expired_tx b p)
  unfolding cleanup_expired_tx
  cleanup_expired_tx-IsContained p = search contained_rules

  lock_stock-IsContained : (p : String) → IsContained (lock_stock b p)
  unfolding lock_stock
  lock_stock-IsContained p = search contained_rules

  sum_reserved-IsContained : (p excluded : String) → IsContained (sum_reserved b read_tx p excluded)
  unfolding sum_reserved
  sum_reserved-IsContained p excluded = search contained_rules

  write_outbox-IsContained : (t k : String) (e : EventData) → IsContained (write_outbox b t k e)
  unfolding write_outbox
  write_outbox-IsContained t k e = search contained_rules

  find_existing-IsContained : (rid : String) → IsContained (find_existing b rid)
  unfolding find_existing
  find_existing-IsContained rid = search contained_rules

  store_reservation-IsContained :
      (q : Request) (now : ℕ) (r : Option StockReservation)
      → IsContained (store_reservation b q now r)
  unfolding store_reservation
  store_reservation-IsContained q now (some r) = search contained_rules
  store_reservation-IsContained q now none = search contained_rules

  ruleset part_rules = (
    contained_rules, cleanup_expired_tx-IsContained, lock_stock-IsContained,
    sum_reserved-IsContained, write_outbox-IsContained, find_existing-IsContained,
    store_reservation-IsContained,
  )

  reserve_body-IsContained : (q : Request) → IsContained (reserve_body b q)
  unfolding reserve_body
  reserve_body-IsContained q = search part_rules depth 12

  take_goods-IsContained :
      (stock : Stock) (r : StockReservation) → IsContained (take_goods b stock r)
  unfolding take_goods
  take_goods-IsContained stock r = search contained_rules

  settle_stock-IsContained :
      (next : ReservationStatus) (stock : Stock) (r : StockReservation)
      → IsContained (settle_stock b next stock r)
  unfolding settle_stock
  settle_stock-IsContained next stock r = search (contained_rules, take_goods-IsContained)

  mark_status-IsContained :
      (next : ReservationStatus) (r : StockReservation) (left : Stock)
      → IsContained (mark_status b next r left)
  unfolding mark_status
  mark_status-IsContained next r left = search part_rules depth 12

  change_status-IsContained :
      (next : ReservationStatus) (stock : Stock) (r : StockReservation)
      → IsContained (change_status b next stock r)
  unfolding change_status
  change_status-IsContained next stock r =
      search (part_rules, settle_stock-IsContained, mark_status-IsContained)

  find_locked-IsContained : (rid : String) → IsContained (find_locked b rid)
  unfolding find_locked
  find_locked-IsContained rid = search part_rules

  transition_locked-IsContained :
      (next : ReservationStatus) (found : StockReservation × Stock)
      → IsContained (transition_locked b next found)
  unfolding transition_locked
  transition_locked-IsContained next found = search (part_rules, change_status-IsContained)

  transition_body-IsContained :
      (rid : String) (next : ReservationStatus) → IsContained (transition_body b rid next)
  unfolding transition_body
  transition_body-IsContained rid next =
      search (part_rules, find_locked-IsContained, transition_locked-IsContained)

  adjust_body-IsContained :
      (p : String) (delta level : ℤ) → IsContained (adjust_body b p delta level)
  unfolding adjust_body
  adjust_body-IsContained p delta level = search part_rules depth 12

-- Nothing of a failed call is left: the committed tables and the events are the ones before it, and no
-- transaction stays open.
abbrev pub IsUndone : Session Tables Event → Session Tables Event → Type 0
IsUndone s t = (t.db ≡ s.db) × (t.published ≡ s.published) × (t.tx ≡ none)

-- A reservation that fails, at whatever statement, leaves the committed tables and the events as they
-- were, and no transaction open, where none was open before.
pub reserve_stock-IsUndone :
    (b : Backend) (q : Request) (s t : Session Tables Event) (e : Fault)
    → s.tx ≡ none
    → reserve_stock b q s ≡ (err e, t)
    → IsUndone s t
unfolding reserve_stock
reserve_stock-IsUndone b q s t e closed h = elim (Bool-cases (leb_ℤ q.quantity (pos 0))) [
  | inl bad ↦ ground arith
  | inr good ↦
      in_transaction-eq-err b.driver (reserve_body b q) s (reserve_body-IsContained b q)
        (rw good at h)
]

-- A release or a commit of a reservation that fails, at whatever statement, leaves the committed
-- tables and the events as they were, and no transaction open: goods are never taken without the
-- reservation being marked, nor the other way round.
pub transition_reservation-IsUndone :
    (b : Backend) (rid : String) (next : ReservationStatus) (s t : Session Tables Event) (e : Fault)
    → transition_reservation b rid next s ≡ (err e, t)
    → IsUndone s t
unfolding transition_reservation
transition_reservation-IsUndone b rid next s t e h =
    in_transaction-eq-err b.driver (transition_body b rid next) s
      (transition_body-IsContained b rid next) h

-- An adjustment of a stock that fails leaves the committed tables and the events as they were, and no
-- transaction open.
pub adjust_stock-IsUndone :
    (b : Backend) (p : String) (delta level : ℤ) (s t : Session Tables Event) (e : Fault)
    → adjust_stock b p delta level s ≡ (err e, t)
    → IsUndone s t
unfolding adjust_stock
adjust_stock-IsUndone b p delta level s t e h =
    in_transaction-eq-err b.driver (adjust_body b p delta level) s
      (adjust_body-IsContained b p delta level) h
