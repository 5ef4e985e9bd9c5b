-- ===== src/Inventory/Transition/Goods.antt =====
-- When a change of a reservation takes goods out of the stock.
use goshop_x.Base.{
  ℕ, suc, pos, String, ◌≡◌, refl, sym, ap, ◌∙◌, subst, ◌⊎◌, inl, inr, true, false, some, List, ok,
  arith, pure, read_tx, in_transaction-eq-ok, begin_open, begin, ◌>>=◌, >>=-eq-ok, Result-cases,
  Bool-cases, Option-cases, ltb_ℤ,
}
use goshop_x.Inventory.Models.{
  ReservationStatus, active, committed, Stock, StockReservation, Availability,
}
use goshop_x.Inventory.Tables.{Tables, Backend}
use goshop_x.Inventory.Availability.{
  to_availability, of_product, is_due, expire, cleanup_expired_tx, lock_stock, sum_reserved, sub32,
}
use goshop_x.Inventory.Reserve.{has_id}
use goshop_x.Inventory.Transition.{
  is_settled, takes_goods, take_goods, settle_stock, mark_status, change_status, find_locked,
  transition_locked, transition_body, transition_reservation,
}
use goshop_x.Inventory.Transition.Keeps.{
  S, KeepsStocks, keeping, sum_reserved-KeepsStocks, mark_status-KeepsStocks, kept_lem,
}

some-inj : {x y : Tables} → some x ≡ some y → x ≡ y
some-inj h = ground arith

is_settled_lem :
    (next status : ReservationStatus)
    → is_settled next status ≡ true
    → takes_goods next status ≡ false
is_settled_lem next status h = ground arith

module _ (b : Backend) where
  -- What a commit of an active reservation takes: goods that are there, in the stock that is stored.
  abbrev pub Taken : Stock → StockReservation → List Stock → List Stock → Type 0
  Taken stock r before after =
      (ltb_ℤ (sub32 stock.quantity r.quantity) (pos 0) ≡ false)
      × ((now : ℕ) × (b.stock_orm.save
              (record stock { quantity = sub32 stock.quantity r.quantity; updated_at = now }) before
            ≡ ok after))

  take_goods_lem :
      (stock : Stock) (r : StockReservation) (s t : S) (d : Tables) {left : Stock}
      → s.tx ≡ some d
      → take_goods b stock r s ≡ (ok left, t)
      → (d' : Tables) × (t.tx ≡ some d') × Taken stock r d.stocks d'.stocks
  unfolding take_goods
  take_goods_lem stock r s t d inside e =
      let now = b.driver.clock s.ticks in
      let changed : Stock = record stock {
        quantity = sub32 stock.quantity r.quantity;
        updated_at = now;
      } in
      elim (Result-cases (b.stock_orm.save changed d.stocks)) [
        | inl (rows, saved) ↦
            (record d { stocks = rows }, ground arith, (ground arith, (now, saved)))
        | inr (x, failed) ↦ ground arith
      ]

  -- Whether goods are taken.
  abbrev pub Outcome :
      ReservationStatus → Stock → StockReservation → List Stock → List Stock → Type 0
  Outcome next stock r before after =
      ((takes_goods next r.status ≡ false) × (after ≡ before))
      ⊎ ((takes_goods next r.status ≡ true) × Taken stock r before after)

  settle_stock_lem :
      (next : ReservationStatus) (stock : Stock) (r : StockReservation) (s t : S) (d : Tables)
      {left : Stock}
      → s.tx ≡ some d
      → settle_stock b next stock r s ≡ (ok left, t)
      → (d' : Tables) × (t.tx ≡ some d') × Outcome next stock r d.stocks d'.stocks
  unfolding settle_stock
  settle_stock_lem next stock r s t d inside e = elim (Bool-cases (takes_goods next r.status)) [
    | inl takes ↦
        let (d', there, taken) = take_goods_lem stock r s t d inside (rw takes at e) in
        (d', there, inr (takes, taken))
    | inr leaves ↦ (d, ground arith, inl (leaves, refl))
  ]

  change_status_lem :
      (next : ReservationStatus) (stock : Stock) (r : StockReservation) (s t : S) (d : Tables)
      {a : StockReservation × Availability}
      → s.tx ≡ some d
      → change_status b next stock r s ≡ (ok a, t)
      → (d' : Tables) × (t.tx ≡ some d') × Outcome next stock r d.stocks d'.stocks
  unfolding change_status
  change_status_lem next stock r s t d inside e =
      let (left, u, settled, marked) =
        >>=-eq-ok (settle_stock b next stock r) (mark_status b next r) s e in
      let (d1, in1, outcome) = settle_stock_lem next stock r s u d inside settled in
      let (d2, in2, same_rows) =
        kept_lem b (mark_status-KeepsStocks b next r left) u t d1 in1 marked in
      (d2, in2, subst (Outcome next stock r d.stocks) (sym same_rows) outcome)

  settled_part-KeepsStocks :
      (found : StockReservation × Stock)
      → KeepsStocks {A = StockReservation × Availability} (do
        reserved ← sum_reserved b read_tx (found.0.product_id) ""
        pure {S = S} (found.0, to_availability found.1 reserved))
  settled_part-KeepsStocks found = search (keeping, sum_reserved-KeepsStocks b) depth 12

  transition_locked_lem :
      (next : ReservationStatus) (found : StockReservation × Stock) (s t : S) (d : Tables)
      {a : StockReservation × Availability}
      → s.tx ≡ some d
      → transition_locked b next found s ≡ (ok a, t)
      → (d' : Tables) × (t.tx ≡ some d') × Outcome next found.1 found.0 d.stocks d'.stocks
  unfolding transition_locked
  transition_locked_lem next found s t d inside e =
      elim (Bool-cases (is_settled next (found.0.status))) [
        | inl done ↦
            let (d', there, same_rows) =
              kept_lem b (settled_part-KeepsStocks found) s t d inside (rw done at e) in
            (d', there, inl (is_settled_lem next (found.0.status) done, same_rows))
        | inr open_one ↦ change_status_lem next found.1 found.0 s t d inside (rw open_one at e)
      ]

  find_locked_lem :
      (rid : String) (s t : S) (d : Tables) {r : StockReservation} {stock : Stock}
      → s.tx ≡ some d
      → find_locked b rid s ≡ (ok (r, stock), t)
      → (t.tx ≡ some d)
        × (b.reservation_orm.first (has_id rid) d.reservations ≡ ok r)
        × (b.stock_orm.first (of_product r.product_id) d.stocks ≡ ok stock)
  unfolding find_locked lock_stock
  find_locked_lem rid s t d {r} {stock} inside e =
      elim (Result-cases (b.reservation_orm.first (has_id rid) d.reservations)) [
        | inl (r', found) ↦
            elim (Result-cases (b.stock_orm.first (of_product r'.product_id) d.stocks)) [
              | inl (stock', held) ↦
                  let same_r : r' ≡ r = ground arith in
                  (
                    ground arith,
                    found ∙ ap ok same_r,
                    subst (λ x. b.stock_orm.first (of_product x.product_id) d.stocks ≡ ok stock)
                        same_r (ground arith),
                  )
              | inr (x, missing) ↦ ground arith
            ]
        | inr (x, missing) ↦ ground arith
      ]

  -- The cleanup that comes first: it needs an open transaction, and marks what is due.
  cleanup_lem :
      (s t : S) {n : ℕ}
      → cleanup_expired_tx b "" s ≡ (ok n, t)
      → (d : Tables) × (rows : List StockReservation) × (now : ℕ) × (later : ℕ) × (s.tx ≡ some d)
        × (b.reservation_orm.updates (is_due now "") (expire later) d.reservations ≡ ok (n, rows))
        × (t.tx ≡ some (record d { reservations = rows }))
  unfolding cleanup_expired_tx
  cleanup_lem s t {n} e = elim (Option-cases s.tx) [
    | inl closed ↦ ground arith
    | inr (d, inside) ↦
        let now = b.driver.clock s.ticks in
        let later = b.driver.clock (suc s.ticks) in
        elim (Result-cases
          (b.reservation_orm.updates (is_due now "") (expire later) d.reservations)) [
            | inl ((k, rows), marked) ↦
                let same_n : k ≡ n = ground arith in
                (d, rows, now, later, inside, marked ∙ ap (λ i. ok (i, rows)) same_n, ground arith)
            | inr (x, failed) ↦ ground arith
          ]
  ]

takes_goods_lem :
    (next status : ReservationStatus)
    → takes_goods next status ≡ true
    → (next ≡ committed) × (status ≡ active)
takes_goods_lem next status h = (ground arith, ground arith)

leaves_goods_lem :
    (next status : ReservationStatus)
    → takes_goods next status ≡ false
    → ¬ ((next ≡ committed) × (status ≡ active))
leaves_goods_lem next status h (e, e') = ground arith

-- The stocks before and after: goods are taken, or nothing changes.
abbrev pub Settlement :
    Backend → ReservationStatus → Stock → StockReservation → List Stock → List Stock → Type 0
Settlement b next stock r before after =
    ((next ≡ committed) × (r.status ≡ active) × Taken b stock r before after)
    ⊎ (¬ ((next ≡ committed) × (r.status ≡ active)) × (after ≡ before))

settlement_lem :
    (b : Backend) (next : ReservationStatus) (stock : Stock) (r : StockReservation)
    (before after : List Stock)
    → Outcome b next stock r before after
    → Settlement b next stock r before after
settlement_lem b next stock r before after (inl (leaves, same_rows)) =
    inr (leaves_goods_lem next r.status leaves, same_rows)
settlement_lem b next stock r before after (inr (takes, taken)) =
    let (e, e') = takes_goods_lem next r.status takes in inl (e, e', taken)

-- What a release or a commit that succeeds does to the stocks.
pub transition_reservation-Settlement :
    (b : Backend) (rid : String) (next : ReservationStatus) (s t : S)
    (a : StockReservation × Availability)
    → transition_reservation b rid next s ≡ (ok a, t)
    → (n now later : ℕ) × (rows : List StockReservation) × (r : StockReservation) × (stock : Stock)
      × (b.reservation_orm.updates (is_due now "") (expire later) s.db.reservations ≡ ok (n, rows))
      × (b.reservation_orm.first (has_id rid) rows ≡ ok r)
      × (b.stock_orm.first (of_product r.product_id) s.db.stocks ≡ ok stock)
      × Settlement b next stock r s.db.stocks t.db.stocks
unfolding transition_reservation transition_body
transition_reservation-Settlement b rid next s t a e =
    let (u, x, ran, left, stored) =
      in_transaction-eq-ok b.driver (transition_body b rid next) s e in
    let searching = λ (_ : ℕ). (find_locked b rid >>= transition_locked b next) in
    let (n, s1, cleaned, e1) =
      >>=-eq-ok (cleanup_expired_tx b "") searching (begin b.driver s) ran in
    let (d, rows, now, later, opened, marked, in1) = cleanup_lem b (begin b.driver s) s1 cleaned in
    let ((r, stock), s2, found, e2) =
      >>=-eq-ok (find_locked b rid) (transition_locked b next) s1 e1 in
    let start : d ≡ s.db = begin_open b.driver s opened in
    let d1 : Tables = record d { reservations = rows } in
    let (in2, held, stocked) = find_locked_lem b rid s1 s2 d1 in1 found in
    let (d3, in3, outcome) = transition_locked_lem b next (r, stock) s2 u d1 in2 e2 in
    let same_end : d3 ≡ t.db = some-inj (sym in3 ∙ left) ∙ sym stored in
    (
      n,
      now,
      later,
      rows,
      r,
      stock,
      subst
          (λ (y : Tables).
            b.reservation_orm.updates (is_due now "") (expire later) y.reservations ≡ ok (n, rows))
          start marked,
      held,
      subst (λ (y : Tables). b.stock_orm.first (of_product r.product_id) y.stocks ≡ ok stock) start
          stocked,
      subst (λ (y : Tables). Settlement b next stock r y.stocks t.db.stocks) start
          (subst (λ (y : Tables). Settlement b next stock r d.stocks y.stocks) same_end
            (settlement_lem b next stock r d.stocks d3.stocks outcome)),
    )
