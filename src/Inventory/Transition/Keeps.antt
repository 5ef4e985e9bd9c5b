-- ===== src/Inventory/Transition/Keeps.antt =====
-- Statements of the inventory that leave the stocks in the open transaction alone.
use goshop_x.Base.{
  String, ◌≡◌, refl, sym, ap, ◌∙◌, subst, resume, inl, inr, some, List, Result, ok, err, arith,
  Session, Action, pure, lift, read_tx, write_tx, time_now, ◌>>=◌, Result-cases,
}
use goshop_x.Inventory.Models.{
  ReservationStatus, Stock, StockReservation, InventoryEventOutbox, EventData,
}
use goshop_x.Inventory.Tables.{
  Tables, Event, Backend, change_reservations, change_outbox, write_reservations,
}
use goshop_x.Inventory.Availability.{cleanup_expired_tx, lock_stock, sum_reserved, write_outbox}
use goshop_x.Inventory.Transition.{mark_status}

abbrev pub S : Type 0
S = Session Tables Event

-- Calls in the open transaction that leave the stocks in it alone.
pub record KeepsStocks {A : Type 0} (m : Action S A) : Type 0 where
  pub kept :
      (s : S) (d : Tables)
      → s.tx ≡ some d
      → (d' : Tables) × ((m s).1.tx ≡ some d') × (d'.stocks ≡ d.stocks)

pub >>=-KeepsStocks :
    {A B : Type 0} (m : Action S A) (f : A → Action S B)
    → KeepsStocks m
    → ((a : A) → KeepsStocks (f a))
    → KeepsStocks (m >>= f)
>>=-KeepsStocks {A} {B} m f h k = record { kept = λ s d inside. go s d inside (m s) refl }
  where
    Left : List Stock → Result B × S → Type 0
    Left rows p = (d' : Tables) × (p.1.tx ≡ some d') × (d'.stocks ≡ rows)

    go :
        (s : S) (d : Tables)
        → s.tx ≡ some d
        → (r : Result A × S) → m s ≡ r
        → Left d.stocks ((m >>= f) s)
    go s d inside (ok a, t) e =
        let (d1, in1, kept1) = h.kept s d inside in
        let there : t.tx ≡ some d1 = sym (ap (λ (x : Result A × S). x.1.tx) e) ∙ in1 in
        let (d2, in2, kept2) = (k a).kept t d1 there in
        subst (λ p. Left d.stocks (resume p f)) (sym e) (d2, in2, kept2 ∙ kept1)
    go s d inside (err x, t) e =
        let (d1, in1, kept1) = h.kept s d inside in
        let there : t.tx ≡ some d1 = sym (ap (λ (x : Result A × S). x.1.tx) e) ∙ in1 in
        subst (λ p. Left d.stocks (resume p f)) (sym e) (d1, there, kept1)

pub pure-KeepsStocks : {A : Type 0} (a : A) → KeepsStocks (pure {S = S} a)
pure-KeepsStocks a = record { kept = λ s d inside. (d, inside, refl) }

pub lift-KeepsStocks : {A : Type 0} (r : Result A) → KeepsStocks (lift {S = S} r)
lift-KeepsStocks r = record { kept = λ s d inside. (d, inside, refl) }

module _ (b : Backend) where
  pub time_now-KeepsStocks : KeepsStocks (time_now {E = Event} b.driver)
  time_now-KeepsStocks = record { kept = λ s d inside. (d, inside, refl) }

pub read_tx-KeepsStocks : {A : Type 0} (f : Tables → Result A) → KeepsStocks (read_tx {E = Event} f)
read_tx-KeepsStocks f = record { kept = λ s d inside. (d, ground arith, refl) }

pub change_reservations-KeepsStocks :
    {A : Type 0} (f : List StockReservation → Result (A × List StockReservation))
    → KeepsStocks (write_tx {E = Event} (change_reservations f))
change_reservations-KeepsStocks f = record {
  kept = λ s d inside. elim (Result-cases (f d.reservations)) [
    | inl ((a, rows), e) ↦ (record d { reservations = rows }, ground arith, refl)
    | inr (x, e) ↦ (d, ground arith, refl)
  ];
}

pub write_reservations-KeepsStocks :
    (f : List StockReservation → Result (List StockReservation))
    → KeepsStocks (write_tx {E = Event} (write_reservations f))
write_reservations-KeepsStocks f = record {
  kept = λ s d inside. elim (Result-cases (f d.reservations)) [
    | inl (rows, e) ↦ (record d { reservations = rows }, ground arith, refl)
    | inr (x, e) ↦ (d, ground arith, refl)
  ];
}

pub change_outbox-KeepsStocks :
    {A : Type 0} (f : List InventoryEventOutbox → Result (A × List InventoryEventOutbox))
    → KeepsStocks (write_tx {E = Event} (change_outbox f))
change_outbox-KeepsStocks f = record {
  kept = λ s d inside. elim (Result-cases (f d.outbox)) [
    | inl ((a, rows), e) ↦ (record d { outbox = rows }, ground arith, refl)
    | inr (x, e) ↦ (d, ground arith, refl)
  ];
}

pub ruleset keeping = (
  >>=-KeepsStocks, pure-KeepsStocks, lift-KeepsStocks, time_now-KeepsStocks, read_tx-KeepsStocks,
  change_reservations-KeepsStocks, write_reservations-KeepsStocks, change_outbox-KeepsStocks,
)

module _ (b : Backend) where
  cleanup_expired_tx-KeepsStocks : (p : String) → KeepsStocks (cleanup_expired_tx b p)
  unfolding cleanup_expired_tx
  cleanup_expired_tx-KeepsStocks p = search keeping

  lock_stock-KeepsStocks : (p : String) → KeepsStocks (lock_stock b p)
  unfolding lock_stock
  lock_stock-KeepsStocks p = search keeping

  pub sum_reserved-KeepsStocks :
      (p excluded : String) → KeepsStocks (sum_reserved b read_tx p excluded)
  unfolding sum_reserved
  sum_reserved-KeepsStocks p excluded = search keeping

  write_outbox-KeepsStocks : (t k : String) (e : EventData) → KeepsStocks (write_outbox b t k e)
  unfolding write_outbox
  write_outbox-KeepsStocks t k e = search keeping

  pub mark_status-KeepsStocks :
      (next : ReservationStatus) (r : StockReservation) (left : Stock)
      → KeepsStocks (mark_status b next r left)
  unfolding mark_status
  mark_status-KeepsStocks next r left =
      search (keeping, sum_reserved-KeepsStocks, write_outbox-KeepsStocks) depth 12

  -- A step that succeeds: the state that it leaves holds the same stocks.
  pub kept_lem :
      {A : Type 0} {m : Action S A} (h : KeepsStocks m) (s t : S) (d : Tables) {a : A}
      → s.tx ≡ some d
      → m s ≡ (ok a, t)
      → (d' : Tables) × (t.tx ≡ some d') × (d'.stocks ≡ d.stocks)
  kept_lem {A} h s t d inside e =
      let (d', there, same_rows) = h.kept s d inside in
      (d', sym (ap (λ (x : Result A × S). x.1.tx) e) ∙ there, same_rows)
