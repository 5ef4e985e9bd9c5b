-- ===== src/Order/Atomic.antt =====
-- Orders are stored with all of their rows or not at all.
use goshop_x.Base.{
  ℕ, String, ◌≡◌, inl, inr, ok, err, none, some, arith, Fault, List, [], ◌∷◌, Session, ℤ,
  >>=-IsContained, write_tx-IsContained, write_tx, IsContained, contained_rules, IsAborting,
  aborting_rules, in_transaction-eq-err, deferred-eq-err, is_empty, Bool-cases, Option-cases,
  deferred, rollback, Action, ◌>>=◌, ◌>>◌, pure, subst, resume,
}
use goshop_x.Order.Models.{Coupon, CheckoutQuoteRecord, Order, OrderedProduct}
use goshop_x.Order.Tables.{Tables, Event, Backend, change_products}
use goshop_x.Order.Put.{
  normalized, product_row, begin_checked, create_order, create_items, put_order, coupon_in_tx,
  create_redemption, finish_order, store_discounted, coupon_body, put_order_with_coupon,
}
use goshop_x.Order.Quote.{
  replay_order, apply_quote_coupon, redeem_quote, consume_quote, quote_body, put_order_with_quote,
}

module _ {F : Type 0} (b : Backend F) where
  create_order-IsContained : (o : Order F) → IsContained (create_order b o)
  unfolding create_order
  create_order-IsContained o = search contained_rules

  create_items-IsContained :
      (id : ℕ) (ps : List (OrderedProduct F)) → IsContained (create_items b id ps)
  unfolding create_items
  create_items-IsContained id [] = search contained_rules
  create_items-IsContained id (p ∷ ps) =
      let write = change_products (b.product_orm.create (product_row id p)) in
      >>=-IsContained (write_tx write) (λ _. create_items b id ps) (write_tx-IsContained write)
        (λ _. create_items-IsContained id ps)

  create_redemption-IsContained :
      (code : String) (o : Order F) → IsContained (create_redemption b code o)
  unfolding create_redemption
  create_redemption-IsContained code o = search contained_rules

  coupon_in_tx-IsContained :
      (code : String) (account : ℕ) → IsContained (coupon_in_tx b code account)
  unfolding coupon_in_tx
  coupon_in_tx-IsContained code account = search contained_rules depth 12

  ruleset order_rules = (
    contained_rules, aborting_rules, create_order-IsContained, create_items-IsContained,
    create_redemption-IsContained, coupon_in_tx-IsContained,
  )

  finish_order-IsAborting : (code : String) (o : Order F) → IsAborting (finish_order b code o)
  unfolding finish_order
  finish_order-IsAborting code o = search order_rules depth 12

  store_discounted-IsAborting :
      (o : Order F) (code : String) (used : Coupon × ℤ × ℤ)
      → IsAborting (store_discounted b o code used)
  unfolding store_discounted
  store_discounted-IsAborting o code used = search (order_rules, finish_order-IsAborting) depth 12

  coupon_body-IsAborting : (o : Order F) (code : String) → IsAborting (coupon_body b o code)
  unfolding coupon_body
  coupon_body-IsAborting o code = search (order_rules, store_discounted-IsAborting) depth 12

  replay_order-IsAborting :
      (q : CheckoutQuoteRecord) (o : Order F) → IsAborting (replay_order b q o)
  unfolding replay_order
  replay_order-IsAborting q o = search order_rules depth 12

  apply_quote_coupon-IsContained :
      (q : CheckoutQuoteRecord) (o : Order F) (now : ℕ) → IsContained (apply_quote_coupon b q o now)
  unfolding apply_quote_coupon
  apply_quote_coupon-IsContained q o now = search order_rules depth 12

  redeem_quote-IsContained :
      (q : CheckoutQuoteRecord) (o : Order F) → IsContained (redeem_quote b q o)
  unfolding redeem_quote
  redeem_quote-IsContained q o = search order_rules depth 12

  consume_quote-IsAborting :
      (q : CheckoutQuoteRecord) (o : Order F) (hash : String) (version : ℕ)
      → IsAborting (consume_quote b q o hash version)
  unfolding consume_quote
  consume_quote-IsAborting q o hash version =
      search (order_rules, apply_quote_coupon-IsContained, redeem_quote-IsContained) depth 16

  quote_body-IsAborting :
      (o : Order F) (id hash : String) (version : ℕ) → IsAborting (quote_body b o id hash version)
  unfolding quote_body
  quote_body-IsAborting o id hash version =
      search (order_rules, replay_order-IsAborting, consume_quote-IsAborting) depth 12

  put_order_body-IsContained :
      (o : Order F)
      → IsContained
          (do created ← create_order b o; create_items b created.id created.products; pure created)
  put_order_body-IsContained o = search order_rules depth 12

-- Nothing of a failed call is left: the committed tables and the events are the ones before it, and no
-- transaction stays open.
abbrev pub LeavesNothing :
    {F : Type 0} → Session (Tables F) (Event F) → Session (Tables F) (Event F) → Type 0
LeavesNothing s t = (t.db ≡ s.db) × (t.published ≡ s.published) × (t.tx ≡ none)

module _ {F : Type 0} (b : Backend F) where
  -- `Begin` and the deferred rollback around a body that commits at its end.
  begun_lem :
      {A : Type 0} (m : Action (Session (Tables F) (Event F)) A) (s : Session (Tables F) (Event F))
      {e : Fault} {t : Session (Tables F) (Event F)}
      → IsAborting m
      → (begin_checked b >>= λ _. deferred rollback m) s ≡ (err e, t)
      → LeavesNothing s t
  unfolding begin_checked
  begun_lem {A} m s {e} {t} h eq = elim (Option-cases (b.driver.begin_fault s.db)) [
    | inl free ↦
        let u : Session (Tables F) (Event F) = record s { tx = some s.db } in
        let step : begin_checked b s ≡ (ok tt, u) = ground arith in
        deferred-eq-err m u h
          (subst (λ r. resume r (λ _. deferred rollback m) ≡ (err e, t)) step eq)
    | inr (x, fault) ↦ (ground arith, ground arith, ground arith)
  ]

-- An order with a quote that fails, at whatever statement or at the commit, leaves the committed tables
-- and the events as they were, and no transaction open: neither an order, nor a redemption, nor a used
-- quote.
pub put_order_with_quote-LeavesNothing :
    {F : Type 0} (b : Backend F) (o : Order F) (quote_id hash : String) (version : ℕ)
    (s t : Session (Tables F) (Event F)) (e : Fault)
    → put_order_with_quote b o quote_id hash version s ≡ (err e, t)
    → LeavesNothing s t
unfolding put_order_with_quote
put_order_with_quote-LeavesNothing b o quote_id hash version s t e h =
    begun_lem b (quote_body b o quote_id hash version) s
      (quote_body-IsAborting b o quote_id hash version) h

-- An order with a coupon code, or with an empty one, that fails at whatever statement or at the commit
-- leaves the committed tables and the events as they were, and no transaction open.
pub put_order_with_coupon-LeavesNothing :
    {F : Type 0} (b : Backend F) (o : Order F) (coupon_code : String)
    (s t : Session (Tables F) (Event F)) (e : Fault)
    → put_order_with_coupon b o coupon_code s ≡ (err e, t)
    → LeavesNothing s t
unfolding put_order_with_coupon put_order
put_order_with_coupon-LeavesNothing b o coupon_code s t e h =
    elim (Bool-cases (is_empty (normalized coupon_code))) [
      | inl unnamed ↦
          in_transaction-eq-err b.driver _ s (put_order_body-IsContained b o) (rw unnamed at h)
      | inr named ↦
          begun_lem b (coupon_body b o (normalized coupon_code)) s
            (coupon_body-IsAborting b o (normalized coupon_code)) (rw named at h)
    ]
