-- ===== src/Order/Quote.antt =====
-- `CreateCheckoutQuote` and `PutOrderWithQuote` of order/internal/repository.go.
use goshop_x.Base.{
  ℕ, ℤ, String, Bool, false, true, not, ◌||◌, none, some, List, ◌++◌, map, Result, ok, err,
  invalid_checkout_quote, pure, raise_if, lift, deferred, ◌>>=◌, ◌>>◌, rollback, commit, time_now,
  read_tx, write_tx, write_db, same, is_empty, ltb, eq_ℤ, if◌then◌else◌, ◌==◌, ◌+◌, ◌-◌, ◌*◌, ◌^◌,
  ◌%◌, pos_part, neg_part,
}
use goshop_x.Order.Models.{CheckoutQuoteRecord, Order, OrderedProduct, ProductsInfo}
use goshop_x.Order.Coupon.{coupon_discount}
use goshop_x.Order.Tables.{
  Backend, Call, query_quotes, query_orders, query_products, change_quotes, write_quotes,
}
use goshop_x.Order.Put.{
  begin_checked, coupon_in_tx, discounted, create_order, create_items, create_redemption,
}

-- Seven days, in nanoseconds. `cutoff` is `now - 7 days`; a time cannot lie before the zero time here.
abbrev pub seven_days : ℕ
seven_days = 7 * 24 * 3600 * 10 ^ 9

abbrev pub has_quote_id : String → CheckoutQuoteRecord → Bool
has_quote_id id q = same q.id id

abbrev pub or_invalid_quote : Result CheckoutQuoteRecord → Result CheckoutQuoteRecord
or_invalid_quote (ok q) = ok q
or_invalid_quote (err _) = err invalid_checkout_quote

-- `uint32(item.Quantity)`.
abbrev pub uint32 : ℤ → ℕ
uint32 z = (pos_part z + (2 ^ 32 - neg_part z % 2 ^ 32)) % 2 ^ 32

module _ {F : Type 0} where
  -- The order's products as the rows give them.
  abbrev pub product_of_row : ProductsInfo F → OrderedProduct F
  product_of_row i = record {
    id = i.product_id;
    name = i.name;
    description = i.description;
    price = i.price;
    quantity = uint32 i.quantity;
  }

  abbrev pub products_of_rows : List (ProductsInfo F) → List (OrderedProduct F)
  products_of_rows = map product_of_row

  -- `First(order, id)` fills the order's columns from the row and `Preload` its items; `Products` is
  -- no column and keeps its value, and the loop then appends to it.
  abbrev pub reload : Order F → Order F → List (ProductsInfo F) → Order F
  reload old row items = record row {
    products_infos = items;
    products = old.products ++ products_of_rows items;
  }

  -- The quote still fits the order.
  unfoldable pub is_stale : CheckoutQuoteRecord → Order F → String → ℕ → ℕ → Bool
  is_stale q o items_hash cart_version now =
      not (ltb now q.expires_at)
      || not (q.cart_version == cart_version)
      || not (same q.items_hash items_hash)
      || not (eq_ℤ q.subtotal_vnd o.subtotal_vnd)

module _ {F : Type 0} (b : Backend F) where
  open b use {driver, order_orm, product_orm, quote_orm}

  unfoldable pub create_checkout_quote : CheckoutQuoteRecord → Call F (Unit {0})
  create_checkout_quote q = do
    now ← time_now driver
    write_db (write_quotes (quote_orm.delete (λ r. ltb (r.expires_at + seven_days) now)))
    write_db (change_quotes (quote_orm.create q))
    pure tt

  -- The branch of a quote that already made an order.
  unfoldable pub replay_order : CheckoutQuoteRecord → Order F → Call F (Bool × Order F)
  replay_order q o = do
    row ← read_tx (query_orders (order_orm.first (λ r. r.id == q.order_id)))
    items ← read_tx (
        query_products (
          product_orm.find (record {
            matching = λ i. i.order_id == row.id;
            precedes = λ _ _. false;
            page = none;
          })))
    commit driver
    pure (false, reload o row items)

  -- The coupon is checked and applied anew, at the time of the order.
  unfoldable pub apply_quote_coupon : CheckoutQuoteRecord → Order F → ℕ → Call F (Order F)
  apply_quote_coupon q o now = if is_empty q.coupon_code then pure o else (do
    used ← coupon_in_tx b q.coupon_code o.account_id
    discount ← lift (coupon_discount used.0 o.subtotal_vnd used.1 used.2 now)
    pure (discounted b o discount q.coupon_code))

  unfoldable pub redeem_quote : CheckoutQuoteRecord → Order F → Call F (Unit {0})
  redeem_quote q o =
      if is_empty q.coupon_code then pure tt else (do create_redemption b q.coupon_code o; pure tt)

  unfoldable pub consume_quote :
      CheckoutQuoteRecord → Order F → String → ℕ → Call F (Bool × Order F)
  consume_quote q o items_hash cart_version = do
    now ← time_now driver
    raise_if (is_stale q o items_hash cart_version now) invalid_checkout_quote
    priced ← apply_quote_coupon q o now
    created ← create_order b (record priced { checkout_quote_id = some q.id })
    create_items b created.id created.products
    redeem_quote q created
    write_tx (
        change_quotes
          (quote_orm.updates (has_quote_id q.id) (λ r. record r { order_id = created.id })))
    commit driver
    pure (true, created)

  unfoldable pub quote_body : Order F → String → String → ℕ → Call F (Bool × Order F)
  quote_body o quote_id items_hash cart_version = do
    q ← read_tx (λ t. or_invalid_quote (query_quotes (quote_orm.first (has_quote_id quote_id)) t))
    raise_if (not (q.account_id == o.account_id)) invalid_checkout_quote
    if not (q.order_id == 0) then replay_order q o else consume_quote q o items_hash cart_version

  unfoldable pub put_order_with_quote : Order F → String → String → ℕ → Call F (Bool × Order F)
  put_order_with_quote o quote_id items_hash cart_version = do
    begin_checked b
    deferred rollback (quote_body o quote_id items_hash cart_version)
