-- ===== src/Order/Queries.antt =====
-- The listings, the payment status and the cancellation of order/internal/repository.go.
use goshop_x.Base.{
  ℕ, String, Bool, false, ◌&&◌, ◌||◌, Option, none, some, List, [], ◌∷◌, ◌++◌, record_not_found,
  invalid_data, pure, lift, raise_if, ◌>>=◌, ◌>>◌, Result, ok, err, read_db, write_db, same,
  is_empty, ltb, ◌==◌, not, if◌then◌else◌,
}
use goshop_x.Order.Models.{Order}
use goshop_x.Order.Tables.{Backend, Call, query_orders, query_products, change_orders}
use goshop_x.Order.Quote.{products_of_rows}

abbrev pub page_of : ℕ → ℕ → Option (ℕ × ℕ)
page_of skip take = if ltb 0 take then some (skip, take) else none

module _ {F : Type 0} where
  -- The conditions of a listing; an empty text or a zero stands for no condition.
  abbrev pub is_listed : String → String → ℕ → Order F → Bool
  is_listed status payment_status account o =
      (is_empty status || same o.status status)
      && (is_empty payment_status || same o.payment_status payment_status)
      && (account == 0 || o.account_id == account)

  unfoldable pub find_order : ℕ → List (Order F) → Result (Order F)
  find_order id [] = err record_not_found
  find_order id (o ∷ os) = if o.id == id then ok o else find_order id os

  abbrev pub is_cancellable : Order F → Bool
  is_cancellable o = same o.status "pending" || same o.status "processing"

module _ {F : Type 0} (b : Backend F) where
  open b use {order_orm, product_orm}

  -- The `Preload` of the items and the loop that appends them to the products.
  unfoldable pub load_items : List (Order F) → Call F (List (Order F))
  load_items [] = pure []
  load_items (o ∷ os) = do
    items ← read_db (
        query_products (
          product_orm.find
            (record { matching = λ i. i.order_id == o.id; precedes = λ _ _. false; page = none })))
    rest ← load_items os
    pure (
        record o { products_infos = items; products = o.products ++ products_of_rows items } ∷ rest)

  unfoldable pub list_orders : String → String → ℕ → ℕ → ℕ → Call F (List (Order F))
  list_orders status payment_status account skip take = do
    rows ← read_db (
        query_orders (
          order_orm.find (record {
            matching = is_listed status payment_status account;
            precedes = λ o p. ltb p.created_at o.created_at;
            page = page_of skip take;
          })))
    load_items rows

  unfoldable pub get_orders_for_account : ℕ → Call F (List (Order F))
  get_orders_for_account account = list_orders "" "" account 0 0

  unfoldable pub update_order_payment_status : ℕ → String → Call F ℕ
  update_order_payment_status id status = write_db (
      change_orders
        (order_orm.updates (λ o. o.id == id) (λ o. record o { payment_status = status })))

  unfoldable pub get_order_by_id : ℕ → Call F (Order F)
  get_order_by_id id = do orders ← list_orders "" "" 0 0 0; lift (find_order id orders)

  unfoldable pub cancel_order : ℕ → Call F (Order F)
  cancel_order id = do
    o ← get_order_by_id id
    raise_if (not (is_cancellable o)) invalid_data
    write_db (
        change_orders
          (order_orm.updates (λ r. r.id == id) (λ r. record r { status = "cancelled" })))
    pure (record o { status = "cancelled" })
