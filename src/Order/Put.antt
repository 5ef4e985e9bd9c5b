-- ===== src/Order/Put.antt =====
-- `PutOrder`, `PutOrderWithCoupon` and `PreviewCoupon` of order/internal/repository.go.
pub mod Redeem
pub mod Limits
use goshop_x.Base.{
  ℕ, ℤ, pos, String, Bool, ◌&&◌, Option, none, List, [], ◌∷◌, Result, ok, err, invalid_coupon,
  invalid_order_total, pure, raise, lift, deferred, ◌>>=◌, ◌>>◌, begin, rollback, commit, time_now,
  read_tx, write_tx, read_db, in_transaction, same, is_empty, trim_space, to_upper, ltb_ℤ,
  if◌then◌else◌, ◌-ℤ◌, ◌==◌, wrap64,
}
use goshop_x.Order.Models.{Coupon, CouponRedemption, Order, OrderedProduct, ProductsInfo}
use goshop_x.Order.Coupon.{coupon_discount}
use goshop_x.Order.Tables.{
  Backend, Call, query_coupons, query_redemptions, change_orders, change_products,
  change_redemptions,
}

-- `strings.ToUpper(strings.TrimSpace(code))`.
abbrev pub normalized : String → String
normalized code = to_upper (trim_space code)

abbrev pub sub64 : ℤ → ℤ → ℤ
sub64 a b = wrap64 (a -ℤ b)

abbrev pub with_code : String → Coupon → Bool
with_code code c = same c.code code

abbrev pub used_by_all : String → CouponRedemption → Bool
used_by_all code r = same r.coupon_code code

abbrev pub used_by : String → ℕ → CouponRedemption → Bool
used_by code account r = same r.coupon_code code && r.account_id == account

-- Any error of the lookup means that the coupon is invalid.
abbrev pub or_invalid_coupon : Result Coupon → Result Coupon
or_invalid_coupon (ok c) = ok c
or_invalid_coupon (err _) = err invalid_coupon

module _ {F : Type 0} where
  -- `Products` is no column.
  abbrev pub order_row : Order F → Order F
  order_row o = record o { products = [] }

  abbrev pub product_row : ℕ → OrderedProduct F → ProductsInfo F
  product_row order_id p = record {
    id = 0;
    order_id = order_id;
    product_id = p.id;
    quantity = pos p.quantity;
    name = p.name;
    description = p.description;
    price = p.price;
  }

  abbrev pub redemption_row : String → Order F → CouponRedemption
  redemption_row code o = record {
    id = 0;
    coupon_code = code;
    order_id = o.id;
    account_id = o.account_id;
    created_at = 0;
  }

module _ {F : Type 0} (b : Backend F) where
  open b use {driver, float, order_orm, product_orm, coupon_orm, redemption_orm}

  -- `db.Begin()` where the caller looks at `tx.Error`.
  unfoldable pub begin_checked : Call F (Unit {0})
  begin_checked s = elim (driver.begin_fault s.db) [
    | none ↦ (ok tt, begin driver s)
    | Option.some e ↦ (err e, begin driver s)
  ]

  -- `tx.Create(order)`: the row is written and the order has its identifier.
  unfoldable pub create_order : Order F → Call F (Order F)
  create_order o = do
    row ← write_tx (change_orders (order_orm.create (order_row o)))
    pure (record o { id = row.id })

  unfoldable pub create_items : ℕ → List (OrderedProduct F) → Call F (Unit {0})
  create_items order_id [] = pure tt
  create_items order_id (p ∷ ps) = do
    write_tx (change_products (product_orm.create (product_row order_id p)))
    create_items order_id ps

  unfoldable pub put_order : Order F → Call F (Order F)
  put_order o =
      in_transaction driver
        (do created ← create_order o; create_items created.id created.products; pure created)

  -- The coupon's row is locked, its uses are counted, and the discount is computed.
  unfoldable pub coupon_in_tx : String → ℕ → Call F (Coupon × ℤ × ℤ)
  coupon_in_tx code account = do
    coupon ← read_tx (λ t. or_invalid_coupon (query_coupons (coupon_orm.first (with_code code)) t))
    total ← read_tx (query_redemptions (redemption_orm.count (used_by_all code)))
    mine ← read_tx (query_redemptions (redemption_orm.count (used_by code account)))
    pure (coupon, total, mine)

  -- The order after a discount.
  abbrev pub discounted : Order F → ℤ → String → Order F
  discounted o discount code = record o {
    coupon_code = code;
    discount_vnd = discount;
    total_price_vnd = sub64 o.subtotal_vnd discount;
    total_price = float.of_int64 (sub64 o.subtotal_vnd discount);
  }

  unfoldable pub create_redemption : String → Order F → Call F CouponRedemption
  create_redemption code o =
      write_tx (change_redemptions (redemption_orm.create (redemption_row code o)))

  -- The rest once the order has its identifier: the items, the redemption and the commit.
  unfoldable pub finish_order : String → Order F → Call F (Order F)
  finish_order code created = do
    create_items created.id created.products
    create_redemption code created
    commit driver
    pure created

  -- The discount at this time, and the order with it.
  unfoldable pub store_discounted : Order F → String → Coupon × ℤ × ℤ → Call F (Order F)
  store_discounted o code used = do
    now ← time_now driver
    discount ← lift (coupon_discount used.0 o.subtotal_vnd used.1 used.2 now)
    created ← create_order (discounted o discount code)
    finish_order code created

  -- The body between `Begin` and the deferred `Rollback`.
  unfoldable pub coupon_body : Order F → String → Call F (Order F)
  coupon_body o code = do used ← coupon_in_tx code o.account_id; store_discounted o code used

  unfoldable pub put_order_with_coupon : Order F → String → Call F (Order F)
  put_order_with_coupon o coupon_code =
      let code = normalized coupon_code in
      if is_empty code
      then put_order o
      else (do begin_checked; deferred rollback (coupon_body o code))

  unfoldable pub preview_coupon : ℕ → ℤ → String → Call F ℤ
  preview_coupon account subtotal coupon_code =
      let code = normalized coupon_code in
      if ltb_ℤ subtotal (pos 0)
      then raise invalid_order_total
      else if is_empty code
      then pure (pos 0)
      else (do
        coupon ←
            read_db (λ t. or_invalid_coupon (query_coupons (coupon_orm.first (with_code code)) t))
        total ← read_db (query_redemptions (redemption_orm.count (used_by_all code)))
        mine ← read_db (query_redemptions (redemption_orm.count (used_by code account)))
        now ← time_now driver
        lift (coupon_discount coupon subtotal total mine now))
