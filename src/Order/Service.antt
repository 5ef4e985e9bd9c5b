-- ===== src/Order/Service.antt =====
-- order/internal/service.go: the checks before an order, the quote of a checkout, and the events.
use goshop_x.Base.{
  ℕ, ℤ, pos, String, Bool, not, ◌||◌, Option, none, some, List, [], ◌∷◌, ok, err,
  invalid_order_total, invalid_checkout_quote, cancellation_reason_required, pure, raise, attempt,
  ◌>>=◌, ◌>>◌, time_now, publish, is_empty, ltb, ltb_ℤ, ◌==◌, if◌then◌else◌, length, wrap64, ◌+◌,
  ◌*◌, ◌^◌,
}
use goshop_x.Order.Models.{Order, OrderedProduct, CheckoutQuote}
use goshop_x.Order.Items.{checkout_items_hash}
use goshop_x.Order.Tables.{
  Backend, Call, purchase, order_created, order_cancelled, payment_status_updated,
}
use goshop_x.Order.Put.{normalized, sub64, put_order, put_order_with_coupon, preview_coupon}
use goshop_x.Order.Quote.{create_checkout_quote, put_order_with_quote}
use goshop_x.Order.Queries.{
  list_orders, get_orders_for_account, get_order_by_id, cancel_order, update_order_payment_status,
}

-- Ten minutes, in nanoseconds.
abbrev pub quote_lifetime : ℕ
quote_lifetime = 10 * 60 * 10 ^ 9

-- `orderCreatedEvent`: the event's type and key.
unfoldable pub order_created_event : Bool → String × String
order_created_event cash_on_delivery =
    if cash_on_delivery
    then ("order.cod_created", "order-cod-created")
    else ("order.created", "order-created")

module _ {F : Type 0} where
  abbrev pub all_present : List (OrderedProduct F) → List (Option (OrderedProduct F))
  all_present [] = []
  all_present (p ∷ ps) = some p ∷ all_present ps

  -- One purchase event for each product.
  unfoldable pub publish_purchases : ℕ → List (OrderedProduct F) → Call F (Unit {0})
  publish_purchases account [] = pure tt
  publish_purchases account (p ∷ ps) = do
    publish (purchase (wrap64 (pos account)) p.id)
    publish_purchases account ps

  unfoldable pub publish_created : Bool → Order F → Call F (Unit {0})
  publish_created cash_on_delivery o =
      let named = order_created_event cash_on_delivery in publish (order_created named.0 named.1 o)

module _ {F : Type 0} (b : Backend F) where
  open b use {driver, float, digest, random_hex}

  -- The test of the total that precedes `math.Round`.
  abbrev pub is_bad_total : F → Bool
  is_bad_total x =
      float.is_nan x || float.is_inf x || float.is_negative x || not (float.below_max x)

  -- The order as it is first built.
  abbrev pub new_order : ℕ → F → List (OrderedProduct F) → ℕ → Order F
  new_order account total products now = record {
    id = 0;
    created_at = now;
    total_price = total;
    subtotal_vnd = float.round total;
    discount_vnd = pos 0;
    total_price_vnd = float.round total;
    coupon_code = "";
    checkout_quote_id = none;
    account_id = account;
    status = "pending";
    payment_status = "pending";
    products_infos = [];
    products = products;
  }

  unfoldable pub announce : ℕ → List (OrderedProduct F) → Bool → Order F → Call F (Unit {0})
  announce account products cash_on_delivery o = do
    publish_purchases account products
    publish_created cash_on_delivery o

  unfoldable pub post_order_with :
      ℕ → F → List (OrderedProduct F) → Bool → String → Call F (Order F)
  post_order_with account total products cash_on_delivery coupon_code =
      if is_bad_total total then raise invalid_order_total else (do
        now ← time_now driver
        let o = new_order account total products now
        stored ←
            (if is_empty coupon_code then put_order b o else put_order_with_coupon b o coupon_code)
        announce account products cash_on_delivery stored
        pure stored)

  unfoldable pub post_order : ℕ → F → List (OrderedProduct F) → Bool → Call F (Order F)
  post_order account total products cash_on_delivery =
      post_order_with account total products cash_on_delivery ""

  unfoldable pub post_order_with_coupon :
      ℕ → F → List (OrderedProduct F) → Bool → String → Call F (Order F)
  post_order_with_coupon = post_order_with

  abbrev pub is_bad_cart : ℕ → ℕ → List (OrderedProduct F) → Bool
  is_bad_cart account cart_version products =
      account == 0 || cart_version == 0 || length products == 0 || ltb 100 (length products)

  unfoldable pub preview_checkout :
      ℕ → ℤ → List (OrderedProduct F) → String → ℕ → Call F CheckoutQuote
  preview_checkout account subtotal products coupon_code cart_version =
      if is_bad_cart account cart_version products || ltb_ℤ subtotal (pos 0)
      then raise invalid_order_total
      else (do
        let code = normalized coupon_code
        discount ← preview_coupon b account subtotal code
        id ← (λ s. (random_hex s.ticks, s))
        now ← time_now driver
        create_checkout_quote b (record {
          id = id;
          account_id = account;
          items_hash = checkout_items_hash digest (all_present products);
          subtotal_vnd = subtotal;
          discount_vnd = discount;
          total_price_vnd = sub64 subtotal discount;
          coupon_code = code;
          expires_at = now + quote_lifetime;
          cart_version = cart_version;
          order_id = 0;
          created_at = 0;
        })
        pure (record {
          id = id;
          subtotal_vnd = subtotal;
          discount_vnd = discount;
          total_price_vnd = sub64 subtotal discount;
          coupon_code = code;
          expires_at = now + quote_lifetime;
          cart_version = cart_version;
        }))

  unfoldable pub post_order_with_quote :
      ℕ → F → List (OrderedProduct F) → Bool → String → ℕ → Call F (Order F)
  post_order_with_quote account total products cash_on_delivery quote_id cart_version =
      if is_bad_cart account cart_version products || is_empty quote_id
      then raise invalid_checkout_quote
      else if is_bad_total total
      then raise invalid_order_total
      else (do
        now ← time_now driver
        made ←
            put_order_with_quote b (new_order account total products now) quote_id
              (checkout_items_hash digest (all_present products)) cart_version
        if made.0
            then (do announce account products cash_on_delivery made.1; pure made.1)
            else pure made.1)

  unfoldable pub cancel : ℕ → String → Call F (Order F)
  cancel id reason =
      if is_empty reason
      then raise cancellation_reason_required
      else (do o ← cancel_order b id; publish (order_cancelled o reason); pure o)

  -- The event follows in a goroutine, if the order can be loaded.
  unfoldable pub update_payment_status : ℕ → String → Call F (Unit {0})
  update_payment_status id status = do
    update_order_payment_status b id status
    loaded ← attempt (get_order_by_id b id)
    elim loaded [ ok o ↦ publish (payment_status_updated o status) | err _ ↦ pure tt ]

  -- `ListOrders`, `GetOrder` and `GetOrdersForAccount` are passed on.
  unfoldable pub orders : String → String → ℕ → ℕ → ℕ → Call F (List (Order F))
  orders = list_orders b

  unfoldable pub get_order : ℕ → Call F (Order F)
  get_order = get_order_by_id b

  unfoldable pub orders_for_account : ℕ → Call F (List (Order F))
  orders_for_account = get_orders_for_account b
