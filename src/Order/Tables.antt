-- ===== src/Order/Tables.antt =====
-- The tables of the order database, the statements on them, and what the service takes from outside.
-- Prices are floating-point numbers in the source: their type and operations are parameters too.
use goshop_x.Base.{
  ℕ, ℤ, String, Bool, List, Result, Action, Session, Driver, Orm, query_on, change_on, write_on,
}
use goshop_x.Order.Models.{Coupon, CouponRedemption, CheckoutQuoteRecord, Order, ProductsInfo}
use goshop_x.Order.Items.{Digest}

-- `float64`: the tests of `math`, the order, and the conversions to and from `int64`. `round` is
-- `int64(math.Round(x))`; `below_max` is `x < float64(math.MaxInt64)`.
pub record Float (F : Type 0) : Type 0 where
  pub is_nan : F → Bool
  pub is_inf : F → Bool
  pub is_negative : F → Bool
  pub below_max : F → Bool
  pub round : F → ℤ
  pub of_int64 : ℤ → F

pub record Tables (F : Type 0) : Type 0 where
  pub orders : List (Order F)
  pub order_products : List (ProductsInfo F)
  pub coupons : List Coupon
  pub redemptions : List CouponRedemption
  pub quotes : List CheckoutQuoteRecord

-- What is sent to the recommender's topic and to the topic of order events.
pub data Event (F : Type 0) : Type 0 where
  purchase : ℤ → String → Event F
  order_created : String → String → Order F → Event F
  order_cancelled : Order F → String → Event F
  payment_status_updated : Order F → String → Event F

pub record Backend (F : Type 0) : Type 0 where
  pub driver : Driver (Tables F)
  pub float : Float F
  pub order_orm : Orm (Order F)
  pub product_orm : Orm (ProductsInfo F)
  pub coupon_orm : Orm Coupon
  pub redemption_orm : Orm CouponRedemption
  pub quote_orm : Orm CheckoutQuoteRecord
  pub digest : Digest
  -- `rand.Read` of 24 bytes, in hexadecimal, at a point of the run.
  pub random_hex : ℕ → Result String

abbrev pub Call : Type 0 → Type 0 → Type 0
Call F = Action (Session (Tables F) (Event F))

module _ {F A : Type 0} where
  abbrev pub query_orders : (List (Order F) → Result A) → Tables F → Result A
  query_orders = query_on (λ t. t.orders) (λ rows t. record t { orders = rows })

  abbrev pub change_orders :
      (List (Order F) → Result (A × List (Order F))) → Tables F → Result (A × Tables F)
  change_orders = change_on (λ t. t.orders) (λ rows t. record t { orders = rows })

  abbrev pub query_products : (List (ProductsInfo F) → Result A) → Tables F → Result A
  query_products = query_on (λ t. t.order_products) (λ rows t. record t { order_products = rows })

  abbrev pub change_products :
      (List (ProductsInfo F) → Result (A × List (ProductsInfo F)))
      → Tables F
      → Result (A × Tables F)
  change_products = change_on (λ t. t.order_products) (λ rows t. record t { order_products = rows })

  abbrev pub query_coupons : (List Coupon → Result A) → Tables F → Result A
  query_coupons = query_on (λ t. t.coupons) (λ rows t. record t { coupons = rows })

  abbrev pub query_redemptions : (List CouponRedemption → Result A) → Tables F → Result A
  query_redemptions = query_on (λ t. t.redemptions) (λ rows t. record t { redemptions = rows })

  abbrev pub change_redemptions :
      (List CouponRedemption → Result (A × List CouponRedemption))
      → Tables F
      → Result (A × Tables F)
  change_redemptions = change_on (λ t. t.redemptions) (λ rows t. record t { redemptions = rows })

  abbrev pub query_quotes : (List CheckoutQuoteRecord → Result A) → Tables F → Result A
  query_quotes = query_on (λ t. t.quotes) (λ rows t. record t { quotes = rows })

  abbrev pub change_quotes :
      (List CheckoutQuoteRecord → Result (A × List CheckoutQuoteRecord))
      → Tables F
      → Result (A × Tables F)
  change_quotes = change_on (λ t. t.quotes) (λ rows t. record t { quotes = rows })

module _ {F : Type 0} where
  abbrev pub write_quotes :
      (List CheckoutQuoteRecord → Result (List CheckoutQuoteRecord))
      → Tables F
      → Result (Unit {0} × Tables F)
  write_quotes = write_on (λ t. t.quotes) (λ rows t. record t { quotes = rows })
