-- ===== src/Order/Models.antt =====
-- The records of order/models. A time is a number of ticks since Go's zero time, which is 0.
use goshop_x.Base.{ℕ, ℤ, String, Bool, Option, List}

pub record Coupon : Type 0 where
  pub code : String
  pub percent_basis_point : ℤ
  pub fixed_amount_vnd : ℤ
  pub minimum_subtotal_vnd : ℤ
  pub maximum_discount_vnd : ℤ
  pub maximum_redemptions : ℤ
  pub per_account_limit : ℤ
  pub starts_at : ℕ
  pub expires_at : ℕ
  pub active : Bool

pub record CouponRedemption : Type 0 where
  pub id : ℕ
  pub coupon_code : String
  pub order_id : ℕ
  pub account_id : ℕ
  pub created_at : ℕ

pub record CheckoutQuote : Type 0 where
  pub id : String
  pub subtotal_vnd : ℤ
  pub discount_vnd : ℤ
  pub total_price_vnd : ℤ
  pub coupon_code : String
  pub expires_at : ℕ
  pub cart_version : ℕ

pub record CheckoutQuoteRecord : Type 0 where
  pub id : String
  pub account_id : ℕ
  pub items_hash : String
  pub subtotal_vnd : ℤ
  pub discount_vnd : ℤ
  pub total_price_vnd : ℤ
  pub coupon_code : String
  pub expires_at : ℕ
  pub cart_version : ℕ
  pub order_id : ℕ
  pub created_at : ℕ

-- Over the type of the prices, which are floating-point numbers in the source.
pub record OrderedProduct (Price : Type 0) : Type 0 where
  pub id : String
  pub name : String
  pub description : String
  pub price : Price
  pub quantity : ℕ

pub record ProductsInfo (Price : Type 0) : Type 0 where
  pub id : ℕ
  pub order_id : ℕ
  pub product_id : String
  pub quantity : ℤ
  pub name : String
  pub description : String
  pub price : Price

pub record Order (Price : Type 0) : Type 0 where
  pub id : ℕ
  pub created_at : ℕ
  pub total_price : Price
  pub subtotal_vnd : ℤ
  pub discount_vnd : ℤ
  pub total_price_vnd : ℤ
  pub coupon_code : String
  pub checkout_quote_id : Option String
  pub account_id : ℕ
  pub status : String
  pub payment_status : String
  pub products_infos : List (ProductsInfo Price)
  pub products : List (OrderedProduct Price)
