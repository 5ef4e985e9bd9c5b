-- ===== src/Admin/Reporting.antt =====
-- BuildDashboard of admin/internal/reporting.go. The sums for each product stand in a list that is in
-- no order until it is sorted; the order is total on distinct products, so the sort has one result.
pub mod Products
pub mod Sums
use goshop_x.Admin.Service.{with_averages}
use goshop_x.Admin.Tables.{Numbers}
use goshop_x.Admin.Models.{
  blank_dashboard, add_uint64, ProductMetric, Dashboard, OrderFact, PaymentFact,
}
use goshop_x.Base.{
  is_less, pos_part, ◌&&◌, take, ◌==◌, ◌||◌, ltb, [], ltb_ℤ, eq_ℤ, false, ◌+ℤ◌, same, not,
  if◌then◌else◌, wrap64, ◌∷◌, pos, Bool, ℤ, List, String, ℕ,
}

abbrev pub is_counted : ℕ → ℕ → OrderFact → Bool
is_counted from to o = not (ltb o.occurred_at from) && ltb o.occurred_at to && same o.status "paid"

abbrev pub is_tried : ℕ → ℕ → PaymentFact → Bool
is_tried from to p = not (ltb p.occurred_at from) && ltb p.occurred_at to

abbrev pub is_settled : PaymentFact → Bool
is_settled p = same p.status "success" || same p.status "settled"

abbrev pub grown : OrderFact → ProductMetric → ProductMetric
grown o m = record m { quantity = add_uint64 m.quantity o.quantity; gmv = wrap64 (m.gmv +ℤ o.gmv) }

abbrev pub fresh_metric : String → ProductMetric
fresh_metric id = record { product_id = id; quantity = 0; gmv = pos 0 }

-- `products[order.ProductID]`, made where it is missing, and changed.
unfoldable pub add_to_product : OrderFact → List ProductMetric → List ProductMetric
add_to_product o [] = grown o (fresh_metric o.product_id) ∷ []
add_to_product o (m ∷ ms) =
    let rest = add_to_product o ms in
    if same m.product_id o.product_id then grown o m ∷ ms else m ∷ rest

unfoldable pub is_seen : ℕ → List ℕ → Bool
is_seen id [] = false
is_seen id (x ∷ xs) = x == id || is_seen id xs

-- The sums, the orders that were counted, and the products.
pub record Tally (F : Type 0) : Type 0 where
  pub result : Dashboard F
  pub seen_orders : List ℕ
  pub products : List ProductMetric

module _ {F : Type 0} where
  abbrev pub add_order : OrderFact → Tally F → Tally F
  add_order o t = record t {
    result = record t.result {
      gmv = wrap64 (t.result.gmv +ℤ o.gmv);
      order_count =
          if is_seen o.order_id t.seen_orders
          then t.result.order_count
          else add_uint64 t.result.order_count 1;
    };
    seen_orders =
        if is_seen o.order_id t.seen_orders then t.seen_orders else o.order_id ∷ t.seen_orders;
    products = add_to_product o t.products;
  }

  unfoldable pub add_orders : ℕ → ℕ → List OrderFact → Tally F → Tally F
  add_orders from to [] t = t
  add_orders from to (o ∷ os) t =
      add_orders from to os (if is_counted from to o then add_order o t else t)

  abbrev pub add_payment : PaymentFact → Dashboard F → Dashboard F
  add_payment p r = record r {
    payment_attempts = add_uint64 r.payment_attempts 1;
    successful_payments =
        if is_settled p then add_uint64 r.successful_payments 1 else r.successful_payments;
    revenue = if is_settled p then wrap64 (r.revenue +ℤ p.amount) else r.revenue;
  }

  unfoldable pub add_payments : ℕ → ℕ → List PaymentFact → Dashboard F → Dashboard F
  add_payments from to [] r = r
  add_payments from to (p ∷ ps) r =
      add_payments from to ps (if is_tried from to p then add_payment p r else r)

-- Larger sums first, then the smaller product.
abbrev pub ranks_before : ProductMetric → ProductMetric → Bool
ranks_before x y = if eq_ℤ x.gmv y.gmv then is_less x.product_id y.product_id else ltb_ℤ y.gmv x.gmv

unfoldable pub insert_metric : ProductMetric → List ProductMetric → List ProductMetric
insert_metric m [] = m ∷ []
insert_metric m (x ∷ xs) =
    let rest = insert_metric m xs in if ranks_before m x then m ∷ x ∷ xs else x ∷ rest

unfoldable pub sort_metrics : List ProductMetric → List ProductMetric
sort_metrics [] = []
sort_metrics (m ∷ ms) = insert_metric m (sort_metrics ms)

abbrev pub first_metrics : ℤ → List ProductMetric → List ProductMetric
first_metrics limit ms = if ltb_ℤ (pos 0) limit then take (pos_part limit) ms else ms

unfoldable pub build_dashboard :
    {F : Type 0} → Numbers F → ℕ → ℕ → List OrderFact → List PaymentFact → ℤ → Dashboard F
build_dashboard n from to orders payments limit =
    let counted =
      add_orders from to orders (record {
        result = blank_dashboard n.zero_float from to;
        seen_orders = [];
        products = [];
      }) in
    record (with_averages n (add_payments from to payments counted.result)) {
      top_products = first_metrics limit (sort_metrics counted.products);
    }
