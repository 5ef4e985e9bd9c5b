-- ===== src/Admin/Reporting/Sums.antt =====
-- What a dashboard says of a product, against the paid orders of the period.
use goshop_x.Base.{
  false, sym, true, +ℤ_assoc, wrap64-add, ◌∙◌, +ℤ_parts, ap, arith, ◌+◌, ltb, [], ◌%◌, eq_of_parts,
  ◌^◌, same, if◌then◌else◌, leb, refl, ◌≤ℤ◌, ◌≡◌, ◌<◌, ◌&&◌, ◌∷◌, Bool, List, ◌+ℤ◌, pos, String,
  wrap64, ℤ, ℕ,
}
use goshop_x.Admin.Tables.{Numbers}
use goshop_x.Admin.Models.{PaymentFact, ProductMetric, OrderFact}
use goshop_x.Admin.Reporting.{build_dashboard, is_counted, grown, fresh_metric}
use goshop_x.Admin.Reporting.Products.{sum_facts, metric_of, metric_of-build_dashboard}

-- An order of the product, paid, from the first time on and before the second.
abbrev pub is_sale : ℕ → ℕ → String → OrderFact → Bool
is_sale from to id o =
    leb from o.occurred_at && ltb o.occurred_at to && same o.status "paid" && same o.product_id id

-- The sums as numbers without a bound.
abbrev pub sold_quantity : ℕ → ℕ → String → List OrderFact → ℕ
sold_quantity from to id [] = 0
sold_quantity from to id (o ∷ os) =
    (if is_sale from to id o then o.quantity else 0) + sold_quantity from to id os

abbrev pub sold_gmv : ℕ → ℕ → String → List OrderFact → ℤ
sold_gmv from to id [] = pos 0
sold_gmv from to id (o ∷ os) =
    (if is_sale from to id o then o.gmv else pos 0) +ℤ sold_gmv from to id os

is_counted_lem :
    (from to : ℕ) (id : String) (o : OrderFact)
    → (is_counted from to o && same o.product_id id) ≡ is_sale from to id o
is_counted_lem from to id o = ground arith

-- One order more, by the test above.
sum_facts_step :
    (from to : ℕ) (id : String) (o : OrderFact) (os : List OrderFact) (m : ProductMetric)
    → sum_facts from to id (o ∷ os) m
      ≡ sum_facts from to id os (if is_sale from to id o then grown o m else m)
sum_facts_step from to id o os m =
    ap (λ c. sum_facts from to id os (if c then grown o m else m)) (is_counted_lem from to id o)

sum_facts-quantity :
    (from to : ℕ) (id : String) (os : List OrderFact) (m : ProductMetric)
    → m.quantity < 2 ^ 64
    → (sum_facts from to id os m).quantity ≡ (m.quantity + sold_quantity from to id os) % 2 ^ 64
sum_facts-quantity from to id [] m h = ground arith
sum_facts-quantity from to id (o ∷ os) m h =
    ap (λ (x : ProductMetric). x.quantity) (sum_facts_step from to id o os m)
    ∙ go (sum_facts-quantity from to id os (grown o m) (omega arith))
        (sum_facts-quantity from to id os m h) (is_sale from to id o)
  where
    go :
        ((sum_facts from to id os (grown o m)).quantity
          ≡ ((grown o m).quantity + sold_quantity from to id os) % 2 ^ 64)
        → ((sum_facts from to id os m).quantity
            ≡ (m.quantity + sold_quantity from to id os) % 2 ^ 64)
        → (c : Bool)
        → (sum_facts from to id os (if c then grown o m else m)).quantity
          ≡ (m.quantity + ((if c then o.quantity else 0) + sold_quantity from to id os)) % 2 ^ 64
    go sale _ true = omega arith
    go _ other false = omega arith

zero_add : (z : ℤ) → pos 0 +ℤ z ≡ z
zero_add z = eq_of_parts (pos 0 +ℤ z) z (omega (arith, +ℤ_parts (pos 0) z))

add_zero : (z : ℤ) → z +ℤ pos 0 ≡ z
add_zero z = eq_of_parts (z +ℤ pos 0) z (omega (arith, +ℤ_parts z (pos 0)))

-- `x` is the sum so far, not wrapped.
sum_facts-gmv :
    (from to : ℕ) (id : String) (os : List OrderFact) (m : ProductMetric) (x : ℤ)
    → m.gmv ≡ wrap64 x
    → (sum_facts from to id os m).gmv ≡ wrap64 (x +ℤ sold_gmv from to id os)
sum_facts-gmv from to id [] m x h = rw (add_zero x) h
sum_facts-gmv from to id (o ∷ os) m x h =
    ap (λ (y : ProductMetric). y.gmv) (sum_facts_step from to id o os m)
    ∙ go
        (sum_facts-gmv from to id os (grown o m) (x +ℤ o.gmv)
          (ap (λ g. wrap64 (g +ℤ o.gmv)) h ∙ wrap64-add x o.gmv))
        (sum_facts-gmv from to id os m x h) (is_sale from to id o)
  where
    go :
        ((sum_facts from to id os (grown o m)).gmv
          ≡ wrap64 ((x +ℤ o.gmv) +ℤ sold_gmv from to id os))
        → ((sum_facts from to id os m).gmv ≡ wrap64 (x +ℤ sold_gmv from to id os))
        → (c : Bool)
        → (sum_facts from to id os (if c then grown o m else m)).gmv
          ≡ wrap64 (x +ℤ ((if c then o.gmv else pos 0) +ℤ sold_gmv from to id os))
    go sale _ true = sale ∙ ap wrap64 (+ℤ_assoc x o.gmv (sold_gmv from to id os))
    go _ other false = other ∙ ap (λ g. wrap64 (x +ℤ g)) (sym (zero_add (sold_gmv from to id os)))

nothing_sold : pos 0 ≡ wrap64 (pos 0)
unfolding wrap64
nothing_sold = refl

-- What a dashboard with no limit on its products says of any product, zero where it does not list it:
-- the quantity is the exact sum over the orders of that product that are paid and lie in the period,
-- modulo 2^64, and the turnover is their exact sum, read as a signed number of 64 bits, however the
-- products were gathered and sorted.
pub build_dashboard-products :
    {F : Type 0} (n : Numbers F) (from to : ℕ) (orders : List OrderFact)
    (payments : List PaymentFact) (limit : ℤ) (id : String)
    → limit ≤ℤ pos 0
    → let m = metric_of id (build_dashboard n from to orders payments limit).top_products in
      (m.quantity ≡ sold_quantity from to id orders % 2 ^ 64)
      × (m.gmv ≡ wrap64 (sold_gmv from to id orders))
build_dashboard-products n from to orders payments limit id unlimited =
    let sums = metric_of-build_dashboard n from to orders payments limit id unlimited in
    let quantity = sum_facts-quantity from to id orders (fresh_metric id) (omega arith) in
    let started : (0 + sold_quantity from to id orders) % 2 ^ 64
        ≡ sold_quantity from to id orders % 2 ^ 64 =
      omega arith in
    (
      ap (λ (m : ProductMetric). m.quantity) sums ∙ quantity ∙ started,
      ap (λ (m : ProductMetric). m.gmv) sums
          ∙ sum_facts-gmv from to id orders (fresh_metric id) (pos 0) nothing_sold
          ∙ ap wrap64 (zero_add (sold_gmv from to id orders)),
    )
