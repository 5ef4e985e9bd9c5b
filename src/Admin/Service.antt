-- ===== src/Admin/Service.antt =====
-- The listings of admin/internal/repository.go and the service of admin/internal/service.go. A bound
-- that is the zero time is no bound.
use goshop_x.Admin.Tables.{Call, Backend, Numbers}
use goshop_x.Admin.Models.{
  add_uint64, blank_dashboard, AuditEvent, ProductMetric, DailyMetric, ProductDailyMetric,
  Dashboard,
}
use goshop_x.Base.{
  [], ◌∷◌, same, is_empty, ◌&&◌, negsuc, leb, pos_part, pure, map, ltb_ℤ, none, ◌+ℤ◌, some, ◌||◌,
  read_db, leb_ℤ, ltb, wrap64, pos, ◌==◌, ◌>>=◌, if◌then◌else◌, List, String, Option, Bool, ℤ, ℕ,
}

abbrev pub is_within : ℕ → ℕ → ℕ → Bool
is_within from to time = (from == 0 || leb from time) && (to == 0 || ltb time to)

-- `Limit`: a negative one is no limit.
abbrev pub limited : ℤ → Option (ℕ × ℕ)
limited (pos n) = some (0, n)
limited (negsuc _) = none

abbrev pub is_wanted : ℕ → String → ℕ → ℕ → AuditEvent → Bool
is_wanted actor action from to e =
    (actor == 0 || e.actor_account_id == actor)
    && (is_empty action || same e.action action)
    && is_within from to e.occurred_at

abbrev pub add_daily : {F : Type 0} → Dashboard F → DailyMetric → Dashboard F
add_daily r m = record r {
  gmv = wrap64 (r.gmv +ℤ m.gmv);
  revenue = wrap64 (r.revenue +ℤ m.revenue);
  order_count = add_uint64 r.order_count m.order_count;
  payment_attempts = add_uint64 r.payment_attempts m.payment_attempts;
  successful_payments = add_uint64 r.successful_payments m.successful_payments;
}

unfoldable pub add_all : {F : Type 0} → Dashboard F → List DailyMetric → Dashboard F
add_all r [] = r
add_all r (m ∷ ms) = add_all (add_daily r m) ms

-- The two quotients, where there is something to divide by.
abbrev pub with_averages : {F : Type 0} → Numbers F → Dashboard F → Dashboard F
with_averages n r = record r {
  average_order_value =
      if ltb 0 r.order_count then n.ratio r.gmv r.order_count else r.average_order_value;
  payment_success_rate =
      if ltb 0 r.payment_attempts
      then n.ratio (pos r.successful_payments) r.payment_attempts
      else r.payment_success_rate;
}

abbrev pub product_metric : ProductDailyMetric → ProductMetric
product_metric m = record { product_id = m.product_id; quantity = m.quantity; gmv = m.gmv }

abbrev pub clamped_take : ℤ → ℕ
clamped_take take = if leb_ℤ take (pos 0) || ltb_ℤ (pos 100) take then 100 else pos_part take

module _ {F : Type 0} (b : Backend F) where
  open b use {numbers, audit_orm, metric_orm, product_metric_orm}

  unfoldable pub list_audit_rows : ℕ → String → ℕ → ℕ → ℕ → ℕ → Call (List AuditEvent)
  list_audit_rows actor action from to offset limit = read_db (λ t.
      audit_orm.find
        (record {
          matching = is_wanted actor action from to;
          precedes = λ x y. ltb y.occurred_at x.occurred_at;
          page = some (offset, limit);
        })
        t.audit_events)

  unfoldable pub get_daily_metrics : ℕ → ℕ → Call (List DailyMetric)
  get_daily_metrics from to = read_db (λ t.
      metric_orm.find
        (record {
          matching = λ m. is_within from to m.day;
          precedes = λ x y. ltb x.day y.day;
          page = none;
        })
        t.metrics)

  unfoldable pub get_product_metrics : ℕ → ℕ → ℤ → Call (List ProductDailyMetric)
  get_product_metrics from to limit = read_db (λ t.
      product_metric_orm.find
        (record {
          matching = λ m. is_within from to m.day;
          precedes = λ x y. ltb_ℤ y.gmv x.gmv;
          page = limited limit;
        })
        t.product_metrics)

  unfoldable pub dashboard_of : ℕ → ℕ → List DailyMetric → List ProductDailyMetric → Dashboard F
  dashboard_of from to daily products =
      record (with_averages numbers (add_all (blank_dashboard numbers.zero_float from to) daily)) {
        top_products = map product_metric products;
      }

  unfoldable pub dashboard : ℕ → ℕ → ℤ → Call (Dashboard F)
  dashboard from to limit = do
    daily ← get_daily_metrics from to
    products ← get_product_metrics from to limit
    pure (dashboard_of from to daily products)

  unfoldable pub list_audit : ℕ → String → ℕ → ℕ → ℤ → ℤ → Call (List AuditEvent)
  list_audit actor action from to skip take =
      list_audit_rows actor action from to (pos_part skip) (clamped_take take)
