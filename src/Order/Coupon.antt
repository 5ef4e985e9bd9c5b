-- ===== src/Order/Coupon.antt =====
-- `CouponDiscount` of order/internal/coupon.go.
pub mod Amount
pub mod Rules
use goshop_x.Base.{
  ℕ, ℤ, pos, Bool, not, ◌&&◌, ◌||◌, Option, none, some, Result, ok, err, invalid_coupon, wrap64,
  ◌*ℤ◌, ◌/ℤ◌, ◌%ℤ◌, ◌+ℤ◌, ◌-ℤ◌, ltb_ℤ, leb_ℤ, eq_ℤ, max_int64, ltb, leb, ◌==◌, if◌then◌else◌,
  is_empty, trim_space,
}
use goshop_x.Order.Models.{Coupon}

-- `now.Before(t)` and `t.IsZero()`.
abbrev is_before : ℕ → ℕ → Bool
is_before = ltb

abbrev is_zero_time : ℕ → Bool
is_zero_time t = t == 0

-- The first condition: the coupon is not available for this order.
unfoldable pub is_unavailable : Coupon → ℤ → ℤ → ℤ → ℕ → Bool
is_unavailable c subtotal total_uses account_uses now =
    not c.active
    || is_empty (trim_space c.code)
    || ltb_ℤ subtotal c.minimum_subtotal_vnd
    || ltb_ℤ subtotal (pos 0)
    || (not (is_zero_time c.starts_at) && is_before now c.starts_at)
    || (not (is_zero_time c.expires_at) && not (is_before now c.expires_at))
    || (ltb_ℤ (pos 0) c.maximum_redemptions && leb_ℤ c.maximum_redemptions total_uses)
    || (ltb_ℤ (pos 0) c.per_account_limit && leb_ℤ c.per_account_limit account_uses)

abbrev same_truth : Bool → Bool → Bool
same_truth a b = if a then b else not b

-- The second: not exactly one of a percentage and a fixed amount, or one out of range.
unfoldable pub is_malformed : Coupon → Bool
is_malformed c =
    same_truth (ltb_ℤ (pos 0) c.percent_basis_point) (ltb_ℤ (pos 0) c.fixed_amount_vnd)
    || ltb_ℤ c.percent_basis_point (pos 0)
    || ltb_ℤ (pos 10_000) c.percent_basis_point
    || ltb_ℤ c.fixed_amount_vnd (pos 0)

-- A percentage of the subtotal, with the test that the product fits an `int64`.
unfoldable pub percent_amount : ℤ → ℤ → Option ℤ
percent_amount subtotal percent =
    let whole = subtotal /ℤ pos 10_000 in
    let remainder = subtotal %ℤ pos 10_000 in
    let fraction = wrap64 (remainder *ℤ percent) /ℤ pos 10_000 in
    if ltb_ℤ (wrap64 (max_int64 -ℤ fraction) /ℤ percent) whole
    then none
    else some (wrap64 (wrap64 (whole *ℤ percent) +ℤ fraction))

-- The two caps at the end.
unfoldable pub capped : Coupon → ℤ → ℤ → ℤ
capped c subtotal amount =
    let limited =
      if ltb_ℤ (pos 0) c.maximum_discount_vnd && ltb_ℤ c.maximum_discount_vnd amount
      then c.maximum_discount_vnd
      else amount in
    if ltb_ℤ subtotal limited then subtotal else limited

unfoldable pub amount_before_caps : Coupon → ℤ → Option ℤ
unfolding percent_amount
amount_before_caps c subtotal =
    if ltb_ℤ (pos 0) c.percent_basis_point
    then percent_amount subtotal c.percent_basis_point
    else some c.fixed_amount_vnd

unfoldable pub coupon_discount : Coupon → ℤ → ℤ → ℤ → ℕ → Result ℤ
unfolding is_unavailable is_malformed amount_before_caps capped
coupon_discount c subtotal total_uses account_uses now =
    if is_unavailable c subtotal total_uses account_uses now
    then err invalid_coupon
    else if is_malformed c
    then err invalid_coupon
    else elim (amount_before_caps c subtotal) [
      | none ↦ err invalid_coupon
      | some amount ↦ ok (capped c subtotal amount)
    ]
