-- ===== src/Examples/Coupons.antt =====
-- A coupon of 10% with a cap, on a subtotal of 100,000 đồng.
use goshop_x.Base.{
  pos, ◌≡◌, refl, ◌⊎◌, true, ok, err, invalid_coupon, arith, trim_space, ◌/ℤ◌, wrap64, ◌-ℤ◌, ◌*ℤ◌,
  ◌%ℤ◌, ◌+ℤ◌, ◌≤ℤ◌,
}
use goshop_x.Order.Models.{Coupon}
use goshop_x.Order.Coupon.{
  coupon_discount, is_unavailable, is_malformed, amount_before_caps, percent_amount, capped,
}
use goshop_x.Order.Coupon.Rules.{
  IsAvailable, IsWellFormed, stated_discount, coupon_discount-eq, coupon_discount_bounds,
}

abbrev pub ten_percent : Coupon
ten_percent = record {
  code = "TET";
  percent_basis_point = pos 1_000;
  fixed_amount_vnd = pos 0;
  minimum_subtotal_vnd = pos 50_000;
  maximum_discount_vnd = pos 8_000;
  maximum_redemptions = pos 3;
  per_account_limit = pos 1;
  starts_at = 0;
  expires_at = 90;
  active = true;
}

ten_percent_taken : coupon_discount ten_percent (pos 100_000) (pos 2) (pos 0) 10 ≡ ok (pos 8_000)
unfolding coupon_discount is_unavailable is_malformed amount_before_caps percent_amount capped
    trim_space ◌/ℤ◌ wrap64 ◌-ℤ◌ ◌*ℤ◌ ◌%ℤ◌ ◌+ℤ◌
ten_percent_taken = refl

ten_percent_over : coupon_discount ten_percent (pos 100_000) (pos 2) (pos 0) 90 ≡ err invalid_coupon
unfolding coupon_discount is_unavailable is_malformed amount_before_caps percent_amount capped
    trim_space
ten_percent_over = refl

coupon_discount-eq_example :
    (IsAvailable ten_percent (pos 100_000) (pos 2) (pos 0) 10
      × IsWellFormed ten_percent
      × (coupon_discount ten_percent (pos 100_000) (pos 2) (pos 0) 10
          ≡ ok (stated_discount ten_percent 100_000)))
    ⊎ (¬ (IsAvailable ten_percent (pos 100_000) (pos 2) (pos 0) 10 × IsWellFormed ten_percent)
        × (coupon_discount ten_percent (pos 100_000) (pos 2) (pos 0) 10 ≡ err invalid_coupon))
coupon_discount-eq_example = coupon_discount-eq ten_percent 100_000 (pos 2) (pos 0) 10 (omega arith)

coupon_discount_bounds_example :
    (pos 0 ≤ℤ pos 8_000)
    × (pos 8_000 ≤ℤ pos 100_000)
    × ((pos 8_000 ≤ℤ pos 0) ⊎ (pos 8_000 ≤ℤ pos 8_000))
coupon_discount_bounds_example =
    coupon_discount_bounds ten_percent 100_000 (pos 2) (pos 0) 10 (omega arith) ten_percent_taken
