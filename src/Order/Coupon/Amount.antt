-- ===== src/Order/Coupon/Amount.antt =====
-- The percentage of a subtotal in `CouponDiscount`: it is exact, and its overflow test never fires.
use native.Mathlib.Nat.{mul-le-mul, le-div_iff_mul-le}
use goshop_x.Base.{
  ℕ, pos, ◌≡◌, ◌≤◌, ◌<◌, ◌+◌, ◌-◌, ◌*◌, ◌/◌, ◌%◌, ◌^◌, some, arith, pos-add, pos-sub, pos-mul,
  pos-div, pos-mod, wrap64-pos, ap,
}
use goshop_x.Order.Coupon.{percent_amount}

-- Splitting the subtotal at 10000 loses nothing.
expand : (n p : ℕ) → n * p ≡ 10_000 * (n / 10_000 * p) + n % 10_000 * p
expand n p =
    let e : n ≡ 10_000 * (n / 10_000) + n % 10_000 = omega arith in
    omega (arith, ap (λ (t : ℕ). t * p) e)

split_percent : (n p : ℕ) → n / 10_000 * p + n % 10_000 * p / 10_000 ≡ n * p / 10_000
split_percent n p = omega (arith, expand n p)

pub percent_le : (n p : ℕ) → p ≤ 10_000 → n * p / 10_000 ≤ n
percent_le n p h = grind arith

remainder_small : (n p : ℕ) → p ≤ 10_000 → n % 10_000 * p ≤ 100_000_000
remainder_small n p h = let r : n % 10_000 ≤ 10_000 = omega arith in omega (arith, mul-le-mul r h)

-- The division in the overflow test: it bounds the product exactly.
room_for_whole : (w f p n : ℕ) → 1 ≤ p → w * p + f ≤ n → n < 2 ^ 63 → w ≤ (2 ^ 63 - 1 - f) / p
room_for_whole w f p n hp h hn = (le-div_iff_mul-le hp).1 (omega arith)

pub percent_amount_exact :
    (n p : ℕ)
    → n < 2 ^ 63
    → 1 ≤ p
    → p ≤ 10_000
    → percent_amount (pos n) (pos p) ≡ some (pos (n * p / 10_000))
unfolding percent_amount
percent_amount_exact n p hn h1 hp =
    let whole = n / 10_000 in
    let rest = n % 10_000 * p in
    let small : rest ≤ 100_000_000 = remainder_small n p hp in
    let exact : whole * p + rest / 10_000 ≡ n * p / 10_000 = split_percent n p in
    let le : n * p / 10_000 ≤ n = percent_le n p hp in
    let room : whole ≤ (2 ^ 63 - 1 - rest / 10_000) / p =
      room_for_whole whole (rest / 10_000) p n h1 (omega arith) hn in
    rw
      (
        pos-div,
        pos-mod,
        pos-mul,
        wrap64-pos rest (omega arith),
        pos-div,
        pos-sub (2 ^ 63 - 1) (rest / 10_000) (omega arith),
        wrap64-pos (2 ^ 63 - 1 - rest / 10_000) (omega arith),
        pos-div,
        pos-mul,
        wrap64-pos (whole * p) (omega arith),
        pos-add,
        wrap64-pos (whole * p + rest / 10_000) (omega arith),
      )
      (ground arith)
