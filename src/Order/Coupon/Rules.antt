-- ===== src/Order/Coupon/Rules.antt =====
-- When `CouponDiscount` accepts a coupon, and how much it then takes off.
use goshop_x.Base.{
  ℕ, ℤ, pos, negsuc, pos_part, ◌≡◌, ◌⊎◌, inl, inr, ◌≤◌, ◌<◌, ◌*◌, ◌/◌, ◌^◌, true, false, some, ok,
  err, invalid_coupon, arith, if◌then◌else◌, not, ◌&&◌, ◌==◌, ltb, ltb_ℤ, leb_ℤ, ◌≤ℤ◌, ◌<ℤ◌,
  is_empty, trim_space, Bool-cases,
}
use goshop_x.Order.Models.{Coupon}
use goshop_x.Order.Coupon.{
  is_unavailable, is_malformed, percent_amount, amount_before_caps, capped, coupon_discount,
}
use goshop_x.Order.Coupon.Amount.{percent_amount_exact}

-- The conditions that the promotion states: it is switched on, has a code, the order is large enough,
-- the time lies in the window, and neither limit is used up.
pub record IsAvailable (c : Coupon) (subtotal total_uses account_uses : ℤ) (now : ℕ) : Type 0 where
  pub switched_on : c.active ≡ true
  pub has_code : is_empty (trim_space c.code) ≡ false
  pub large_enough : c.minimum_subtotal_vnd ≤ℤ subtotal
  pub not_negative : pos 0 ≤ℤ subtotal
  pub started : (c.starts_at ≡ 0) ⊎ (c.starts_at ≤ now)
  pub not_over : (c.expires_at ≡ 0) ⊎ (now < c.expires_at)
  pub uses_left : (c.maximum_redemptions ≤ℤ pos 0) ⊎ (total_uses <ℤ c.maximum_redemptions)
  pub account_uses_left : (c.per_account_limit ≤ℤ pos 0) ⊎ (account_uses <ℤ c.per_account_limit)

-- Exactly one of a percentage up to 100% and a fixed amount.
abbrev pub IsWellFormed : Coupon → Type 0
IsWellFormed c =
    ((pos 0 <ℤ c.percent_basis_point)
      × (c.percent_basis_point ≤ℤ pos 10_000)
      × (c.fixed_amount_vnd ≡ pos 0))
    ⊎ ((c.percent_basis_point ≡ pos 0) × (pos 0 <ℤ c.fixed_amount_vnd))

is_unavailable→ :
    (c : Coupon) (s t a : ℤ) (now : ℕ)
    → is_unavailable c s t a now ≡ false
    → IsAvailable c s t a now
unfolding is_unavailable
is_unavailable→ c s t a now h = record {
  switched_on = ground arith;
  has_code = ground arith;
  large_enough = ground arith;
  not_negative = ground arith;
  started = ground arith;
  not_over = ground arith;
  uses_left = ground arith;
  account_uses_left = ground arith;
}

ltb_ℤ-false : (a b : ℤ) → b ≤ℤ a → ltb_ℤ a b ≡ false
ltb_ℤ-false a b h = ground arith

started_lem : (t now : ℕ) → (t ≡ 0) ⊎ (t ≤ now) → (not (t == 0) && ltb now t) ≡ false
started_lem t now h = ground arith

not_over_lem : (t now : ℕ) → (t ≡ 0) ⊎ (now < t) → (not (t == 0) && not (ltb now t)) ≡ false
not_over_lem t now h = ground arith

limit_lem : (m u : ℤ) → (m ≤ℤ pos 0) ⊎ (u <ℤ m) → (ltb_ℤ (pos 0) m && leb_ℤ m u) ≡ false
limit_lem m u h = ground arith

→is_unavailable :
    (c : Coupon) (s t a : ℤ) (now : ℕ)
    → IsAvailable c s t a now
    → is_unavailable c s t a now ≡ false
unfolding is_unavailable
→is_unavailable c s t a now h = rw (
  h.switched_on,
  h.has_code,
  ltb_ℤ-false s c.minimum_subtotal_vnd h.large_enough,
  ltb_ℤ-false s (pos 0) h.not_negative,
  started_lem c.starts_at now h.started,
  not_over_lem c.expires_at now h.not_over,
  limit_lem c.maximum_redemptions t h.uses_left,
  limit_lem c.per_account_limit a h.account_uses_left,
)

is_malformed→ : (c : Coupon) → is_malformed c ≡ false → IsWellFormed c
unfolding is_malformed
is_malformed→ c h = ground arith

→is_malformed : (c : Coupon) → IsWellFormed c → is_malformed c ≡ false
unfolding is_malformed
→is_malformed c h = ground arith

-- The discount as the promotion states it: the percentage rounded down, or the fixed amount, then the
-- coupon's cap and the subtotal as upper limits.
abbrev pub base_discount : Coupon → ℕ → ℤ
base_discount c n =
    if ltb_ℤ (pos 0) c.percent_basis_point
    then pos (n * pos_part c.percent_basis_point / 10_000)
    else c.fixed_amount_vnd

abbrev pub lesser : ℤ → ℤ → ℤ
lesser a b = if leb_ℤ a b then a else b

abbrev pub stated_discount : Coupon → ℕ → ℤ
stated_discount c n =
    let base = base_discount c n in
    lesser
      (if ltb_ℤ (pos 0) c.maximum_discount_vnd then lesser base c.maximum_discount_vnd else base)
      (pos n)

capped_lem : (c : Coupon) (n : ℕ) → capped c (pos n) (base_discount c n) ≡ stated_discount c n
unfolding capped
capped_lem c n = ground arith

amount_before_caps-eq :
    (c : Coupon) (n : ℕ)
    → n < 2 ^ 63
    → IsWellFormed c
    → amount_before_caps c (pos n) ≡ some (base_discount c n)
unfolding amount_before_caps
amount_before_caps-eq c n h w = elim (Bool-cases (ltb_ℤ (pos 0) c.percent_basis_point)) [
  | inl positive ↦ rw positive (percent_case c.percent_basis_point (ground arith) (ground arith))
  | inr flat ↦ rw flat
]
  where
    percent_case :
        (q : ℤ)
        → pos 0 <ℤ q
        → q ≤ℤ pos 10_000
        → percent_amount (pos n) q ≡ some (pos (n * pos_part q / 10_000))
    percent_case (pos p) low high = percent_amount_exact n p h (omega arith) (omega arith)
    percent_case (negsuc p) low high = absurd (omega arith)

-- A coupon is accepted for a subtotal of n exactly when it is available and well formed, and the
-- discount is then the stated percentage rounded down (or the fixed amount) under both caps; in every
-- other case the result is the error `invalid coupon`. The test against overflow never rejects.
pub coupon_discount-eq :
    (c : Coupon) (n : ℕ) (total_uses account_uses : ℤ) (now : ℕ)
    → n < 2 ^ 63
    → (IsAvailable c (pos n) total_uses account_uses now
        × IsWellFormed c
        × (coupon_discount c (pos n) total_uses account_uses now ≡ ok (stated_discount c n)))
      ⊎ (¬ (IsAvailable c (pos n) total_uses account_uses now × IsWellFormed c)
          × (coupon_discount c (pos n) total_uses account_uses now ≡ err invalid_coupon))
unfolding coupon_discount
coupon_discount-eq c n t a now h = elim (Bool-cases (is_unavailable c (pos n) t a now)) [
  | inl refused ↦ inr (λ p. cc (refused, →is_unavailable c (pos n) t a now p.0), rw refused)
  | inr usable ↦ elim (Bool-cases (is_malformed c)) [
    | inl bad ↦ inr (λ p. cc (bad, →is_malformed c p.1), rw (usable, bad))
    | inr good ↦ inl (
      is_unavailable→ c (pos n) t a now usable,
      is_malformed→ c good,
      rw (usable, good, amount_before_caps-eq c n h (is_malformed→ c good), capped_lem c n),
    )
  ]
]

base_nonneg : (c : Coupon) (n : ℕ) → IsWellFormed c → pos 0 ≤ℤ base_discount c n
base_nonneg c n w = ground arith

capped_bounds :
    (c : Coupon) (n : ℕ) (amount d : ℤ)
    → pos 0 ≤ℤ amount
    → capped c (pos n) amount ≡ d
    → (pos 0 ≤ℤ d)
      × (d ≤ℤ pos n)
      × ((c.maximum_discount_vnd ≤ℤ pos 0) ⊎ (d ≤ℤ c.maximum_discount_vnd))
unfolding capped
capped_bounds c n amount d h e = ground arith

-- Whatever the coupon, a discount that is granted is not negative, is at most the subtotal, and is at
-- most the coupon's maximum where that is set.
pub coupon_discount_bounds :
    (c : Coupon) (n : ℕ) (total_uses account_uses : ℤ) (now : ℕ) {d : ℤ}
    → n < 2 ^ 63
    → coupon_discount c (pos n) total_uses account_uses now ≡ ok d
    → (pos 0 ≤ℤ d)
      × (d ≤ℤ pos n)
      × ((c.maximum_discount_vnd ≤ℤ pos 0) ⊎ (d ≤ℤ c.maximum_discount_vnd))
coupon_discount_bounds c n t a now {d} h e = elim (coupon_discount-eq c n t a now h) [
  | inl (available, good, eq) ↦
      capped_bounds c n (base_discount c n) d (base_nonneg c n good) (cc (capped_lem c n))
  | inr (refused, eq) ↦ cc
]

pub coupon_discount-IsAvailable :
    (c : Coupon) (s total_uses account_uses : ℤ) (now : ℕ) {d : ℤ}
    → coupon_discount c s total_uses account_uses now ≡ ok d
    → IsAvailable c s total_uses account_uses now
unfolding coupon_discount
coupon_discount-IsAvailable c s t a now e = elim (Bool-cases (is_unavailable c s t a now)) [
  | inl refused ↦ absurd (never (rw refused at e))
  | inr usable ↦ is_unavailable→ c s t a now usable
]
  where
    never : {d : ℤ} → err invalid_coupon ≡ ok d → ⊥
    never h = cc
