-- ===== src/Payment/Session/Totals.antt =====
-- The sum of a checkout in `CreateCheckoutSession`: exact, or refused.
use native.Mathlib.Nat.{le-div_iff_mul-le, mul_comm}
use goshop_x.Base.{
  ℕ, ℤ, pos, negsuc, pos_part, String, ◌≡◌, ◌≤◌, ◌<◌, ◌+◌, ◌-◌, ◌*◌, ◌/◌, ◌^◌, true, false, List,
  [], ◌∷◌, ok, All, ap, arith, ltb_ℤ, ◌<ℤ◌, ◌+ℤ◌, ◌*ℤ◌, ◌/ℤ◌, wrap64, wrap64-pos, pos-add, pos-mul,
  pos-div, max_int64, same,
}
use goshop_x.Payment.Models.{Product}
use goshop_x.Payment.Session.{Quantities, quantity_of, add_lines, is_bad_line, int64}

-- The sum over the natural numbers.
abbrev pub lines_total : List Product → Quantities → ℕ
lines_total [] m = 0
lines_total (p ∷ ps) m = pos_part p.price * quantity_of p.product_id m + lines_total ps m

abbrev pub IsPriced : Product → Type 0
IsPriced p = (same p.currency "VND" ≡ true) × (pos 0 <ℤ p.price)

-- A line that passes the test has a product that fits an `int64`, and is computed exactly.
line_fits : (p q : ℕ) → 0 < p → q ≤ (2 ^ 63 - 1) / p → p * q < 2 ^ 63
line_fits p q h le = let bound : q * p ≤ 2 ^ 63 - 1 = (le-div_iff_mul-le h).0 le in grind arith

quantity_fits : (p q : ℕ) → 0 < p → p * q < 2 ^ 63 → q < 2 ^ 63
quantity_fits p q h le = grind arith

not_bad :
    (price : ℤ) (currency : String) (q : ℕ)
    → is_bad_line price currency q ≡ false
    → (same currency "VND" ≡ true) × (pos 0 <ℤ price) × (q ≤ pos_part (max_int64 /ℤ price))
not_bad price currency q h = ground arith

line_exact :
    (price : ℤ) (currency : String) (q : ℕ)
    → is_bad_line price currency q ≡ false
    → (same currency "VND" ≡ true)
      × (pos 0 <ℤ price)
      × (wrap64 (price *ℤ int64 q) ≡ pos (pos_part price * q))
      × (pos_part price * q < 2 ^ 63)
line_exact (negsuc n) currency q h = ground arith
line_exact (pos n) currency q h =
    let (named, positive, room) = not_bad (pos n) currency q h in
    let least : 0 < n = omega arith in
    let quotient : q ≤ (2 ^ 63 - 1) / n = rw (pos-div (2 ^ 63 - 1) n) at room in
    let fits : n * q < 2 ^ 63 = line_fits n q least quotient in
    (
      named,
      positive,
      rw (wrap64-pos q (quantity_fits n q least fits), pos-mul, wrap64-pos (n * q) fits),
      fits,
    )

sum_exact :
    (s x : ℕ)
    → s < 2 ^ 63
    → x < 2 ^ 63
    → ltb_ℤ (wrap64 (pos s +ℤ pos x)) (pos 0) ≡ false
    → (wrap64 (pos s +ℤ pos x) ≡ pos (s + x)) × (s + x < 2 ^ 63)
unfolding wrap64 ◌+ℤ◌
sum_exact s x hs hx h = ground arith

add_lines_step :
    (p : Product) (ps : List Product) (m : Quantities) (s total : ℤ)
    → let sum = wrap64 (s +ℤ wrap64 (p.price *ℤ int64 (quantity_of p.product_id m))) in
      add_lines (p ∷ ps) m s ≡ ok total
      → (is_bad_line p.price p.currency (quantity_of p.product_id m) ≡ false)
        × (ltb_ℤ sum (pos 0) ≡ false)
        × (add_lines ps m sum ≡ ok total)
unfolding add_lines
add_lines_step p ps m s total e = ground arith

-- If the loop returns a total, every product is priced in VND at more than nothing, the total is the
-- sum of price times quantity over the natural numbers, and it fits an `int64`.
pub add_lines_exact :
    (ps : List Product) (m : Quantities) (s : ℕ) {total : ℤ}
    → s < 2 ^ 63
    → add_lines ps m (pos s) ≡ ok total
    → All IsPriced ps × (total ≡ pos (s + lines_total ps m)) × (s + lines_total ps m < 2 ^ 63)
add_lines_exact [] m s hs e = unfold add_lines in (tt, ground arith, omega arith)
add_lines_exact (p ∷ ps) m s {total} hs e =
    let q = quantity_of p.product_id m in
    let (good, below, rest) = add_lines_step p ps m (pos s) total e in
    let (named, positive, exact, fits) = line_exact p.price p.currency q good in
    let (sum, bound) = sum_exact s (pos_part p.price * q) hs fits (rw exact at below) in
    let (all, same_total, small) =
      add_lines_exact ps m (s + pos_part p.price * q) bound (rw (exact, sum) at rest) in
    (((named, positive), all), rw same_total (ap pos (omega arith)), omega arith)

quotient_fits : (n q : ℕ) → 0 < n → n * q < 2 ^ 63 → q ≤ (2 ^ 63 - 1) / n
quotient_fits n q h fits = (le-div_iff_mul-le h).1 (omega (arith, mul_comm n q))

good_line :
    (price : ℤ) (currency : String) (q : ℕ)
    → same currency "VND" ≡ true
    → pos 0 <ℤ price
    → pos_part price * q < 2 ^ 63
    → is_bad_line price currency q ≡ false
good_line (negsuc n) currency q named h fits = absurd (omega arith)
good_line (pos n) currency q named h fits =
    let room = quotient_fits n q (omega arith) fits in
    rw (named, pos-div (2 ^ 63 - 1) n) (ground arith)

sum_fits : (s x : ℕ) → s + x < 2 ^ 63 → wrap64 (pos s +ℤ pos x) ≡ pos (s + x)
sum_fits s x h = rw (pos-add, wrap64-pos (s + x) h)

-- Products priced in VND at more than nothing, whose sum fits an `int64`, are accepted at that sum.
pub add_lines_accepts :
    (ps : List Product) (m : Quantities) (s : ℕ)
    → All IsPriced ps
    → s + lines_total ps m < 2 ^ 63
    → add_lines ps m (pos s) ≡ ok (pos (s + lines_total ps m))
unfolding add_lines
add_lines_accepts [] m s priced fits = ap (λ n. ok (pos n)) (omega arith)
add_lines_accepts (p ∷ ps) m s ((named, positive), priced) fits =
    let q = quantity_of p.product_id m in
    let x = pos_part p.price * q in
    let good = good_line p.price p.currency q named positive (omega arith) in
    let (_, _, exact, _) = line_exact p.price p.currency q good in
    let rest = add_lines_accepts ps m (s + x) priced (omega arith) in
    rw (good, exact, sum_fits s x (omega arith)) (rw rest (ground arith))
