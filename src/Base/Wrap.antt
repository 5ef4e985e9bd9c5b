-- ===== src/Base/Wrap.antt =====
-- Sums that wrap around.
use goshop_x.Base.Int.{ℤ, wrap64, ◌+ℤ◌, +ℤ_parts, eq_of_parts, pos_part, neg_part}
use goshop_x.Base.Tests.{ltb, Bool-cases}
use Prim.Native.Nat.{ℕ, ◌+◌, ◌-◌, ◌*◌, ◌/◌, ◌%◌, ◌^◌}
use mathlib.Core.Path.{◌≡◌}
use mathlib.Core.Logic.{inl, inr}
use native.Mathlib.Omega.{arith}

-- The low bits differ from the integer by a multiple of 2^64.
wrap64_parts :
    (z : ℤ)
    → (k : ℕ) × (j : ℕ) × (pos_part (wrap64 z) + neg_part z + k * 2 ^ 64
        ≡ neg_part (wrap64 z) + pos_part z + j * 2 ^ 64)
unfolding wrap64
wrap64_parts z =
    let p = pos_part z in
    let n = neg_part z in
    let t = p + (2 ^ 64 - n % 2 ^ 64) in
    elim (Bool-cases (ltb (t % 2 ^ 64) (2 ^ 63))) [
      | inl low ↦ (t / 2 ^ 64, 1 + n / 2 ^ 64, ground (arith, low))
      | inr high ↦ (t / 2 ^ 64, n / 2 ^ 64, ground (arith, high))
    ]

wrap64_agrees :
    (a b : ℤ) (k j : ℕ)
    → pos_part a + neg_part b + k * 2 ^ 64 ≡ neg_part a + pos_part b + j * 2 ^ 64
    → wrap64 a ≡ wrap64 b
unfolding wrap64
wrap64_agrees a b k j h = ground arith

-- A sum may be wrapped as it grows, or once.
pub wrap64-add : (a b : ℤ) → wrap64 (wrap64 a +ℤ b) ≡ wrap64 (a +ℤ b)
wrap64-add a b =
    let (k, j, low) = wrap64_parts a in
    wrap64_agrees (wrap64 a +ℤ b) (a +ℤ b) k j
      (omega (arith, low, +ℤ_parts a b, +ℤ_parts (wrap64 a) b))

pub +ℤ_assoc : (a b c : ℤ) → (a +ℤ b) +ℤ c ≡ a +ℤ (b +ℤ c)
+ℤ_assoc a b c =
    eq_of_parts ((a +ℤ b) +ℤ c) (a +ℤ (b +ℤ c))
      (omega (arith, +ℤ_parts a b, +ℤ_parts (a +ℤ b) c, +ℤ_parts b c, +ℤ_parts a (b +ℤ c)))
