-- ===== src/Order/Put/Limits.antt =====
-- The limits on the uses of a coupon, through `PutOrderWithCoupon`.
use goshop_x.Base.{
  ◌<ℤ◌, ◌>>=◌, ℕ, ℤ, pos, String, ◌≡◌, refl, ap, ◌∙◌, ◌⊎◌, inl, inr, ◌+◌, Bool, true, false, some,
  List, [], ◌∷◌, ◌++◌, Result, ok, err, arith, tally, Session, rollback, deferred, >>=-eq-ok, ◌≤ℤ◌,
  is_empty, eq_iff, ◌==◌, Action, Option-cases,
}
use goshop_x.Order.Models.{Coupon, CouponRedemption, Order}
use goshop_x.Order.Tables.{Tables, Event, Backend}
use goshop_x.Order.Coupon.Rules.{IsAvailable}
use goshop_x.Order.Put.{
  or_invalid_coupon, with_code, used_by_all, used_by, normalized, coupon_in_tx, coupon_body,
  store_discounted, put_order_with_coupon, begin_checked,
}
use goshop_x.Order.Put.Redeem.{RedemptionLaws, coupon_in_tx_lem, store_discounted_lem}

tally-snoc :
    (p : CouponRedemption → Bool) (rows : List CouponRedemption) (r : CouponRedemption)
    → p r ≡ true
    → tally p (rows ++ (r ∷ [])) ≡ tally p rows + 1
tally-snoc p [] r h = rw h refl
tally-snoc p (x ∷ xs) r h = omega (arith, tally-snoc p xs r h)

-- What a coupon's code leads to, whatever way it is written.
run_lem :
    {F : Type 0} (b : Backend F) (o o' : Order F) (coupon_code : String)
    (s t : Session (Tables F) (Event F))
    → is_empty (normalized coupon_code) ≡ false
    → put_order_with_coupon b o coupon_code s ≡ (ok o', t)
    → (begin_checked b >>= λ _. deferred rollback (coupon_body b o (normalized coupon_code))) s
      ≡ (ok o', t)
unfolding put_order_with_coupon
run_lem b o o' coupon_code s t named e = ground arith

begin_checked_lem :
    {F : Type 0} (b : Backend F) (s : Session (Tables F) (Event F)) {u : Unit {0}}
    {t : Session (Tables F) (Event F)}
    → begin_checked b s ≡ (ok u, t)
    → t.tx ≡ some s.db
unfolding begin_checked
begin_checked_lem b s e = elim (Option-cases (b.driver.begin_fault s.db)) [
  | inl free ↦ ground arith
  | inr (x, fault) ↦ ground arith
]

deferred_lem :
    {T E A : Type 0} (m : Action (Session T E) A) (s : Session T E) {a : A} {t : Session T E}
    → deferred rollback m s ≡ (ok a, t)
    → (u : Session T E) × (m s ≡ (ok a, u)) × (t.db ≡ u.db)
deferred_lem {T} {E} {A} m s {a} {t} e = go (m s) refl
  where
    go :
        (r : Result A × Session T E)
        → m s ≡ r
        → (u : Session T E) × (m s ≡ (ok a, u)) × (t.db ≡ u.db)
    go (ok x, u) h = (u, ground arith, ground arith)
    go (err x, u) h = ground arith

-- Where the coupon and the redemption come from, and what the coupon allowed.
coupon_body_lem :
    {F : Type 0} (b : Backend F) (o : Order F) (code : String) (s : Session (Tables F) (Event F))
    (d : Tables F) {o' : Order F} {t : Session (Tables F) (Event F)}
    → RedemptionLaws b.redemption_orm
    → s.tx ≡ some d
    → coupon_body b o code s ≡ (ok o', t)
    → (c : Coupon) × (or_invalid_coupon (b.coupon_orm.first (with_code code) d.coupons) ≡ ok c)
      × ((r : CouponRedemption) × (t.db.redemptions ≡ d.redemptions ++ (r ∷ []))
          × (r.coupon_code ≡ code)
          × (r.account_id ≡ o.account_id))
      × ((now : ℕ) × IsAvailable c o.subtotal_vnd
            (pos (tally (used_by_all code) d.redemptions))
            (pos (tally (used_by code o.account_id) d.redemptions))
            now)
unfolding coupon_body
coupon_body_lem b o code s d laws inside e =
    let ((c, total, mine), u, read, stored) =
      >>=-eq-ok (coupon_in_tx b code o.account_id) (store_discounted b o code) s e in
    let (same_state, all, own, found) = coupon_in_tx_lem b code o.account_id s d laws inside read in
    let (r, appended, coded, owned, usable) =
      store_discounted_lem b o code c total mine u d laws
        (ap (λ (x : Session _ _). x.tx) same_state ∙ inside) stored in
    (c, found, (r, appended, coded, owned), (usable.0, rw (all, own) at usable.1))

used_by_all_row :
    (code : String) (r : CouponRedemption) → r.coupon_code ≡ code → used_by_all code r ≡ true
used_by_all_row code r h = ground (arith, eq_iff r.coupon_code code)

used_by_row :
    (code : String) (account : ℕ) (r : CouponRedemption)
    → r.coupon_code ≡ code
    → r.account_id ≡ account
    → used_by code account r ≡ true
used_by_row code account r h k =
    let coded = used_by_all_row code r h in
    let owned : (r.account_id == account) ≡ true = ground arith in rw (coded, owned) refl

-- The count of a limit after one more use: it stays within a limit that was not reached.
within_limit :
    (limit : ℤ) (n : ℕ)
    → (limit ≤ℤ pos 0) ⊎ (pos n <ℤ limit)
    → (limit ≤ℤ pos 0) ⊎ (pos (n + 1) ≤ℤ limit)
within_limit limit n h = ground arith

-- The same over a table with one more row that counts.
within_limit_after :
    (limit : ℤ) (p : CouponRedemption → Bool) (before after : List CouponRedemption)
    (r : CouponRedemption)
    → after ≡ before ++ (r ∷ [])
    → p r ≡ true
    → (limit ≤ℤ pos 0) ⊎ (pos (tally p before) <ℤ limit)
    → (limit ≤ℤ pos 0) ⊎ (pos (tally p after) ≤ℤ limit)
within_limit_after limit p before after r rows counts h =
    rw (rows, tally-snoc p before r counts) (within_limit limit (tally p before) h)

-- An order with a coupon that goes through leaves one redemption more, of that code and account; and
-- neither the uses of the coupon nor the account's uses of it then exceed the limits that the coupon
-- sets, counted over the committed table.
pub put_order_with_coupon_limits :
    {F : Type 0} (b : Backend F) (o o' : Order F) (coupon_code : String)
    (s t : Session (Tables F) (Event F))
    → RedemptionLaws b.redemption_orm
    → is_empty (normalized coupon_code) ≡ false
    → put_order_with_coupon b o coupon_code s ≡ (ok o', t)
    → let code = normalized coupon_code in
      ((r : CouponRedemption) × (t.db.redemptions ≡ s.db.redemptions ++ (r ∷ []))
        × (r.coupon_code ≡ code)
        × (r.account_id ≡ o.account_id))
      × ((c : Coupon) × (or_invalid_coupon (b.coupon_orm.first (with_code code) s.db.coupons)
            ≡ ok c)
          × ((c.maximum_redemptions ≤ℤ pos 0)
              ⊎ (pos (tally (used_by_all code) t.db.redemptions) ≤ℤ c.maximum_redemptions))
          × ((c.per_account_limit ≤ℤ pos 0)
              ⊎ (pos (tally (used_by code o.account_id) t.db.redemptions) ≤ℤ c.per_account_limit)))
put_order_with_coupon_limits b o o' coupon_code s t laws named e =
    let code = normalized coupon_code in
    let (_, u, begun, body) =
      >>=-eq-ok (begin_checked b) (λ _. deferred rollback (coupon_body b o code)) s
        (run_lem b o o' coupon_code s t named e) in
    let (v, ran, left) = deferred_lem (coupon_body b o code) u body in
    let (c, found, redeemed, usable) =
      coupon_body_lem b o code u s.db laws (begin_checked_lem b s begun) ran in
    let (r, appended, coded, owned) = redeemed in
    let rows : t.db.redemptions ≡ s.db.redemptions ++ (r ∷ []) =
      ap (λ d. d.redemptions) left ∙ appended in
    (
      (r, rows, coded, owned),
      (
        c,
        found,
        within_limit_after c.maximum_redemptions (used_by_all code) s.db.redemptions
            t.db.redemptions r rows (used_by_all_row code r coded) usable.1.uses_left,
        within_limit_after c.per_account_limit (used_by code o.account_id) s.db.redemptions
            t.db.redemptions r rows (used_by_row code o.account_id r coded owned)
            usable.1.account_uses_left,
      ),
    )
