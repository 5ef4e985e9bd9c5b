-- ===== src/Order/Put/Redeem.antt =====
-- What the steps of `PutOrderWithCoupon` write in the open transaction.
use goshop_x.Base.{
  lift, time_now, ◌>>=◌, write_tx, pure, write_tx_lem, change_on_lem, commit_lem, ℕ, ℤ, pos, String,
  ◌≡◌, refl, sym, ap, ◌∙◌, Bool, ◌&&◌, some, List, [], ◌∷◌, ◌++◌, Result, ok, arith, Laws, Orm,
  tally, Session, commit, >>=-eq-ok, same, ◌==◌,
}
use goshop_x.Order.Models.{Coupon, CouponRedemption, Order, OrderedProduct}
use goshop_x.Order.Tables.{
  Tables, Event, Backend, change_orders, change_products, change_redemptions,
}
use goshop_x.Order.Coupon.{coupon_discount}
use goshop_x.Order.Coupon.Rules.{IsAvailable, coupon_discount-IsAvailable}
use goshop_x.Order.Put.{
  order_row, product_row, redemption_row, or_invalid_coupon, with_code, used_by_all, used_by,
  coupon_in_tx, discounted, create_order, create_items, create_redemption, finish_order,
  store_discounted,
}

abbrev pub same_redemption : CouponRedemption → CouponRedemption → Bool
same_redemption x y = x.id == y.id

-- A coupon is redeemed once for an order.
abbrev pub clashing_redemption : CouponRedemption → CouponRedemption → Bool
clashing_redemption x y = same x.coupon_code y.coupon_code && x.order_id == y.order_id

-- The identifier and the time are filled in.
abbrev pub FilledRedemption : CouponRedemption → CouponRedemption → Type 0
FilledRedemption r r' = (r'.coupon_code ≡ r.coupon_code) × (r'.account_id ≡ r.account_id)

abbrev pub RedemptionLaws : Orm CouponRedemption → Type 0
RedemptionLaws o = Laws o same_redemption clashing_redemption FilledRedemption

module _ {F : Type 0} (b : Backend F) where
  abbrev S : Type 0
  S = Session (Tables F) (Event F)

  abbrev get_redemptions : Tables F → List CouponRedemption
  get_redemptions t = t.redemptions

  create_order_frame :
      (o : Order F) (s : S) (d : Tables F) {o' : Order F} {t : S}
      → s.tx ≡ some d
      → create_order b o s ≡ (ok o', t)
      → (d' : Tables F) × (t.tx ≡ some d')
        × (d'.redemptions ≡ d.redemptions)
        × (o'.account_id ≡ o.account_id)
  unfolding create_order
  create_order_frame o s d inside e =
      let (row, u, wrote, rest) =
        >>=-eq-ok (write_tx (change_orders (b.order_orm.create (order_row o))))
          (λ row. pure (record o { id = row.id })) s e in
      let (d', made, after) =
        write_tx_lem (change_orders (b.order_orm.create (order_row o))) s d inside wrote in
      let (rows, _, put) =
        change_on_lem (λ t. t.orders) (λ rows t. record t { orders = rows })
          (b.order_orm.create (order_row o)) d made in
      (d', ground arith, ground arith, ground arith)

  create_items_frame :
      (id : ℕ) (ps : List (OrderedProduct F)) (s : S) (d : Tables F) {t : S}
      → s.tx ≡ some d
      → create_items b id ps s ≡ (ok tt, t)
      → (d' : Tables F) × (t.tx ≡ some d') × (d'.redemptions ≡ d.redemptions)
  unfolding create_items
  create_items_frame id [] s d inside e = (d, ground arith, refl)
  create_items_frame id (p ∷ ps) s d inside e =
      let write = change_products (b.product_orm.create (product_row id p)) in
      let (row, u, wrote, rest) = >>=-eq-ok (write_tx write) (λ _. create_items b id ps) s e in
      let (d', made, after) = write_tx_lem write s d inside wrote in
      let (rows, _, put) =
        change_on_lem (λ t. t.order_products) (λ rows t. record t { order_products = rows })
          (b.product_orm.create (product_row id p)) d made in
      let (d'', within, kept) = create_items_frame id ps u d' (ground arith) rest in
      (d'', within, ground arith)

  create_redemption_frame :
      (code : String) (o : Order F) (s : S) (d : Tables F) {r : CouponRedemption} {t : S}
      → RedemptionLaws b.redemption_orm
      → s.tx ≡ some d
      → create_redemption b code o s ≡ (ok r, t)
      → (d' : Tables F) × (t.tx ≡ some d')
        × (d'.redemptions ≡ d.redemptions ++ (r ∷ []))
        × (r.coupon_code ≡ code)
        × (r.account_id ≡ o.account_id)
  unfolding create_redemption
  create_redemption_frame code o s d {r} laws inside e =
      let write = b.redemption_orm.create (redemption_row code o) in
      let (d', made, after) = write_tx_lem (change_redemptions write) s d inside e in
      let (rows, wrote, put) =
        change_on_lem get_redemptions (λ rows t. record t { redemptions = rows }) write d made in
      let (appended, filled, _) =
        laws.create_row (redemption_row code o) r d.redemptions rows wrote in
      (d', ground arith, ground arith, filled.0, filled.1)

  pub coupon_in_tx_lem :
      (code : String) (account : ℕ) (s : S) (d : Tables F) {c : Coupon} {total mine : ℤ} {t : S}
      → RedemptionLaws b.redemption_orm
      → s.tx ≡ some d
      → coupon_in_tx b code account s ≡ (ok (c, total, mine), t)
      → (t ≡ s)
        × (total ≡ pos (tally (used_by_all code) d.redemptions))
        × (mine ≡ pos (tally (used_by code account) d.redemptions))
        × (or_invalid_coupon (b.coupon_orm.first (with_code code) d.coupons) ≡ ok c)
  unfolding coupon_in_tx
  coupon_in_tx_lem code account s d {c} {total} {mine} laws inside e =
      let all = laws.count_rows (used_by_all code) d.redemptions total in
      let own = laws.count_rows (used_by code account) d.redemptions mine in
      (ground arith, ground (arith, all), ground (arith, own), ground arith)

  finish_order_lem :
      (code : String) (o : Order F) (s : S) (d : Tables F) {o' : Order F} {t : S}
      → RedemptionLaws b.redemption_orm
      → s.tx ≡ some d
      → finish_order b code o s ≡ (ok o', t)
      → (r : CouponRedemption) × (t.db.redemptions ≡ d.redemptions ++ (r ∷ []))
        × (r.coupon_code ≡ code)
        × (r.account_id ≡ o.account_id)
  unfolding finish_order
  finish_order_lem code o s d laws inside e =
      let closing = λ (_ : Unit {0}). pure {S = S} o in
      let redeeming = λ (_ : CouponRedemption). (commit {E = Event F} b.driver >>= closing) in
      let storing = λ (_ : Unit {0}). (create_redemption b code o >>= redeeming) in
      let (_, s1, items, e1) = >>=-eq-ok (create_items b o.id o.products) storing s e in
      let (r, s2, redeemed, e2) = >>=-eq-ok (create_redemption b code o) redeeming s1 e1 in
      let (_, s3, committed, e3) = >>=-eq-ok (commit b.driver) closing s2 e2 in
      let (d1, in1, kept) = create_items_frame o.id o.products s d inside items in
      let (d2, in2, appended, coded, owned) =
        create_redemption_frame code o s1 d1 laws in1 redeemed in
      let left = commit_lem b.driver s2 d2 in2 committed in
      (
        r,
        sym (ap (λ (x : Result (Order F) × S). x.1.db.redemptions) e3)
            ∙ ap (λ (x : S). x.db.redemptions) left
            ∙ appended
            ∙ ap (λ l. l ++ (r ∷ [])) kept,
        coded,
        owned,
      )

  pub store_discounted_lem :
      (o : Order F) (code : String) (c : Coupon) (total mine : ℤ) (s : S) (d : Tables F)
      {o' : Order F} {t : S}
      → RedemptionLaws b.redemption_orm
      → s.tx ≡ some d
      → store_discounted b o code (c, total, mine) s ≡ (ok o', t)
      → (r : CouponRedemption) × (t.db.redemptions ≡ d.redemptions ++ (r ∷ []))
        × (r.coupon_code ≡ code)
        × (r.account_id ≡ o.account_id)
        × ((now : ℕ) × IsAvailable c o.subtotal_vnd total mine now)
  unfolding store_discounted
  store_discounted_lem o code c total mine s d laws inside e =
      let creating = λ (x : ℤ). (create_order b (discounted b o x code) >>= finish_order b code) in
      let pricing = λ (now : ℕ).
        (lift {S = S} (coupon_discount c o.subtotal_vnd total mine now) >>= creating) in
      let (now, s1, read, e1) = >>=-eq-ok (time_now {E = Event F} b.driver) pricing s e in
      let (x, s2, priced, e2) =
        >>=-eq-ok (lift (coupon_discount c o.subtotal_vnd total mine now)) creating s1 e1 in
      let (made, s3, created, e3) =
        >>=-eq-ok (create_order b (discounted b o x code)) (finish_order b code) s2 e2 in
      let granted : coupon_discount c o.subtotal_vnd total mine now ≡ ok x =
        ap (λ (y : Result ℤ × S). y.0) priced in
      let same_tx : s2.tx ≡ some d =
        sym (ap (λ (y : Result ℤ × S). y.1.tx) priced)
        ∙ sym (ap (λ (y : Result ℕ × S). y.1.tx) read)
        ∙ inside in
      let (d1, in1, kept, owner) =
        create_order_frame (discounted b o x code) s2 d same_tx created in
      let (r, appended, coded, owned) = finish_order_lem code made s3 d1 laws in1 e3 in
      (
        r,
        appended ∙ ap (λ l. l ++ (r ∷ [])) kept,
        coded,
        owned ∙ owner,
        (now, coupon_discount-IsAvailable c o.subtotal_vnd total mine now granted),
      )
