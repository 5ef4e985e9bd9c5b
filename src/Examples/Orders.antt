-- ===== src/Examples/Orders.antt =====
-- An order with a coupon, on tables in memory.
use goshop_x.Base.{
  invalid_coupon, invalid_checkout_quote, ℕ, pos, ◌≡◌, refl, ◌⊎◌, true, false, none, List, [], ◌∷◌,
  ◌++◌, ok, err, external, ◌+◌, ◌≤ℤ◌, ◌==◌, length, same, Session, tally, pos_part, wrap64,
  trim_space, to_upper, ◌/ℤ◌, ◌-ℤ◌, ◌*ℤ◌, ◌%ℤ◌, ◌+ℤ◌,
}
use goshop_x.Memory.{memory, memory-Laws}
use goshop_x.Order.Models.{Coupon, CouponRedemption, Order, OrderedProduct}
use goshop_x.Order.Tables.{Tables, Event, Backend, Float}
use goshop_x.Order.Coupon.{
  coupon_discount, is_unavailable, is_malformed, amount_before_caps, percent_amount, capped,
}
use goshop_x.Order.Put.{
  put_order_with_coupon, begin_checked, coupon_body, coupon_in_tx, store_discounted, create_order,
  create_items, create_redemption, finish_order, or_invalid_coupon, with_code, used_by_all, used_by,
  discounted, product_row,
}
use goshop_x.Order.Put.Redeem.{same_redemption, clashing_redemption, FilledRedemption}
use goshop_x.Order.Put.Limits.{put_order_with_coupon_limits}
use goshop_x.Order.Quote.{put_order_with_quote, quote_body}
use goshop_x.Order.Atomic.{
  LeavesNothing, put_order_with_coupon-LeavesNothing, put_order_with_quote-LeavesNothing,
}
use goshop_x.Examples.Coupons.{ten_percent}

-- Prices stand for themselves, in whole đồng.
abbrev float : Float ℕ
float = record {
  is_nan = λ _. false;
  is_inf = λ _. false;
  is_negative = λ _. false;
  below_max = λ _. true;
  round = pos;
  of_int64 = pos_part;
}

abbrev fill_redemption : List CouponRedemption → CouponRedemption → CouponRedemption
fill_redemption rows r = record r { id = length rows + 1 }

abbrev backend : Backend ℕ
backend = record {
  driver = record { begin_fault = λ _. none; commit_fault = λ _. none; clock = λ i. i };
  float = float;
  order_orm =
      memory (λ x y. x.id == y.id) (λ x y. x.id == y.id)
        (λ rows o. record o { id = length rows + 1 });
  product_orm =
      memory (λ x y. x.id == y.id) (λ x y. x.id == y.id)
        (λ rows p. record p { id = length rows + 1 });
  coupon_orm = memory (λ x y. same x.code y.code) (λ x y. same x.code y.code) (λ _ c. c);
  redemption_orm = memory same_redemption clashing_redemption fill_redemption;
  quote_orm = memory (λ x y. same x.id y.id) (λ x y. same x.id y.id) (λ _ q. q);
  digest = λ lines. "";
  random_hex = λ _. err (external 0);
}

abbrev tea : OrderedProduct ℕ
tea = record { id = "tea"; name = "Tea"; description = ""; price = 50_000; quantity = 2 }

abbrev order : Order ℕ
order = record {
  id = 0;
  created_at = 1;
  total_price = 100_000;
  subtotal_vnd = pos 100_000;
  discount_vnd = pos 0;
  total_price_vnd = pos 100_000;
  coupon_code = "";
  checkout_quote_id = none;
  account_id = 4;
  status = "pending";
  payment_status = "pending";
  products_infos = [];
  products = tea ∷ [];
}

abbrev placed : Order ℕ
placed = record (discounted backend order (pos 8_000) "TET") { id = 1 }

abbrev redemption : CouponRedemption
redemption = record { id = 1; coupon_code = "TET"; order_id = 1; account_id = 4; created_at = 0 }

abbrev empty : Session (Tables ℕ) (Event ℕ)
empty = record {
  db = record {
    orders = [];
    order_products = [];
    coupons = ten_percent ∷ [];
    redemptions = [];
    quotes = [];
  };
  tx = none;
  ticks = 0;
  published = [];
}

abbrev filled : Session (Tables ℕ) (Event ℕ)
filled = record empty {
  db = record {
    orders = record placed { products = [] } ∷ [];
    order_products = record (product_row 1 tea) { id = 1 } ∷ [];
    coupons = ten_percent ∷ [];
    redemptions = redemption ∷ [];
    quotes = [];
  };
  ticks = 1;
}

run_with_coupon : put_order_with_coupon backend order " tet " empty ≡ (ok placed, filled)
unfolding put_order_with_coupon begin_checked coupon_body coupon_in_tx store_discounted create_order
    create_items create_redemption finish_order coupon_discount is_unavailable is_malformed
    amount_before_caps percent_amount capped trim_space to_upper ◌/ℤ◌ wrap64 ◌-ℤ◌ ◌*ℤ◌ ◌%ℤ◌ ◌+ℤ◌
run_with_coupon = refl

put_order_with_coupon_limits_example :
    ((r : CouponRedemption) × ((redemption ∷ []) ≡ [] ++ (r ∷ []))
      × (r.coupon_code ≡ "TET")
      × (r.account_id ≡ 4))
    × ((c : Coupon) × (or_invalid_coupon
            (backend.coupon_orm.first (with_code "TET") (ten_percent ∷ []))
          ≡ ok c)
        × ((c.maximum_redemptions ≤ℤ pos 0)
            ⊎ (pos (tally (used_by_all "TET") (redemption ∷ [])) ≤ℤ c.maximum_redemptions))
        × ((c.per_account_limit ≤ℤ pos 0)
            ⊎ (pos (tally (used_by "TET" 4) (redemption ∷ [])) ≤ℤ c.per_account_limit)))
unfolding trim_space to_upper
put_order_with_coupon_limits_example =
    put_order_with_coupon_limits backend order placed " tet " empty filled
      (memory-Laws same_redemption clashing_redemption fill_redemption FilledRedemption
        (λ _ _. (refl, refl)))
      refl run_with_coupon

unknown_code : put_order_with_coupon backend order "new" empty ≡ (err invalid_coupon, empty)
unfolding put_order_with_coupon begin_checked coupon_body coupon_in_tx trim_space to_upper
unknown_code = refl

put_order_with_coupon-LeavesNothing_example : LeavesNothing empty empty
put_order_with_coupon-LeavesNothing_example =
    put_order_with_coupon-LeavesNothing backend order "new" empty empty invalid_coupon unknown_code

unknown_quote :
    put_order_with_quote backend order "q1" "" 1 empty ≡ (err invalid_checkout_quote, empty)
unfolding put_order_with_quote begin_checked quote_body
unknown_quote = refl

put_order_with_quote-LeavesNothing_example : LeavesNothing empty empty
put_order_with_quote-LeavesNothing_example =
    put_order_with_quote-LeavesNothing backend order "q1" "" 1 empty empty invalid_checkout_quote
      unknown_quote
