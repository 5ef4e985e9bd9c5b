-- ===== src/Payment/Session.antt =====
-- `CreateCheckoutSession` of payment/internal/service.go.
pub mod Totals
use goshop_x.Base.{
  ℕ, ℤ, pos, String, Bool, true, false, not, ◌&&◌, ◌||◌, Option, none, some, List, [], ◌∷◌, Result,
  ok, err, Fault, joined, record_not_found, requires_products, invalid_product, duplicate_product,
  unknown_products, invalid_local_price, total_overflow, requires_order, order_not_eligible,
  products_mismatch, quote_mismatch, pending_mismatch, unsafe_recovery, pure, raise, raise_if, lift,
  attempt, ◌>>=◌, ◌>>◌, time_now, same, is_empty, append, decimal, trim_space, join_commas, ltb,
  leb_ℤ, ltb_ℤ, eq_ℤ, ◌==◌, if◌then◌else◌, length, wrap64, ◌+ℤ◌, ◌-ℤ◌, ◌*ℤ◌, ◌/ℤ◌, max_int64,
  pos_part,
}
use goshop_x.Order.Models.{Order, OrderedProduct}
use goshop_x.Payment.Models.{Product, Transaction, status_text, pending}
use goshop_x.Payment.Gateway.{create_checkout_url}
use goshop_x.Payment.Tables.{Backend, Call, get_pending_transaction, register_transaction}
use goshop_x.Payment.Catalog.{products_for_checkout}

pub record CheckoutItem : Type 0 where
  pub product_id : String
  pub quantity : ℕ

-- `map[string]uint64`: a missing key reads as 0.
abbrev pub Quantities : Type 0
Quantities = List (String × ℕ)

unfoldable pub is_key : String → Quantities → Bool
is_key k [] = false
is_key k ((j, _) ∷ m) = same j k || is_key k m

unfoldable pub quantity_of : String → Quantities → ℕ
quantity_of k [] = 0
quantity_of k ((j, q) ∷ m) = if same j k then q else quantity_of k m

abbrev pub is_bad_item : CheckoutItem → Bool
is_bad_item i = is_empty (trim_space i.product_id) || i.quantity == 0

-- The loop over the request's items, onto the map so far; a `nil` item is an error.
unfoldable pub collect : List (Option CheckoutItem) → Quantities → Result Quantities
collect [] m = ok m
collect (none ∷ is) m = err invalid_product
collect (some i ∷ is) m =
    let rest = collect is ((i.product_id, i.quantity) ∷ m) in
    if is_bad_item i
    then err invalid_product
    else (if is_key i.product_id m then err duplicate_product else rest)

abbrev pub item_ids : List (Option CheckoutItem) → List String
item_ids [] = []
item_ids (none ∷ is) = item_ids is
item_ids (some i ∷ is) = i.product_id ∷ item_ids is

-- `int64(q)` and `uint64(MaxInt64 / p.Price)`: the price is positive where the quotient is used.
abbrev pub int64 : ℕ → ℤ
int64 q = wrap64 (pos q)

abbrev pub is_bad_line : ℤ → String → ℕ → Bool
is_bad_line price currency q =
    not (same currency "VND") || leb_ℤ price (pos 0) || ltb (pos_part (max_int64 /ℤ price)) q

-- The loop that adds the lines up.
unfoldable pub add_lines : List Product → Quantities → ℤ → Result ℤ
add_lines [] m subtotal = ok subtotal
add_lines (p ∷ ps) m subtotal =
    let q = quantity_of p.product_id m in
    let sum = wrap64 (subtotal +ℤ wrap64 (p.price *ℤ int64 q)) in
    let rest = add_lines ps m sum in
    if is_bad_line p.price p.currency q
    then err invalid_local_price
    else (if ltb_ℤ sum (pos 0) then err total_overflow else rest)

module _ {F : Type 0} where
  unfoldable pub all_match : List (OrderedProduct F) → Quantities → Bool
  all_match [] m = true
  all_match (o ∷ os) m = quantity_of o.id m == o.quantity && all_match os m

  unfoldable pub same_order_items : List (OrderedProduct F) → Quantities → Bool
  same_order_items items m = length items == length m && all_match items m

  abbrev pub is_eligible : ℕ → ℕ → Order F → Bool
  is_eligible order user o = o.id == order && o.account_id == user && same o.status "pending"

  -- The order's quote against the prices of the catalog.
  abbrev pub is_quote_broken : Order F → ℤ → Bool
  is_quote_broken o subtotal =
      not (eq_ℤ o.subtotal_vnd subtotal)
      || ltb_ℤ o.discount_vnd (pos 0)
      || ltb_ℤ subtotal o.discount_vnd
      || not (eq_ℤ o.total_price_vnd (wrap64 (subtotal -ℤ o.discount_vnd)))

  -- The amount that an order asks for: its quoted total, if it has one.
  unfoldable pub order_total : Order F → ℤ → Result ℤ
  order_total o subtotal =
      if ltb_ℤ (pos 0) o.total_price_vnd
      then (if is_quote_broken o subtotal then err quote_mismatch else ok o.total_price_vnd)
      else ok subtotal

  unfoldable pub checked_total : ℕ → ℕ → Quantities → ℤ → Option (Order F) → Result ℤ
  checked_total order user m subtotal none = err order_not_eligible
  checked_total order user m subtotal (some o) =
      if not (is_eligible order user o)
      then err order_not_eligible
      else if not (same_order_items o.products m)
      then err products_mismatch
      else order_total o subtotal

-- `order:%d`.
abbrev pub checkout_key : ℕ → String
checkout_key order = append "order:" (decimal order)

abbrev pub key_of : ℕ → Option String
key_of order = if ltb 0 order then some (checkout_key order) else none

abbrev pub fits_checkout : ℕ → ℤ → ℕ → Transaction → Bool
fits_checkout user total order tx =
    tx.user_id == user && eq_ℤ tx.total_price total && tx.order_id == order

abbrev pub new_transaction : ℕ → ℕ → ℤ → String → List String → Transaction
new_transaction order user total ref reservations = record {
  id = 0;
  created_at = 0;
  order_id = order;
  user_id = user;
  checkout_key = key_of order;
  payment_id = ref;
  total_price = total;
  settled_price = pos 0;
  currency = "VND";
  status = status_text pending;
  reservation_ids = join_commas reservations;
}

abbrev pub missing_as_none : Result Transaction → Result (Option Transaction)
missing_as_none (ok t) = ok (some t)
missing_as_none (err record_not_found) = ok none
missing_as_none (err e) = err e

module _ {F : Type 0} (b : Backend F) where
  unfoldable pub total_for_order : ℕ → ℕ → Quantities → ℤ → Call ℤ
  total_for_order order user m subtotal = elim b.orders [
    | none ↦ pure subtotal
    | some get_order ↦ if order == 0 then raise requires_order else (do
      authoritative ← lift (get_order order)
      lift (checked_total order user m subtotal authoritative))
  ]

  -- A pending transaction of the order is used again; it must ask for the same.
  unfoldable pub find_pending : ℕ → ℕ → ℤ → Call (Option Transaction)
  find_pending user order total = if order == 0 then pure none else (do
    read ← attempt (get_pending_transaction b (checkout_key order))
    found ← lift (missing_as_none read)
    elim found [
      | none ↦ pure none
      | some tx ↦ (do
        raise_if (not (fits_checkout user total order tx)) pending_mismatch
        pure (some tx))
    ])

  -- The error `e` of the registration may come from a call that was faster: its transaction is used.
  unfoldable pub recover_winner : ℕ → ℕ → ℤ → Fault → String → Call Transaction
  recover_winner user order total e key = do
    lookup ← attempt (get_pending_transaction b key)
    elim lookup [
      | err record_not_found ↦ raise e
      | err other ↦ raise (joined e other)
      | ok winner ↦
          if fits_checkout user total order winner then pure winner else raise unsafe_recovery
    ]

  unfoldable pub register_or_recover : ℕ → ℕ → ℤ → List String → Call Transaction
  register_or_recover user order total reservations = do
    ref ← (λ s. (b.random_hex s.ticks, s))
    made ← attempt (register_transaction b (new_transaction order user total ref reservations))
    elim made [
      | ok tx ↦ pure tx
      | err e ↦ elim (key_of order) [
        | none ↦ raise e
        | some key ↦ recover_winner user order total e key
      ]
    ]

  -- The transaction of the checkout: the pending one, or a new one.
  unfoldable pub transaction_for : ℕ → ℕ → ℤ → List String → Call Transaction
  transaction_for user order total reservations = do
    found ← find_pending user order total
    elim found [ some tx ↦ pure tx | none ↦ register_or_recover user order total reservations ]

  unfoldable pub create_checkout_session :
      ℕ → String → String → List (Option CheckoutItem) → ℕ → List String → Call String
  create_checkout_session user redirect client_ip items order reservations =
      if length items == 0 then raise requires_products else (do
        m ← lift (collect items [])
        products ← products_for_checkout b (item_ids items)
        raise_if (not (length products == length (item_ids items))) unknown_products
        subtotal ← lift (add_lines products m (pos 0))
        total ← total_for_order order user m subtotal
        tx ← transaction_for user order total reservations
        now ← time_now b.driver
        lift (
            create_checkout_url b.network b.client now (record {
              transaction_ref = tx.payment_id;
              amount_vnd = total;
              order_info = append "Thanh toan don hang " (decimal order);
              return_url = redirect;
              client_ip = client_ip;
            })))
