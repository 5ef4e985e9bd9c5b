-- ===== src/Payment/Catalog.antt =====
-- The products of a checkout and their prices, and the local price mirror, of
-- payment/internal/service.go.
use goshop_x.Base.{
  ℕ, ℤ, pos, String, not, ◌||◌, Option, none, some, List, [], ◌∷◌, Result, negative_price,
  unsupported, invalid_catalog_price, pure, raise, raise_if, lift, ◌>>=◌, ◌>>◌, same, leb_ℤ, ltb_ℤ,
  if◌then◌else◌,
}
use goshop_x.Payment.Models.{Product, Transaction, Customer}
use goshop_x.Payment.Tables.{
  Backend, Call, Float, CatalogProduct, get_product, get_products_by_ids, save_product,
  update_product_row, delete_product_row, list_transactions, get_transaction_by_payment_id,
}

-- `map[string]*Product`, with the latest entry first.
abbrev pub ById : Type 0
ById = List (String × Product)

unfoldable pub find_by_id : String → ById → Option Product
find_by_id id [] = none
find_by_id id ((j, p) ∷ m) = if same j id then some p else find_by_id id m

unfoldable pub index_rows : List Product → ById → ById
index_rows [] m = m
index_rows (p ∷ ps) m = index_rows ps ((p.product_id, p) ∷ m)

-- The products that are known, in the order of the identifiers.
unfoldable pub in_order : List String → ById → List Product
in_order [] m = []
in_order (id ∷ ids) m = elim (find_by_id id m) [
  | none ↦ in_order ids m
  | some p ↦ p ∷ in_order ids m
]

abbrev pub vnd_product : String → ℤ → Product
vnd_product id price = record {
  id = 0;
  product_id = id;
  price = price;
  currency = "VND";
  created_at = 0;
  updated_at = 0;
}

module _ {F : Type 0} (fl : Float F) where
  unfoldable pub rounded_vnd_price : F → ℤ
  rounded_vnd_price price =
      if not (fl.is_positive price) || fl.is_nan price || fl.is_inf price
      then pos 0
      else fl.round price

  unfoldable pub discounted_vnd_price : F → F → ℤ
  discounted_vnd_price price percentage =
      if fl.is_nan percentage || fl.is_inf percentage || fl.at_least_100 percentage
      then pos 0
      else rounded_vnd_price
          (if fl.is_positive percentage then fl.reduce price percentage else price)

module _ {F : Type 0} (b : Backend F) where
  -- A catalog product sets the local price; one that is not there leaves it alone.
  unfoldable pub refresh_one :
      (String → Result (Option (CatalogProduct F))) → String → ById → Call ById
  refresh_one get id m = do
    found ← lift (get id)
    elim found [
      | none ↦ pure m
      | some c ↦ if not (same c.id id) then pure m else (do
        let price = discounted_vnd_price b.float c.price c.discount_percentage
        raise_if (leb_ℤ price (pos 0)) invalid_catalog_price
        save_product b (vnd_product id price)
        pure ((id, vnd_product id price) ∷ m))
    ]

  unfoldable pub refresh_all :
      (String → Result (Option (CatalogProduct F))) → List String → ById → Call ById
  refresh_all get [] m = pure m
  refresh_all get (id ∷ ids) m = do refreshed ← refresh_one get id m; refresh_all get ids refreshed

  unfoldable pub products_for_checkout : List String → Call (List Product)
  products_for_checkout ids = do
    rows ← get_products_by_ids b ids
    m ← elim b.catalog [
      | none ↦ pure (index_rows rows [])
      | some get ↦ refresh_all get ids (index_rows rows [])
    ]
    pure (in_order ids m)

  unfoldable pub register_product : String → ℤ → Call (Unit {0})
  register_product id price =
      if ltb_ℤ price (pos 0) then raise negative_price else save_product b (vnd_product id price)

  unfoldable pub update_product : String → ℤ → Call (Unit {0})
  update_product id price = do
    p ← get_product b id
    update_product_row b (record p { price = price; currency = "VND" })

  unfoldable pub delete_product : String → Call (Unit {0})
  delete_product = delete_product_row b

  unfoldable pub find_or_create_customer : ℕ → String → String → Call Customer
  find_or_create_customer user email name =
      pure (record { user_id = user; customer_id = ""; billing_email = email; billing_name = name })

  unfoldable pub request_refund : String → String → String → Call (Unit {0})
  request_refund payment reason key = raise unsupported

  unfoldable pub transactions : String → ℕ → ℕ → ℕ → Call (List Transaction)
  transactions = list_transactions b

  unfoldable pub reconcile_transaction : String → Call Transaction
  reconcile_transaction = get_transaction_by_payment_id b
