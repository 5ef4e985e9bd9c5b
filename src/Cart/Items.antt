-- ===== src/Cart/Items.antt =====
-- Adding, setting and removing items, of cart/internal/service.go.
pub mod Lookup
use goshop_x.Base.{
  ℕ, ℤ, pos, String, Bool, true, false, ◌&&◌, Option, none, some, List, [], ◌∷◌, ◌++◌, ok, err,
  invalid_cart_quantity, pure, raise, raise_if, lift, attempt, ◌>>=◌, ◌>>◌, is_empty, leb_ℤ, ◌+◌,
  if◌then◌else◌, length, get_elem?, set, take, drop, suc,
}
use goshop_x.Inventory.Models.{StockReservation}
use goshop_x.Cart.Models.{Cart, CartItem, EventData}
use goshop_x.Cart.Store.{Backend, Call, time_now}
use goshop_x.Cart.Repository.{save_cart}
use goshop_x.Cart.Helpers.{
  add32, find_item, increment_cart_version, get_cart, with_cart_lock, publish_event, reserve,
  release,
}

abbrev pub no_item : CartItem
no_item = record { product_id = ""; quantity = pos 0; reservation_id = ""; reserved_until = 0 }

abbrev pub item_at : List CartItem → Option ℕ → CartItem
item_at items none = no_item
item_at items (some i) = elim (get_elem? items i) [ none ↦ no_item | some x ↦ x ]

abbrev pub is_found : Option ℕ → Bool
is_found none = false
is_found (some _) = true

-- The quantity that is asked of the inventory.
unfoldable pub wanted : Bool → Option ℕ → CartItem → ℤ → ℤ
wanted increment index previous quantity =
    if increment && is_found index then add32 quantity previous.quantity else quantity

unfoldable pub put_item : List CartItem → Option ℕ → CartItem → List CartItem
put_item items none item = items ++ (item ∷ [])
put_item items (some i) item = set items i item

-- `append(items[:i], items[i+1:]...)`.
unfoldable pub remove_at : List CartItem → ℕ → List CartItem
remove_at items i = take i items ++ drop (suc i) items

abbrev pub item_of : String → ℤ → StockReservation → CartItem
item_of product quantity r = record {
  product_id = product;
  quantity = quantity;
  reservation_id = r.reservation_id;
  reserved_until = r.expires_at;
}

abbrev pub item_event : String → ℤ → String → ℕ → String → EventData
item_event product quantity id size action = record {
  product_id = product;
  quantity = quantity;
  reservation_id = id;
  reservation_ids = [];
  cart_size = size;
  action = action;
}

module _ {R I : Type 0} (b : Backend R I) where
  open b use {ttl}

  -- What is done to the inventory if the cart could not be saved; its result is only logged.
  unfoldable pub compensate :
      ℕ → String → Option ℕ → CartItem → StockReservation → Call R I (Unit {0})
  compensate account product index previous made = do
    attempt (
        if is_found index
        then reserve b previous.reservation_id account product previous.quantity
        else release b made.reservation_id)
    pure tt

  unfoldable pub save_or_compensate :
      Cart → ℕ → String → Option ℕ → CartItem → StockReservation → Call R I (Unit {0})
  save_or_compensate cart account product index previous made = do
    saved ← attempt (save_cart b cart ttl)
    elim saved [
      | ok _ ↦ pure tt
      | err e ↦ (do compensate account product index previous made; raise e)
    ]

  unfoldable pub upsert_body : ℕ → String → ℤ → Bool → Call R I Cart
  upsert_body account product quantity increment = do
    raise_if (leb_ℤ quantity (pos 0)) invalid_cart_quantity
    read ← get_cart b account
    cart ← lift (increment_cart_version read)
    let index = find_item cart.items product
    let previous = item_at cart.items index
    let total = wanted increment index previous quantity
    made ← reserve b previous.reservation_id account product total
    let items = put_item cart.items index (item_of product total made.0)
    let updated = record cart { items = items; expires_at = made.0.expires_at }
    save_or_compensate updated account product index previous made.0
    publish_event b account "cart.item_upserted"
        (item_event product total made.0.reservation_id (length items) "upserted")
    pure updated

  unfoldable pub upsert_item : ℕ → String → ℤ → Bool → Call R I Cart
  upsert_item account product quantity increment =
      with_cart_lock b account (upsert_body account product quantity increment)

  unfoldable pub upsert_cart_item : ℕ → String → ℤ → Call R I Cart
  upsert_cart_item account product quantity = upsert_item account product quantity false

  unfoldable pub add_cart_item : ℕ → String → ℤ → Call R I Cart
  add_cart_item account product quantity = upsert_item account product quantity true

  -- A reservation that the cart no longer names is released; a failure is only logged.
  unfoldable pub release_quietly : String → Call R I (Unit {0})
  release_quietly id = if is_empty id then pure tt else (do attempt (release b id); pure tt)

  unfoldable pub remove_found : ℕ → String → Cart → ℕ → Call R I Cart
  remove_found account product read i = do
    let item = item_at read.items (some i)
    cart ← lift (increment_cart_version (record read { items = remove_at read.items i }))
    now ← time_now b
    let updated = record cart { expires_at = now + ttl }
    save_cart b updated ttl
    release_quietly item.reservation_id
    publish_event b account "cart.item_removed"
        (item_event product item.quantity item.reservation_id (length updated.items) "removed")
    pure updated

  unfoldable pub remove_cart_item : ℕ → String → Call R I Cart
  remove_cart_item account product = with_cart_lock b account (do
    cart ← get_cart b account
    elim (find_item cart.items product) [
      | none ↦ pure cart
      | some i ↦ remove_found account product cart i
    ])
