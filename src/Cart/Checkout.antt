-- ===== src/Cart/Checkout.antt =====
-- Clearing a cart, and the checkout, of cart/internal/service.go.
use goshop_x.Base.{
  ℕ, pos, String, not, ◌&&◌, List, [], ◌∷◌, cart_version_conflict, pure, raise_if, lift, attempt,
  ◌>>=◌, ◌>>◌, ◌==◌, ◌+◌, if◌then◌else◌, length,
}
use goshop_x.Cart.Models.{Cart, EventData}
use goshop_x.Cart.Store.{Backend, Call, time_now}
use goshop_x.Cart.Repository.{save_cart}
use goshop_x.Cart.Helpers.{
  reservation_ids, increment_cart_version, filter_expired, get_cart, with_cart_lock, publish_event,
  release,
}

abbrev pub cart_event : List String → ℕ → String → EventData
cart_event ids size action = record {
  product_id = "";
  quantity = pos 0;
  reservation_id = "";
  reservation_ids = ids;
  cart_size = size;
  action = action;
}

module _ {R I : Type 0} (b : Backend R I) where
  open b use {ttl}

  -- Each is tried; a failure is only logged.
  unfoldable pub release_all : List String → Call R I (Unit {0})
  release_all [] = pure tt
  release_all (id ∷ ids) = do attempt (release b id); release_all ids

  -- Both ways to empty a cart save it with no items and the next version.
  unfoldable pub empty_out : Cart → Call R I Cart
  empty_out read = do
    cart ← lift (increment_cart_version read)
    now ← time_now b
    let emptied = record cart { items = []; expires_at = now + ttl }
    save_cart b emptied ttl
    pure emptied

  -- (`GetCart` never returns `ErrCartNotFound`, so the test for it is not reached.)
  unfoldable pub clear_cart : ℕ → Call R I (Unit {0})
  clear_cart account = with_cart_lock b account (do
    cart ← get_cart b account
    let ids = reservation_ids cart.items
    empty_out cart
    release_all ids
    publish_event b account "cart.cleared" (cart_event ids 0 "cleared"))

  unfoldable pub complete_checkout : ℕ → Call R I (Unit {0})
  complete_checkout account = with_cart_lock b account (do
    cart ← get_cart b account
    empty_out cart
    publish_event b account "cart.checkout_completed" (cart_event [] 0 "completed"))

  unfoldable pub prepare_body : ℕ → ℕ → Call R I Cart
  prepare_body account expected_version = do
    cart ← get_cart b account
    raise_if (not (expected_version == 0) && not (cart.version == expected_version))
        cart_version_conflict
    filtered ← filter_expired b cart
    if length filtered.items == 0 then pure filtered else (do
      publish_event b account "cart.checkout_prepared"
          (cart_event (reservation_ids filtered.items) (length filtered.items) "prepared")
      pure filtered)

  unfoldable pub prepare_checkout_at_version : ℕ → ℕ → Call R I Cart
  prepare_checkout_at_version account expected_version =
      with_cart_lock b account (prepare_body account expected_version)

  unfoldable pub prepare_checkout : ℕ → Call R I Cart
  prepare_checkout account = prepare_checkout_at_version account 0
