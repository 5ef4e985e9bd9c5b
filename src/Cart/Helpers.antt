-- ===== src/Cart/Helpers.antt =====
-- The parts that the operations of cart/internal/service.go share.
use goshop_x.Base.{
  ℕ, ℤ, String, Bool, true, false, not, ◌&&◌, Option, none, some, List, [], ◌∷◌, Result, ok, err,
  cart_locked, cart_not_found, cart_version_exhausted, pure, raise_if, lift, attempt, deferred,
  ◌>>=◌, ◌>>◌, same, is_empty, append, ltb, ◌==◌, ◌+◌, ◌-◌, ◌*◌, ◌^◌, if◌then◌else◌, wrap32, ◌+ℤ◌,
  eq_ℤ, suc,
}
use goshop_x.Inventory.Models.{StockReservation, Availability}
use goshop_x.Cart.Models.{Cart, CartItem, ProposalItem, EventData}
use goshop_x.Cart.Store.{Backend, Call, State, on_inventory, time_now, publish}
use goshop_x.Cart.Repository.{read_cart, acquire_cart_lock, release_cart_lock}

-- Two minutes and ten minutes, in nanoseconds.
abbrev pub cart_mutation_lock_ttl : ℕ
cart_mutation_lock_ttl = 2 * 60 * 10 ^ 9

abbrev pub cart_proposal_ttl : ℕ
cart_proposal_ttl = 10 * 60 * 10 ^ 9

abbrev pub max_cart_proposal_items : ℕ
max_cart_proposal_items = 20

abbrev pub max_uint64 : ℕ
max_uint64 = 2 ^ 64 - 1

abbrev pub add32 : ℤ → ℤ → ℤ
add32 a b = wrap32 (a +ℤ b)

-- The index of the product's item; -1 is `none`.
unfoldable pub find_item : List CartItem → String → Option ℕ
find_item [] p = none
find_item (i ∷ is) p =
    if same i.product_id p
    then some 0
    else elim (find_item is p) [ none ↦ none | some n ↦ some (suc n) ]

unfoldable pub reservation_ids : List CartItem → List String
reservation_ids [] = []
reservation_ids (i ∷ is) =
    if is_empty i.reservation_id then reservation_ids is else i.reservation_id ∷ reservation_ids is

unfoldable pub live_items : ℕ → List CartItem → List CartItem
live_items now [] = []
live_items now (i ∷ is) =
    if ltb now i.reserved_until then i ∷ live_items now is else live_items now is

unfoldable pub same_proposal_items : List ProposalItem → List ProposalItem → Bool
same_proposal_items [] [] = true
same_proposal_items (i ∷ is) (j ∷ js) =
    same i.product_id j.product_id && eq_ℤ i.quantity j.quantity && same_proposal_items is js
same_proposal_items _ _ = false

-- The error `cart version exhausted` at the largest `uint64`.
unfoldable pub increment_cart_version : Cart → Result Cart
increment_cart_version c =
    if c.version == max_uint64
    then err cart_version_exhausted
    else ok (record c { version = c.version + 1 })

abbrev pub empty_cart : ℕ → Cart
empty_cart account = record { account_id = account; version = 0; items = []; expires_at = 0 }

abbrev pub missing_as_empty : ℕ → Result Cart → Result (Option Cart)
missing_as_empty account (ok c) = ok (some c)
missing_as_empty account (err cart_not_found) = ok none
missing_as_empty account (err e) = err e

module _ {R I : Type 0} (b : Backend R I) where
  open b use {inventory, random_hex, short_digest, ttl}

  unfoldable pub proposal_reservation_id : String → String → String
  proposal_reservation_id proposal_id product_id =
      append "cart-proposal-" (short_digest (append proposal_id (append ":" product_id)))

  unfoldable pub filter_expired : Cart → Call R I Cart
  filter_expired c = do now ← time_now b; pure (record c { items = live_items now c.items })

  unfoldable pub get_cart : ℕ → Call R I Cart
  get_cart account = do
    read ← attempt (read_cart b account)
    found ← lift (missing_as_empty account read)
    elim found [ some c ↦ filter_expired c | none ↦ pure (empty_cart account) ]

  -- The result of the unlock is dropped.
  abbrev pub unlock : ℕ → String → State R I → State R I
  unlock account token s = (release_cart_lock b account token s).1

  unfoldable pub lock_cart : ℕ → Call R I String
  lock_cart account = do
    token ← (λ s. (random_hex s.ticks, s))
    locked ← acquire_cart_lock b account token cart_mutation_lock_ttl
    raise_if (not locked) cart_locked
    pure token

  -- `unlock, err := lockCart(...); defer unlock()`.
  unfoldable pub with_cart_lock : {A : Type 0} → ℕ → Call R I A → Call R I A
  with_cart_lock account body = do token ← lock_cart account; deferred (unlock account token) body

  unfoldable pub publish_event : ℕ → String → EventData → Call R I (Unit {0})
  publish_event account event_type content =
      publish (record { account_id = account; event_type = event_type; content = content })

  abbrev pub reserve : String → ℕ → String → ℤ → Call R I (StockReservation × Availability)
  reserve id account product quantity =
      on_inventory (inventory.reserve_stock id account product quantity ttl "cart")

  abbrev pub release : String → Call R I (StockReservation × Availability)
  release id = on_inventory (inventory.release_reservation id)
