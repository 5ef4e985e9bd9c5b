-- ===== src/Cart/Confirm.antt =====
-- `ConfirmCartProposal` of cart/internal/service.go: the reservations of a proposal, and what is
-- undone when one of them fails.
use goshop_x.Base.{
  ℕ, ℤ, pos, String, not, ◌||◌, Option, none, some, List, [], ◌∷◌, ok, err, cart_not_found,
  invalid_cart_quantity, cart_version_conflict, cart_proposal_expired, pure, raise, raise_if,
  attempt, lift, ◌>>=◌, ◌>>◌, same, is_empty, ltb_ℤ, leb, ◌==◌, ◌+◌, ◌-ℤ◌, if◌then◌else◌, length,
  wrap32,
}
use goshop_x.Inventory.Models.{StockReservation, Availability}
use goshop_x.Cart.Models.{Cart, CartItem, CartProposal, ProposalItem}
use goshop_x.Cart.Store.{Backend, Call, time_now}
use goshop_x.Cart.Repository.{get_cart_proposal_by_id, save_cart_and_proposal}
use goshop_x.Cart.Helpers.{
  add32, find_item, reservation_ids, increment_cart_version, proposal_reservation_id, get_cart,
  with_cart_lock, publish_event, reserve, release,
}
use goshop_x.Cart.Items.{item_at, put_item, item_of}
use goshop_x.Cart.Checkout.{cart_event}

pub record ReservationChange : Type 0 where
  pub id : String
  pub product_id : String
  pub previous_quantity : ℤ

-- What one item of the proposal asks of the inventory.
pub record Demand : Type 0 where
  pub reservation_id : String
  pub quantity : ℤ
  pub previous_quantity : ℤ

-- An item of a product that is in the cart keeps its reservation, for the sum of the quantities; the
-- sum may not pass 100. `none` is the error.
unfoldable pub demand : String → ProposalItem → Option ℕ → CartItem → Option Demand
demand own_id item none previous =
    some (record { reservation_id = own_id; quantity = item.quantity; previous_quantity = pos 0 })
demand own_id item (some _) previous =
    if ltb_ℤ (wrap32 (pos 100 -ℤ item.quantity)) previous.quantity
    then none
    else some (record {
      reservation_id = previous.reservation_id;
      quantity = add32 item.quantity previous.quantity;
      previous_quantity = if is_empty previous.reservation_id then pos 0 else previous.quantity;
    })

module _ {R I : Type 0} (b : Backend R I) where
  open b use {ttl}

  -- One step of the rollback; its result is dropped.
  unfoldable pub undo_change : ℕ → ReservationChange → Call R I (Unit {0})
  undo_change account c = do
    attempt (
        if ltb_ℤ (pos 0) c.previous_quantity
        then reserve b c.id account c.product_id c.previous_quantity
        else release b c.id)
    pure tt

  -- The changes are kept with the last one first, which is the order in which they are undone.
  unfoldable pub rollback_changes : ℕ → List ReservationChange → Call R I (Unit {0})
  rollback_changes account [] = pure tt
  rollback_changes account (c ∷ cs) = do undo_change account c; rollback_changes account cs

  unfoldable pub reserve_demand :
      ℕ → String → List ReservationChange → Demand → Call R I (StockReservation × Availability)
  reserve_demand account product changes d = do
    made ← attempt (reserve b d.reservation_id account product d.quantity)
    elim made [ ok m ↦ pure m | err e ↦ (do rollback_changes account changes; raise e) ]

  -- The loop over the proposal's items.
  unfoldable pub apply_items :
      ℕ
      → String
      → List ProposalItem
      → List CartItem
      → List ReservationChange
      → Call R I (List CartItem × List ReservationChange)
  apply_items account proposal_id [] items changes = pure (items, changes)
  apply_items account proposal_id (p ∷ ps) items changes =
      let index = find_item items p.product_id in
      let own_id = proposal_reservation_id b proposal_id p.product_id in
      elim (demand own_id p index (item_at items index)) [
        | none ↦ (do rollback_changes account changes; raise invalid_cart_quantity)
        | some d ↦ (do
          made ← reserve_demand account p.product_id changes d
          apply_items account proposal_id ps
              (put_item items index (item_of p.product_id d.quantity made.0))
              (record {
                id = made.0.reservation_id;
                product_id = p.product_id;
                previous_quantity = d.previous_quantity;
              }
                ∷ changes))
      ]

  unfoldable pub save_or_rollback :
      Cart → CartProposal → ℕ → List ReservationChange → Call R I (Unit {0})
  save_or_rollback cart p account changes = do
    saved ← attempt (save_cart_and_proposal b cart p ttl)
    elim saved [ ok _ ↦ pure tt | err e ↦ (do rollback_changes account changes; raise e) ]

  unfoldable pub confirm_body : ℕ → CartProposal → Call R I Cart
  confirm_body account p = do
    current ← get_cart b account
    raise_if (not (current.version == p.base_version)) cart_version_conflict
    next ← lift (increment_cart_version current)
    now ← time_now b
    done ← apply_items account p.id p.items next.items []
    let result : Cart = record {
      account_id = account;
      version = next.version;
      items = done.0;
      expires_at = now + ttl;
    }
    save_or_rollback result (record p { result = some result }) account done.1
    publish_event b account "cart.proposal_confirmed"
        (cart_event (reservation_ids done.0) (length done.0) "proposal_confirmed")
    pure result

  unfoldable pub confirm_cart_proposal : ℕ → String → Call R I Cart
  confirm_cart_proposal account id = do
    p ← get_cart_proposal_by_id b account id
    raise_if (not (p.account_id == account) || not (same p.id id)) cart_not_found
    elim p.result [
      | some c ↦ pure c
      | none ↦ (do
        now ← time_now b
        raise_if (leb p.expires_at now) cart_proposal_expired
        with_cart_lock b account (confirm_body account p))
    ]
