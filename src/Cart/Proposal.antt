-- ===== src/Cart/Proposal.antt =====
-- `CreateCartProposal` of cart/internal/service.go.
pub mod Accepts
use goshop_x.Base.{
  ℕ, pos, String, Bool, true, false, not, ◌&&◌, ◌||◌, none, List, [], ◌∷◌, Result, ok, err,
  cart_not_found, invalid_cart_quantity, cart_version_conflict, cart_proposal_mismatch, pure, raise,
  raise_if, attempt, gets, lift, ◌>>=◌, ◌>>◌, same, is_empty, byte_length, ltb, leb_ℤ, ltb_ℤ, ◌==◌,
  ◌+◌, if◌then◌else◌, length, Option, some,
}
use goshop_x.Cart.Models.{CartProposal, ProposalItem}
use goshop_x.Cart.Store.{Backend, Call, time_now}
use goshop_x.Cart.Repository.{get_cart_proposal, save_cart_proposal}
use goshop_x.Cart.Helpers.{
  max_cart_proposal_items, cart_proposal_ttl, same_proposal_items, get_cart, with_cart_lock,
}

unfoldable pub is_bad_call : ℕ → String → List ProposalItem → Bool
is_bad_call account key items =
    account == 0
    || byte_length key == 0
    || ltb 128 (byte_length key)
    || length items == 0
    || ltb max_cart_proposal_items (length items)

unfoldable pub is_bad_item : ProposalItem → Bool
is_bad_item i =
    is_empty i.product_id
    || ltb 128 (byte_length i.product_id)
    || leb_ℤ i.quantity (pos 0)
    || ltb_ℤ (pos 100) i.quantity

unfoldable pub is_seen : String → List String → Bool
is_seen p [] = false
is_seen p (q ∷ qs) = same q p || is_seen p qs

-- The loop over the items, with the products that it has seen.
unfoldable pub are_acceptable : List String → List ProposalItem → Bool
are_acceptable seen [] = true
are_acceptable seen (i ∷ is) =
    not (is_bad_item i)
    && not (is_seen i.product_id seen)
    && are_acceptable (i.product_id ∷ seen) is

abbrev pub missing_as_none : Result CartProposal → Result (Option CartProposal)
missing_as_none (ok p) = ok (some p)
missing_as_none (err cart_not_found) = ok none
missing_as_none (err e) = err e

module _ {R I : Type 0} (b : Backend R I) where
  -- A repeated call with the same key gets the proposal that the first one made.
  unfoldable pub reuse_proposal : ℕ → List ProposalItem → CartProposal → Call R I CartProposal
  reuse_proposal expected_version items p =
      if not (p.base_version == expected_version) || not (same_proposal_items p.items items)
      then raise cart_proposal_mismatch
      else pure p

  unfoldable pub new_proposal : ℕ → ℕ → String → List ProposalItem → Call R I CartProposal
  new_proposal account expected_version key items = do
    cart ← get_cart b account
    raise_if (not (cart.version == expected_version)) cart_version_conflict
    id ← gets (λ s. b.new_uuid s.ticks)
    now ← time_now b
    let p : CartProposal = record {
      id = id;
      idempotency_key = key;
      account_id = account;
      base_version = expected_version;
      items = items;
      expires_at = now + cart_proposal_ttl;
      result = none;
    }
    save_cart_proposal b p cart_proposal_ttl
    pure p

  unfoldable pub proposal_body : ℕ → ℕ → String → List ProposalItem → Call R I CartProposal
  proposal_body account expected_version key items = do
    read ← attempt (get_cart_proposal b account key)
    existing ← lift (missing_as_none read)
    elim existing [
      | some p ↦ reuse_proposal expected_version items p
      | none ↦ new_proposal account expected_version key items
    ]

  unfoldable pub create_cart_proposal : ℕ → ℕ → String → List ProposalItem → Call R I CartProposal
  create_cart_proposal account expected_version key items =
      if is_bad_call account key items || not (are_acceptable [] items)
      then raise invalid_cart_quantity
      else with_cart_lock b account (proposal_body account expected_version key items)
