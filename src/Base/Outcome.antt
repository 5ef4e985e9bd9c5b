-- ===== src/Base/Outcome.antt =====
-- Go's errors as values, and a call as a function of the state: the state comes back after an error
-- too, since what was written stays written.
use mathlib.Core.Bool.{Bool}
use mathlib.Core.Path.{◌≡◌, refl}
use mathlib.Core.Logic.{◌⊎◌, inl, inr}
use Prim.Native.Nat.{ℕ}
use goshop_x.Base.Tests.{if◌then◌else◌}

-- The error values that the source declares or makes with `errors.New`; `external` is any error of
-- the driver, of another service or of the operating system.
pub data Fault : Type 0 where
  record_not_found external_closed : Fault
  stock_not_found invalid_quantity insufficient_stock adjustment_reason_required : Fault
  invalid_coupon invalid_checkout_quote invalid_order_total cancellation_reason_required : Fault
  invalid_data : Fault
  invalid_cart_quantity cart_version_conflict cart_proposal_expired cart_proposal_mismatch : Fault
  cart_not_found cart_locked cart_version_exhausted redis_nil : Fault
  unsupported negative_price requires_products invalid_product duplicate_product : Fault
  unknown_products invalid_local_price total_overflow requires_order order_not_eligible : Fault
  products_mismatch quote_mismatch pending_mismatch unsafe_recovery invalid_catalog_price : Fault
  missing_terminal_code missing_hash_secret bad_payment_url : Fault
  missing_reference amount_not_positive missing_order_info bad_return_url not_ipv4 : Fault
  amount_too_large bad_checksum unexpected_terminal bad_amount : Fault
  account_exists account_suspended invalid_reset_request invalid_otp : Fault
  google_not_configured invalid_google_identity forbidden_status_change forbidden_role_change :
      Fault
  profile_incomplete email_in_use avatar_too_large : Fault
  unexpected_signing_method invalid_issuer invalid_claims user_missing : Fault
  unauthorized not_approved media_url_required bad_rating bad_comment category_incomplete : Fault
  entity_not_found product_id_required : Fault
  inconsistent_page total_changed invalid_item_id duplicate_item snapshot_incomplete : Fault
  event_id_required bad_envelope unsupported_version : Fault
  external : ℕ → Fault
  -- `errors.Join`.
  joined : Fault → Fault → Fault

pub data Result (A : Type 0) : Type 0 where
  ok : A → Result A
  err : Fault → Result A

pub Result-cases :
    {A : Type 0} (r : Result A) → ((a : A) × (r ≡ ok a)) ⊎ ((e : Fault) × (r ≡ err e))
Result-cases (ok a) = inl (a, refl)
Result-cases (err e) = inr (e, refl)

abbrev pub Action : Type 0 → Type 0 → Type 0
Action S A = S → Result A × S

module _ {S A : Type 0} where
  abbrev pub pure : A → Action S A
  pure a s = (ok a, s)

  abbrev pub raise : Fault → Action S A
  raise e s = (err e, s)

  abbrev pub gets : (S → A) → Action S A
  gets f s = (ok (f s), s)

  abbrev pub lift : Result A → Action S A
  lift r s = (r, s)

  -- `if err != nil { cleanup; return err }`.
  abbrev pub on_error : Action S A → (S → S) → Action S A
  on_error m cleanup s =
      let (r, t) = m s in elim r [ ok a ↦ (ok a, t) | err e ↦ (err e, cleanup t) ]

  -- `defer cleanup`.
  abbrev pub deferred : (S → S) → Action S A → Action S A
  deferred cleanup m s = let (r, t) = m s in (r, cleanup t)

  -- The outcome of a call as a value, for code that looks at the error.
  abbrev pub attempt : Action S A → Action S (Result A)
  attempt m s = let (r, t) = m s in (ok r, t)

abbrev pub modify : {S : Type 0} → (S → S) → Action S (Unit {0})
modify f s = (ok tt, f s)

abbrev pub raise_if : {S : Type 0} → Bool → Fault → Action S (Unit {0})
raise_if c e s = (if c then err e else ok tt, s)

infixl 5 ◌>>=◌ ◌>>◌
abbrev pub ◌>>=◌ : {S A B : Type 0} → Action S A → (A → Action S B) → Action S B
◌>>=◌ m f s = let (r, t) = m s in elim r [ ok a ↦ f a t | err e ↦ (err e, t) ]

abbrev pub ◌>>◌ : {S A B : Type 0} → Action S A → Action S B → Action S B
m >> k = m >>= λ _. k
