-- ===== src/Payment/Effects/Gate.antt =====
-- What decides whether the effects of a payment reach the order and the cart.
use goshop_x.Base.{
  ℕ, zero, suc, String, ◌≡◌, refl, subst, ◌⊎◌, inl, inr, Bool, true, false, List, [], ◌∷◌, ok, err,
  Fault, arith, Action, Holds, ◌&&◌, Result-cases, ◌<◌,
}
use goshop_x.Payment.Models.{Transaction}
use goshop_x.Payment.Effects.{
  Clients, reservation_ids, transition, retry, transition_all, apply_effects,
}

-- The call fails whatever the state of the other service.
abbrev pub IsFailing : {W : Type 0} → Action W (Unit {0}) → Type 0
IsFailing {W} m = (w : W) → (e : Fault) × ((m w).0 ≡ err e)

module _ {W : Type 0} (c : Clients W) where
  retry-ok : (n : ℕ) (m : Action W (Unit {0})) (w : W) → (b : Bool) × ((retry c n m w).0 ≡ ok b)
  unfolding retry
  retry-ok zero m w = (false, refl)
  retry-ok (suc n) m w = elim (Result-cases (m w).0) [
    | inl (a, done) ↦ (true, ground arith)
    | inr (e, failed) ↦ let (b, again) = retry-ok n m (m w).1 in (b, ground arith)
  ]

  retry-IsFailing :
      (n : ℕ) (m : Action W (Unit {0})) (w : W) → IsFailing m → (retry c n m w).0 ≡ ok false
  unfolding retry
  retry-IsFailing zero m w h = refl
  retry-IsFailing (suc n) m w h =
      let (e, failed) = h w in ground (arith, retry-IsFailing n m (m w).1 h)

  transition_all-ok :
      (status : String) (ids : List String) (w : W)
      → (b : Bool) × ((transition_all c status ids w).0 ≡ ok b)
  unfolding transition_all
  transition_all-ok status [] w = (true, refl)
  transition_all-ok status (x ∷ xs) w =
      let (done, one) = retry-ok 3 (transition c status x) w in
      let (rest, others) = transition_all-ok status xs (retry c 3 (transition c status x) w).1 in
      (done && rest, ground arith)

  transition_all-IsFailing :
      (status : String) (ids : List String) (id : String) (w : W)
      → Holds ids id
      → IsFailing (transition c status id)
      → (transition_all c status ids w).0 ≡ ok false
  unfolding transition_all
  transition_all-IsFailing status [] id w (i, e) h = cc
  transition_all-IsFailing status (x ∷ xs) id w (zero, e) h =
      let same_id : id ≡ x = ground arith in
      let one =
        retry-IsFailing 3 (transition c status x) w
          (subst (λ y. IsFailing (transition c status y)) same_id h) in
      let (rest, others) = transition_all-ok status xs (retry c 3 (transition c status x) w).1 in
      ground arith
  transition_all-IsFailing status (x ∷ xs) id w (suc i, e) h =
      let (done, one) = retry-ok 3 (transition c status x) w in
      let others =
        transition_all-IsFailing status xs id (retry c 3 (transition c status x) w).1 (i, e) h in
      ground arith

-- While one reservation of a transaction cannot be committed or released, whatever the state of the
-- inventory, the effects end after the attempts on the reservations: neither the order nor the cart
-- is touched.
pub apply_effects-IsFailing :
    {W : Type 0} (c : Clients W) (tx : Transaction) (id : String) (w : W)
    → Holds (reservation_ids tx.reservation_ids) id
    → IsFailing (transition c tx.status id)
    → apply_effects c tx w
      ≡ (ok tt, (transition_all c tx.status (reservation_ids tx.reservation_ids) w).1)
unfolding apply_effects
apply_effects-IsFailing c tx id w held h =
    let stopped =
      transition_all-IsFailing c tx.status (reservation_ids tx.reservation_ids) id w held h in
    ground arith

-- The number of calls of an attempt that are made: up to the first that succeeds.
abbrev pub after : {W : Type 0} → ℕ → Action W (Unit {0}) → W → W
after zero m w = w
after (suc k) m w = after k m (m w).1

-- A retried call is tried until it first succeeds: if the first k attempts fail and the next one does
-- not, it counts as done in the state after k + 1 attempts, and if all n fail, as not done in the
-- state after n.
pub retry_lem :
    {W : Type 0} (c : Clients W) (n : ℕ) (m : Action W (Unit {0})) (w : W)
    → ((k : ℕ) × (k < n)
        × ((i : ℕ) → i < k → (e : Fault) × ((m (after i m w)).0 ≡ err e))
        × ((m (after k m w)).0 ≡ ok tt)
        × (retry c n m w ≡ (ok true, after (suc k) m w)))
      ⊎ (((i : ℕ) → i < n → (e : Fault) × ((m (after i m w)).0 ≡ err e))
          × (retry c n m w ≡ (ok false, after n m w)))
unfolding retry
retry_lem c zero m w = inr (λ i h. absurd (omega arith), refl)
retry_lem c (suc n) m w = elim (Result-cases (m w).0) [
  | inl (_, done) ↦ inl (0, omega arith, λ i h. absurd (omega arith), done, ground arith)
  | inr (e, failed) ↦ elim (retry_lem c n m (m w).1) [
    | inl (k, below, before, done, run) ↦
        inl (suc k, omega arith, shifted k (e, failed) before, done, ground arith)
    | inr (before, run) ↦ inr (shifted n (e, failed) before, ground arith)
  ]
]
  where
    shifted :
        (k : ℕ)
        → (e : Fault) × ((m w).0 ≡ err e)
        → ((i : ℕ) → i < k → (e : Fault) × ((m (after i m (m w).1)).0 ≡ err e))
        → (i : ℕ) → i < suc k
        → (e : Fault) × ((m (after i m w)).0 ≡ err e)
    shifted k first rest zero h = first
    shifted k first rest (suc i) h = rest i (omega arith)
