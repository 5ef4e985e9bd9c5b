-- ===== src/Payment/Effects.antt =====
-- The effects of a settled payment in payment/internal/server.go: the reservations are committed or
-- released, then the order is updated and the cart is cleared. The three clients are parameters.
pub mod Gate
use goshop_x.Base.{
  ℕ, zero, suc, String, Bool, true, false, List, [], ◌∷◌, Result, ok, err, Action, pure, attempt,
  ◌>>=◌, ◌>>◌, same, is_empty, trim_space, split_commas, if◌then◌else◌, ◌&&◌,
}
use goshop_x.Payment.Models.{Transaction, status_text, success}

-- On the state of the other services.
pub record Clients (W : Type 0) : Type 0 where
  pub commit_reservation : String → W → Result (Unit {0}) × W
  pub release_reservation : String → W → Result (Unit {0}) × W
  pub update_order_status : ℕ → String → W → Result (Unit {0}) × W
  pub clear_cart : ℕ → W → Result (Unit {0}) × W

unfoldable pub reservation_parts : List String → List String
reservation_parts [] = []
reservation_parts (part ∷ parts) =
    let trimmed = trim_space part in
    if is_empty trimmed then reservation_parts parts else trimmed ∷ reservation_parts parts

unfoldable pub reservation_ids : String → List String
reservation_ids csv = reservation_parts (split_commas csv)

module _ {W : Type 0} (c : Clients W) where
  abbrev pub transition : String → String → Action W (Unit {0})
  transition status id =
      if same status (status_text success)
      then c.commit_reservation id
      else c.release_reservation id

  -- At most `tries` attempts, up to the first that succeeds; the last error stands. (The pauses
  -- between them change nothing.)
  unfoldable pub retry : ℕ → Action W (Unit {0}) → Action W Bool
  retry zero m = pure false
  retry (suc tries) m =
      let again = retry tries m in
      do outcome ← attempt m; elim outcome [ ok _ ↦ pure true | err _ ↦ again ]

  -- Every reservation is tried; the result tells whether all went through.
  unfoldable pub transition_all : String → List String → Action W Bool
  transition_all status [] = pure true
  transition_all status (id ∷ ids) = do
    done ← retry 3 (transition status id)
    rest ← transition_all status ids
    pure (done && rest)

  unfoldable pub apply_effects : Transaction → Action W (Unit {0})
  apply_effects tx = do
    all_done ← transition_all tx.status (reservation_ids tx.reservation_ids)
    if all_done
        then (do
          updated ← attempt (c.update_order_status tx.order_id tx.status)
          elim updated [ err _ ↦ pure tt | ok _ ↦ (do attempt (c.clear_cart tx.user_id); pure tt) ])
        else pure tt
