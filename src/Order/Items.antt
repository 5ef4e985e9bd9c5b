-- ===== src/Order/Items.antt =====
-- `CheckoutItemsHash` of order/models/coupon.go. The digest, SHA-256 in hexadecimal of the lines
-- that are written to it, is a parameter: a function of the identifiers and quantities in order.
use goshop_x.Base.{is_less, ℕ, String, List, [], ◌∷◌, Option, none, some, if◌then◌else◌}
use goshop_x.Order.Models.{OrderedProduct}

abbrev pub Digest : Type 0
Digest = List (String × ℕ) → String

module _ {Price : Type 0} where
  -- `nil` pointers are left out.
  unfoldable pub present : List (Option (OrderedProduct Price)) → List (OrderedProduct Price)
  present [] = []
  present (none ∷ ps) = present ps
  present (some p ∷ ps) = p ∷ present ps

  unfoldable pub insert_item :
      OrderedProduct Price → List (OrderedProduct Price) → List (OrderedProduct Price)
  insert_item p [] = p ∷ []
  insert_item p (q ∷ qs) = if is_less q.id p.id then q ∷ insert_item p qs else p ∷ q ∷ qs

  -- The sort by identifier.
  unfoldable pub sort_items : List (OrderedProduct Price) → List (OrderedProduct Price)
  sort_items [] = []
  sort_items (p ∷ ps) = insert_item p (sort_items ps)

  abbrev pub lines : List (OrderedProduct Price) → List (String × ℕ)
  lines [] = []
  lines (p ∷ ps) = (p.id, p.quantity) ∷ lines ps

  unfoldable pub checkout_items_hash : Digest → List (Option (OrderedProduct Price)) → String
  checkout_items_hash digest products = digest (lines (sort_items (present products)))
