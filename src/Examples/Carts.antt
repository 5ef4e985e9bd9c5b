-- ===== src/Examples/Carts.antt =====
-- A cart of two products, and the items of a proposal.
use goshop_x.Base.{pos, String, ◌≡◌, ◌↔◌, refl, List, [], ◌∷◌, All, true}
use goshop_x.Cart.Models.{CartItem}
use goshop_x.Cart.Helpers.{find_item}
use goshop_x.Cart.Items.{put_item}
use goshop_x.Cart.Items.Lookup.{
  IsDistinct, lookup, put, lookup-put, lookup-put-other, put-IsDistinct,
}
use goshop_x.Cart.Models.{ProposalItem}
use goshop_x.Cart.Proposal.{are_acceptable, is_bad_item, is_seen}
use goshop_x.Cart.Proposal.Accepts.{IsFine, HasDistinctProducts, are_acceptable-eq}

abbrev item : String → CartItem
item p = record { product_id = p; quantity = pos 2; reservation_id = "r1"; reserved_until = 9 }

abbrev two_items : List CartItem
two_items = item "tea" ∷ item "cup" ∷ []

abbrev more_tea : CartItem
more_tea = record (item "tea") { quantity = pos 5 }

two_items-IsDistinct : IsDistinct two_items
two_items-IsDistinct = ((refl, tt), (tt, tt))

tea_replaced : put two_items "tea" more_tea ≡ more_tea ∷ item "cup" ∷ []
unfolding put_item find_item
tea_replaced = refl

lookup-put_example : lookup (put two_items "tea" more_tea) "tea" ≡ more_tea
lookup-put_example = lookup-put two_items "tea" more_tea refl

lookup-put-other_example : lookup (put two_items "tea" more_tea) "cup" ≡ lookup two_items "cup"
lookup-put-other_example = lookup-put-other two_items "tea" "cup" more_tea refl refl

put-IsDistinct_example : IsDistinct (put two_items "tea" more_tea)
put-IsDistinct_example = put-IsDistinct two_items "tea" more_tea refl two_items-IsDistinct

abbrev two_wishes : List ProposalItem
two_wishes =
    record { product_id = "tea"; quantity = pos 2 }
    ∷ record { product_id = "cup"; quantity = pos 1 }
    ∷ []

two_wishes_accepted : are_acceptable [] two_wishes ≡ true
unfolding are_acceptable is_bad_item is_seen
two_wishes_accepted = refl

are_acceptable-eq_example :
    (are_acceptable [] two_wishes ≡ true) ↔ (All IsFine two_wishes × HasDistinctProducts two_wishes)
are_acceptable-eq_example = are_acceptable-eq two_wishes
