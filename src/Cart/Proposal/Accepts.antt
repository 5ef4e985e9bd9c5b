-- ===== src/Cart/Proposal/Accepts.antt =====
-- Which items a proposal may hold.
use goshop_x.Base.{
  pos, String, ◌≡◌, refl, ◌↔◌, true, false, List, [], ◌∷◌, arith, All, All-mono, All-both, same,
  is_empty, byte_length, ◌≤◌, ◌≤ℤ◌,
}
use goshop_x.Cart.Models.{ProposalItem}
use goshop_x.Cart.Proposal.{is_bad_item, is_seen, are_acceptable}

-- A named product of at most 128 bytes, and between 1 and 100 of it.
pub record IsFine (i : ProposalItem) : Type 0 where
  pub has_product : is_empty i.product_id ≡ false
  pub short : byte_length i.product_id ≤ 128
  pub at_least_one : pos 1 ≤ℤ i.quantity
  pub at_most_hundred : i.quantity ≤ℤ pos 100

-- No product stands in it twice.
abbrev pub HasDistinctProducts : List ProposalItem → Type 0
HasDistinctProducts [] = Unit
HasDistinctProducts (i ∷ is) =
    All (λ j. same i.product_id j.product_id ≡ false) is × HasDistinctProducts is

is_bad_item→ : (i : ProposalItem) → is_bad_item i ≡ false → IsFine i
unfolding is_bad_item
is_bad_item→ i h = record {
  has_product = ground arith;
  short = ground arith;
  at_least_one = ground arith;
  at_most_hundred = ground arith;
}

→is_bad_item : (i : ProposalItem) → IsFine i → is_bad_item i ≡ false
unfolding is_bad_item
→is_bad_item i h =
    let named = h.has_product in
    let short = h.short in let low = h.at_least_one in let high = h.at_most_hundred in ground arith

-- One product fewer to compare with.
seen_less :
    (p q : String) (seen : List String)
    → is_seen q (p ∷ seen) ≡ false
    → (same p q ≡ false) × (is_seen q seen ≡ false)
unfolding is_seen
seen_less p q seen h = (ground arith, ground arith)

seen_more :
    (p q : String) (seen : List String)
    → (same p q ≡ false) × (is_seen q seen ≡ false)
    → is_seen q (p ∷ seen) ≡ false
unfolding is_seen
seen_more p q seen (h, k) = rw (h, k) refl

are_acceptable→ :
    (seen : List String) (is : List ProposalItem)
    → are_acceptable seen is ≡ true
    → All IsFine is × All (λ i. is_seen i.product_id seen ≡ false) is × HasDistinctProducts is
unfolding are_acceptable
are_acceptable→ seen [] h = (tt, tt, tt)
are_acceptable→ seen (i ∷ is) h =
    let fine : is_bad_item i ≡ false = ground arith in
    let new : is_seen i.product_id seen ≡ false = ground arith in
    let (others, unseen, distinct) = are_acceptable→ (i.product_id ∷ seen) is (ground arith) in
    let less = λ (j : ProposalItem). seen_less i.product_id j.product_id seen in
    (
      (is_bad_item→ i fine, others),
      (new, All-mono _ _ is (λ j h. (less j h).1) unseen),
      (All-mono _ _ is (λ j h. (less j h).0) unseen, distinct),
    )

→are_acceptable :
    (seen : List String) (is : List ProposalItem)
    → All IsFine is
    → All (λ i. is_seen i.product_id seen ≡ false) is
    → HasDistinctProducts is
    → are_acceptable seen is ≡ true
unfolding are_acceptable
→are_acceptable seen [] fine unseen distinct = refl
→are_acceptable seen (i ∷ is) (fine, others) (new, unseen) (apart, distinct) =
    let both =
      All-both (λ j. same i.product_id j.product_id ≡ false)
        (λ j. is_seen j.product_id seen ≡ false) is apart unseen in
    let rest =
      →are_acceptable (i.product_id ∷ seen) is others
        (All-mono _ _ is (λ j h. seen_more i.product_id j.product_id seen h) both) distinct in
    rw (→is_bad_item i fine, new, rest) refl

none_seen : (is : List ProposalItem) → All (λ i. is_seen i.product_id [] ≡ false) is
unfolding is_seen
none_seen [] = tt
none_seen (i ∷ is) = (refl, none_seen is)

-- The items of a proposal are accepted exactly when each names a product in at most 128 bytes, asks
-- for between 1 and 100 of it, and no product stands in the list twice.
pub are_acceptable-eq :
    (is : List ProposalItem)
    → (are_acceptable [] is ≡ true) ↔ (All IsFine is × HasDistinctProducts is)
are_acceptable-eq is = (
  λ h. let (fine, unseen, distinct) = are_acceptable→ [] is h in (fine, distinct),
  λ h. →are_acceptable [] is h.0 (none_seen is) h.1,
)
