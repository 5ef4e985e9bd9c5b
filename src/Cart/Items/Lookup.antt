-- ===== src/Cart/Items/Lookup.antt =====
-- What the items of a cart hold after one was put.
use goshop_x.Base.{
  String, ◌≡◌, ap, sym, subst, All-mono, ◌∙◌, true, false, List, [], ◌∷◌, arith, All, same, eq_iff,
  Bool-cases, Option-cases, inl, inr,
}
use goshop_x.Cart.Models.{CartItem}
use goshop_x.Cart.Helpers.{find_item}
use goshop_x.Cart.Items.{put_item, item_at}

-- A product has one item at most.
abbrev pub IsDistinct : List CartItem → Type 0
IsDistinct [] = Unit
IsDistinct (i ∷ is) = All (λ j. same i.product_id j.product_id ≡ false) is × IsDistinct is

-- The item that a lookup of the product would find.
abbrev pub lookup : List CartItem → String → CartItem
lookup items p = item_at items (find_item items p)

-- To put one product's item where its lookup points.
abbrev pub put : List CartItem → String → CartItem → List CartItem
put items p x = put_item items (find_item items p) x

put-cons-miss :
    (i : CartItem) (is : List CartItem) (p : String) (x : CartItem)
    → same i.product_id p ≡ false
    → put (i ∷ is) p x ≡ i ∷ put is p x
unfolding put_item find_item
put-cons-miss i is p x miss = elim (Option-cases (find_item is p)) [
  | inl e ↦ ground arith
  | inr (n, e) ↦ ground arith
]

put-cons-hit :
    (i : CartItem) (is : List CartItem) (p : String) (x : CartItem)
    → same i.product_id p ≡ true
    → put (i ∷ is) p x ≡ x ∷ is
unfolding put_item find_item
put-cons-hit i is p x hit = ground arith

lookup-cons-miss :
    (i : CartItem) (is : List CartItem) (p : String)
    → same i.product_id p ≡ false
    → lookup (i ∷ is) p ≡ lookup is p
unfolding find_item
lookup-cons-miss i is p miss = elim (Option-cases (find_item is p)) [
  | inl e ↦ ground arith
  | inr (n, e) ↦ ground arith
]

lookup-cons-hit :
    (i : CartItem) (is : List CartItem) (p : String)
    → same i.product_id p ≡ true
    → lookup (i ∷ is) p ≡ i
unfolding find_item
lookup-cons-hit i is p hit = ground arith

-- A lookup of a product finds the item that was put for it, whether the product was in the cart or not.
pub lookup-put :
    (items : List CartItem) (p : String) (x : CartItem)
    → same x.product_id p ≡ true
    → lookup (put items p x) p ≡ x
unfolding put_item find_item
lookup-put [] p x named = ground arith
lookup-put (i ∷ is) p x named = elim (Bool-cases (same i.product_id p)) [
  | inl hit ↦ ap (λ l. lookup l p) (put-cons-hit i is p x hit) ∙ lookup-cons-hit x is p named
  | inr miss ↦
      ap (λ l. lookup l p) (put-cons-miss i is p x miss)
      ∙ lookup-cons-miss i (put is p x) p miss
      ∙ lookup-put is p x named
]

apart_lem : (a p q : String) → same a p ≡ true → same p q ≡ false → same a q ≡ false
apart_lem a p q h k = ground (arith, eq_iff a p, eq_iff p q, eq_iff a q)

-- The item of any other product is found as before.
pub lookup-put-other :
    (items : List CartItem) (p q : String) (x : CartItem)
    → same x.product_id p ≡ true
    → same p q ≡ false
    → lookup (put items p x) q ≡ lookup items q
unfolding put_item find_item
lookup-put-other [] p q x named apart =
    lookup-cons-miss x [] q (apart_lem x.product_id p q named apart)
lookup-put-other (i ∷ is) p q x named apart = elim (Bool-cases (same i.product_id p)) [
  | inl hit ↦
      ap (λ l. lookup l q) (put-cons-hit i is p x hit)
      ∙ lookup-cons-miss x is q (apart_lem x.product_id p q named apart)
      ∙ sym (lookup-cons-miss i is q (apart_lem i.product_id p q hit apart))
  | inr miss ↦
      ap (λ l. lookup l q) (put-cons-miss i is p x miss) ∙ elim (Bool-cases (same i.product_id q)) [
        | inl found ↦ lookup-cons-hit i (put is p x) q found ∙ sym (lookup-cons-hit i is q found)
        | inr other ↦
            lookup-cons-miss i (put is p x) q other
            ∙ lookup-put-other is p q x named apart
            ∙ sym (lookup-cons-miss i is q other)
      ]
]

apart_from-put :
    (items : List CartItem) (p : String) (x : CartItem) (a : String)
    → same a x.product_id ≡ false
    → All (λ j. same a j.product_id ≡ false) items
    → All (λ j. same a j.product_id ≡ false) (put items p x)
unfolding put_item find_item
apart_from-put [] p x a new _ = (new, tt)
apart_from-put (i ∷ is) p x a new (first, rest) = elim (Bool-cases (same i.product_id p)) [
  | inl hit ↦
      subst (All (λ j. same a j.product_id ≡ false)) (sym (put-cons-hit i is p x hit)) (new, rest)
  | inr miss ↦
      subst (All (λ j. same a j.product_id ≡ false)) (sym (put-cons-miss i is p x miss))
        (first, apart_from-put is p x a new rest)
]

same_key_lem : (a b c : String) → same a b ≡ true → same c b ≡ true → same a c ≡ true
same_key_lem a b c h k = ground (arith, eq_iff a b, eq_iff c b, eq_iff a c)

moved_apart : (a b c : String) → same a b ≡ true → same a c ≡ false → same b c ≡ false
moved_apart a b c h k = ground (arith, eq_iff a b, eq_iff a c, eq_iff b c)

same_sym_false : (a b c : String) → same a c ≡ false → same b c ≡ true → same a b ≡ false
same_sym_false a b c h k = ground (arith, eq_iff a c, eq_iff b c, eq_iff a b)

-- A cart keeps one item at most of each product when an item is put for its product.
pub put-IsDistinct :
    (items : List CartItem) (p : String) (x : CartItem)
    → same x.product_id p ≡ true
    → IsDistinct items
    → IsDistinct (put items p x)
unfolding put_item find_item
put-IsDistinct [] p x named _ = (tt, tt)
put-IsDistinct (i ∷ is) p x named (apart, distinct) = elim (Bool-cases (same i.product_id p)) [
  | inl hit ↦
      let same_key : same i.product_id x.product_id ≡ true =
        same_key_lem i.product_id p x.product_id hit named in
      subst IsDistinct (sym (put-cons-hit i is p x hit)) (
        All-mono _ _ is (λ j h. moved_apart i.product_id x.product_id j.product_id same_key h)
            apart,
        distinct,
      )
  | inr miss ↦ subst IsDistinct (sym (put-cons-miss i is p x miss)) (
    apart_from-put is p x i.product_id (same_sym_false i.product_id x.product_id p miss named)
        apart,
    put-IsDistinct is p x named distinct,
  )
]
