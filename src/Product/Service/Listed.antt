-- ===== src/Product/Service/Listed.antt =====
-- What is published was approved, whatever operations are made.
pub mod Runs
use goshop_x.Product.Service.{
  admin_delete_product, delete_product, update_product, add_review, rewritten, add_media,
  set_moderation, with_moderation, post_product, moderate, is_unapproved, store,
}
use goshop_x.Product.Models.{product_updated, ProductReview, ProductMedia, Event, Product}
use goshop_x.Base.{
  refl, unauthorized, eq_ℤ, not_approved, raise_if-IsKept, ◌>>=◌, raise_if, write_db, Fault, ℤ, ◌∙◌,
  Result, map, [], ◌∷◌, ◌++◌, keep, not, Option, All-append, All-keep, All-map, All-Holds, true,
  sym, arith, same, subst, Option-cases, Holds, pure-IsKept, inl, some, none, pure, if◌then◌else◌,
  inr, false, ok, publish, >>=-IsKept, Bool, Result-cases, All, ◌≡◌, IsKept, List, String, Session,
}
use goshop_x.Product.Tables.{
  write_products, Call, merged, Tables, put_product, delete_document, update_document,
  get_product_by_id, Backend,
}

module _ {F : Type 0} (b : Backend F) where
  abbrev pub Shop : Type 0
  Shop = Session (Tables F) (Event F)

  -- What Elasticsearch documents of the calls that are made: the identifier of a document stands in its
  -- field.
  pub record CatalogLaws : Type 0 where
    pub get_doc :
        (id : String) (docs : List (Product F)) (p : Product F)
        → b.catalog.get id docs ≡ ok (some p)
        → Holds docs p × (same p.id id ≡ true)
    pub put_doc :
        (key : Option String) (p : Product F) (docs docs' : List (Product F)) (id : String)
        → b.catalog.put key p docs ≡ ok (id, docs')
        → docs' ≡ keep (λ x. not (same x.id id)) docs ++ (record p { id = id } ∷ [])
    pub update_doc :
        (id : String) (f : Product F → Product F) (docs docs' : List (Product F))
        → b.catalog.update id f docs ≡ ok docs'
        → docs' ≡ map (λ x. if same x.id id then f x else x) docs
    pub delete_doc :
        (id : String) (docs docs' : List (Product F))
        → b.catalog.delete id docs ≡ ok docs'
        → docs' ≡ keep (λ x. not (same x.id id)) docs

  abbrev pub IsModerated : Product F → Type 0
  IsModerated p = is_unapproved p ≡ false

  abbrev pub AllModerated : Session (Tables F) (Event F) → Type 0
  AllModerated s = All IsModerated s.db.products

  module _ (laws : CatalogLaws) where
    pub get_product_by_id-IsKept :
        (id : String) → IsKept AllModerated IsModerated (get_product_by_id b id)
    unfolding get_product_by_id
    get_product_by_id-IsKept id = record {
      stays = λ s i. elim (Result-cases (b.catalog.get id s.db.products)) [
        | inr (x, k) ↦ rw k i
        | inl (found, k) ↦ elim (Option-cases found) [
          | inl missing ↦ rw (k, missing) i
          | inr (p, at_p) ↦ rw (k, at_p) i
        ]
      ];
      yields = λ s a i e. elim (Result-cases (b.catalog.get id s.db.products)) [
        | inr (x, k) ↦ ground (arith, k, e)
        | inl (found, k) ↦ elim (Option-cases found) [
          | inl missing ↦ ground (arith, k, missing, e)
          | inr (p, at_p) ↦
              let got : b.catalog.get id s.db.products ≡ ok (some p) = rw (sym at_p) k in
              let held = (laws.get_doc id s.db.products p got).0 in
              let good : IsModerated p = All-Holds IsModerated s.db.products p i held in
              let eq : record p { id = id } ≡ a = ground (arith, k, at_p, e) in
              subst IsModerated eq good
        ]
      ];
    }

    write_products-IsKept :
        (f : List (Product F) → Result (List (Product F)))
        → ((docs docs' : List (Product F))
            → f docs ≡ ok docs'
            → All IsModerated docs
            → All IsModerated docs')
        → IsKept AllModerated (λ _. Unit {0}) (write_db (write_products f))
    write_products-IsKept f h = record {
      stays = λ s i. elim (Result-cases (f s.db.products)) [
        | inr (x, k) ↦
            let left : (write_db {E = Event F} (write_products f) s).1.db.products ≡ s.db.products =
              ground (arith, k) in
            subst (All IsModerated) (sym left) i
        | inl (docs, k) ↦
            let left : (write_db {E = Event F} (write_products f) s).1.db.products ≡ docs =
              ground (arith, k) in
            subst (All IsModerated) (sym left) (h s.db.products docs k i)
      ];
      yields = λ s a i e. tt;
    }

    pub update_document-IsKept :
        (p : Product F) → IsModerated p → IsKept AllModerated (λ _. Unit {0}) (update_document b p)
    unfolding update_document
    update_document-IsKept p good =
        write_products-IsKept (b.catalog.update p.id (merged p)) (λ docs docs' k i.
          subst (All IsModerated) (sym (laws.update_doc p.id (merged p) docs docs' k)) (
            All-map IsModerated (λ x. if same x.id p.id then merged p x else x) docs
              (λ x h. written x h (same x.id p.id)) i))
      where
        written :
            (x : Product F) → IsModerated x → (c : Bool) → IsModerated (if c then merged p x else x)
        written x h true = good
        written x h false = h

    pub store-IsKept :
        (p : Product F) → IsModerated p → IsKept AllModerated (λ _. Unit {0}) (store b p)
    unfolding store
    store-IsKept p good =
        >>=-IsKept AllModerated (λ _. Unit {0}) (λ _. Unit {0}) (update_document b p) (λ _. pure p)
          (update_document-IsKept p good) (λ _ _. pure-IsKept AllModerated (λ _. Unit {0}) p tt)

    pub delete_document-IsKept :
        (id : String) → IsKept AllModerated (λ _. Unit {0}) (delete_document b id)
    unfolding delete_document
    delete_document-IsKept id = write_products-IsKept (b.catalog.delete id) (λ docs docs' k i.
        subst (All IsModerated) (sym (laws.delete_doc id docs docs' k))
          (All-keep IsModerated (λ x. not (same x.id id)) docs i))

    pub put_product-IsKept :
        (p : Product F) → IsModerated p → IsKept AllModerated (λ _. Unit {0}) (put_product b p)
    unfolding put_product
    put_product-IsKept p good = record {
      stays = λ s i. elim (Result-cases (b.catalog.put none p s.db.products)) [
        | inr (x, k) ↦
            let left : (put_product b p s).1.db.products ≡ s.db.products = ground (arith, k) in
            subst (All IsModerated) (sym left) i
        | inl ((id, docs), k) ↦
            let left : (put_product b p s).1.db.products ≡ docs = ground (arith, k) in
            subst (All IsModerated) (sym (left ∙ laws.put_doc none p s.db.products docs id k)) (
              All-append IsModerated (keep (λ x. not (same x.id id)) s.db.products)
                (record p { id = id } ∷ [])
                (All-keep IsModerated (λ x. not (same x.id id)) s.db.products i) (good, tt))
      ];
      yields = λ s a i e. tt;
    }

    pub publish-IsKept : (e : Event F) → IsKept AllModerated (λ _. Unit {0}) (publish e)
    publish-IsKept e = record { stays = λ s i. i; yields = λ s a i h. tt }
