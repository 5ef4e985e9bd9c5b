-- ===== src/Examples/Catalog.antt =====
-- A catalog in memory with one draft, where natural numbers stand for floating point.
use goshop_x.Product.Service.{
  update_product, store, moderate, is_catalog_admin, rewritten, draft, set_moderation,
}
use goshop_x.Product.Service.Owner.{Rewritten, update_product-eq-ok}
use goshop_x.Product.Service.Listed.Runs.{rest, by_moderation, Run-AllModerated, more, Run}
use goshop_x.Product.Service.Listed.{AllModerated, Shop, CatalogLaws}
use goshop_x.Base.{
  suc, inr, eq_ℤ, subst, Bool-cases, ◌++◌, if◌then◌else◌, true, inl, some, ok, not, none, refl,
  same, [], Option-cases, ◌≡◌, ◌/◌, keep, Option, Holds, pos, map, ◌∷◌, arith, pos_part, List, ℕ,
  String,
}
use goshop_x.Product.Tables.{update_document, get_product_by_id, Backend}
use goshop_x.Product.Models.{product_updated, Product, Category}

abbrev find_doc : String → List (Product ℕ) → Option (Product ℕ)
find_doc id [] = none
find_doc id (p ∷ ps) = if same p.id id then some p else find_doc id ps

abbrev put_doc : String → Product ℕ → List (Product ℕ) → List (Product ℕ)
put_doc id p docs = keep (λ (x : Product ℕ). not (same x.id id)) docs ++ (record p { id = id } ∷ [])

abbrev pub backend : Backend ℕ
backend = record {
  numbers = record { zero_float = 0; ratio = λ total n. pos_part total / n };
  catalog = record {
    get = λ id docs. ok (find_doc id docs);
    multi_get = λ _ _. ok [];
    search = λ _ _ _ docs. ok (map (λ (p : Product ℕ). (p.id, p)) docs);
    put = λ key p docs. elim key [
      | none ↦ ok ("new", put_doc "new" p docs)
      | some id ↦ ok (id, put_doc id p docs)
    ];
    update = λ id f docs. ok (map (λ (x : Product ℕ). if same x.id id then f x else x) docs);
    delete = λ id docs. ok (keep (λ (x : Product ℕ). not (same x.id id)) docs);
  };
  category_index = record {
    get = λ _ _. ok none;
    multi_get = λ _ _. ok [];
    search = λ _ _ _ docs. ok (map (λ (c : Category). (c.id, c)) docs);
    put = λ key c docs. ok (c.id, docs ++ (c ∷ []));
    update = λ _ _ docs. ok docs;
    delete = λ _ docs. ok docs;
  };
}

found_lem :
    (id : String) (docs : List (Product ℕ)) (p : Product ℕ)
    → find_doc id docs ≡ some p
    → Holds docs p × (same p.id id ≡ true)
found_lem id [] p e = ground (arith, e)
found_lem id (x ∷ xs) p e = elim (Bool-cases (same x.id id)) [
  | inl hit ↦
      let eq : x ≡ p = ground (arith, hit, e) in
      ((0, ground (arith, eq)), subst (λ (y : Product ℕ). same y.id id ≡ true) eq hit)
  | inr miss ↦
      let ((i, at_i), own) = found_lem id xs p (ground (arith, miss, e)) in ((suc i, at_i), own)
]

backend-CatalogLaws : CatalogLaws backend
backend-CatalogLaws = record {
  get_doc = λ id docs p e. found_lem id docs p (ground (arith, e));
  put_doc = λ key p docs docs' id e. elim (Option-cases key) [
    | inl fresh ↦
        let eq : "new" ≡ id = ground (arith, fresh, e) in
        subst (λ (i : String). docs' ≡ put_doc i p docs) eq (ground (arith, fresh, e))
    | inr (i, given) ↦
        let eq : i ≡ id = ground (arith, given, e) in
        subst (λ (j : String). docs' ≡ put_doc j p docs) eq (ground (arith, given, e))
  ];
  update_doc = λ id f docs docs' e. ground (arith, e);
  delete_doc = λ id docs docs' e. ground (arith, e);
}

abbrev lamp : Product ℕ
lamp = record (draft backend "Lamp" "Bright" 90 (pos 7)) { id = "l1"; stock = pos 4 }

abbrev pub shop : Shop backend
shop = record {
  db = record { products = lamp ∷ []; categories = [] };
  tx = none;
  ticks = 0;
  published = [];
}

abbrev approved : Shop backend
approved = (set_moderation backend "l1" "published" "approved" "" "platform_admin" shop).1

shown : map (λ (p : Product ℕ). p.publish_status) approved.db.products ≡ "published" ∷ []
unfolding set_moderation is_catalog_admin get_product_by_id moderate store update_document
shown = refl

one_moderation : Run backend backend-CatalogLaws shop approved
one_moderation =
    more shop approved approved (by_moderation "l1" "published" "approved" "" "platform_admin" shop)
      (rest approved)

Run-AllModerated_example : AllModerated backend approved
Run-AllModerated_example =
    Run-AllModerated backend backend-CatalogLaws shop approved one_moderation (refl, tt)

abbrev renamed : Product ℕ
renamed = rewritten backend "l1" "Desk lamp" "Brighter" 95 (pos 7)

abbrev after_rename : Shop backend
after_rename = record shop {
  db = record { products = renamed ∷ []; categories = [] };
  published = product_updated renamed ∷ [];
}

owner_renames :
    update_product backend "l1" "Desk lamp" "Brighter" 95 (pos 7) shop ≡ (ok renamed, after_rename)
unfolding update_product get_product_by_id update_document
owner_renames = refl

update_product-eq-ok_example :
    ((old : Product ℕ) × Holds shop.db.products old
      × (same old.id "l1" ≡ true)
      × (eq_ℤ old.account_id (pos 7) ≡ true))
    × ((y : Product ℕ)
        → Holds after_rename.db.products y
        → same y.id "l1" ≡ true
        → (old : Product ℕ) × Holds shop.db.products old
          × (same old.id "l1" ≡ true)
          × Rewritten backend backend-CatalogLaws "l1" "Desk lamp" "Brighter" 95 (pos 7) old y)
update_product-eq-ok_example =
    update_product-eq-ok backend backend-CatalogLaws "l1" "Desk lamp" "Brighter" 95 (pos 7) shop
      owner_renames
