-- ===== src/Product/Service/Owner.antt =====
-- What an owner's update writes.
use goshop_x.Product.Models.{blank_product, Product}
use goshop_x.Base.{
  subst, ◌∙◌, sym, some, Option-cases, Result-cases, inr, arith, inl, Bool-cases, Holds-map,
  if◌then◌else◌, map, eq_ℤ, true, same, Holds, ok, ◌≡◌, ℤ, String,
}
use goshop_x.Product.Service.{rewritten, update_product}
use goshop_x.Product.Service.Listed.{Shop, CatalogLaws}
use goshop_x.Product.Tables.{merged, update_document, get_product_by_id, Backend}

module _ {F : Type 0} (b : Backend F) (laws : CatalogLaws b) where
  -- The document with the given fields and the old one's origin, and nothing else.
  abbrev pub Rewritten : String → String → String → F → ℤ → Product F → Product F → Type 0
  Rewritten id name description price account old y =
      y ≡ record (blank_product b.numbers.zero_float) {
        id = id;
        name = name;
        description = description;
        price = price;
        account_id = account;
        source_system = old.source_system;
        source_id = old.source_id;
        import_snapshot_id = old.import_snapshot_id;
      }

  -- An update by the owner that goes through: the catalog had a product with this identifier and this
  -- account, and now every document with the identifier is the blank one with the given identifier, name,
  -- description, price and account, and with where an old document with the identifier was imported
  -- from. Nothing else of the old one is kept: not its stock, its reviews or its publish status.
  pub update_product-eq-ok :
      (id name description : String) (price : F) (account : ℤ) (s : Shop b) {p : Product F}
      {t : Shop b}
      → update_product b id name description price account s ≡ (ok p, t)
      → ((old : Product F) × Holds s.db.products old
          × (same old.id id ≡ true)
          × (eq_ℤ old.account_id account ≡ true))
        × ((y : Product F)
            → Holds t.db.products y
            → same y.id id ≡ true
            → (old : Product F) × Holds s.db.products old
              × (same old.id id ≡ true)
              × Rewritten id name description price account old y)
  unfolding update_product get_product_by_id update_document
  update_product-eq-ok id name description price account s {p} {t} e =
      elim (Result-cases (b.catalog.get id s.db.products)) [
        | inr (x, k) ↦ ground (arith, k, e)
        | inl (found, k) ↦ elim (Option-cases found) [
          | inl missing ↦ ground (arith, k, missing, e)
          | inr (old, at_old) ↦ elim (Bool-cases (eq_ℤ old.account_id account)) [
            | inr other ↦ ground (arith, k, at_old, other, e)
            | inl mine ↦
                let new = rewritten b id name description price account in
                elim (Result-cases (b.catalog.update id (merged new) s.db.products)) [
                  | inr (x, k') ↦ ground (arith, k, at_old, mine, k', e)
                  | inl (docs, k') ↦
                      let got : b.catalog.get id s.db.products ≡ ok (some old) =
                        rw (sym at_old) k in
                      let (held, same_id) = laws.get_doc id s.db.products old got in
                      let left : t.db.products ≡ docs = ground (arith, k, at_old, mine, k', e) in
                      let written = left ∙ laws.update_doc id (merged new) s.db.products docs k' in
                      (
                        (old, held, same_id, mine),
                        λ y at_y own. after y (subst (λ r. Holds r y) written at_y) own,
                      )
                ]
          ]
        ]
      ]
    where
      after :
          (y : Product F)
          → Holds
              (map
                (λ x.
                  if same x.id id
                  then merged (rewritten b id name description price account) x
                  else x)
                s.db.products)
              y
          → same y.id id ≡ true
          → (old : Product F) × Holds s.db.products old
            × (same old.id id ≡ true)
            × Rewritten id name description price account old y
      after y at_y own =
          let new = merged (rewritten b id name description price account) in
          let (x, at_x, eq) =
            Holds-map (λ x. if same x.id id then new x else x) s.db.products y at_y in
          elim (Bool-cases (same x.id id)) [
            | inl hit ↦ (x, at_x, hit, ground (arith, hit, eq))
            | inr miss ↦ ground (arith, miss, eq, own)
          ]
