-- ===== src/Product/Tables.antt =====
-- The two indexes of the catalog (product/internal/repository.go). What Elasticsearch does with an index
-- is a parameter.
use goshop_x.Product.Models.{Event, Category, Product}
use goshop_x.Base.{
  entity_not_found, true, map, raise, product_id_required, ◌++◌, read_db, raise_if, is_empty,
  write_on, change_on, [], write_db, some, pure, none, ◌∷◌, if◌then◌else◌, Session, Result, ◌>>◌,
  ◌>>=◌, Bool, ℕ, Action, ℤ, List, Option, String,
}

-- A query: all documents, or those that pass every filter and match the text, if there is one.
pub data Filter : Type 0 where
  term : String → String → Filter
  flag : String → Bool → Filter

pub record Search : Type 0 where
  pub text : Option (String × List String)
  pub filters : List Filter

pub record Index (R : Type 0) : Type 0 where
  -- The document with this identifier, if it is found, in its decoded form.
  pub get : String → List R → Result (Option R)
  pub multi_get : List String → List R → Result (List (Option (String × R)))
  -- The hits of a page with their identifiers.
  pub search : Search → Option ℕ → ℕ → List R → Result (List (String × R))
  -- Stores a document under the identifier, or under a new one, which comes back.
  pub put : Option String → R → List R → Result (String × List R)
  -- Merges a document into the one that is there.
  pub update : String → (R → R) → List R → Result (List R)
  pub delete : String → List R → Result (List R)

pub record Tables (F : Type 0) : Type 0 where
  pub products : List (Product F)
  pub categories : List Category

-- `float64`: zero, and the quotient of two integers.
pub record Numbers (F : Type 0) : Type 0 where
  pub zero_float : F
  pub ratio : ℤ → ℕ → F

pub record Backend (F : Type 0) : Type 0 where
  pub numbers : Numbers F
  pub catalog : Index (Product F)
  pub category_index : Index Category

abbrev pub Call : Type 0 → Type 0 → Type 0
Call F = Action (Session (Tables F) (Event F))

abbrev pub in_products :
    {F A : Type 0}
    → (List (Product F) → Result (A × List (Product F)))
    → Tables F
    → Result (A × Tables F)
in_products = change_on (λ t. t.products) (λ rows t. record t { products = rows })

abbrev pub write_products :
    {F : Type 0}
    → (List (Product F) → Result (List (Product F)))
    → Tables F
    → Result (Unit {0} × Tables F)
write_products = write_on (λ t. t.products) (λ rows t. record t { products = rows })

abbrev pub in_categories :
    {F A : Type 0} → (List Category → Result (A × List Category)) → Tables F → Result (A × Tables F)
in_categories = change_on (λ t. t.categories) (λ rows t. record t { categories = rows })

abbrev pub write_categories :
    {F : Type 0}
    → (List Category → Result (List Category))
    → Tables F
    → Result (Unit {0} × Tables F)
write_categories = write_on (λ t. t.categories) (λ rows t. record t { categories = rows })

-- `omitempty` leaves the three fields of the import out where they are empty.
abbrev pub or_kept : String → String → String
or_kept new old = if is_empty new then old else new

abbrev pub merged : {F : Type 0} → Product F → Product F → Product F
merged p old = record p {
  source_system = or_kept p.source_system old.source_system;
  source_id = or_kept p.source_id old.source_id;
  import_snapshot_id = or_kept p.import_snapshot_id old.import_snapshot_id;
}

abbrev pub listed : List Filter
listed = term "publishStatus" "published" ∷ term "moderationStatus" "approved" ∷ []

module _ {F : Type 0} where
  abbrev pub with_id : String × Product F → Product F
  with_id hit = record (hit.1) { id = hit.0 }

  unfoldable pub found_docs : List (Option (String × Product F)) → List (Product F)
  found_docs [] = []
  found_docs (none ∷ docs) = found_docs docs
  found_docs (some hit ∷ docs) = with_id hit ∷ found_docs docs

module _ {F : Type 0} (b : Backend F) where
  open b use {catalog, category_index}

  unfoldable pub put_product : Product F → Call F (Product F)
  put_product p = do id ← write_db (in_products (catalog.put none p)); pure (record p { id = id })

  unfoldable pub put_product_with_id : Product F → Call F (Unit {0})
  put_product_with_id p = do
    raise_if (is_empty p.id) product_id_required
    write_db (in_products (catalog.put (some p.id) p))
    pure tt

  unfoldable pub get_product_by_id : String → Call F (Product F)
  get_product_by_id id = do
    found ← read_db (λ t. catalog.get id t.products)
    elim found [ none ↦ raise entity_not_found | some p ↦ pure (record p { id = id }) ]

  unfoldable pub search_page : Search → ℕ → ℕ → Call F (List (Product F))
  search_page q skip take = do
    hits ← read_db (λ t. catalog.search q (some skip) take t.products)
    pure (map with_id hits)

  unfoldable pub list_products : ℕ → ℕ → Call F (List (Product F))
  list_products = search_page (record { text = none; filters = listed })

  unfoldable pub list_all_products : ℕ → ℕ → Call F (List (Product F))
  list_all_products = search_page (record { text = none; filters = [] })

  unfoldable pub list_products_by_category : String → ℕ → ℕ → Call F (List (Product F))
  list_products_by_category category =
      search_page
        (record { text = none; filters = listed ++ (term "categoryId.keyword" category ∷ []) })

  unfoldable pub list_products_with_ids : List String → Call F (List (Product F))
  list_products_with_ids [] = pure []
  list_products_with_ids (id ∷ ids) = do
    docs ← read_db (λ t. catalog.multi_get (id ∷ ids) t.products)
    pure (found_docs docs)

  unfoldable pub search_products : String → ℕ → ℕ → Call F (List (Product F))
  search_products q = search_page (record {
    text = some (q, "name" ∷ "description" ∷ "brand" ∷ "sku" ∷ "categoryId" ∷ "tags" ∷ []);
    filters = listed;
  })

  unfoldable pub update_document : Product F → Call F (Unit {0})
  update_document p = write_db (write_products (catalog.update p.id (merged p)))

  unfoldable pub delete_document : String → Call F (Unit {0})
  delete_document id = write_db (write_products (catalog.delete id))

  unfoldable pub put_category : Category → Call F Category
  put_category c = do
    id ← write_db (in_categories (category_index.put (if is_empty c.id then none else some c.id) c))
    pure (record c { id = id })

  unfoldable pub list_categories : Bool → Call F (List Category)
  list_categories active_only = do
    hits ← read_db (λ t.
        category_index.search
          (record { text = none; filters = if active_only then flag "isActive" true ∷ [] else [] })
          none 500 t.categories)
    pure (map (λ (hit : String × Category). record (hit.1) { id = hit.0 }) hits)

  unfoldable pub delete_category : String → Call F (Unit {0})
  delete_category id = write_db (write_categories (category_index.delete id))
