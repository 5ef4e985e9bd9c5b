-- ===== src/Product/Sample.antt =====
-- The import of sample products, page by page (product/internal/dummyjson.go). The pages that the remote service
-- answers are a parameter, as is `float64`'s product.
use goshop_x.Product.SampleData.{model, SampleProduct, SampleClient, SamplePage}
pub mod Ends
use goshop_x.Product.Tables.{put_category, put_product_with_id, Tables, Call, Backend}
use goshop_x.Product.Models.{
  Event, ProductMeta, ProductReview, Category, ProductMedia, ProductDimensions, Product,
}
use goshop_x.Base.{
  total_changed, snapshot_incomplete, zero, negsuc, err, leb, ok, duplicate_item, suc, ltb_ℤ,
  inconsistent_page, length, invalid_item_id, wrap64, pos_part, ◌||◌, decimal, none, [], leb_ℤ,
  ◌++◌, is_empty, ◌&&◌, ◌-◌, true, same, eq_ℤ, some, append, ◌>>◌, pure, ◌%◌, ◌==◌, not, ltb, ◌^◌,
  spaced, false, Fault, pos, ◌∷◌, Session, if◌then◌else◌, ◌+◌, Bool, Option, decimal_int, Result,
  String, ℕ, List, ℤ,
}

-- What the loop carries; the total is -1 until the first page.
pub record Import : Type 0 where
  pub imported : ℕ
  pub skip : ℕ
  pub seen : List ℤ
  pub snapshot_total : ℤ
  pub snapshot_id : String
  pub categories : List Category

-- How far an item or a page has brought the import: on it goes, or it ends with a count and maybe an error.
pub data Progress : Type 0 where
  going : Import → Progress
  ended : ℕ → Option Fault → Progress

unfoldable pub is_known : ℤ → List ℤ → Bool
is_known id [] = false
is_known id (x ∷ xs) = eq_ℤ x id || is_known id xs

unfoldable pub has_category : String → List Category → Bool
has_category id [] = false
has_category id (c ∷ cs) = same c.id id || has_category id cs

abbrev pub category_of : String → Category
category_of id = record {
  id = id;
  name = spaced id;
  slug = id;
  description = "Danh mục sản phẩm GoshopX";
  is_active = true;
}

-- `uint64` arithmetic.
abbrev pub sub_uint64 : ℕ → ℕ → ℕ
sub_uint64 a b = (a + (2 ^ 64 - b)) % 2 ^ 64

abbrev pub page_limit : ℕ → ℕ → ℕ
page_limit limit imported =
    if ltb 0 limit && ltb (sub_uint64 limit imported) 100 then sub_uint64 limit imported else 100

abbrev pub expected_count : ℕ → ℤ → ℕ
expected_count limit total =
    if ltb 0 limit && ltb limit (pos_part total) then limit else pos_part total

abbrev pub is_inconsistent : {F : Type 0} → ℕ → ℕ → SamplePage F → Bool
is_inconsistent skip limit page =
    not (eq_ℤ page.skip (wrap64 (pos skip)))
    || ltb_ℤ page.total (pos 0)
    || ltb limit (length page.products)

module _ {F : Type 0} (b : Backend F) (c : SampleClient F) where
  unfoldable pub list_page : ℕ → ℕ → String → Call F (SamplePage F)
  list_page skip limit category s =
      let size = if limit == 0 then 30 else limit in
      let folder =
        if is_empty category
        then "/products"
        else append "/products/category/" (c.path_escape category) in
      let path =
        append folder (append "?limit=" (append (decimal size) (append "&skip=" (decimal skip)))) in
      (c.fetch s.ticks path, record s { ticks = suc s.ticks })

  abbrev pub priced : Import → SampleProduct F → Product F
  priced st item = record (model item) {
    import_snapshot_id = st.snapshot_id;
    price = c.times item.price c.price_vnd_exchange;
  }

  abbrev pub with_item : SampleProduct F → Import → Import
  with_item item st = record st {
    imported = (st.imported + 1) % 2 ^ 64;
    seen = item.id ∷ st.seen;
    categories =
        if has_category item.category st.categories
        then st.categories
        else st.categories ++ (category_of item.category ∷ []);
  }

  -- An item's identifier must be positive and new.
  abbrev pub item_fault : SampleProduct F → Import → Option Fault
  item_fault item st =
      if leb_ℤ item.id (pos 0)
      then some invalid_item_id
      else (if is_known item.id st.seen then some duplicate_item else none)

  unfoldable pub import_item :
      SampleProduct F
      → Import
      → Session (Tables F) (Event F)
      → Progress × Session (Tables F) (Event F)
  import_item item st s = elim (item_fault item st) [
    | some e ↦ (ended st.imported (some e), s)
    | none ↦
        let (r, t) = put_product_with_id b (priced st item) s in
        elim r [ ok _ ↦ (going (with_item item st), t) | err e ↦ (ended st.imported (some e), t) ]
  ]

  unfoldable pub import_items :
      List (SampleProduct F)
      → Import
      → Session (Tables F) (Event F)
      → Progress × Session (Tables F) (Event F)
  import_items [] st s = (going st, s)
  import_items (item ∷ items) st s =
      let (p, t) = import_item item st s in
      elim p [ ended n e ↦ (ended n e, t) | going st' ↦ import_items items st' t ]

  -- The map of the categories has no order; one that fails ends the import.
  unfoldable pub put_categories : List Category → Call F (Unit {0})
  put_categories [] = pure tt
  put_categories (k ∷ ks) = do put_category b k; put_categories ks

  -- The end of a page: on to the next, or the end of the import.
  unfoldable pub finish_page :
      ℕ
      → SamplePage F
      → Import
      → Session (Tables F) (Event F)
      → Progress × Session (Tables F) (Event F)
  finish_page limit page st s =
      let expected = expected_count limit st.snapshot_total in
      if length page.products == 0 || leb expected st.imported
      then (if not (st.imported == expected)
          then (ended st.imported (some snapshot_incomplete), s)
          else (let (r, t) = put_categories st.categories s in
              (ended st.imported (elim r [ ok _ ↦ none | err e ↦ some e ]), t)))
      else (going (record st { skip = (st.skip + length page.products) % 2 ^ 64 }), s)

  -- What is wrong with a page.
  abbrev pub page_fault : ℕ → Import → SamplePage F → Option Fault
  page_fault limit st page =
      if is_inconsistent st.skip (page_limit limit st.imported) page
      then some inconsistent_page
      else (if not (ltb_ℤ st.snapshot_total (pos 0)) && not (eq_ℤ page.total st.snapshot_total)
          then some total_changed
          else none)

  unfoldable pub import_page :
      ℕ
      → SamplePage F
      → Import
      → Session (Tables F) (Event F)
      → Progress × Session (Tables F) (Event F)
  import_page limit page st s = elim (page_fault limit st page) [
    | some e ↦ (ended st.imported (some e), s)
    | none ↦
        let (p, t) = import_items page.products (record st { snapshot_total = page.total }) s in
        elim p [ ended n e ↦ (ended n e, t) | going st' ↦ finish_page limit page st' t ]
  ]

  unfoldable pub next_page :
      ℕ → Import → Session (Tables F) (Event F) → Progress × Session (Tables F) (Event F)
  next_page limit st s =
      if page_limit limit st.imported == 0
      then (ended st.imported none, s)
      else (let (r, t) = list_page st.skip (page_limit limit st.imported) "" s in
          elim r [
            | err e ↦ (ended st.imported (some e), t)
            | ok page ↦ import_page limit page st t
          ])

  -- `none` says that the fuel did not suffice.
  unfoldable pub seed_loop :
      ℕ
      → ℕ
      → Import
      → Session (Tables F) (Event F)
      → Option ((ℤ × Option Fault) × Session (Tables F) (Event F))
  seed_loop zero limit st s = none
  seed_loop (suc n) limit st s =
      let (p, t) = next_page limit st s in
      elim p [ ended k e ↦ some ((wrap64 (pos k), e), t) | going st' ↦ seed_loop n limit st' t ]

  unfoldable pub seed :
      ℕ
      → ℕ
      → Session (Tables F) (Event F)
      → Option ((ℤ × Option Fault) × Session (Tables F) (Event F))
  seed fuel limit s =
      seed_loop fuel limit
        (record {
          imported = 0;
          skip = 0;
          seen = [];
          snapshot_total = negsuc 0;
          snapshot_id = c.new_uuid s.ticks;
          categories = [];
        })
        (record s { ticks = suc s.ticks })
