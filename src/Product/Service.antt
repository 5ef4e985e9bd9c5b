-- ===== src/Product/Service.antt =====
-- The operations of product/internal/service.go. An event is handed to a goroutine, whose errors are
-- only logged.
pub mod Listed
pub mod Owner
use goshop_x.Product.Tables.{
  put_category, delete_document, or_kept, get_product_by_id, update_document, put_product, Call,
  Backend,
}
use goshop_x.Product.Models.{
  product_deleted, product_updated, product_retrieved, product_created, Category, ProductReview,
  blank_product, ProductMedia, Product,
}
use goshop_x.Base.{
  category_incomplete, bad_comment, media_url_required, trim_space, unauthorized, byte_length,
  bad_rating, length, not_approved, pure, publish, ltb, ◌+ℤ◌, not, raise_if, pos, wrap64, ◌&&◌,
  ◌||◌, none, ◌++◌, eq_ℤ, is_empty, ltb_ℤ, ◌∷◌, some, [], same, ◌>>◌, ◌>>=◌, if◌then◌else◌, List,
  Bool, ℤ, Option, String,
}

unfoldable pub is_catalog_admin : String → Bool
is_catalog_admin role = same role "operations_admin" || same role "platform_admin"

-- Nothing is published that was not approved.
abbrev pub is_unapproved : {F : Type 0} → Product F → Bool
is_unapproved p = same p.publish_status "published" && not (same p.moderation_status "approved")

abbrev pub with_moderation : {F : Type 0} → Product F → String → String → String → Product F
with_moderation p publish_status moderation_status reason = record p {
  publish_status = publish_status;
  moderation_status = moderation_status;
  moderation_reason = reason;
}

abbrev pub media_of : Option (List ProductMedia) → List ProductMedia
media_of none = []
media_of (some ms) = ms

abbrev pub with_media : {F : Type 0} → Product F → ProductMedia → Product F
with_media p m = record p { media = some (media_of p.media ++ (m ∷ [])) }

-- `total += item.Rating`.
unfoldable pub sum_ratings : ℤ → List ProductReview → ℤ
sum_ratings total [] = total
sum_ratings total (r ∷ rs) = sum_ratings (wrap64 (total +ℤ r.rating)) rs

abbrev pub is_bad_rating : ℤ → Bool
is_bad_rating rating = ltb_ℤ rating (pos 1) || ltb_ℤ (pos 5) rating

abbrev pub is_bad_comment : String → Bool
is_bad_comment comment = is_empty comment || ltb 1000 (byte_length comment)

-- What the caller left empty is filled in from the stored product.
abbrev pub filled_in : {F : Type 0} → Product F → Product F → Product F
filled_in p old = record p {
  account_id = if eq_ℤ p.account_id (pos 0) then old.account_id else p.account_id;
  publish_status = or_kept p.publish_status old.publish_status;
  moderation_status = or_kept p.moderation_status old.moderation_status;
  media = elim p.media [ none ↦ old.media | some ms ↦ some ms ];
}

module _ {F : Type 0} (b : Backend F) where
  open b use {numbers}

  abbrev pub draft : String → String → F → ℤ → Product F
  draft name description price account = record (blank_product numbers.zero_float) {
    name = name;
    description = description;
    price = price;
    account_id = account;
    publish_status = "draft";
    moderation_status = "pending";
  }

  unfoldable pub post_product : String → String → F → ℤ → Call F (Product F)
  post_product name description price account = do
    p ← put_product b (draft name description price account)
    publish (product_created p)
    pure p

  unfoldable pub store : Product F → Call F (Product F)
  store p = do update_document b p; pure p

  unfoldable pub admin_update_product : Product F → String → Call F (Product F)
  admin_update_product p actor_role = do
    raise_if (not (is_catalog_admin actor_role)) unauthorized
    old ← get_product_by_id b p.id
    store (filled_in p old)

  unfoldable pub admin_delete_product : String → String → Call F (Unit {0})
  admin_delete_product id actor_role = do
    raise_if (not (is_catalog_admin actor_role)) unauthorized
    delete_document b id

  unfoldable pub moderate : String → String → String → Product F → Call F (Product F)
  moderate publish_status moderation_status reason p = do
    let moderated = with_moderation p publish_status moderation_status reason
    raise_if (is_unapproved moderated) not_approved
    store moderated

  unfoldable pub set_moderation : String → String → String → String → String → Call F (Product F)
  set_moderation id publish_status moderation_status reason actor_role = do
    raise_if (not (is_catalog_admin actor_role)) unauthorized
    p ← get_product_by_id b id
    moderate publish_status moderation_status reason p

  unfoldable pub add_media : String → ProductMedia → String → Call F (Product F)
  add_media id media actor_role = do
    raise_if (not (is_catalog_admin actor_role)) unauthorized
    raise_if (is_empty media.url) media_url_required
    p ← get_product_by_id b id
    store (with_media p media)

  abbrev pub with_review : Product F → ProductReview → Product F
  with_review p r = record p {
    reviews = p.reviews ++ (r ∷ []);
    rating =
        numbers.ratio (sum_ratings (pos 0) (p.reviews ++ (r ∷ [])))
          (length (p.reviews ++ (r ∷ [])));
  }

  unfoldable pub add_review : String → ProductReview → Call F (Product F)
  add_review id review = do
    raise_if (is_bad_rating review.rating) bad_rating
    raise_if (is_bad_comment (trim_space review.comment)) bad_comment
    p ← get_product_by_id b id
    store (with_review p (record review { comment = trim_space review.comment }))

  unfoldable pub create_category : Category → String → Call F Category
  create_category category actor_role = do
    raise_if (not (is_catalog_admin actor_role)) unauthorized
    raise_if (is_empty category.name || is_empty category.slug) category_incomplete
    put_category b category

  unfoldable pub get_product : String → Call F (Product F)
  get_product id = do
    p ← get_product_by_id b id
    publish (product_retrieved p.id p.account_id)
    pure p

  -- A product of the caller's fields alone.
  abbrev pub rewritten : String → String → String → F → ℤ → Product F
  rewritten id name description price account = record (blank_product numbers.zero_float) {
    id = id;
    name = name;
    description = description;
    price = price;
    account_id = account;
  }

  unfoldable pub update_product : String → String → String → F → ℤ → Call F (Product F)
  update_product id name description price account = do
    p ← get_product_by_id b id
    raise_if (not (eq_ℤ p.account_id account)) unauthorized
    update_document b (rewritten id name description price account)
    publish (product_updated (rewritten id name description price account))
    pure (rewritten id name description price account)

  -- The event is sent before the document is deleted.
  unfoldable pub delete_product : String → ℤ → Call F (Unit {0})
  delete_product id account = do
    p ← get_product_by_id b id
    raise_if (not (eq_ℤ p.account_id account)) unauthorized
    publish (product_deleted p.id)
    delete_document b id
