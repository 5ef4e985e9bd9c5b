-- ===== src/Product/SampleData.antt =====
-- The sample products of product/internal/dummyjson.go and what they become in the catalog.
use goshop_x.Product.Models.{ProductMeta, ProductReview, ProductMedia, ProductDimensions, Product}
use goshop_x.Base.{
  [], ◌+◌, decimal, append, some, ◌∷◌, pos, Result, decimal_int, String, ℕ, List, ℤ,
}

pub record SampleProduct (F : Type 0) : Type 0 where
  pub id : ℤ
  pub title : String
  pub description : String
  pub category : String
  pub price : F
  pub discount_percentage : F
  pub rating : F
  pub stock : ℤ
  pub tags : List String
  pub brand : String
  pub sku : String
  pub weight : F
  pub dimensions : ProductDimensions F
  pub warranty_information : String
  pub shipping_information : String
  pub availability_status : String
  pub reviews : List ProductReview
  pub return_policy : String
  pub minimum_order_quantity : ℤ
  pub meta : ProductMeta
  pub images : List String
  pub thumbnail : String

pub record SamplePage (F : Type 0) : Type 0 where
  pub products : List (SampleProduct F)
  pub total : ℤ
  pub skip : ℤ
  pub limit : ℤ

-- `price_vnd_exchange` is the factor that was set; `fetch` is what a request for a path gives at a point
-- of the run.
pub record SampleClient (F : Type 0) : Type 0 where
  pub fetch : ℕ → String → Result (SamplePage F)
  pub path_escape : String → String
  pub price_vnd_exchange : F
  pub times : F → F → F
  pub new_uuid : ℕ → String

module _ {F : Type 0} where
  -- The images from the `i`-th on.
  unfoldable pub media_from : SampleProduct F → ℕ → List String → List ProductMedia
  media_from p i [] = []
  media_from p i (image ∷ images) =
      record {
        id = append (decimal_int p.id) (append "-" (decimal i));
        url = image;
        alt_text = p.title;
        sort_order = pos i;
      }
      ∷ media_from p (i + 1) images

  unfoldable pub model : SampleProduct F → Product F
  model p = record {
    id = decimal_int p.id;
    name = p.title;
    description = p.description;
    price = p.price;
    discount_percentage = p.discount_percentage;
    rating = p.rating;
    stock = p.stock;
    tags = p.tags;
    brand = p.brand;
    sku = p.sku;
    weight = p.weight;
    dimensions = p.dimensions;
    warranty_information = p.warranty_information;
    shipping_information = p.shipping_information;
    availability_status = p.availability_status;
    reviews = p.reviews;
    return_policy = p.return_policy;
    minimum_order_quantity = p.minimum_order_quantity;
    meta = p.meta;
    thumbnail = p.thumbnail;
    images = p.images;
    account_id = pos 0;
    category_id = p.category;
    publish_status = "published";
    moderation_status = "approved";
    moderation_reason = "";
    media = some (media_from p 0 p.images);
    source_system = "dummyjson";
    source_id = decimal_int p.id;
    import_snapshot_id = "";
  }
