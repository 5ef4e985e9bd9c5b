-- ===== src/Product/Models.antt =====
-- The records of product/models/product.go and kafka.go; `F` stands for `float64`.
use goshop_x.Base.{none, Option, [], List, Bool, pos, ℤ, String}

pub record ProductMedia : Type 0 where
  pub id : String
  pub url : String
  pub alt_text : String
  pub sort_order : ℤ

pub record Category : Type 0 where
  pub id : String
  pub name : String
  pub slug : String
  pub description : String
  pub is_active : Bool

pub record ProductDimensions (F : Type 0) : Type 0 where
  pub width : F
  pub height : F
  pub depth : F

pub record ProductReview : Type 0 where
  pub rating : ℤ
  pub comment : String
  pub date : String
  pub reviewer_name : String
  pub reviewer_email : String

pub record ProductMeta : Type 0 where
  pub created_at : String
  pub updated_at : String
  pub barcode : String
  pub qr_code : String

pub record Product (F : Type 0) : Type 0 where
  pub id : String
  pub name : String
  pub description : String
  pub price : F
  pub discount_percentage : F
  pub rating : F
  pub stock : ℤ
  pub tags : List String
  pub brand : String
  pub sku : String
  pub weight : F
  pub dimensions : ProductDimensions F
  pub warranty_information : String
  pub shipping_information : String
  pub availability_status : String
  pub reviews : List ProductReview
  pub return_policy : String
  pub minimum_order_quantity : ℤ
  pub meta : ProductMeta
  pub thumbnail : String
  pub images : List String
  pub account_id : ℤ
  pub category_id : String
  pub publish_status : String
  pub moderation_status : String
  pub moderation_reason : String
  -- `none` is a nil slice.
  pub media : Option (List ProductMedia)
  pub source_system : String
  pub source_id : String
  pub import_snapshot_id : String

pub data Event (F : Type 0) : Type 0 where
  product_created product_updated : Product F → Event F
  product_retrieved : String → ℤ → Event F
  product_deleted : String → Event F

-- Go's zero value.
abbrev pub blank_product : {F : Type 0} → F → Product F
blank_product zero_float = record {
  id = "";
  name = "";
  description = "";
  price = zero_float;
  discount_percentage = zero_float;
  rating = zero_float;
  stock = pos 0;
  tags = [];
  brand = "";
  sku = "";
  weight = zero_float;
  dimensions = record { width = zero_float; height = zero_float; depth = zero_float };
  warranty_information = "";
  shipping_information = "";
  availability_status = "";
  reviews = [];
  return_policy = "";
  minimum_order_quantity = pos 0;
  meta = record { created_at = ""; updated_at = ""; barcode = ""; qr_code = "" };
  thumbnail = "";
  images = [];
  account_id = pos 0;
  category_id = "";
  publish_status = "";
  moderation_status = "";
  moderation_reason = "";
  media = none;
  source_system = "";
  source_id = "";
  import_snapshot_id = "";
}
