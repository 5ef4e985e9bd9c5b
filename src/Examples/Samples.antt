-- ===== src/Examples/Samples.antt =====
-- A remote service with two sample products, and their import.
use goshop_x.Product.SampleData.{model, SampleClient, SampleProduct}
use goshop_x.Product.Tables.{put_category, put_product_with_id}
use goshop_x.Product.Sample.{
  has_category, put_categories, finish_page, is_known, import_item, import_items, import_page,
  list_page, next_page, seed_loop, seed,
}
use goshop_x.Base.{
  decimal, decimal_int, wrap64, refl, none, some, ◌*◌, ◌≡◌, ◌∷◌, [], Fault, ok, pos, Option, arith,
  ℕ, ℤ,
}
use goshop_x.Product.Sample.Ends.{seed-returns, IsBounded, Shop}
use goshop_x.Examples.Catalog.{backend, shop}

abbrev sample : ℤ → SampleProduct ℕ
sample id = record {
  id = id;
  title = "Sample";
  description = "";
  category = "home-decor";
  price = 4;
  discount_percentage = 0;
  rating = 5;
  stock = pos 3;
  tags = [];
  brand = "";
  sku = "";
  weight = 0;
  dimensions = record { width = 0; height = 0; depth = 0 };
  warranty_information = "";
  shipping_information = "";
  availability_status = "";
  reviews = [];
  return_policy = "";
  minimum_order_quantity = pos 1;
  meta = record { created_at = ""; updated_at = ""; barcode = ""; qr_code = "" };
  images = "a.png" ∷ [];
  thumbnail = "";
}

abbrev client : SampleClient ℕ
client = record {
  fetch = λ i path. ok (record {
    products = sample (pos 1) ∷ sample (pos 2) ∷ [];
    total = pos 2;
    skip = pos 0;
    limit = pos 100;
  });
  path_escape = λ s. s;
  price_vnd_exchange = 25;
  times = λ x y. x * y;
  new_uuid = λ _. "u";
}

client-IsBounded : IsBounded backend client 2
client-IsBounded i path page e = ground (arith, e)

imported_two :
    (elim (seed backend client 3 0 shop) [ none ↦ none | some r ↦ some (r.0) ]) ≡ some (pos 2, none)
unfolding seed seed_loop next_page list_page import_page wrap64 import_items import_item is_known
    put_product_with_id model decimal_int decimal finish_page put_categories has_category
    put_category
imported_two = refl

seed-returns_example :
    (r : (ℤ × Option Fault) × Shop backend client) × (seed backend client 3 0 shop ≡ some r)
seed-returns_example =
    seed-returns backend client 2 0 3 shop client-IsBounded (omega arith) (omega arith)
