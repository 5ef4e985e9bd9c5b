-- ===== src/Payment/Tables.antt =====
-- The tables of the payment database (payment/internal/repository.go), and what the service takes
-- from outside.
use goshop_x.Base.{
  ℕ, ℤ, String, Bool, false, Option, none, some, List, Result, Action, Session, Driver, Orm,
  query_on, change_on, write_on, read_db, write_db, same, is_empty, ltb, ◌&&◌, ◌||◌, ◌==◌,
  if◌then◌else◌,
}
use goshop_x.Payment.Models.{Product, Transaction, status_text, pending}
use goshop_x.Payment.Gateway.{Network, Client}
use goshop_x.Order.Models.{Order}

pub record Tables : Type 0 where
  pub products : List Product
  pub transactions : List Transaction

-- `float64`: the tests, `price * (1 - d/100)`, and `int64(math.Round(x))`.
pub record Float (F : Type 0) : Type 0 where
  pub is_nan : F → Bool
  pub is_inf : F → Bool
  pub is_positive : F → Bool
  pub at_least_100 : F → Bool
  pub reduce : F → F → F
  pub round : F → ℤ

pub record CatalogProduct (F : Type 0) : Type 0 where
  pub id : String
  pub price : F
  pub discount_percentage : F

pub record Backend (F : Type 0) : Type 0 where
  pub driver : Driver Tables
  pub product_orm : Orm Product
  pub transaction_orm : Orm Transaction
  pub float : Float F
  pub network : Network
  pub client : Client
  -- `GetProduct` of the product service and `GetOrder` of the order service; either may be missing.
  pub catalog : Option (String → Result (Option (CatalogProduct F)))
  pub orders : Option (ℕ → Result (Option (Order F)))
  -- `rand.Read` of 16 bytes in hexadecimal.
  pub random_hex : ℕ → Result String

-- The service publishes no events of its own.
abbrev pub Call : Type 0 → Type 0
Call = Action (Session Tables (Unit {0}))

module _ {A : Type 0} where
  abbrev pub query_products : (List Product → Result A) → Tables → Result A
  query_products = query_on (λ t. t.products) (λ rows t. record t { products = rows })

  abbrev pub query_transactions : (List Transaction → Result A) → Tables → Result A
  query_transactions = query_on (λ t. t.transactions) (λ rows t. record t { transactions = rows })

  abbrev pub change_transactions :
      (List Transaction → Result (A × List Transaction)) → Tables → Result (A × Tables)
  change_transactions = change_on (λ t. t.transactions) (λ rows t. record t { transactions = rows })

abbrev pub write_products :
    (List Product → Result (List Product)) → Tables → Result (Unit {0} × Tables)
write_products = write_on (λ t. t.products) (λ rows t. record t { products = rows })

abbrev pub write_transactions :
    (List Transaction → Result (List Transaction)) → Tables → Result (Unit {0} × Tables)
write_transactions = write_on (λ t. t.transactions) (λ rows t. record t { transactions = rows })

abbrev pub same_key : Option String → String → Bool
same_key none k = false
same_key (some j) k = same j k

abbrev pub is_member : String → List String → Bool
is_member s List.[] = false
is_member s (List.◌∷◌ x xs) = same x s || is_member s xs

module _ {F : Type 0} (b : Backend F) where
  open b use {product_orm, transaction_orm}

  unfoldable pub get_product : String → Call Product
  get_product id = read_db (query_products (product_orm.first (λ p. same p.product_id id)))

  unfoldable pub get_products_by_ids : List String → Call (List Product)
  get_products_by_ids ids = read_db (
      query_products (
        product_orm.find (record {
          matching = λ p. is_member p.product_id ids;
          precedes = λ _ _. false;
          page = none;
        })))

  -- `Where(product_id).Assign(x).FirstOrCreate(x)`.
  unfoldable pub save_product : Product → Call (Unit {0})
  save_product x = write_db (
      write_products (
        product_orm.create_or_assign (λ old. record old { price = x.price; currency = x.currency })
          x))

  unfoldable pub update_product_row : Product → Call (Unit {0})
  update_product_row x = write_db (write_products (product_orm.save x))

  unfoldable pub delete_product_row : String → Call (Unit {0})
  delete_product_row id = write_db (write_products (product_orm.delete (λ p. same p.product_id id)))

  unfoldable pub register_transaction : Transaction → Call Transaction
  register_transaction x = write_db (change_transactions (transaction_orm.create x))

  unfoldable pub get_pending_transaction : String → Call Transaction
  get_pending_transaction key = read_db (
      query_transactions (
        transaction_orm.first
          (λ x. same_key x.checkout_key key && same x.status (status_text pending))))

  unfoldable pub update_transaction : Transaction → Call (Unit {0})
  update_transaction x = write_db (write_transactions (transaction_orm.save x))

  unfoldable pub get_transaction_by_payment_id : String → Call Transaction
  get_transaction_by_payment_id id =
      read_db (query_transactions (transaction_orm.first (λ x. same x.payment_id id)))

  unfoldable pub list_transactions : String → ℕ → ℕ → ℕ → Call (List Transaction)
  list_transactions status order skip take = read_db (
      query_transactions (
        transaction_orm.find (record {
          matching =
              λ x. (is_empty status || same x.status status) && (order == 0 || x.order_id == order);
          precedes = λ x y. ltb y.created_at x.created_at;
          page = if ltb 0 take then some (skip, take) else none;
        })))
