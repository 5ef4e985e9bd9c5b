-- ===== src/Examples/Payments.antt =====
-- A checkout of two products, a callback of the gateway, and its transaction.
use goshop_x.Base.{
  keep, ℕ, Fault, ◌⊎◌, if◌then◌else◌, split_commas, pos, String, ◌≡◌, refl, true, false, some, none,
  List, [], ◌∷◌, ok, arith, ◌≤◌, ◌<◌, ◌+◌, ◌*◌, ◌^◌, ◌&&◌, All, wrap64, ◌+ℤ◌, ◌*ℤ◌, ◌/ℤ◌, ◌%ℤ◌,
  trim_space, zero, suc, append, same, is_empty, parse_int64, Session, Driver, err, external,
}
use goshop_x.Memory.{memory, memory-Laws}
use goshop_x.Payment.Models.{Product, Transaction, Callback}
use goshop_x.Payment.Gateway.{
  Values, Network, Client, get_value, sign, signed_part, verify_ipn, one, callback_amount,
  callback_of,
}
use goshop_x.Payment.Gateway.Authentic.{is_signed, verify_ipn_authentic}
use goshop_x.Payment.Tables.{
  Tables, Backend, Float, get_transaction_by_payment_id, update_transaction,
}
use goshop_x.Payment.Session.{Quantities, add_lines, quantity_of}
use goshop_x.Payment.Session.Totals.{IsPriced, lines_total, add_lines_exact, add_lines_accepts}
use goshop_x.Payment.Callback.{answer, settled, settle, answer_found, answer_callback}
use goshop_x.Payment.Effects.{
  Clients, reservation_ids, reservation_parts, transition, transition_all, retry, apply_effects,
}
use goshop_x.Payment.Effects.Gate.{after, apply_effects-IsFailing, retry_lem}
use goshop_x.Payment.Callback.Once.{same_id, IsUniqueRef}
use goshop_x.Payment.Callback.Later.{settled_once, Callbacks, call, stop}

abbrev product : String → ℕ → Product
product id price = record {
  id = 0;
  product_id = id;
  price = pos price;
  currency = "VND";
  created_at = 0;
  updated_at = 0;
}

abbrev two_products : List Product
two_products = product "tea" 30_000 ∷ product "cup" 45_000 ∷ []

abbrev two_quantities : Quantities
two_quantities = ("tea", 2) ∷ ("cup", 1) ∷ []

two_products_added : add_lines two_products two_quantities (pos 0) ≡ ok (pos 105_000)
unfolding add_lines quantity_of ◌/ℤ◌ wrap64 ◌+ℤ◌ ◌*ℤ◌
two_products_added = refl

add_lines_exact_example :
    All IsPriced two_products
    × (pos 105_000 ≡ pos (0 + lines_total two_products two_quantities))
    × (0 + lines_total two_products two_quantities < 2 ^ 63)
add_lines_exact_example =
    add_lines_exact two_products two_quantities 0 (omega arith) two_products_added

add_lines_accepts_example :
    add_lines two_products two_quantities (pos 0)
    ≡ ok (pos (0 + lines_total two_products two_quantities))
unfolding quantity_of
add_lines_accepts_example =
    add_lines_accepts two_products two_quantities 0 ((refl, omega arith), ((refl, omega arith), tt))
      (omega arith)

-- A network in which the digest is the key before the text.
abbrev network : Network
network = record {
  parse_url = λ u. some (record { scheme = "https"; host = u; text = u });
  parse_ipv4 = some;
  encode = λ values. get_value values "vnp_TxnRef";
  hmac_hex = append;
  format_time = λ _. "20240101000000";
}

abbrev client : Client
client = record { tmn_code = "SHOP"; hash_secret = "key:"; payment_url = "https://pay.example" }

abbrev values : Values
values =
    ("vnp_SecureHash", one "key:ref1")
    ∷ ("vnp_TmnCode", one "SHOP")
    ∷ ("vnp_TxnRef", one "ref1")
    ∷ ("vnp_Amount", one "10500000")
    ∷ ("vnp_ResponseCode", one "00")
    ∷ ("vnp_TransactionStatus", one "00")
    ∷ ("vnp_TransactionNo", one "77")
    ∷ []

abbrev callback : Callback
callback = record {
  transaction_ref = "ref1";
  provider_transaction_id = "77";
  amount_vnd = pos 105_000;
  success = true;
  response_code = "00";
  transaction_status = "00";
}

values_verified : verify_ipn network client values ≡ ok callback
unfolding verify_ipn sign signed_part get_value callback_amount callback_of trim_space parse_int64
    ◌%ℤ◌ ◌/ℤ◌
values_verified = refl

verify_ipn_authentic_example :
    (same
        (get_value values "vnp_SecureHash")
        (network.hmac_hex "key:" (network.encode (keep is_signed values)))
      ≡ true)
    × (same (get_value values "vnp_TmnCode") "SHOP" ≡ true)
    × ("ref1" ≡ trim_space (get_value values "vnp_TxnRef"))
    × (is_empty "ref1" ≡ false)
    × ((k : ℕ) × (1 ≤ k)
        × (pos 105_000 ≡ pos k)
        × (parse_int64 (get_value values "vnp_Amount") ≡ some (pos (k * 100))))
    × (true ≡ (
        same (get_value values "vnp_ResponseCode") "00"
        && same (get_value values "vnp_TransactionStatus") "00"))
verify_ipn_authentic_example = verify_ipn_authentic network client values callback values_verified

abbrev transaction : Transaction
transaction = record {
  id = 5;
  created_at = 1;
  order_id = 9;
  user_id = 4;
  checkout_key = some "order:9";
  payment_id = "ref1";
  total_price = pos 105_000;
  settled_price = pos 0;
  currency = "VND";
  status = "Pending";
  reservation_ids = "r1,r2";
}

-- Prices stand for themselves, in whole đồng.
abbrev float : Float ℕ
float = record {
  is_nan = λ _. false;
  is_inf = λ _. false;
  is_positive = λ _. true;
  at_least_100 = λ _. false;
  reduce = λ x _. x;
  round = pos;
}

abbrev driver : Driver Tables
driver = record { begin_fault = λ _. none; commit_fault = λ _. none; clock = λ i. i }

abbrev backend : Backend ℕ
backend = record {
  driver = driver;
  product_orm =
      memory (λ p q. same p.product_id q.product_id) (λ p q. same p.product_id q.product_id)
        (λ _ p. p);
  transaction_orm = memory same_id same_id (λ _ x. x);
  float = float;
  network = network;
  client = client;
  catalog = none;
  orders = none;
  random_hex = λ _. err (external 0);
}

abbrev waiting : Session Tables (Unit {0})
waiting = record {
  db = record { products = two_products; transactions = transaction ∷ [] };
  tx = none;
  ticks = 0;
  published = [];
}

abbrev paid : Session Tables (Unit {0})
unfolding settled
paid = record waiting {
  db = record { products = two_products; transactions = settled callback transaction ∷ [] };
}

first_callback :
    answer_callback backend callback waiting
    ≡ (ok (answer (some (settled callback transaction)) true "00"), paid)
unfolding answer_callback answer_found settle settled get_transaction_by_payment_id
    update_transaction
first_callback = refl

second_callback :
    answer_callback backend callback paid
    ≡ (ok (answer (some (settled callback transaction)) false "02"), paid)
unfolding answer_callback answer_found settle settled get_transaction_by_payment_id
    update_transaction
second_callback = refl

one_row : IsUniqueRef (transaction ∷ [])
one_row x y (zero, e) (zero, e') h = cc
one_row x y (suc i, e) (j, e') h = absurd (cc)
one_row x y (zero, e) (suc j, e') h = absurd (cc)

second_run : Callbacks backend paid paid
second_run =
    call paid paid paid paid callback (ok (answer (some (settled callback transaction)) false "02"))
      second_callback refl (stop paid)

settled_once_example : (false ≡ false) × (paid ≡ paid)
settled_once_example =
    settled_once backend (memory-Laws same_id same_id (λ _ x. x) (λ _ _. Unit) (λ _ _. tt)) callback
      callback waiting paid paid paid paid (answer (some (settled callback transaction)) true "00")
      (answer (some (settled callback transaction)) false "02") one_row first_callback refl
      second_run refl refl second_callback

-- Clients of services that count the calls, where the inventory refuses the reservation "r2".
abbrev clients : Clients ℕ
clients = record {
  commit_reservation = λ id n. (if same id "r2" then err (external 1) else ok tt, n + 1);
  release_reservation = λ id n. (ok tt, n + 1);
  update_order_status = λ order status n. (ok tt, n + 100);
  clear_cart = λ account n. (ok tt, n + 1000);
}

abbrev success_transaction : Transaction
success_transaction = record transaction { status = "Success" }

apply_effects-IsFailing_example : apply_effects clients success_transaction 0 ≡ (ok tt, 4)
unfolding reservation_ids reservation_parts split_commas trim_space transition_all retry
apply_effects-IsFailing_example =
    apply_effects-IsFailing clients success_transaction "r2" 0 (1, refl) (λ w. (external 1, refl))

retry_lem_example :
    ((k : ℕ) × (k < 3)
      × ((i : ℕ)
          → i < k
          → (e : Fault) × (((transition clients "Success" "r2")
                (after i (transition clients "Success" "r2") 0)).0
              ≡ err e))
      × (((transition clients "Success" "r2") (after k (transition clients "Success" "r2") 0)).0
          ≡ ok tt)
      × (retry clients 3 (transition clients "Success" "r2") 0
          ≡ (ok true, after (suc k) (transition clients "Success" "r2") 0)))
    ⊎ (((i : ℕ)
          → i < 3
          → (e : Fault) × (((transition clients "Success" "r2")
                (after i (transition clients "Success" "r2") 0)).0
              ≡ err e))
        × (retry clients 3 (transition clients "Success" "r2") 0
            ≡ (ok false, after 3 (transition clients "Success" "r2") 0)))
retry_lem_example = retry_lem clients 3 (transition clients "Success" "r2") 0
