-- ===== src/Examples/Reports.antt =====
-- An order that is reported on tables in memory, where natural numbers stand for floating point.
use goshop_x.Admin.Tables.{Tables, Backend, number_value, Numbers}
use goshop_x.Admin.Models.{AuditEvent, OrderFact, DailyMetric, Envelope}
use goshop_x.Admin.Apply.{
  reason_of, quarantine, read_envelope, handle_envelope, number, save_daily, fact_of, record_kind,
  record_fact, or_create, find_metric, metric_row, apply_facts, mark_processed, apply_body, day,
  handle_message, apply_event,
}
use goshop_x.Admin.Once.{same_event}
use goshop_x.Memory.{memory, memory-Laws}
use goshop_x.Admin.Reporting.{build_dashboard}
use goshop_x.Admin.Once.Failed.{handle_message-eq-err}
use goshop_x.Admin.Once.Redelivered.{apply_event-once}
use goshop_x.Admin.Reporting.Products.{metric_of}
use goshop_x.Admin.Reporting.Sums.{build_dashboard-products, sold_quantity, sold_gmv}
use goshop_x.Base.{
  ◌^◌, ◌%◌, some, if◌then◌else◌, arith, length, ◌+ℤ◌, external, ◌+◌, ◌/◌, refl, ◌∷◌, err, [], none,
  ◌==◌, same, pos_part, ℤ, pos, ok, Bool, ◌*◌, ℕ, wrap64, List, String, ◌≡◌, Session,
}

abbrev numbers : Numbers ℕ
numbers = record {
  zero_float = 0;
  to_int64 = pos;
  to_uint64 = λ n. n;
  ratio = λ total n. pos_part total / n;
}

abbrev created : Envelope
created = record {
  version = "v1";
  event_id = "e1";
  event_type = "order.created";
  occurred_at = 3 * day + 5;
  account_id = 7;
  recipient_email = "";
  event_key = "1";
  content = "{}";
}

abbrev same_audit : AuditEvent → AuditEvent → Bool
same_audit x y = same x.event_id y.event_id

abbrev same_day : DailyMetric → DailyMetric → Bool
same_day x y = x.day == y.day

abbrev backend : Backend ℕ
backend = record {
  driver = record { begin_fault = λ _. none; commit_fault = λ _. none; clock = λ i. i };
  numbers = numbers;
  processed_orm = memory same_event same_event (λ _ x. x);
  quarantined_orm =
      memory (λ x y. x.id == y.id) (λ x y. x.id == y.id)
        (λ rows q. record q { id = length rows + 1 });
  audit_orm = memory same_audit same_audit (λ _ x. x);
  metric_orm = memory same_day same_day (λ _ x. x);
  product_metric_orm =
      memory (λ x y. same x.product_id y.product_id) (λ x y. same x.product_id y.product_id)
        (λ _ x. x);
  unmarshal = λ payload. if same payload "bad" then err (external 4) else ok created;
  fields_of =
      λ _. ok (λ name. if same name "total_price" then some (number_value 120_000) else none);
  show_fault = λ _. "fault";
}

abbrev nothing : Session Tables (Unit {0})
nothing = record {
  db = record {
    processed = [];
    quarantined = [];
    audit_events = [];
    metrics = [];
    product_metrics = [];
  };
  tx = none;
  ticks = 0;
  published = [];
}

abbrev reported : Session Tables (Unit {0})
reported = record nothing {
  db = record nothing.db {
    processed =
        record { event_id = "e1"; topic = "orders"; occurred_at = 3 * day + 5; created_at = 0 }
        ∷ [];
    metrics =
        record {
          day = 3 * day;
          gmv = pos 120_000;
          revenue = pos 0;
          order_count = 1;
          payment_attempts = 0;
          successful_payments = 0;
        }
        ∷ [];
  };
  ticks = 1;
}

first_delivery : apply_event backend "orders" created nothing ≡ (ok tt, reported)
unfolding apply_event apply_body mark_processed apply_facts metric_row find_metric or_create
    record_fact record_kind fact_of save_daily wrap64 ◌+ℤ◌ number
first_delivery = refl

apply_event-once_example : (apply_event backend "replayed" created reported).1.db ≡ reported.db
apply_event-once_example =
    apply_event-once backend
      (memory-Laws same_event same_event (λ _ x. x) (λ r r'. r' ≡ r) (λ _ _. refl)) "orders"
      "replayed" created nothing reported reported first_delivery refl

abbrev put_aside : Session Tables (Unit {0})
put_aside = record reported {
  db = record reported.db {
    quarantined =
        record {
          id = 1;
          topic = "orders";
          partition = pos 0;
          offset = pos 9;
          payload = "bad";
          reason = "invalid event envelope: fault";
          created_at = 1;
          replayed_at = none;
        }
        ∷ [];
  };
  ticks = 2;
}

unreadable :
    handle_message backend "orders" (pos 0) (pos 9) "bad" reported ≡ (err (external 4), put_aside)
unfolding handle_message handle_envelope read_envelope quarantine reason_of
unreadable = refl

handle_message-eq-err_example :
    record (put_aside.db) { quarantined = reported.db.quarantined } ≡ reported.db
handle_message-eq-err_example =
    handle_message-eq-err backend "orders" (pos 0) (pos 9) "bad" reported unreadable

abbrev sold : String → ℤ → OrderFact
sold product gmv = record {
  event_id = "e";
  occurred_at = 10;
  order_id = 1;
  product_id = product;
  quantity = 2;
  gmv = gmv;
  status = "paid";
}

abbrev sales : List OrderFact
sales = sold "tea" (pos 50) ∷ sold "jam" (pos 70) ∷ sold "tea" (pos 60) ∷ []

tea_sold : wrap64 (sold_gmv 0 100 "tea" sales) ≡ pos 110
unfolding wrap64 ◌+ℤ◌
tea_sold = refl

build_dashboard-products_example :
    let m = metric_of "tea" (build_dashboard numbers 0 100 sales [] (pos 0)).top_products in
    (m.quantity ≡ sold_quantity 0 100 "tea" sales % 2 ^ 64)
    × (m.gmv ≡ wrap64 (sold_gmv 0 100 "tea" sales))
build_dashboard-products_example =
    build_dashboard-products numbers 0 100 sales [] (pos 0) "tea" (omega arith)
