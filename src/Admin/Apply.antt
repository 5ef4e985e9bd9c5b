-- ===== src/Admin/Apply.antt =====
-- ApplyEvent, Quarantine and ReplayQuarantined of admin/internal/repository.go, and HandleMessage of
-- admin/internal/consumer.go.
use goshop_x.Admin.Models.{AuditEvent, Envelope, add_uint64, DailyMetric}
use goshop_x.Base.{
  false, write_db, record_not_found, read_db, time_now, lift, none, ◌>>◌, ◌>>=◌,
  unsupported_version, in_transaction, not, event_id_required, append, ok, raise, read_tx, ◌+ℤ◌,
  ◌||◌, true, err, is_empty, pure, write_tx, attempt, wrap64, same, ◌==◌, ◌^◌, some, Fault, Result,
  if◌then◌else◌, pos, Bool, ◌/◌, ◌*◌, ℤ, String, ℕ, Option,
}
use goshop_x.Admin.Tables.{
  other_value, change_quarantined, change_processed, change_audit, change_metrics, query_metrics,
  save_metric, text_value, number_value, Call, Value, Backend, Numbers,
}

abbrev pub is_missing : Fault → Bool
is_missing record_not_found = true
is_missing _ = false

module _ {F : Type 0} where
  unfoldable pub number : Numbers F → Option (Value F) → F
  number n (some (number_value x)) = x
  number n (some (text_value _)) = n.zero_float
  number n (some other_value) = n.zero_float
  number n none = n.zero_float

  unfoldable pub string_value : Option (Value F) → String
  string_value (some (text_value s)) = s
  string_value (some (number_value _)) = ""
  string_value (some other_value) = ""
  string_value none = ""

abbrev pub day : ℕ
day = 24 * 3600 * 10 ^ 9

-- `Truncate(24 * time.Hour)`.
abbrev pub day_of : ℕ → ℕ
day_of time = time / day * day

-- The mapper leaves a zero time out of a condition.
abbrev pub is_day : ℕ → DailyMetric → Bool
is_day d m = if d == 0 then true else m.day == d

abbrev pub blank_metric : ℕ → DailyMetric
blank_metric d = record {
  day = d;
  gmv = pos 0;
  revenue = pos 0;
  order_count = 0;
  payment_attempts = 0;
  successful_payments = 0;
}

-- What an event is to the projection.
pub data Fact : Type 0 where
  audited placed paid declined ignored : Fact

unfoldable pub fact_of : String → Fact
fact_of event_type =
    if same event_type "account_status_changed" || same event_type "account_role_changed"
    then audited
    else (if same event_type "order.created"
        then placed
        else (if same event_type "payment.success"
              || same event_type "payment.succeeded"
              || same event_type "payment.settled"
            then paid
            else (if same event_type "payment.failed" || same event_type "payment.failure"
                then declined
                else ignored)))

abbrev pub with_order : ℤ → DailyMetric → DailyMetric
with_order total m = record m {
  order_count = add_uint64 m.order_count 1;
  gmv = wrap64 (m.gmv +ℤ total);
}

abbrev pub with_payment : ℤ → DailyMetric → DailyMetric
with_payment total m = record m {
  payment_attempts = add_uint64 m.payment_attempts 1;
  successful_payments = add_uint64 m.successful_payments 1;
  revenue = wrap64 (m.revenue +ℤ total);
}

abbrev pub with_failure : DailyMetric → DailyMetric
with_failure m = record m { payment_attempts = add_uint64 m.payment_attempts 1 }

module _ {F : Type 0} (b : Backend F) where
  open b use {driver, numbers, processed_orm, quarantined_orm, audit_orm, metric_orm}

  unfoldable pub find_metric : ℕ → Call (Result DailyMetric)
  find_metric d = attempt (read_tx (query_metrics (metric_orm.first (is_day d))))

  unfoldable pub or_create : ℕ → Result DailyMetric → Call DailyMetric
  or_create d found = elim found [
    | ok m ↦ pure m
    | err e ↦
        if is_missing e
        then write_tx (change_metrics (metric_orm.create (blank_metric d)))
        else raise e
  ]

  -- `FirstOrCreate`.
  unfoldable pub metric_row : ℕ → Call DailyMetric
  metric_row d = do found ← find_metric d; or_create d found

  unfoldable pub save_daily : DailyMetric → Call (Unit {0})
  save_daily m = write_tx (save_metric (metric_orm.save m))

  abbrev pub audit_row : Envelope → (String → Option (Value F)) → AuditEvent
  audit_row e fields = record {
    event_id = e.event_id;
    actor_account_id = e.account_id;
    target_account_id = numbers.to_uint64 (number numbers (fields "target_account_id"));
    action = e.event_type;
    outcome = string_value (fields "outcome");
    request_id = string_value (fields "request_id");
    occurred_at = e.occurred_at;
  }

  unfoldable pub save_audit : AuditEvent → Call (Unit {0})
  save_audit row = do write_tx (change_audit (audit_orm.create_unless row)); pure tt

  abbrev pub total_price : (String → Option (Value F)) → ℤ
  total_price fields = numbers.to_int64 (number numbers (fields "total_price"))

  unfoldable pub record_kind :
      Envelope → (String → Option (Value F)) → DailyMetric → Fact → Call (Unit {0})
  record_kind e fields m audited = save_audit (audit_row e fields)
  record_kind e fields m placed = save_daily (with_order (total_price fields) m)
  record_kind e fields m paid = save_daily (with_payment (total_price fields) m)
  record_kind e fields m declined = save_daily (with_failure m)
  record_kind e fields m ignored = pure tt

  unfoldable pub record_fact :
      Envelope → (String → Option (Value F)) → DailyMetric → Call (Unit {0})
  record_fact e fields m = record_kind e fields m (fact_of e.event_type)

  unfoldable pub apply_facts : Envelope → Call (Unit {0})
  apply_facts e = do
    fields ← lift (b.fields_of e.content)
    m ← metric_row (day_of e.occurred_at)
    record_fact e fields m

  -- The number of rows that the insertion wrote.
  unfoldable pub mark_processed : String → Envelope → Call ℕ
  mark_processed topic e = do
    now ← time_now driver
    write_tx (
        change_processed (
          processed_orm.create_unless (record {
            event_id = e.event_id;
            topic = topic;
            occurred_at = e.occurred_at;
            created_at = now;
          })))

  unfoldable pub apply_body : String → Envelope → Call (Unit {0})
  apply_body topic e = do
    written ← mark_processed topic e
    if written == 0 then pure tt else apply_facts e

  unfoldable pub apply_event : String → Envelope → Call (Unit {0})
  apply_event topic e =
      if is_empty e.event_id
      then raise event_id_required
      else in_transaction driver (apply_body topic e)

  unfoldable pub quarantine : String → ℤ → ℤ → String → String → Call (Unit {0})
  quarantine topic partition offset payload reason = do
    now ← time_now driver
    write_db (
        change_quarantined (
          quarantined_orm.create (record {
            id = 0;
            topic = topic;
            partition = partition;
            offset = offset;
            payload = payload;
            reason = reason;
            created_at = now;
            replayed_at = none;
          })))
    pure tt

  unfoldable pub read_envelope : String → Result Envelope
  read_envelope payload = elim (b.unmarshal payload) [
    | err e ↦ err e
    | ok e ↦ if not (same e.version "v1") then err unsupported_version else ok e
  ]

  unfoldable pub handle_envelope : String → String → Call (Unit {0})
  handle_envelope topic payload = do e ← lift (read_envelope payload); apply_event topic e

  -- The message of an error that the decoder or the version gave, or of one of `ApplyEvent`.
  unfoldable pub reason_of : String → Fault → String
  reason_of payload e = elim (b.unmarshal payload) [
    | err _ ↦ append "invalid event envelope: " (b.show_fault e)
    | ok _ ↦ b.show_fault e
  ]

  -- What cannot be applied is put aside; an error of that is dropped.
  unfoldable pub handle_message : String → ℤ → ℤ → String → Call (Unit {0})
  handle_message topic partition offset payload = do
    handled ← attempt (handle_envelope topic payload)
    elim handled [
      | ok _ ↦ pure tt
      | err e ↦ do
        attempt (quarantine topic partition offset payload (reason_of payload e))
        raise e
    ]

  unfoldable pub mark_replayed : ℕ → Call (Unit {0})
  mark_replayed id = do
    now ← time_now driver
    write_db (
        change_quarantined
          (quarantined_orm.updates (λ q. q.id == id) (λ q. record q { replayed_at = some now })))
    pure tt

  -- The version of the envelope is not looked at again.
  unfoldable pub replay_quarantined : ℕ → Call (Unit {0})
  replay_quarantined id = do
    q ← read_db (λ t. quarantined_orm.first (λ q. q.id == id) t.quarantined)
    e ← lift (b.unmarshal q.payload)
    apply_event q.topic e
    mark_replayed q.id
