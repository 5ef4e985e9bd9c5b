-- ===== src/Admin/Tables.antt =====
-- The tables of the admin database, and what the service takes from outside.
use goshop_x.Admin.Models.{
  Envelope, ProductDailyMetric, QuarantinedEvent, DailyMetric, AuditEvent, ProcessedEvent,
}
use goshop_x.Base.{
  Fault, Option, write_on, query_on, change_on, Result, Session, Orm, ℕ, Action, Driver, List,
  String, ℤ,
}

-- `float64`: zero, the two conversions that are made of one, and the quotients that are taken.
pub record Numbers (F : Type 0) : Type 0 where
  pub zero_float : F
  pub to_int64 : F → ℤ
  pub to_uint64 : F → ℕ
  pub ratio : ℤ → ℕ → F

-- A value of a JSON object after `json.Unmarshal`: every number is a `float64`.
pub data Value (F : Type 0) : Type 0 where
  number_value : F → Value F
  text_value : String → Value F
  other_value : Value F

pub record Tables : Type 0 where
  pub processed : List ProcessedEvent
  pub quarantined : List QuarantinedEvent
  pub audit_events : List AuditEvent
  pub metrics : List DailyMetric
  pub product_metrics : List ProductDailyMetric

pub record Backend (F : Type 0) : Type 0 where
  pub driver : Driver Tables
  pub numbers : Numbers F
  pub processed_orm : Orm ProcessedEvent
  pub quarantined_orm : Orm QuarantinedEvent
  pub audit_orm : Orm AuditEvent
  pub metric_orm : Orm DailyMetric
  pub product_metric_orm : Orm ProductDailyMetric
  -- The envelope of a message, or why there is none.
  pub unmarshal : String → Result Envelope
  -- The fields of an event's data, after it was marshalled and read again.
  pub fields_of : String → Result (String → Option (Value F))
  pub show_fault : Fault → String

abbrev pub Call : Type 0 → Type 0
Call = Action (Session Tables (Unit {0}))

module _ {A : Type 0} where
  abbrev pub change_processed :
      (List ProcessedEvent → Result (A × List ProcessedEvent)) → Tables → Result (A × Tables)
  change_processed = change_on (λ t. t.processed) (λ rows t. record t { processed = rows })

  abbrev pub change_audit :
      (List AuditEvent → Result (A × List AuditEvent)) → Tables → Result (A × Tables)
  change_audit = change_on (λ t. t.audit_events) (λ rows t. record t { audit_events = rows })

  abbrev pub change_metrics :
      (List DailyMetric → Result (A × List DailyMetric)) → Tables → Result (A × Tables)
  change_metrics = change_on (λ t. t.metrics) (λ rows t. record t { metrics = rows })

  abbrev pub change_quarantined :
      (List QuarantinedEvent → Result (A × List QuarantinedEvent)) → Tables → Result (A × Tables)
  change_quarantined = change_on (λ t. t.quarantined) (λ rows t. record t { quarantined = rows })

  abbrev pub query_metrics : (List DailyMetric → Result A) → Tables → Result A
  query_metrics = query_on (λ t. t.metrics) (λ rows t. record t { metrics = rows })

abbrev pub save_metric :
    (List DailyMetric → Result (List DailyMetric)) → Tables → Result (Unit {0} × Tables)
save_metric = write_on (λ t. t.metrics) (λ rows t. record t { metrics = rows })
