-- ===== src/Admin/Once.antt =====
-- An event that is delivered again.
pub mod Failed
pub mod Redelivered
use goshop_x.Admin.Apply.{
  ignored, declined, paid, placed, audited, fact_of, Fact, save_audit, save_daily, mark_processed,
  record_kind, find_metric, apply_body, apply_facts, record_fact, metric_row, or_create,
}
use goshop_x.Base.{
  inr, arith, inl, Result-cases, write_tx-IsKeeping, write_tx, keeping_rules, IsKeeping, err,
  Option, ok, contained_rules, String, IsContained, Result, ℕ, same, List, Bool,
}
use goshop_x.Admin.Tables.{save_metric, change_audit, change_metrics, Value, Backend, Tables}
use goshop_x.Admin.Models.{AuditEvent, DailyMetric, Envelope, ProcessedEvent}

-- The rows of processed events, whose primary key is the event's id.
abbrev pub same_event : ProcessedEvent → ProcessedEvent → Bool
same_event x y = same x.event_id y.event_id

abbrev pub seen : Tables → List ProcessedEvent
seen t = t.processed

module _ {F : Type 0} (b : Backend F) where
  or_create-IsContained : (d : ℕ) (found : Result DailyMetric) → IsContained (or_create b d found)
  unfolding or_create
  or_create-IsContained d (ok m) = search contained_rules depth 12
  or_create-IsContained d (err e) = search contained_rules depth 12

  metric_row-IsContained : (d : ℕ) → IsContained (metric_row b d)
  unfolding metric_row find_metric
  metric_row-IsContained d = search (contained_rules, or_create-IsContained) depth 12

  record_fact-IsContained :
      (e : Envelope) (fields : String → Option (Value F)) (m : DailyMetric)
      → IsContained (record_fact b e fields m)
  unfolding record_fact record_kind save_daily save_audit
  record_fact-IsContained e fields m = go (fact_of e.event_type)
    where
      go : (f : Fact) → IsContained (record_kind b e fields m f)
      go audited = search contained_rules depth 12
      go placed = search contained_rules depth 12
      go paid = search contained_rules depth 12
      go declined = search contained_rules depth 12
      go ignored = search contained_rules depth 12

  apply_facts-IsContained : (e : Envelope) → IsContained (apply_facts b e)
  unfolding apply_facts
  apply_facts-IsContained e =
      search (contained_rules, metric_row-IsContained, record_fact-IsContained) depth 12

  pub apply_body-IsContained : (topic : String) (e : Envelope) → IsContained (apply_body b topic e)
  unfolding apply_body mark_processed
  apply_body-IsContained topic e = search (contained_rules, apply_facts-IsContained) depth 12

  change_metrics-IsKeeping :
      {A : Type 0} (f : List DailyMetric → Result (A × List DailyMetric))
      → IsKeeping {E = Unit {0}} seen (write_tx (change_metrics f))
  change_metrics-IsKeeping f = write_tx-IsKeeping seen (change_metrics f) (λ t t' a e.
      elim (Result-cases (f t.metrics)) [
        | inl ((a', rows), k) ↦ ground (arith, k, e)
        | inr (x, k) ↦ ground (arith, k, e)
      ])

  change_audit-IsKeeping :
      {A : Type 0} (f : List AuditEvent → Result (A × List AuditEvent))
      → IsKeeping {E = Unit {0}} seen (write_tx (change_audit f))
  change_audit-IsKeeping f = write_tx-IsKeeping seen (change_audit f) (λ t t' a e.
      elim (Result-cases (f t.audit_events)) [
        | inl ((a', rows), k) ↦ ground (arith, k, e)
        | inr (x, k) ↦ ground (arith, k, e)
      ])

  save_metric-IsKeeping :
      (f : List DailyMetric → Result (List DailyMetric))
      → IsKeeping {E = Unit {0}} seen (write_tx (save_metric f))
  save_metric-IsKeeping f = write_tx-IsKeeping seen (save_metric f) (λ t t' a e.
      elim (Result-cases (f t.metrics)) [
        | inl (rows, k) ↦ ground (arith, k, e)
        | inr (x, k) ↦ ground (arith, k, e)
      ])

  ruleset seen_rules =
      (keeping_rules, change_metrics-IsKeeping, change_audit-IsKeeping, save_metric-IsKeeping)

  or_create-IsKeeping :
      (d : ℕ) (found : Result DailyMetric) → IsKeeping {E = Unit {0}} seen (or_create b d found)
  unfolding or_create
  or_create-IsKeeping d (ok m) = search seen_rules depth 12
  or_create-IsKeeping d (err e) = search seen_rules depth 12

  record_kind-IsKeeping :
      (e : Envelope) (fields : String → Option (Value F)) (m : DailyMetric) (f : Fact)
      → IsKeeping {E = Unit {0}} seen (record_kind b e fields m f)
  unfolding record_kind save_daily save_audit
  record_kind-IsKeeping e fields m audited = search seen_rules depth 12
  record_kind-IsKeeping e fields m placed = search seen_rules depth 12
  record_kind-IsKeeping e fields m paid = search seen_rules depth 12
  record_kind-IsKeeping e fields m declined = search seen_rules depth 12
  record_kind-IsKeeping e fields m ignored = search seen_rules depth 12

  pub apply_facts-IsKeeping : (e : Envelope) → IsKeeping {E = Unit {0}} seen (apply_facts b e)
  unfolding apply_facts metric_row find_metric record_fact
  apply_facts-IsKeeping e = search (seen_rules, or_create-IsKeeping, record_kind-IsKeeping) depth 14
