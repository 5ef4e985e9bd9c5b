-- ===== src/Admin/Once/Failed.antt =====
-- A message that cannot be applied.
use goshop_x.Admin.Once.{apply_body-IsContained}
use goshop_x.Base.{
  refl, ap, subst, raise, ◌>>◌, in_transaction-eq-err, attempt, is_empty, pure, Bool-cases, ok,
  arith, inr, inl, Result, none, err, Result-cases, Fault, ◌≡◌, Session, ℤ, String,
}
use goshop_x.Admin.Apply.{
  apply_body, reason_of, read_envelope, apply_event, handle_message, handle_envelope, quarantine,
}
use goshop_x.Admin.Tables.{Call, Tables, Backend}

module _ {F : Type 0} (b : Backend F) where
  quarantine_lem :
      (topic : String) (partition offset : ℤ) (payload reason : String)
      (s : Session Tables (Unit {0}))
      → record ((quarantine b topic partition offset payload reason s).1.db) {
        quarantined = s.db.quarantined;
      }
        ≡ s.db
  unfolding quarantine
  quarantine_lem topic partition offset payload reason s =
      elim (Result-cases (
        b.quarantined_orm.create
          (record {
            id = 0;
            topic = topic;
            partition = partition;
            offset = offset;
            payload = payload;
            reason = reason;
            created_at = b.driver.clock s.ticks;
            replayed_at = none;
          })
          s.db.quarantined)) [
            | inl ((q, rows), k) ↦ ground (arith, k)
            | inr (x, k) ↦ ground (arith, k)
          ]

  handle_envelope-eq-err :
      (topic payload : String) (s : Session Tables (Unit {0})) {e : Fault}
      {t : Session Tables (Unit {0})}
      → handle_envelope b topic payload s ≡ (err e, t)
      → t.db ≡ s.db
  unfolding handle_envelope apply_event
  handle_envelope-eq-err topic payload s {e} {t} eq =
      elim (Result-cases (read_envelope b payload)) [
        | inr (x, k) ↦ ground (arith, k, eq)
        | inl (event, k) ↦ elim (Bool-cases (is_empty event.event_id)) [
          | inl missing ↦ ground (arith, k, missing, eq)
          | inr named ↦
              (in_transaction-eq-err b.driver (apply_body b topic event) s {e = e} {t = t}
                (apply_body-IsContained b topic event) (ground (arith, k, named, eq))).0
        ]
      ]

  -- A message whose handling ends in an error, be it that it cannot be read, that its version is unknown
  -- or that a statement or the commit fails, changes at most the table of quarantined messages: no
  -- metric, no audit event and no processed event is added or changed.
  pub handle_message-eq-err :
      (topic : String) (partition offset : ℤ) (payload : String) (s : Session Tables (Unit {0}))
      {e : Fault} {t : Session Tables (Unit {0})}
      → handle_message b topic partition offset payload s ≡ (err e, t)
      → record (t.db) { quarantined = s.db.quarantined } ≡ s.db
  unfolding handle_message
  handle_message-eq-err topic partition offset payload s {e} {t} eq =
      go (handle_envelope b topic payload s) refl
    where
      after : (r : Result (Unit {0})) → Call (Unit {0})
      after r = elim r [
        | ok _ ↦ pure tt
        | err f ↦
            attempt (quarantine b topic partition offset payload (reason_of b payload f)) >> raise f
      ]

      go :
          (p : Result (Unit {0}) × Session Tables (Unit {0}))
          → handle_envelope b topic payload s ≡ p
          → record (t.db) { quarantined = s.db.quarantined } ≡ s.db
      go (ok a, u) k =
          let ended : after (ok a) u ≡ (err e, t) =
            subst
              (λ (p : Result (Unit {0}) × Session Tables (Unit {0})). after p.0 p.1 ≡ (err e, t)) k
              eq in
          ground (arith, ended)
      go (err f, u) k =
          let ended : after (err f) u ≡ (err e, t) =
            subst
              (λ (p : Result (Unit {0}) × Session Tables (Unit {0})). after p.0 p.1 ≡ (err e, t)) k
              eq in
          let kept : u.db ≡ s.db = handle_envelope-eq-err topic payload s k in
          let aside = quarantine_lem topic partition offset payload (reason_of b payload f) u in
          let left : (quarantine b topic partition offset payload (reason_of b payload f) u).1 ≡ t =
            ap (λ (p : Result (Unit {0}) × Session Tables (Unit {0})). p.1) ended in
          subst (λ (d : Tables). record (t.db) { quarantined = d.quarantined } ≡ d) kept
            (subst
              (λ (v : Session Tables (Unit {0})).
                record (v.db) { quarantined = u.db.quarantined } ≡ u.db)
              left aside)
