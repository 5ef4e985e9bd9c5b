-- ===== src/Base/Sessions.antt =====
-- A connection to the database of one service: the committed tables, the transaction that is open,
-- how often the clock was read, and the events handed to the producer's goroutines.
use Prim.Native.Nat.{ℕ, suc, ◌≤◌}
use mathlib.Core.Option.{Option, none, some}
use mathlib.Core.List.{List, [], ◌∷◌, ◌++◌}
use goshop_x.Base.Outcome.{
  Fault, external_closed, Result, ok, err, Action, modify, on_error, pure, ◌>>=◌, ◌>>◌,
}

pub record Session (T E : Type 0) : Type 0 where
  pub db : T
  pub tx : Option T
  pub ticks : ℕ
  pub published : List E

-- What the driver decides: whether a transaction can begin, whether it can be committed, and what
-- each reading of the clock shows. All of it is arbitrary.
pub record Driver (T : Type 0) : Type 0 where
  pub begin_fault : T → Option Fault
  pub commit_fault : T → Option Fault
  pub clock : ℕ → ℕ

-- Time does not run backwards between two readings.
abbrev pub IsMonotone : {T : Type 0} → Driver T → Type 0
IsMonotone d = (i : ℕ) → d.clock i ≤ d.clock (suc i)

module _ {T E : Type 0} where
  -- `db.Begin()`. After a failure no transaction is open, and the statements on it fail.
  abbrev pub begin : Driver T → Session T E → Session T E
  begin d s = elim (d.begin_fault s.db) [
    | none ↦ record s { tx = some s.db }
    | some _ ↦ record s { tx = none }
  ]

  -- `tx.Rollback()`: what the transaction wrote is dropped. After a commit it does nothing.
  abbrev pub rollback : Session T E → Session T E
  rollback s = record s { tx = none }

  -- `tx.Commit()`. The transaction ends whether or not the commit goes through.
  abbrev pub commit : Driver T → Action (Session T E) (Unit {0})
  commit d s = elim s.tx [
    | none ↦ (err external_closed, s)
    | some t ↦ elim (d.commit_fault t) [
      | none ↦ (ok tt, record s { db = t; tx = none })
      | some e ↦ (err e, record s { tx = none })
    ]
  ]

  -- A statement that reads, or one that also writes, in the open transaction.
  abbrev pub read_tx : {A : Type 0} → (T → Result A) → Action (Session T E) A
  read_tx f s = elim s.tx [ none ↦ (err external_closed, s) | some t ↦ (f t, s) ]

  abbrev pub write_tx : {A : Type 0} → (T → Result (A × T)) → Action (Session T E) A
  write_tx f s = elim s.tx [
    | none ↦ (err external_closed, s)
    | some t ↦ elim (f t) [ ok (a, t') ↦ (ok a, record s { tx = some t' }) | err e ↦ (err e, s) ]
  ]

  -- The same outside a transaction, where a statement commits by itself.
  abbrev pub read_db : {A : Type 0} → (T → Result A) → Action (Session T E) A
  read_db f s = (f s.db, s)

  abbrev pub write_db : {A : Type 0} → (T → Result (A × T)) → Action (Session T E) A
  write_db f s = elim (f s.db) [ ok (a, t') ↦ (ok a, record s { db = t' }) | err e ↦ (err e, s) ]

  -- `time.Now()`.
  abbrev pub time_now : Driver T → Action (Session T E) ℕ
  time_now d s = (ok (d.clock s.ticks), record s { ticks = suc s.ticks })

  abbrev pub publish : E → Action (Session T E) (Unit {0})
  publish e s = (ok tt, record s { published = s.published ++ (e ∷ []) })

  -- The frame of a transaction: every error inside it is followed by `tx.Rollback()`, and what is
  -- returned otherwise is returned after `tx.Commit()`.
  abbrev pub in_transaction :
      {A : Type 0} → Driver T → Action (Session T E) A → Action (Session T E) A
  in_transaction d body = do modify (begin d); a ← on_error body rollback; commit d; pure a
