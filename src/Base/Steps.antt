-- ===== src/Base/Steps.antt =====
-- Reading a successful call backwards, and what holds of every call of a kind.
use mathlib.Core.Path.{◌≡◌, refl}
use mathlib.Core.Logic.{inl, inr}
use mathlib.Core.Option.{some, none}
use mathlib.Core.List.{List}
use goshop_x.Base.Sessions.{Session, Driver, read_tx, write_tx, write_db, commit}
use goshop_x.Base.Mapper.{change_on, write_on}
use native.Mathlib.Omega.{arith}
use goshop_x.Base.Outcome.{Result, ok, err, Result-cases, Action, ◌>>=◌}

-- A chain that succeeds went through its first call and then through the rest.
pub >>=-eq-ok :
    {S A B : Type 0} (m : Action S A) (f : A → Action S B) (s : S) {b : B} {u : S}
    → (m >>= f) s ≡ (ok b, u)
    → (a : A) × (t : S) × (m s ≡ (ok a, t)) × (f a t ≡ (ok b, u))
>>=-eq-ok {S} {A} {B} m f s {b} {u} e = go (m s) refl
  where
    go : (r : Result A × S) → m s ≡ r → (a : A) × (t : S) × (m s ≡ (ok a, t)) × (f a t ≡ (ok b, u))
    go (ok a, t) h = (a, t, h, ground arith)
    go (err x, t) h = ground arith

module _ {T E : Type 0} where
  -- What a successful statement in the open transaction did.
  pub write_tx_lem :
      {A : Type 0} (f : T → Result (A × T)) (s : Session T E) (t : T) {a : A} {u : Session T E}
      → s.tx ≡ some t
      → write_tx f s ≡ (ok a, u)
      → (t' : T) × (f t ≡ ok (a, t')) × (u ≡ record s { tx = some t' })
  write_tx_lem f s t {a} {u} inside e = elim (Result-cases (f t)) [
    | inl ((a', t'), k) ↦ (t', ground arith, ground arith)
    | inr (x, k) ↦ ground arith
  ]

  pub read_tx_lem :
      {A : Type 0} (f : T → Result A) (s : Session T E) (t : T) {a : A} {u : Session T E}
      → s.tx ≡ some t
      → read_tx f s ≡ (ok a, u)
      → (f t ≡ ok a) × (u ≡ s)
  read_tx_lem f s t inside e = ground arith

  -- The same outside a transaction.
  pub write_db_lem :
      {A : Type 0} (f : T → Result (A × T)) (s : Session T E) {a : A} {u : Session T E}
      → write_db f s ≡ (ok a, u)
      → (t' : T) × (f s.db ≡ ok (a, t')) × (u ≡ record s { db = t' })
  write_db_lem f s {a} {u} e = elim (Result-cases (f s.db)) [
    | inl ((a', t'), k) ↦ (t', ground arith, ground arith)
    | inr (x, k) ↦ ground arith
  ]

  pub commit_lem :
      (d : Driver T) (s : Session T E) (t : T) {a : Unit {0}} {u : Session T E}
      → s.tx ≡ some t
      → commit d s ≡ (ok a, u)
      → u ≡ record s { db = t; tx = none }
  commit_lem d s t inside e = ground arith

module _ {T R : Type 0} (get : T → List R) (put : List R → T → T) where
  pub change_on_lem :
      {A : Type 0} (f : List R → Result (A × List R)) (t : T) {a : A} {t' : T}
      → change_on get put f t ≡ ok (a, t')
      → (rows : List R) × (f (get t) ≡ ok (a, rows)) × (t' ≡ put rows t)
  change_on_lem f t e = elim (Result-cases (f (get t))) [
    | inl ((a', rows), k) ↦ (rows, ground arith, ground arith)
    | inr (x, k) ↦ ground arith
  ]

  pub write_on_lem :
      (f : List R → Result (List R)) (t : T) {a : Unit {0}} {t' : T}
      → write_on get put f t ≡ ok (a, t')
      → (rows : List R) × (f (get t) ≡ ok rows) × (t' ≡ put rows t)
  write_on_lem f t e = elim (Result-cases (f (get t))) [
    | inl (rows, k) ↦ (rows, k, ground arith)
    | inr (x, k) ↦ ground arith
  ]
