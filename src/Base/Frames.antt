-- ===== src/Base/Frames.antt =====
-- Calls that write in the open transaction only, and the transactions around them.
use mathlib.Core.Path.{◌≡◌, refl, sym, ap, subst, ◌∙◌}
use mathlib.Core.Bool.{Bool, true, false}
use mathlib.Core.Logic.{inl, inr}
use mathlib.Core.Option.{none, some}
use native.Mathlib.Omega.{arith}
use goshop_x.Base.Tests.{Option-cases, if◌then◌else◌}
use goshop_x.Base.Outcome.{
  Fault, Result, ok, err, Result-cases, Action, ◌>>=◌, raise_if, raise, attempt, pure, lift,
}
use goshop_x.Base.Sessions.{
  Session, Driver, begin, rollback, commit, read_tx, write_tx, time_now, in_transaction,
}

-- How a chain goes on from what its first call left.
abbrev pub resume : {S A B : Type 0} → Result A × S → (A → Action S B) → Result B × S
resume p f = elim (p.0) [ ok a ↦ f a p.1 | err e ↦ (err e, p.1) ]

module _ {T E : Type 0} where
  -- The committed tables and the events stay as they are, whatever the result.
  pub record IsContained {A : Type 0} (m : Action (Session T E) A) : Type 0 where
    pub contained : (s : Session T E) → ((m s).1.db ≡ s.db) × ((m s).1.published ≡ s.published)

  pub >>=-IsContained :
      {A B : Type 0} (m : Action (Session T E) A) (f : A → Action (Session T E) B)
      → IsContained m
      → ((a : A) → IsContained (f a))
      → IsContained (m >>= f)
  >>=-IsContained {A} {B} m f h k = record { contained = λ s. go s (m s) refl }
    where
      resumed :
          (s : Session T E) {p q : Result A × Session T E}
          → p ≡ q
          → ((resume p f).1.db ≡ s.db) × ((resume p f).1.published ≡ s.published)
          → ((resume q f).1.db ≡ s.db) × ((resume q f).1.published ≡ s.published)
      resumed s {p} {q} e h =
          subst (λ x. ((resume x f).1.db ≡ s.db) × ((resume x f).1.published ≡ s.published)) e h

      go :
          (s : Session T E) (r : Result A × Session T E)
          → m s ≡ r
          → (((m >>= f) s).1.db ≡ s.db) × (((m >>= f) s).1.published ≡ s.published)
      go s (ok a, t) e =
          let kept : (t.db ≡ s.db) × (t.published ≡ s.published) = rw e at (h.contained s) in
          let (same_db, same_events) = (k a).contained t in
          resumed s (sym e) (same_db ∙ kept.0, same_events ∙ kept.1)
      go s (err x, t) e =
          let kept : (t.db ≡ s.db) × (t.published ≡ s.published) = rw e at (h.contained s) in
          resumed s (sym e) kept

  pub write_tx-IsContained : {A : Type 0} (f : T → Result (A × T)) → IsContained (write_tx f)
  write_tx-IsContained f = record {
    contained = λ s. elim (Option-cases s.tx) [
      | inl closed ↦ (ground arith, ground arith)
      | inr (t, inside) ↦ elim (Result-cases (f t)) [
        | inl ((a, t'), e) ↦ (ground arith, ground arith)
        | inr (x, e) ↦ (ground arith, ground arith)
      ]
    ];
  }

  pub read_tx-IsContained : {A : Type 0} (f : T → Result A) → IsContained (read_tx f)
  read_tx-IsContained f = record {
    contained = λ s. elim (Option-cases s.tx) [
      | inl closed ↦ (ground arith, ground arith)
      | inr (t, inside) ↦ (ground arith, ground arith)
    ];
  }

  pub if-IsContained :
      {A : Type 0} (c : Bool) (m n : Action (Session T E) A)
      → IsContained m
      → IsContained n
      → IsContained (if c then m else n)
  if-IsContained true m n h k = h
  if-IsContained false m n h k = k

  pub pure-IsContained : {A : Type 0} (a : A) → IsContained (pure {S = Session T E} a)
  pure-IsContained a = record { contained = λ s. (refl, refl) }

  pub lift-IsContained : {A : Type 0} (r : Result A) → IsContained (lift {S = Session T E} r)
  lift-IsContained r = record { contained = λ s. (refl, refl) }

  pub raise-IsContained : {A : Type 0} (e : Fault) → IsContained (raise {S = Session T E} {A = A} e)
  raise-IsContained e = record { contained = λ s. (refl, refl) }

  pub attempt-IsContained :
      {A : Type 0} (m : Action (Session T E) A) → IsContained m → IsContained (attempt m)
  attempt-IsContained m h = record { contained = h.contained }

  pub raise_if-IsContained : (c : Bool) (e : Fault) → IsContained (raise_if {S = Session T E} c e)
  raise_if-IsContained c e = record { contained = λ s. (refl, refl) }

  pub time_now-IsContained : (d : Driver T) → IsContained (time_now {E = E} d)
  time_now-IsContained d = record { contained = λ s. (refl, refl) }

  pub ruleset contained_rules = (
    >>=-IsContained, pure-IsContained, lift-IsContained, raise_if-IsContained, time_now-IsContained,
    read_tx-IsContained, write_tx-IsContained, if-IsContained, raise-IsContained,
    attempt-IsContained,
  )

  begin_lem :
      (d : Driver T) (s : Session T E)
      → ((begin d s).db ≡ s.db) × ((begin d s).published ≡ s.published)
  begin_lem d s = elim (Option-cases (d.begin_fault s.db)) [
    | inl free ↦ (ground arith, ground arith)
    | inr (x, fault) ↦ (ground arith, ground arith)
  ]

  -- What `in_transaction` does with what its body left.
  abbrev pub finish : {A : Type 0} → Driver T → Result A × Session T E → Result A × Session T E
  finish d p =
      resume (elim (p.0) [ ok a ↦ (ok a, p.1) | err e ↦ (err e, rollback p.1) ])
        (λ a. commit {E = E} d >>= λ _. pure a)

  pub failed_commit_lem :
      {A : Type 0} (d : Driver T) (u : Session T E) (a : A) {e : Fault} {t : Session T E}
      → finish d (ok a, u) ≡ (err e, t)
      → (t.db ≡ u.db) × (t.published ≡ u.published) × (t.tx ≡ none)
  failed_commit_lem d u a eq = elim (Option-cases u.tx) [
    | inl closed ↦ (ground arith, ground arith, ground arith)
    | inr (x, inside) ↦ elim (Option-cases (d.commit_fault x)) [
      | inl free ↦ ground arith
      | inr (y, fault) ↦ (ground arith, ground arith, ground arith)
    ]
  ]

  -- What an error of a transaction leaves behind: no open transaction, and what there was before.
  pub in_transaction-eq-err :
      {A : Type 0} (d : Driver T) (m : Action (Session T E) A) (s : Session T E) {e : Fault}
      {t : Session T E}
      → IsContained m
      → in_transaction d m s ≡ (err e, t)
      → (t.db ≡ s.db) × (t.published ≡ s.published) × (t.tx ≡ none)
  in_transaction-eq-err {A} d m s {e} {t} h eq = go (m (begin d s)) refl
    where
      ended : {r : Result A × Session T E} → m (begin d s) ≡ r → finish d r ≡ (err e, t)
      ended k = subst (λ x. finish d x ≡ (err e, t)) k eq

      go :
          (r : Result A × Session T E)
          → m (begin d s) ≡ r
          → (t.db ≡ s.db) × (t.published ≡ s.published) × (t.tx ≡ none)
      go (ok a, u) k =
          let kept : (u.db ≡ (begin d s).db) × (u.published ≡ (begin d s).published) =
            rw k at (h.contained (begin d s)) in
          let (same_db, same_events) = begin_lem d s in
          let (left_db, left_events, closed) = failed_commit_lem d u a (ended k) in
          (left_db ∙ kept.0 ∙ same_db, left_events ∙ kept.1 ∙ same_events, closed)
      go (err x, u) k =
          let kept : (u.db ≡ (begin d s).db) × (u.published ≡ (begin d s).published) =
            rw k at (h.contained (begin d s)) in
          let (same_db, same_events) = begin_lem d s in
          let left : rollback u ≡ t = ap (λ (y : Result A × Session T E). y.1) (ended k) in
          (
            sym (ap (λ (y : Session T E). y.db) left) ∙ kept.0 ∙ same_db,
            sym (ap (λ (y : Session T E). y.published) left) ∙ kept.1 ∙ same_events,
            sym (ap (λ (y : Session T E). y.tx) left),
          )

  pub begin_open : (d : Driver T) (s : Session T E) {x : T} → (begin d s).tx ≡ some x → x ≡ s.db
  begin_open d s h = elim (Option-cases (d.begin_fault s.db)) [
    | inl free ↦ ground arith
    | inr (y, fault) ↦ ground arith
  ]

  finished_lem :
      {A : Type 0} (d : Driver T) (u : Session T E) (a b : A) {t : Session T E}
      → finish d (ok a, u) ≡ (ok b, t)
      → (a ≡ b) × ((x : T) × (u.tx ≡ some x) × (t.db ≡ x))
  finished_lem d u a b eq = elim (Option-cases u.tx) [
    | inl closed ↦ ground arith
    | inr (x, inside) ↦ elim (Option-cases (d.commit_fault x)) [
      | inl free ↦ (ground arith, (x, inside, ground arith))
      | inr (y, fault) ↦ ground arith
    ]
  ]

  -- A transaction that succeeds: its body did, and what it left in the transaction is committed.
  pub in_transaction-eq-ok :
      {A : Type 0} (d : Driver T) (m : Action (Session T E) A) (s : Session T E) {a : A}
      {t : Session T E}
      → in_transaction d m s ≡ (ok a, t)
      → (u : Session T E) × (x : T) × (m (begin d s) ≡ (ok a, u)) × (u.tx ≡ some x) × (t.db ≡ x)
  in_transaction-eq-ok {A} d m s {a} {t} eq = go (m (begin d s)) refl
    where
      ended : {r : Result A × Session T E} → m (begin d s) ≡ r → finish d r ≡ (ok a, t)
      ended k = subst (λ x. finish d x ≡ (ok a, t)) k eq

      go :
          (r : Result A × Session T E)
          → m (begin d s) ≡ r
          → (u : Session T E) × (x : T) × (m (begin d s) ≡ (ok a, u)) × (u.tx ≡ some x) × (t.db ≡ x)
      go (ok a', u) k =
          let (same_value, (x, inside, left)) = finished_lem d u a' a (ended k) in
          (u, x, k ∙ ap (λ y. (ok y, u)) same_value, inside, left)
      go (err e, u) k = ground (arith, ended k)
