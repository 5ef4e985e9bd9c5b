-- ===== src/Base/Aborts.antt =====
-- Calls that commit at their end, if they do: what an error of theirs leaves.
use mathlib.Core.Path.{◌≡◌, refl, sym, ap, subst, ◌∙◌}
use mathlib.Core.Bool.{Bool, true, false}
use mathlib.Core.Option.{none}
use goshop_x.Base.Tests.{if◌then◌else◌}
use goshop_x.Base.Outcome.{Fault, Result, ok, err, Action, ◌>>=◌, pure, deferred}
use goshop_x.Base.Sessions.{Session, Driver, rollback, commit}
use goshop_x.Base.Frames.{IsContained, resume, failed_commit_lem}

module _ {T E : Type 0} where
  -- After an error the committed tables and the events are as before; a success may have committed.
  pub record IsAborting {A : Type 0} (m : Action (Session T E) A) : Type 0 where
    pub aborted :
        (s : Session T E) (e : Fault) (t : Session T E)
        → m s ≡ (err e, t)
        → (t.db ≡ s.db) × (t.published ≡ s.published)

  pub contained-IsAborting :
      {A : Type 0} (m : Action (Session T E) A) → IsContained m → IsAborting m
  contained-IsAborting {A} m h = record {
    aborted = λ s e t eq.
        let (same_db, same_events) = h.contained s in
        let left : (m s).1 ≡ t = ap (λ (x : Result A × Session T E). x.1) eq in
        (
          sym (ap (λ (x : Session T E). x.db) left) ∙ same_db,
          sym (ap (λ (x : Session T E). x.published) left) ∙ same_events,
        );
  }

  pub >>=-IsAborting :
      {A B : Type 0} (m : Action (Session T E) A) (f : A → Action (Session T E) B)
      → IsContained m
      → ((a : A) → IsAborting (f a))
      → IsAborting (m >>= f)
  >>=-IsAborting {A} {B} m f h k = record { aborted = λ s e t eq. go s e t eq (m s) refl }
    where
      go :
          (s : Session T E) (e : Fault) (t : Session T E)
          → (m >>= f) s ≡ (err e, t)
          → (r : Result A × Session T E) → m s ≡ r
          → (t.db ≡ s.db) × (t.published ≡ s.published)
      go s e t eq (ok a, u) at_m =
          let kept : (u.db ≡ s.db) × (u.published ≡ s.published) = rw at_m at (h.contained s) in
          let (same_db, same_events) =
            (k a).aborted u e t (subst (λ r. resume r f ≡ (err e, t)) at_m eq) in
          (same_db ∙ kept.0, same_events ∙ kept.1)
      go s e t eq (err x, u) at_m =
          let kept : (u.db ≡ s.db) × (u.published ≡ s.published) = rw at_m at (h.contained s) in
          let left : u ≡ t =
            ap (λ (y : Result B × Session T E). y.1)
              (subst (λ r. resume r f ≡ (err e, t)) at_m eq) in
          (
            sym (ap (λ (y : Session T E). y.db) left) ∙ kept.0,
            sym (ap (λ (y : Session T E). y.published) left) ∙ kept.1,
          )

  pub commit-IsAborting :
      {A : Type 0} (d : Driver T) (a : A) → IsAborting (commit {E = E} d >>= λ _. pure a)
  commit-IsAborting d a = record {
    aborted = λ s e t eq.
        let (same_db, same_events, _) = failed_commit_lem d s a eq in (same_db, same_events);
  }

  pub if-IsAborting :
      {A : Type 0} (c : Bool) (m n : Action (Session T E) A)
      → IsAborting m
      → IsAborting n
      → IsAborting (if c then m else n)
  if-IsAborting true m n h k = h
  if-IsAborting false m n h k = k

  -- A body under a deferred rollback, in a transaction that began.
  pub deferred-eq-err :
      {A : Type 0} (m : Action (Session T E) A) (s : Session T E) {e : Fault} {t : Session T E}
      → IsAborting m
      → deferred rollback m s ≡ (err e, t)
      → (t.db ≡ s.db) × (t.published ≡ s.published) × (t.tx ≡ none)
  deferred-eq-err {A} m s {e} {t} h eq =
      let left : rollback (m s).1 ≡ t = ap (λ (x : Result A × Session T E). x.1) eq in
      let failed : m s ≡ (err e, (m s).1) =
        ap (λ (x : Result A × Session T E). (x.0, (m s).1)) eq in
      let (same_db, same_events) = h.aborted s e (m s).1 failed in
      (
        sym (ap (λ (x : Session T E). x.db) left) ∙ same_db,
        sym (ap (λ (x : Session T E). x.published) left) ∙ same_events,
        sym (ap (λ (x : Session T E). x.tx) left),
      )

  pub ruleset aborting_rules =
      (>>=-IsAborting, commit-IsAborting, if-IsAborting, contained-IsAborting)
