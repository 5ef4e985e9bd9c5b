-- ===== src/Base/Keeping.antt =====
-- Calls that leave a part of the open transaction's tables as it is.
use mathlib.Core.Path.{◌≡◌, refl, sym, subst, ◌∙◌}
use mathlib.Core.Bool.{Bool, true, false}
use mathlib.Core.Logic.{inl, inr}
use mathlib.Core.Option.{Option, none, some}
use native.Mathlib.Omega.{arith}
use goshop_x.Base.Tests.{Option-cases, if◌then◌else◌}
use goshop_x.Base.Outcome.{
  Fault, Result, ok, err, Result-cases, Action, ◌>>=◌, raise, attempt, pure, lift,
}
use goshop_x.Base.Sessions.{Session, Driver, read_tx, write_tx, time_now}
use goshop_x.Base.Frames.{resume}

-- The part that the open transaction shows, if one is open.
abbrev pub view : {T X : Type 0} → (T → X) → Option T → Option X
view get o = elim o [ none ↦ none | some t ↦ some (get t) ]

module _ {T E X : Type 0} (get : T → X) where
  pub record IsKeeping {A : Type 0} (m : Action (Session T E) A) : Type 0 where
    pub kept : (s : Session T E) → view get (m s).1.tx ≡ view get s.tx

  pub >>=-IsKeeping :
      {A B : Type 0} (m : Action (Session T E) A) (f : A → Action (Session T E) B)
      → IsKeeping m
      → ((a : A) → IsKeeping (f a))
      → IsKeeping (m >>= f)
  >>=-IsKeeping {A} {B} m f h k = record { kept = λ s. go s (m s) refl }
    where
      go :
          (s : Session T E) (r : Result A × Session T E)
          → m s ≡ r
          → view get ((m >>= f) s).1.tx ≡ view get s.tx
      go s (ok a, t) e =
          subst (λ x. view get (resume x f).1.tx ≡ view get s.tx) (sym e)
            ((k a).kept t ∙ subst (λ x. view get x.1.tx ≡ view get s.tx) e (h.kept s))
      go s (err x, t) e =
          subst (λ x. view get (resume x f).1.tx ≡ view get s.tx) (sym e)
            (subst (λ x. view get x.1.tx ≡ view get s.tx) e (h.kept s))

  pub write_tx-IsKeeping :
      {A : Type 0} (f : T → Result (A × T))
      → ((t t' : T) (a : A) → f t ≡ ok (a, t') → get t' ≡ get t)
      → IsKeeping (write_tx f)
  write_tx-IsKeeping f h = record {
    kept = λ s. elim (Option-cases s.tx) [
      | inl closed ↦ ground arith
      | inr (t, inside) ↦ elim (Result-cases (f t)) [
        | inl ((a, t'), e) ↦ ground (arith, inside, e, h t t' a e)
        | inr (x, e) ↦ ground arith
      ]
    ];
  }

  pub read_tx-IsKeeping : {A : Type 0} (f : T → Result A) → IsKeeping (read_tx f)
  read_tx-IsKeeping f = record {
    kept = λ s. elim (Option-cases s.tx) [
      | inl closed ↦ ground arith
      | inr (t, inside) ↦ ground arith
    ];
  }

  pub if-IsKeeping :
      {A : Type 0} (c : Bool) (m n : Action (Session T E) A)
      → IsKeeping m
      → IsKeeping n
      → IsKeeping (if c then m else n)
  if-IsKeeping true m n h k = h
  if-IsKeeping false m n h k = k

  pub pure-IsKeeping : {A : Type 0} (a : A) → IsKeeping (pure {S = Session T E} a)
  pure-IsKeeping a = record { kept = λ s. refl }

  pub lift-IsKeeping : {A : Type 0} (r : Result A) → IsKeeping (lift {S = Session T E} r)
  lift-IsKeeping r = record { kept = λ s. refl }

  pub raise-IsKeeping : {A : Type 0} (e : Fault) → IsKeeping (raise {S = Session T E} {A = A} e)
  raise-IsKeeping e = record { kept = λ s. refl }

  pub attempt-IsKeeping :
      {A : Type 0} (m : Action (Session T E) A) → IsKeeping m → IsKeeping (attempt m)
  attempt-IsKeeping m h = record { kept = h.kept }

  pub time_now-IsKeeping : (d : Driver T) → IsKeeping (time_now {E = E} d)
  time_now-IsKeeping d = record { kept = λ s. refl }

pub ruleset keeping_rules = (
  >>=-IsKeeping, pure-IsKeeping, lift-IsKeeping, raise-IsKeeping, attempt-IsKeeping,
  time_now-IsKeeping, read_tx-IsKeeping, if-IsKeeping,
)
