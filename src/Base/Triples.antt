-- ===== src/Base/Triples.antt =====
-- Calls that keep an invariant of the state, and what their results satisfy when they succeed.
use mathlib.Core.Path.{◌≡◌, refl, sym, ap, subst}
use mathlib.Core.Bool.{Bool, true, false}
use native.Mathlib.Omega.{arith}
use goshop_x.Base.Outcome.{Fault, Result, ok, err, Action, ◌>>=◌, raise, raise_if, pure}
use goshop_x.Base.Frames.{resume}

module _ {S : Type 0} (I : S → Type 0) where
  pub record IsKept {A : Type 0} (P : A → Type 0) (m : Action S A) : Type 0 where
    pub stays : (s : S) → I s → I (m s).1
    pub yields : (s : S) (a : A) → I s → (m s).0 ≡ ok a → P a

  pub >>=-IsKept :
      {A B : Type 0} (P : A → Type 0) (Q : B → Type 0) (m : Action S A) (f : A → Action S B)
      → IsKept P m
      → ((a : A) → P a → IsKept Q (f a))
      → IsKept Q (m >>= f)
  >>=-IsKept {A} {B} P Q m f h k = record {
    stays = λ s i. state s i (m s) refl;
    yields = λ s b i e. value s b i (m s) refl e;
  }
    where
      state : (s : S) → I s → (p : Result A × S) → m s ≡ p → I ((m >>= f) s).1
      state s i (ok a, t) e =
          let at_t : I t = subst (λ (x : Result A × S). I x.1) e (h.stays s i) in
          let good : P a = h.yields s a i (ap (λ (x : Result A × S). x.0) e) in
          subst (λ x. I (resume x f).1) (sym e) ((k a good).stays t at_t)
      state s i (err x, t) e =
          subst (λ x. I (resume x f).1) (sym e)
            (subst (λ (x : Result A × S). I x.1) e (h.stays s i))

      value : (s : S) (b : B) → I s → (p : Result A × S) → m s ≡ p → ((m >>= f) s).0 ≡ ok b → Q b
      value s b i (ok a, t) e done =
          let at_t : I t = subst (λ (x : Result A × S). I x.1) e (h.stays s i) in
          let good : P a = h.yields s a i (ap (λ (x : Result A × S). x.0) e) in
          (k a good).yields t b at_t (subst (λ x. (resume x f).0 ≡ ok b) e done)
      value s b i (err x, t) e done =
          let stuck : (resume (err x, t) f).0 ≡ ok b = subst (λ x. (resume x f).0 ≡ ok b) e done in
          ground (arith, stuck)

  pub raise_if-IsKept : (c : Bool) (e : Fault) → IsKept (λ _. c ≡ false) (raise_if {S = S} c e)
  raise_if-IsKept true e = record { stays = λ s i. i; yields = λ s a i h. ground (arith, h) }
  raise_if-IsKept false e = record { stays = λ s i. i; yields = λ s a i h. refl }

  pub raise-IsKept : {A : Type 0} (P : A → Type 0) (e : Fault) → IsKept P (raise {S = S} {A = A} e)
  raise-IsKept P e = record { stays = λ s i. i; yields = λ s a i h. ground (arith, h) }

  pub pure-IsKept : {A : Type 0} (P : A → Type 0) (a : A) → P a → IsKept P (pure {S = S} a)
  pure-IsKept {A} P a p = record {
    stays = λ s i. i;
    yields = λ s b i h. let eq : a ≡ b = ground (arith, h) in subst P eq p;
  }
