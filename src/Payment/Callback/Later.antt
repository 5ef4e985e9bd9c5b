-- ===== src/Payment/Callback/Later.antt =====
-- Callbacks that come after a payment was settled.
use goshop_x.Base.{
  refl, same, inr, arith, inl, false, true, ok, sym, ◌≡◌, subst, Result, String, Session,
}
use goshop_x.Payment.Models.{Callback}
use goshop_x.Payment.Tables.{Tables, Backend}
use goshop_x.Payment.Callback.{Answer, answer_callback}
use goshop_x.Payment.Callback.Once.{
  TransactionLaws, IsUniqueRef, IsSettledRef, Settling-IsSettledRef, answer_callback-IsSettledRef,
  answer_callback_lem,
}

-- Callbacks one after another, of any payments and with any outcome. Between two of them nothing
-- changes the transactions.
pub data Callbacks {F : Type 0} (b : Backend F)
    : Session Tables (Unit {0}) → Session Tables (Unit {0}) → Type 0 where
  stop : (s : Session Tables (Unit {0})) → Callbacks b s s
  call :
      (s t s' u : Session Tables (Unit {0})) (c : Callback) (r : Result Answer)
      → answer_callback b c s ≡ (r, t)
      → s'.db.transactions ≡ t.db.transactions
      → Callbacks b s' u
      → Callbacks b s u

module _ {F : Type 0} (b : Backend F) (laws : TransactionLaws b.transaction_orm) where
  Callbacks-IsSettledRef :
      (ref : String) (s u : Session Tables (Unit {0}))
      → Callbacks b s u
      → IsSettledRef ref s.db.transactions
      → IsSettledRef ref u.db.transactions
  Callbacks-IsSettledRef ref s u (stop _) over = over
  Callbacks-IsSettledRef ref s u (call _ t s' _ c r e same_rows more) over =
      Callbacks-IsSettledRef ref s' u more (
        subst (IsSettledRef ref) (sym same_rows)
          (answer_callback-IsSettledRef b laws ref c s e over))

  -- A payment is settled once: with `payment_id` unique in the table, after a callback that settled a
  -- payment and any further callbacks, a callback with the same reference, whatever else it says, does
  -- not report a settlement and leaves the tables as they are.
  pub settled_once :
      (c c' : Callback) (s t v w w' : Session Tables (Unit {0})) (a a' : Answer)
      → IsUniqueRef s.db.transactions
      → answer_callback b c s ≡ (ok a, t)
      → a.first ≡ true
      → Callbacks b t v
      → w.db.transactions ≡ v.db.transactions
      → c'.transaction_ref ≡ c.transaction_ref
      → answer_callback b c' w ≡ (ok a', w')
      → (a'.first ≡ false) × (w' ≡ w)
  settled_once c c' s t v w w' a a' unique e h run same_rows same_ref e' =
      elim (answer_callback_lem b c s e) [
        | inl (_, none_settled) ↦ absurd (ground (arith, none_settled a refl, h))
        | inr one ↦
            let over : IsSettledRef c.transaction_ref w.db.transactions =
              subst (IsSettledRef c.transaction_ref) (sym same_rows) (
                Callbacks-IsSettledRef c.transaction_ref t v run
                  (Settling-IsSettledRef b laws c one unique)) in
            elim (answer_callback_lem b c' w e') [
              | inl (left, none_settled) ↦ (none_settled a' refl, left)
              | inr two ↦
                  let (named, held) =
                    laws.first_hit (λ x. same x.payment_id c'.transaction_ref) w.db.transactions
                      two.tx two.found in
                  absurd (ground (arith, over two.tx held (rw same_ref at named), two.was_pending))
            ]
      ]
