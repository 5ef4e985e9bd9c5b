-- ===== src/Payment/Callback/Once.antt =====
-- A payment is settled at most once: what a settling callback leaves behind refuses every later one.
use goshop_x.Base.{
  ◌⊎◌, String, Result, ap, tally_pos, same_common, ◌∙◌, ◌≡◌, refl, Bool, true, false, List, ok,
  record_not_found, arith, same, Bool-cases, ◌==◌, Result-cases, inl, inr, Holds, Orm, Laws,
  replace, Session, Holds-replace, eq_ℤ,
}
use goshop_x.Payment.Models.{Transaction, Callback}
use goshop_x.Payment.Tables.{Tables, Backend, get_transaction_by_payment_id, update_transaction}
use goshop_x.Payment.Callback.{Answer, settled, settle, answer_found, answer_callback}

-- The primary key, and the unique index on the gateway's reference.
abbrev pub same_id : Transaction → Transaction → Bool
same_id x y = x.id == y.id

abbrev pub IsUniqueRef : List Transaction → Type 0
IsUniqueRef rows =
    (x y : Transaction)
    → Holds rows x
    → Holds rows y
    → same x.payment_id y.payment_id ≡ true
    → x.id ≡ y.id

-- What is assumed of the mapper on this table.
abbrev pub TransactionLaws : Orm Transaction → Type 0
TransactionLaws o = Laws o same_id same_id (λ _ _. Unit)

-- How a call came to say that it settled the payment.
pub record Settling {F : Type 0} (b : Backend F) (c : Callback) (s t : Session Tables (Unit {0}))
    : Type 0 where
  pub tx : Transaction
  pub rows : List Transaction
  pub found :
      b.transaction_orm.first (λ x. same x.payment_id c.transaction_ref) s.db.transactions ≡ ok tx
  pub was_pending : same tx.status "Pending" ≡ true
  pub same_amount : eq_ℤ tx.total_price c.amount_vnd ≡ true
  pub saved : b.transaction_orm.save (settled c tx) s.db.transactions ≡ ok rows
  pub left : t ≡ record s { db = record (s.db) { transactions = rows } }

-- An answer that settled nothing changed nothing.
pub answer_callback_lem :
    {F : Type 0} (b : Backend F) (c : Callback) (s : Session Tables (Unit {0})) {r : Result Answer}
    {t : Session Tables (Unit {0})}
    → answer_callback b c s ≡ (r, t)
    → ((t ≡ s) × ((a : Answer) → r ≡ ok a → a.first ≡ false)) ⊎ Settling b c s t
unfolding answer_callback get_transaction_by_payment_id answer_found settle update_transaction
answer_callback_lem b c s {r} {t} e =
    elim (Result-cases
      (b.transaction_orm.first (λ tx. same tx.payment_id c.transaction_ref) s.db.transactions)) [
        | inr (record_not_found, k) ↦
            inl (ground (arith, k, e), λ a done. ground (arith, k, e, done))
        | inr (x, k) ↦ inl (ground (arith, k, e), λ a done. ground (arith, k, e, done))
        | inl (tx, k) ↦ elim (Bool-cases (same tx.status "Pending")) [
          | inr over ↦ inl (ground (arith, k, over, e), λ a done. ground (arith, k, over, e, done))
          | inl open_tx ↦ elim (Bool-cases (eq_ℤ tx.total_price c.amount_vnd)) [
            | inr other ↦ inl (
              ground (arith, k, open_tx, other, e),
              λ a done. ground (arith, k, open_tx, other, e, done),
            )
            | inl amount ↦
                elim (Result-cases (b.transaction_orm.save (settled c tx) s.db.transactions)) [
                  | inr (x, failed) ↦ inl (
                    ground (arith, k, open_tx, amount, failed, e),
                    λ a done. ground (arith, k, open_tx, amount, failed, e, done),
                  )
                  | inl (rows, saved) ↦ inr (record {
                    tx = tx;
                    rows = rows;
                    found = k;
                    was_pending = open_tx;
                    same_amount = amount;
                    saved = saved;
                    left = ground (arith, k, open_tx, amount, saved, e);
                  })
                ]
          ]
        ]
      ]

-- A transaction that is settled is not pending.
settled_status : (c : Callback) (tx : Transaction) → same (settled c tx).status "Pending" ≡ false
unfolding settled
settled_status c tx = elim (Bool-cases c.success) [ inl y ↦ rw y refl | inr n ↦ rw n refl ]

settled_fields :
    (c : Callback) (tx : Transaction)
    → ((settled c tx).id ≡ tx.id) × ((settled c tx).payment_id ≡ tx.payment_id)
unfolding settled
settled_fields c tx = (refl, refl)

-- No row of the reference is pending.
abbrev pub IsSettledRef : String → List Transaction → Type 0
IsSettledRef ref rows =
    (y : Transaction)
    → Holds rows y
    → same y.payment_id ref ≡ true
    → same y.status "Pending" ≡ false

module _ {F : Type 0} (b : Backend F) (laws : TransactionLaws b.transaction_orm) where
  rows_lem :
      (c : Callback) {s t : Session Tables (Unit {0})}
      → (one : Settling b c s t)
      → (t.db.transactions ≡ replace same_id (settled c one.tx) s.db.transactions)
        × Holds s.db.transactions one.tx
        × (same one.tx.payment_id c.transaction_ref ≡ true)
  rows_lem c {s} {t} one =
      let done = settled c one.tx in
      let (named, held) =
        laws.first_hit (λ x. same x.payment_id c.transaction_ref) s.db.transactions one.tx
          one.found in
      let fields = settled_fields c one.tx in
      let here : same_id one.tx done ≡ true = ground arith in
      let state : t.db.transactions ≡ one.rows =
        ap (λ (x : Session Tables (Unit {0})). x.db.transactions) one.left in
      (
        state
            ∙ laws.save_row done s.db.transactions one.rows one.saved
                (tally_pos (λ x. same_id x done) s.db.transactions one.tx held here),
        held,
        named,
      )

  -- A settlement leaves no pending row of its reference,
  pub Settling-IsSettledRef :
      (c : Callback) {s t : Session Tables (Unit {0})}
      → Settling b c s t
      → IsUniqueRef s.db.transactions
      → IsSettledRef c.transaction_ref t.db.transactions
  Settling-IsSettledRef c {s} {t} one unique y held' named' =
      let (written, held, named) = rows_lem c one in
      let fields = settled_fields c one.tx in
      elim (Holds-replace same_id (settled c one.tx) s.db.transactions y (rw written at held')) [
        | inl new ↦ rw new (settled_status c one.tx)
        | inr (old, other) ↦
            let alike : y.id ≡ one.tx.id =
              unique y one.tx old held
                (same_common one.tx.payment_id y.payment_id c.transaction_ref named named') in
            absurd (ground arith)
      ]

  -- and makes no row of another one pending.
  pub answer_callback-IsSettledRef :
      (ref : String) (c : Callback) (s : Session Tables (Unit {0})) {r : Result Answer}
      {t : Session Tables (Unit {0})}
      → answer_callback b c s ≡ (r, t)
      → IsSettledRef ref s.db.transactions
      → IsSettledRef ref t.db.transactions
  answer_callback-IsSettledRef ref c s {r} {t} e over y held' named' =
      elim (answer_callback_lem b c s e) [
        | inl (same_state, _) ↦ over y (rw same_state at held') named'
        | inr one ↦
            let (written, _, _) = rows_lem c one in
            elim (Holds-replace same_id (settled c one.tx) s.db.transactions y
              (rw written at held')) [
                | inl new ↦ rw new (settled_status c one.tx)
                | inr (old, _) ↦ over y old named'
              ]
      ]
