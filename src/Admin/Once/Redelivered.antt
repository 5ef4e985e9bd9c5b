-- ===== src/Admin/Once/Redelivered.antt =====
-- A second delivery of an event that was applied.
use goshop_x.Admin.Once.{apply_body-IsContained, apply_facts-IsKeeping, seen, same_event}
use goshop_x.Admin.Apply.{apply_event, apply_facts, apply_body, mark_processed}
use goshop_x.Base.{
  ap, is_empty, Bool-cases, ◌∙◌, begin_open, in_transaction-eq-ok, in_transaction-eq-err,
  in_transaction, Result, Option-cases, external_closed, begin, err, none, tally_none, >>=-eq-ok,
  sym, subst, pure-IsKeeping, tally-append, if-IsKeeping, ◌+◌, [], view, ◌∷◌, ◌++◌, refl, pure,
  eq_iff, inr, ◌==◌, arith, if◌then◌else◌, true, Result-cases, inl, some, ok, ◌≢◌, ◌≡◌, Session,
  tally, same, ℕ, String, List, Bool, Laws,
}
use goshop_x.Admin.Models.{Envelope, ProcessedEvent}
use goshop_x.Admin.Tables.{Tables, Backend}

module _ {F : Type 0} (b : Backend F) where
  -- No column is generated.
  abbrev pub ProcessedLaws : Type 0
  ProcessedLaws = Laws b.processed_orm same_event same_event (λ r r'. r' ≡ r)

  abbrev has_event : Envelope → ProcessedEvent → Bool
  has_event e x = same x.event_id e.event_id

  abbrev HasSeen : Envelope → List ProcessedEvent → Type 0
  HasSeen e rows = tally (has_event e) rows ≢ 0

  mark_processed_lem :
      (topic : String) (e : Envelope) (s u : Session Tables (Unit {0})) (n : ℕ) (x : Tables)
      → s.tx ≡ some x
      → mark_processed b topic e s ≡ (ok n, u)
      → (row : ProcessedEvent) × (row.event_id ≡ e.event_id)
        × ((rows : List ProcessedEvent) × (b.processed_orm.create_unless row x.processed
              ≡ ok (n, rows))
            × (u.tx ≡ some (record x { processed = rows })))
  unfolding mark_processed
  mark_processed_lem topic e s u n x inside eq =
      let row : ProcessedEvent = record {
        event_id = e.event_id;
        topic = topic;
        occurred_at = e.occurred_at;
        created_at = b.driver.clock s.ticks;
      } in
      elim (Result-cases (b.processed_orm.create_unless row x.processed)) [
        | inl ((m, rows), k) ↦
            (row, refl, (rows, ground (arith, k, inside, eq), ground (arith, k, inside, eq)))
        | inr (f, k) ↦ ground (arith, k, inside, eq)
      ]

  marked_lem :
      (laws : ProcessedLaws) (e : Envelope) (row : ProcessedEvent) (n : ℕ)
      (rows rows' : List ProcessedEvent)
      → row.event_id ≡ e.event_id
      → b.processed_orm.create_unless row rows ≡ ok (n, rows')
      → HasSeen e rows'
  marked_lem laws e row n rows rows' mine made =
      elim (laws.create_unless_row n row rows rows' made) [
        | inl (_, _, (row', made_row, appended)) ↦
            let stored : row'.event_id ≡ e.event_id =
              ap (λ (x : ProcessedEvent). x.event_id) made_row ∙ mine in
            let hit : has_event e row' ≡ true =
              ground (arith, eq_iff row'.event_id e.event_id, stored) in
            let counted : tally (has_event e) (rows ++ (row' ∷ []))
                ≡ tally (has_event e) rows + tally (has_event e) (row' ∷ []) =
              tally-append (has_event e) rows (row' ∷ []) in
            subst (HasSeen e) (sym appended) (λ none_seen. ground (arith, counted, none_seen, hit))
        | inr (_, left, taken) ↦
            subst (HasSeen e) (sym left)
              (subst (λ id. tally (λ (x : ProcessedEvent). same x.event_id id) rows ≢ 0) mine taken)
      ]

  -- What a body that goes through leaves among the processed events.
  apply_body_seen :
      (laws : ProcessedLaws) (topic : String) (e : Envelope) (s u : Session Tables (Unit {0}))
      (x y : Tables)
      → s.tx ≡ some x
      → apply_body b topic e s ≡ (ok tt, u)
      → u.tx ≡ some y
      → HasSeen e y.processed
  unfolding apply_body
  apply_body_seen laws topic e s u x y inside eq left =
      let (n, s1, marked, rest) =
        >>=-eq-ok (mark_processed b topic e)
          (λ (n : ℕ). if n == 0 then pure tt else apply_facts b e) s eq in
      go n s1 marked rest
    where
      go :
          (n : ℕ) (s1 : Session Tables (Unit {0}))
          → mark_processed b topic e s ≡ (ok n, s1)
          → (if n == 0 then pure tt else apply_facts b e) s1 ≡ (ok tt, u)
          → HasSeen e y.processed
      go n s1 marked rest =
          let (row, mine, (rows, made, shown)) =
            mark_processed_lem topic e s s1 n x inside marked in
          let has : HasSeen e rows = marked_lem laws e row n x.processed rows mine made in
          let kept : view seen ((if n == 0 then pure tt else apply_facts b e) s1).1.tx
              ≡ view seen s1.tx =
            (if-IsKeeping seen (n == 0) (pure tt) (apply_facts b e) (pure-IsKeeping seen tt)
                (apply_facts-IsKeeping b e)).kept
              s1 in
          let same_rows : some y.processed ≡ some rows = ground (arith, kept, rest, left, shown) in
          let eq_rows : rows ≡ y.processed = ground (arith, same_rows) in
          subst (HasSeen e) eq_rows has

  -- A body whose event was seen leaves the tables of its transaction.
  apply_body_again :
      (laws : ProcessedLaws) (topic : String) (e : Envelope) (s u : Session Tables (Unit {0}))
      (x y : Tables)
      → HasSeen e x.processed
      → s.tx ≡ some x
      → apply_body b topic e s ≡ (ok tt, u)
      → u.tx ≡ some y
      → y ≡ x
  unfolding apply_body
  apply_body_again laws topic e s u x y has inside eq left =
      let (n, s1, marked, rest) =
        >>=-eq-ok (mark_processed b topic e)
          (λ (n : ℕ). if n == 0 then pure tt else apply_facts b e) s eq in
      go n s1 marked rest
    where
      go :
          (n : ℕ) (s1 : Session Tables (Unit {0}))
          → mark_processed b topic e s ≡ (ok n, s1)
          → (if n == 0 then pure tt else apply_facts b e) s1 ≡ (ok tt, u)
          → y ≡ x
      go n s1 marked rest =
          let (row, mine, (rows, made, shown)) =
            mark_processed_lem topic e s s1 n x inside marked in
          elim (laws.create_unless_row n row x.processed rows made) [
            | inl (_, free, _) ↦
                let none_seen : tally (λ (z : ProcessedEvent). same z.event_id row.event_id)
                      x.processed
                    ≡ 0 =
                  tally_none (λ (z : ProcessedEvent). same z.event_id row.event_id) x.processed
                    free in
                ground (
                  arith,
                  has (
                      subst
                        (λ id. tally (λ (z : ProcessedEvent). same z.event_id id) x.processed ≡ 0)
                        mine none_seen),
                )
            | inr (zero_rows, kept, _) ↦ ground (arith, zero_rows, kept, shown, rest, left)
          ]

  -- Without an open transaction the body fails.
  apply_body_closed :
      (topic : String) (e : Envelope) (s : Session Tables (Unit {0}))
      → s.tx ≡ none
      → (apply_body b topic e s).0 ≡ err external_closed
  unfolding apply_body mark_processed
  apply_body_closed topic e s closed = ground (arith, closed)

  -- An event is projected once: after an event was applied, every delivery of an event with the same
  -- contents and the same id, under whatever topic, leaves the committed tables as they are, whether it
  -- is answered with success or with an error.
  pub apply_event-once :
      (laws : ProcessedLaws) (topic topic' : String) (e : Envelope)
      (s t s' : Session Tables (Unit {0}))
      → apply_event b topic e s ≡ (ok tt, t)
      → s'.db ≡ t.db
      → (apply_event b topic' e s').1.db ≡ t.db
  unfolding apply_event
  apply_event-once laws topic topic' e s t s' first_ok same_db =
      elim (Bool-cases (is_empty e.event_id)) [
        | inl missing ↦ ground (arith, missing, first_ok)
        | inr named ↦
            let ran : in_transaction b.driver (apply_body b topic e) s ≡ (ok tt, t) =
              ground (arith, named, first_ok) in
            let (u, x, done, open_tx, left) =
              in_transaction-eq-ok b.driver (apply_body b topic e) s ran in
            let has : HasSeen e t.db.processed = seen_after u x done open_tx left in
            let again : (in_transaction b.driver (apply_body b topic' e) s').1.db ≡ s'.db =
              second (subst (λ (d : Tables). HasSeen e d.processed) (sym same_db) has)
                (in_transaction b.driver (apply_body b topic' e) s') refl in
            ground (arith, named, again, same_db)
      ]
    where
      seen_after :
          (u : Session Tables (Unit {0})) (x : Tables)
          → apply_body b topic e (begin b.driver s) ≡ (ok tt, u)
          → u.tx ≡ some x
          → t.db ≡ x
          → HasSeen e t.db.processed
      seen_after u x done open_tx left = elim (Option-cases (begin b.driver s).tx) [
        | inl closed ↦
            ground (arith, closed, apply_body_closed topic e (begin b.driver s) closed, done)
        | inr (y, inside) ↦
            subst (λ (d : Tables). HasSeen e d.processed) (sym left)
              (apply_body_seen laws topic e (begin b.driver s) u y x inside done open_tx)
      ]

      second :
          HasSeen e s'.db.processed
          → (p : Result (Unit {0}) × Session Tables (Unit {0}))
          → in_transaction b.driver (apply_body b topic' e) s' ≡ p
          → p.1.db ≡ s'.db
      second has (err x, v) k =
          (in_transaction-eq-err b.driver (apply_body b topic' e) s'
            (apply_body-IsContained b topic' e) k).0
      second has (ok a, v) k =
          let (u, x, done, open_tx, left) =
            in_transaction-eq-ok b.driver (apply_body b topic' e) s' k in
          elim (Option-cases (begin b.driver s').tx) [
            | inl closed ↦
                ground (arith, apply_body_closed topic' e (begin b.driver s') closed, done)
            | inr (y, inside) ↦
                let same_y : y ≡ s'.db = begin_open b.driver s' inside in
                let unchanged : x ≡ y =
                  apply_body_again laws topic' e (begin b.driver s') u y x
                    (subst (λ (d : Tables). HasSeen e d.processed) (sym same_y) has) inside done
                    open_tx in
                left ∙ unchanged ∙ same_y
          ]
