-- ===== src/Notification/Noted.antt =====
-- An event that is delivered again.
use goshop_x.Admin.Models.{Envelope}
use goshop_x.Notification.Unread.{NoteLaws}
use goshop_x.Notification.Service.{
  should_send_email, row_of, store_and_mail, event_recipient, create_from_event, send, recipient_of,
  send_mail,
}
use goshop_x.Notification.Tables.{create_notification, Call, Mail, Notification, Backend}
use goshop_x.Notification.Copy.{notification_copy, notification_email}
use goshop_x.Base.{
  [], ◌∷◌, tally-append, tally_none, eq_iff, ◌≢◌, ◌||◌, same, ap, tally, ◌∙◌, sym, subst, resume,
  suc, ℕ, Result, ◌⊎◌, publish, Result-cases, true, err, pure, Option-cases, Bool, Fault, refl, inr,
  inl, ok, ◌&&◌, is_empty, List, Bool-cases, Session, arith, false, ◌==◌, ◌≡◌, if◌then◌else◌,
  String,
}

module _ {F : Type 0} (b : Backend F) where
  recipient_lem :
      (e : Envelope) (s : Session (List Notification) Mail) → (recipient_of b e s).1.db ≡ s.db
  unfolding recipient_of
  recipient_lem e s = elim (Bool-cases (is_empty e.recipient_email)) [
    | inr given ↦ ground (arith, given)
    | inl missing ↦ elim (Bool-cases (is_empty (event_recipient (b.fields_of e.content)))) [
      | inr named ↦ ground (arith, missing, named)
      | inl unnamed ↦ elim (Option-cases b.resolve_email) [
        | inl none_there ↦ rw (missing, unnamed, none_there) refl
        | inr (resolve, there) ↦ elim (Result-cases (resolve e.account_id)) [
          | inl (found, k) ↦ rw (missing, unnamed, there, k) refl
          | inr (x, k) ↦ rw (missing, unnamed, there, k) refl
        ]
      ]
    ]
  ]

  -- A mail changes no row.
  send_mail_lem :
      (e : Envelope) (texts : String × String) (s : Session (List Notification) Mail)
      → (send_mail b e texts s).1.db ≡ s.db
  unfolding send_mail send
  send_mail_lem e texts s = go (recipient_of b e s) refl
    where
      mailed : String → Call (Unit {0})
      mailed recipient =
          if is_empty recipient
          then pure tt
          else publish (record { recipient = recipient; subject = texts.0; body = texts.1 })

      mailed_lem :
          (recipient : String) (u : Session (List Notification) Mail)
          → (mailed recipient u).1.db ≡ u.db
      mailed_lem recipient u = elim (Bool-cases (is_empty recipient)) [
        | inl nobody ↦ rw nobody refl
        | inr somebody ↦ rw somebody refl
      ]

      go :
          (p : Result String × Session (List Notification) Mail)
          → recipient_of b e s ≡ p
          → (resume (recipient_of b e s) mailed).1.db ≡ s.db
      go (ok a, u) k =
          let kept : u.db ≡ s.db =
            subst (λ (p : Result String × Session (List Notification) Mail). p.1.db ≡ s.db) k
              (recipient_lem e s) in
          subst (λ p. (resume p mailed).1.db ≡ s.db) (sym k) (mailed_lem a u ∙ kept)
      go (err x, u) k =
          let kept : u.db ≡ s.db =
            subst (λ (p : Result String × Session (List Notification) Mail). p.1.db ≡ s.db) k
              (recipient_lem e s) in
          subst (λ p. (resume p mailed).1.db ≡ s.db) (sym k) kept

  -- What storing leaves: nothing changed and an error, or the table after the insertion.
  abbrev Stores : Envelope → String → String → Session (List Notification) Mail → Type 0
  Stores e title message s =
      ((x : Fault) × ((store_and_mail b e title message s).0 ≡ err x)
        × ((store_and_mail b e title message s).1.db ≡ s.db))
      ⊎ ((row : Notification) × (row.event_id ≡ e.event_id)
          × ((n : ℕ) × (b.notification_orm.create_unless row s.db
                ≡ ok (n, (store_and_mail b e title message s).1.db))))

  mail_or_not :
      (c : Bool) (e : Envelope) (texts : String × String) (s : Session (List Notification) Mail)
      → ((if c then send_mail b e texts else pure tt) s).1.db ≡ s.db
  mail_or_not true e texts s = send_mail_lem e texts s
  mail_or_not false e texts s = refl

  store_and_mail_lem :
      (e : Envelope) (title message : String) (s : Session (List Notification) Mail)
      → Stores e title message s
  unfolding store_and_mail create_notification row_of
  store_and_mail_lem e title message s = elim (Result-cases (b.marshal e.content)) [
    | inr (x, k) ↦ inl (x, ground (arith, k), ground (arith, k))
    | inl (body, k) ↦
        let row = row_of b e title message body (b.driver.clock s.ticks) in
        elim (Result-cases (b.notification_orm.create_unless row s.db)) [
          | inr (x, k') ↦ inl (x, ground (arith, k, k'), ground (arith, k, k'))
          | inl ((n, rows), k') ↦
              let u : Session (List Notification) Mail = record s {
                ticks = suc s.ticks;
                db = rows;
              } in
              let c = b.has_sender && should_send_email e.event_type (b.fields_of e.content) in
              let texts =
                notification_email b.show_rounded e.event_type title message
                  (b.fields_of e.content) in
              let left : (store_and_mail b e title message s).1.db ≡ rows =
                ground (arith, k, k', mail_or_not c e texts u) in
              inr (
                row,
                refl,
                (
                  n,
                  subst (λ r. b.notification_orm.create_unless row s.db ≡ ok (n, r)) (sym left) k',
                ),
              )
        ]
  ]

  inserted_lem :
      (laws : NoteLaws b) (e : Envelope) (row : Notification) (n : ℕ)
      (rows rows' : List Notification)
      → row.event_id ≡ e.event_id
      → b.notification_orm.create_unless row rows ≡ ok (n, rows')
      → tally (λ x. same x.event_id e.event_id) rows' ≢ 0
  inserted_lem laws e row n rows rows' mine made =
      elim (laws.create_unless_row n row rows rows' made) [
        | inl (_, _, (row', made_row, appended)) ↦
            let stored : row'.event_id ≡ e.event_id =
              ap (λ (x : Notification). x.event_id) made_row ∙ mine in
            let hit : same row'.event_id e.event_id ≡ true =
              ground (arith, eq_iff row'.event_id e.event_id, stored) in
            let counted = tally-append (λ x. same x.event_id e.event_id) rows (row' ∷ []) in
            subst (λ r. tally (λ x. same x.event_id e.event_id) r ≢ 0) (sym appended)
              (λ none_seen. ground (arith, counted, none_seen, hit))
        | inr (_, left, taken) ↦
            subst (λ r. tally (λ x. same x.event_id e.event_id) r ≢ 0) (sym left)
              (subst (λ (id : String). tally (λ x. same x.event_id id) rows ≢ 0) mine taken)
      ]

  inserted_again :
      (laws : NoteLaws b) (e : Envelope) (row : Notification) (n : ℕ)
      (rows rows' : List Notification)
      → row.event_id ≡ e.event_id
      → tally (λ x. same x.event_id e.event_id) rows ≢ 0
      → b.notification_orm.create_unless row rows ≡ ok (n, rows')
      → rows' ≡ rows
  inserted_again laws e row n rows rows' mine has made =
      elim (laws.create_unless_row n row rows rows' made) [
        | inl (_, free, _) ↦
            let none_seen : tally (λ x. same x.event_id row.event_id) rows ≡ 0 =
              tally_none (λ x. same x.event_id row.event_id) rows free in
            ground (
              arith,
              has (
                  subst (λ (id : String). tally (λ x. same x.event_id id) rows ≡ 0) mine none_seen),
            )
        | inr (_, left, _) ↦ left
      ]

  stored_twice :
      (laws : NoteLaws b) (e : Envelope) (title message : String)
      (s t s' : Session (List Notification) Mail)
      → store_and_mail b e title message s ≡ (ok tt, t)
      → s'.db ≡ t.db
      → (store_and_mail b e title message s').1.db ≡ t.db
  stored_twice laws e title message s t s' first same_db =
      elim (store_and_mail_lem e title message s) [
        | inl (x, failed, _) ↦ ground (arith, failed, first)
        | inr (row, mine, (n, made)) ↦
            let left : (store_and_mail b e title message s).1.db ≡ t.db =
              ap (λ (p : Result (Unit {0}) × Session (List Notification) Mail). p.1.db) first in
            let has : tally (λ x. same x.event_id e.event_id) s'.db ≢ 0 =
              subst (λ r. tally (λ x. same x.event_id e.event_id) r ≢ 0) (left ∙ sym same_db)
                (inserted_lem laws e row n s.db (store_and_mail b e title message s).1.db mine
                  made) in
            elim (store_and_mail_lem e title message s') [
              | inl (_, _, kept) ↦ kept ∙ same_db
              | inr (row', mine', (n', made')) ↦
                  inserted_again laws e row' n' s'.db (store_and_mail b e title message s').1.db
                    mine' has made'
                  ∙ same_db
            ]
      ]

  -- An event is noted once: after an event was handled with success, handling the same event again
  -- leaves the notifications as they are, whatever comes of it.
  pub create_from_event-once :
      (laws : NoteLaws b) (e : Envelope) (s t s' : Session (List Notification) Mail)
      → create_from_event b e s ≡ (ok tt, t)
      → s'.db ≡ t.db
      → (create_from_event b e s').1.db ≡ t.db
  unfolding create_from_event
  create_from_event-once laws e s t s' first same_db =
      let title = (notification_copy e.event_type).0 in
      let message = (notification_copy e.event_type).1 in
      elim (Bool-cases (e.account_id == 0 || (is_empty title && is_empty message))) [
        | inl silent ↦ rw silent same_db
        | inr told ↦
            let stored : store_and_mail b e title message s ≡ (ok tt, t) =
              ground (arith, told, first) in
            rw told (stored_twice laws e title message s t s' stored same_db)
      ]
