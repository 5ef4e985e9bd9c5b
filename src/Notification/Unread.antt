-- ===== src/Notification/Unread.antt =====
-- What is read stays read, and an event is noted once.
use goshop_x.Base.{
  refl, ap, [], ◌∙◌, Bool-cases, sym, inr, ◌∷◌, subst, inl, if◌then◌else◌, arith, ltb, pos,
  Result-cases, map, tally, ok, false, ℤ, ◌≡◌, Session, List, ◌==◌, same, ℕ, Laws, Bool,
}
use goshop_x.Notification.Tables.{
  is_unread_one, is_unread, Mail, read_now, mark_read, count_unread, mark_all_read, Backend,
  Notification,
}

abbrev pub same_note : Notification → Notification → Bool
same_note x y = same x.event_id y.event_id

module _ {F : Type 0} (b : Backend F) where
  -- The id is generated by the table.
  abbrev pub NoteLaws : Type 0
  NoteLaws =
      Laws b.notification_orm (λ x y. x.id == y.id) same_note (λ r r'. r' ≡ record r { id = r'.id })

  -- No row is unread that was just read.
  none_left :
      (p : Notification → Bool) (now : ℕ) (rows : List Notification)
      → ((n : Notification) → p (read_now now n) ≡ false)
      → tally p (map (λ n. if p n then read_now now n else n) rows) ≡ 0
  none_left p now [] h = refl
  none_left p now (n ∷ ns) h =
      let rest = none_left p now ns h in
      elim (Bool-cases (p n)) [
        | inl hit ↦ rw (hit, h n, rest) refl
        | inr miss ↦ rw (miss, miss, rest) refl
      ]

  mark_all_read_lem :
      (account : ℕ) (s : Session (List Notification) Mail) {k : ℕ}
      {t : Session (List Notification) Mail}
      → mark_all_read b account s ≡ (ok k, t)
      → b.notification_orm.updates (is_unread account) (read_now (b.driver.clock s.ticks)) s.db
        ≡ ok (k, t.db)
  unfolding mark_all_read
  mark_all_read_lem account s e =
      elim (Result-cases
        (b.notification_orm.updates (is_unread account) (read_now (b.driver.clock s.ticks)) s.db)) [
          | inl ((k', rows), done) ↦ ground (arith, done, e)
          | inr (x, failed) ↦ ground (arith, failed, e)
        ]

  -- After all notifications of an account were marked as read, the answer being how many were unread, a
  -- count of its unread notifications that goes through is zero.
  pub mark_all_read-count_unread :
      (laws : NoteLaws) (account : ℕ) (s t s' u : Session (List Notification) Mail) (k : ℕ) (n : ℤ)
      → mark_all_read b account s ≡ (ok k, t)
      → s'.db ≡ t.db
      → count_unread b account s' ≡ (ok n, u)
      → (k ≡ tally (is_unread account) s.db) × (n ≡ pos 0)
  unfolding count_unread
  mark_all_read-count_unread laws account s t s' u k n marked same_db counted =
      let now = b.driver.clock s.ticks in
      let (written, how_many) =
        laws.updates_rows (is_unread account) (read_now now) k s.db t.db
          (mark_all_read_lem account s marked) in
      let asked : b.notification_orm.count (is_unread account) s'.db ≡ ok n =
        ground (arith, counted) in
      let answer = laws.count_rows (is_unread account) s'.db n asked in
      let empty : tally (is_unread account) s'.db ≡ 0 =
        subst (λ rows. tally (is_unread account) rows ≡ 0) (sym (same_db ∙ written))
          (none_left (is_unread account) now s.db (λ n. ground arith)) in
      (how_many, answer ∙ ap pos empty)

  mark_read_lem :
      (account id : ℕ) (s : Session (List Notification) Mail) {r : Bool}
      {t : Session (List Notification) Mail}
      → mark_read b account id s ≡ (ok r, t)
      → (k : ℕ) × (b.notification_orm.updates
            (is_unread_one account id)
            (read_now (b.driver.clock s.ticks))
            s.db
          ≡ ok (k, t.db))
        × (r ≡ ltb 0 k)
  unfolding mark_read
  mark_read_lem account id s e =
      elim (Result-cases (
        b.notification_orm.updates (is_unread_one account id) (read_now (b.driver.clock s.ticks))
          s.db)) [
            | inl ((k, rows), done) ↦ (k, ground (arith, done, e), ground (arith, done, e))
            | inr (x, failed) ↦ ground (arith, failed, e)
          ]

  -- A notification is marked as read once: after a call for it that went through, the next one that goes
  -- through answers that nothing was marked.
  pub mark_read-once :
      (laws : NoteLaws) (account id : ℕ) (s t s' u : Session (List Notification) Mail) (r r' : Bool)
      → mark_read b account id s ≡ (ok r, t)
      → s'.db ≡ t.db
      → mark_read b account id s' ≡ (ok r', u)
      → r' ≡ false
  mark_read-once laws account id s t s' u r r' first same_db second =
      let p = is_unread_one account id in
      let now = b.driver.clock s.ticks in
      let (k, done, _) = mark_read_lem account id s first in
      let (k', done', answer) = mark_read_lem account id s' second in
      let (written, _) = laws.updates_rows p (read_now now) k s.db t.db done in
      let (_, how_many) =
        laws.updates_rows p (read_now (b.driver.clock s'.ticks)) k' s'.db u.db done' in
      let empty : tally p s'.db ≡ 0 =
        subst (λ rows. tally p rows ≡ 0) (sym (same_db ∙ written))
          (none_left p now s.db (λ n. read_lem account id now n)) in
      ground (arith, answer, how_many, empty)
    where
      read_lem :
          (account id now : ℕ) (n : Notification)
          → is_unread_one account id (read_now now n) ≡ false
      read_lem account id now n = ground arith
