-- ===== src/Account/Reset/Mailed.antt =====
-- An OTP that was mailed, and the reset that it is for.
use goshop_x.Base.{
  ◌∙◌, subst, ltb, sym, is_empty, ap, suc, Option-cases, inl, trim_space, inr, Bool-cases, arith,
  Result-cases, ◌⊎◌, ◌-◌, [], ok, ◌<◌, decimal, ◌∷◌, ◌≡◌, ◌≤◌, append, ◌≢◌, ◌++◌, Session, String,
  List, ℕ,
}
use goshop_x.Account.Models.{Account, normalize_role}
use goshop_x.Account.Login.{hashed}
use goshop_x.Account.Tables.{
  has_email, is_account, assign_reset, Event, Tables, Backend, password_reset_otp,
  save_password_reset, send_message, update_row, get_account_by_email,
}
use goshop_x.Account.Reset.{
  with_otp, draw_otp, send_otp, still_live, renew_otp, request_password_reset,
}
use goshop_x.Account.Reset.Opened.{Shows}

pub last_lem : {A : Type 0} (xs : List A) (x y : A) → xs ++ (x ∷ []) ≡ xs ++ (y ∷ []) → x ≡ y
last_lem [] x y e = ground (arith, e)
last_lem (z ∷ xs) x y e = last_lem xs x y (ground (arith, e))

pub longer_lem : {A : Type 0} (xs : List A) (x : A) → xs ≢ xs ++ (x ∷ [])
longer_lem [] x e = ground (arith, e)
longer_lem (z ∷ xs) x e = longer_lem xs x (ground (arith, e))

abbrev pub mail : Account → String → Event
mail a otp = password_reset_otp a.id a.email (append "password-reset-" (decimal a.id)) otp

module _ (b : Backend) where
  -- What a call leaves that stored an OTP, and perhaps mailed it.
  abbrev pub Stored : Account → Session Tables Event → Session Tables Event → Type 0
  Stored a s t =
      (i : ℕ) × (otp hash : String) × (n : ℕ) × (s.ticks ≤ i)
      × (i < t.ticks)
      × (b.hash_password (i - 1) otp ≡ ok hash)
      × (b.account_orm.updates (is_account a.id) (assign_reset (with_otp a hash (b.driver.clock i)))
            s.db.accounts
          ≡ ok (n, t.db.accounts))
      × ((t.published ≡ s.published) ⊎ (t.published ≡ s.published ++ (mail a otp ∷ [])))

  send_message_lem :
      (e : Event) (s t : Session Tables Event)
      → send_message b e s ≡ (ok tt, t)
      → (t.db ≡ s.db)
        × (t.ticks ≡ s.ticks)
        × ((t.published ≡ s.published) ⊎ (t.published ≡ s.published ++ (e ∷ [])))
  unfolding send_message
  send_message_lem e s t done = elim (Bool-cases b.has_producer) [
    | inr off ↦
        (ground (arith, off, done), ground (arith, off, done), inl (ground (arith, off, done)))
    | inl on ↦ elim (Option-cases (b.marshal_fault e)) [
      | inl fine ↦ (
        ground (arith, on, fine, done),
        ground (arith, on, fine, done),
        inr (ground (arith, on, fine, done)),
      )
      | inr (x, bad) ↦ ground (arith, on, bad, done)
    ]
  ]

  send_otp_lem :
      (a : Account) (s t : Session Tables Event) → send_otp b a s ≡ (ok tt, t) → Stored a s t
  unfolding send_otp draw_otp hashed save_password_reset update_row
  send_otp_lem a s t e = elim (Result-cases (b.random_otp s.ticks)) [
    | inr (x, k) ↦ ground (arith, k, e)
    | inl (otp, k) ↦ elim (Result-cases (b.hash_password (suc s.ticks) otp)) [
      | inr (x, k') ↦ ground (arith, k, k', e)
      | inl (hash, k') ↦
          let i = suc (suc s.ticks) in
          elim (Result-cases (
            b.account_orm.updates (is_account a.id)
              (assign_reset (with_otp a hash (b.driver.clock i))) s.db.accounts)) [
                | inr (x, k'') ↦ ground (arith, k, k', k'', e)
                | inl ((n, rows), k'') ↦
                    let u : Session Tables Event = record s {
                      db = record s.db { accounts = rows };
                      ticks = suc i;
                    } in
                    let sent : send_message b (mail a otp) u ≡ (ok tt, t) =
                      ground (arith, k, k', k'', e) in
                    let (left, ticks, out) = send_message_lem (mail a otp) u t sent in
                    let rows_left : rows ≡ t.db.accounts =
                      ap (λ (d : Tables). d.accounts) (sym left) in
                    (
                      i,
                      otp,
                      hash,
                      n,
                      omega arith,
                      ground (arith, ticks),
                      subst (λ j. b.hash_password j otp ≡ ok hash) (omega arith) k',
                      k'' ∙ ap (λ r. ok (n, r)) rows_left,
                      out,
                    )
              ]
    ]
  ]

  -- A request that goes through stored an OTP, or it sent nothing.
  pub request_lem :
      (email : String) (s t : Session Tables Event)
      → request_password_reset b email s ≡ (ok tt, t)
      → (t.published ≡ s.published)
        ⊎ ((row : Account) × Shows b s (trim_space email) row × Stored (normalize_role row) s t)
  unfolding request_password_reset get_account_by_email renew_otp still_live normalize_role
  request_lem email s t e =
      elim (Result-cases (b.account_orm.first (has_email (trim_space email)) s.db.accounts)) [
        | inr (x, k) ↦ inl (ground (arith, k, e))
        | inl (row, k) ↦ elim (Option-cases row.password_reset_expires_at) [
          | inl closed ↦
              inr (row, k, send_otp_lem (normalize_role row) s t (ground (arith, k, closed, e)))
          | inr (at, until) ↦ elim (Bool-cases (is_empty row.password_reset_otp_hash)) [
            | inl no_hash ↦ inr (
              row,
              k,
              send_otp_lem (normalize_role row) s t (ground (arith, k, until, no_hash, e)),
            )
            | inr hash ↦ elim (Bool-cases (ltb (b.driver.clock s.ticks) at)) [
              | inl live ↦ inl (ground (arith, k, until, hash, live, e))
              | inr over ↦
                  let later : Session Tables Event = record s { ticks = suc s.ticks } in
                  let (i, otp, hash', n, after, before, made, stored, out) =
                    send_otp_lem (normalize_role row) later t
                      (ground (arith, k, until, hash, over, e)) in
                  inr (row, k, (i, otp, hash', n, omega (arith, after), before, made, stored, out))
            ]
          ]
        ]
      ]
