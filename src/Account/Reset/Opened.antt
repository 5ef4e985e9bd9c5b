-- ===== src/Account/Reset/Opened.antt =====
-- What a password reset that goes through, and one that does not, have read and written.
use goshop_x.Account.Login.{hashed}
use goshop_x.Account.Reset.{is_refused, refuse_guess, try_otp, change_password, open_reset}
use goshop_x.Base.{
  Bool-cases, true, pos, ◌<ℤ◌, ℕ, String, ◌≡◌, inl, inr, ◌≤◌, some, ok, Result-cases, Option-cases,
  arith, Session, suc,
}
use goshop_x.Account.Models.{Account, normalize_role}
use goshop_x.Account.Tables.{
  assign_password, is_account, update_password, update_row, Tables, Event, Backend, has_email,
  get_account_by_email,
}
use goshop_x.Base.{trim_space}

module _ (b : Backend) (s : Session Tables Event) where
  -- The row that a lookup by e-mail shows.
  abbrev pub Shows : String → Account → Type 0
  Shows email row = b.account_orm.first (has_email email) s.db.accounts ≡ ok row

  pub open_reset-eq-ok :
      (email : String) {a : Account} {t : Session Tables Event}
      → open_reset b email s ≡ (ok a, t)
      → (row : Account) × Shows (trim_space email) row
        × (a ≡ normalize_role row)
        × ((at : ℕ) × (row.password_reset_expires_at ≡ some at) × (b.driver.clock s.ticks ≤ at))
        × (t ≡ record s { ticks = suc s.ticks })
  unfolding open_reset get_account_by_email normalize_role
  open_reset-eq-ok email {a} {t} e =
      elim (Result-cases (b.account_orm.first (has_email (trim_space email)) s.db.accounts)) [
        | inr (x, k) ↦ ground arith
        | inl (row, k) ↦ elim (Option-cases row.password_reset_expires_at) [
          | inl closed ↦ ground arith
          | inr (at, open_until) ↦
              (row, k, ground arith, (at, open_until, ground arith), ground arith)
        ]
      ]

  pub change_password-eq-ok :
      (a : Account) (pw : String) {u : Unit {0}} {t : Session Tables Event}
      → change_password b a pw s ≡ (ok u, t)
      → (hash : String) × (b.hash_password s.ticks pw ≡ ok hash)
        × ((n : ℕ) × (b.account_orm.updates
                (is_account a.id)
                (assign_password (record a { password = hash }))
                s.db.accounts
              ≡ ok (n, t.db.accounts)))
  unfolding change_password hashed update_password update_row
  change_password-eq-ok a pw e = elim (Result-cases (b.hash_password s.ticks pw)) [
    | inr (x, k) ↦ ground arith
    | inl (hash, k) ↦
        elim (Result-cases (
          b.account_orm.updates (is_account a.id) (assign_password (record a { password = hash }))
            s.db.accounts)) [
              | inr (x, k') ↦ ground arith
              | inl ((n, rows), k') ↦ (hash, k, (n, ground arith))
            ]
  ]

  pub try_otp-eq-ok :
      (a : Account) (otp pw : String) {u : Unit {0}} {t : Session Tables Event}
      → try_otp b a otp pw s ≡ (ok u, t)
      → (a.password_reset_attempts <ℤ pos 5)
        × (b.verify_password otp a.password_reset_otp_hash ≡ true)
        × (change_password b a pw s ≡ (ok u, t))
  unfolding try_otp refuse_guess
  try_otp-eq-ok a otp pw e = elim (Bool-cases (is_refused b a otp)) [
    | inl refused ↦ ground arith
    | inr passed ↦ (ground arith, ground arith, ground arith)
  ]
