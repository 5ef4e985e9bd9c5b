-- ===== src/Account/Reset/Accepted.antt =====
-- A password reset that must go through.
use goshop_x.Account.Reset.Opened.{Shows}
use goshop_x.Base.{
  arith, ok, suc, true, pos, ◌<ℤ◌, ◌≤◌, some, trim_space, is_empty, false, ◌≡◌, byte_length, ltb,
  List, ℕ, Session, String,
}
use goshop_x.Account.Login.{hashed}
use goshop_x.Account.Models.{Account, normalize_role}
use goshop_x.Account.Reset.{is_expired, change_password, try_otp, open_reset, reset_password}
use goshop_x.Account.Tables.{
  assign_password, is_account, Event, Tables, update_row, update_password, get_account_by_email,
  Backend,
}

module _ (b : Backend) where
  -- A reset goes through where nothing that it asks for fails.
  pub reset_password_succeeds :
      (email otp pw : String) (s : Session Tables Event) (row : Account) (at n : ℕ) (hash : String)
      (rows : List Account)
      → ltb (byte_length pw) 8 ≡ false
      → is_empty (trim_space otp) ≡ false
      → Shows b s (trim_space email) row
      → row.password_reset_expires_at ≡ some at
      → b.driver.clock s.ticks ≤ at
      → row.password_reset_attempts <ℤ pos 5
      → b.verify_password otp row.password_reset_otp_hash ≡ true
      → b.hash_password (suc s.ticks) pw ≡ ok hash
      → b.account_orm.updates
          (is_account row.id)
          (assign_password (record (normalize_role row) { password = hash }))
          s.db.accounts
        ≡ ok (n, rows)
      → ((reset_password b email otp pw s).0 ≡ ok tt)
        × ((reset_password b email otp pw s).1.db.accounts ≡ rows)
  unfolding reset_password open_reset get_account_by_email normalize_role try_otp change_password
      hashed update_password update_row
  reset_password_succeeds email otp pw s row at n hash rows long given shown until live few right
        made stored =
      let in_time : is_expired row (b.driver.clock s.ticks) ≡ false = ground (arith, until, live) in
      (
        ground (arith, long, given, shown, until, live, few, right, made, stored),
        ground (arith, long, given, shown, until, live, few, right, made, stored),
      )
