-- ===== src/Account/Reset.antt =====
-- Password resets of account/internal/service.go: an OTP that is mailed, good for ten minutes and five
-- guesses.
pub mod Opened
pub mod Spent
pub mod Locked
pub mod Accepted
pub mod Mailed
pub mod Honoured
use goshop_x.Base.{
  ℕ, String, Bool, true, false, not, ◌||◌, none, some, ok, err, pos, ltb, leb_ℤ, ◌+ℤ◌, ◌+◌, ◌*◌,
  ◌^◌, wrap64, suc, append, decimal, byte_length, trim_space, is_empty, attempt, pure, raise,
  raise_if, time_now, ◌>>=◌, ◌>>◌, invalid_reset_request, invalid_otp, if◌then◌else◌,
}
use goshop_x.Account.Models.{Account}
use goshop_x.Account.Tables.{
  Call, Backend, password_reset_otp, get_account_by_email, save_password_reset, update_password,
  send_message,
}
use goshop_x.Account.Login.{hashed}

abbrev pub ten_minutes : ℕ
ten_minutes = 10 * 60 * 10 ^ 9

abbrev pub has_live_otp : Account → ℕ → Bool
has_live_otp a now = elim a.password_reset_expires_at [ none ↦ false | some at ↦ ltb now at ]

abbrev pub is_expired : Account → ℕ → Bool
is_expired a now = elim a.password_reset_expires_at [ none ↦ true | some at ↦ ltb at now ]

abbrev pub with_otp : Account → String → ℕ → Account
with_otp a hash now = record a {
  password_reset_otp_hash = hash;
  password_reset_expires_at = some (now + ten_minutes);
  password_reset_attempts = pos 0;
}

-- `PasswordResetAttempts++`.
abbrev pub after_guess : Account → Account
after_guess a = record a { password_reset_attempts = wrap64 (a.password_reset_attempts +ℤ pos 1) }

module _ (b : Backend) where
  unfoldable pub draw_otp : Call String
  draw_otp s = (b.random_otp s.ticks, record s { ticks = suc s.ticks })

  unfoldable pub send_otp : Account → Call (Unit {0})
  send_otp a = do
    otp ← draw_otp
    hash ← hashed b otp
    now ← time_now b.driver
    save_password_reset b (with_otp a hash now)
    send_message b (password_reset_otp a.id a.email (append "password-reset-" (decimal a.id)) otp)

  -- The clock is only read where there is a time to compare with.
  unfoldable pub still_live : Account → Call Bool
  still_live a = elim a.password_reset_expires_at [
    | none ↦ pure false
    | some at ↦
        if is_empty a.password_reset_otp_hash
        then pure false
        else (do now ← time_now b.driver; pure (has_live_otp a now))
  ]

  unfoldable pub renew_otp : Account → Call (Unit {0})
  renew_otp a = do live ← still_live a; if live then pure tt else send_otp a

  -- The answer does not tell whether there is such an account.
  unfoldable pub request_password_reset : String → Call (Unit {0})
  request_password_reset email = do
    found ← attempt (get_account_by_email b (trim_space email))
    elim found [ err _ ↦ pure tt | ok a ↦ renew_otp a ]

  -- The account whose reset is still open.
  unfoldable pub open_reset : String → Call Account
  open_reset email = do
    found ← attempt (get_account_by_email b (trim_space email))
    elim found [
      | err _ ↦ raise invalid_otp
      | ok a ↦ elim a.password_reset_expires_at [
        | none ↦ raise invalid_otp
        | some at ↦ do now ← time_now b.driver; raise_if (is_expired a now) invalid_otp; pure a
      ]
    ]

  abbrev pub is_refused : Account → String → Bool
  is_refused a otp =
      leb_ℤ (pos 5) a.password_reset_attempts
      || not (b.verify_password otp a.password_reset_otp_hash)

  -- An error of the update is dropped.
  unfoldable pub refuse_guess : Account → Call (Unit {0})
  refuse_guess a = do attempt (save_password_reset b (after_guess a)); raise invalid_otp

  unfoldable pub change_password : Account → String → Call (Unit {0})
  change_password a new_password = do
    hash ← hashed b new_password
    update_password b (record a { password = hash })

  unfoldable pub try_otp : Account → String → String → Call (Unit {0})
  try_otp a otp new_password =
      if is_refused a otp then refuse_guess a else change_password a new_password

  unfoldable pub reset_password : String → String → String → Call (Unit {0})
  reset_password email otp new_password = do
    raise_if (ltb (byte_length new_password) 8 || is_empty (trim_space otp)) invalid_reset_request
    a ← open_reset email
    try_otp a otp new_password
