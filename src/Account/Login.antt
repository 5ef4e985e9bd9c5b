-- ===== src/Account/Login.antt =====
-- Sign-up and login of account/internal/service.go, and pkg/crypt/hash.go.
pub mod Granted
use goshop_x.Base.{
  suc, String, Bool, not, ◌&&◌, ◌||◌, none, some, none, Result, ok, err, pos, Fault, external,
  account_exists, account_suspended, google_not_configured, invalid_google_identity, attempt, pure,
  raise, raise_if, lift, time_now, ◌>>=◌, ◌>>◌, same, is_empty, if◌then◌else◌,
}
use goshop_x.Account.Models.{
  Account, normalize_role, role_customer, role_customer_id, status_active,
}
use goshop_x.Account.Tokens.{generate_token}
use goshop_x.Account.Tables.{
  Call, Backend, GooglePayload, get_account_by_email, put_account, update_google_identity,
}

abbrev pub blank_account : Account
blank_account = record {
  id = 0;
  name = "";
  email = "";
  avatar_url = "";
  google_avatar_url = "";
  phone = "";
  shipping_address = "";
  password_reset_otp_hash = "";
  password_reset_expires_at = none;
  password_reset_attempts = pos 0;
  password = "";
  google_subject = "";
  role_id = role_customer_id;
  role = role_customer;
  status = status_active;
}

-- `account.Status != "" && account.Status != models.StatusActive`.
abbrev pub is_suspended : Account → Bool
is_suspended a = not (is_empty a.status) && not (same a.status status_active)

abbrev pub needs_identity : Account → GooglePayload → Bool
needs_identity a p =
    not (same a.google_subject p.subject)
    || is_empty a.name
    || (is_empty a.avatar_url && not (is_empty p.picture))

abbrev pub with_identity : Account → GooglePayload → Account
with_identity a p = record a {
  google_subject = p.subject;
  name = if is_empty a.name then p.name else a.name;
  avatar_url = if is_empty a.avatar_url then p.picture else a.avatar_url;
  google_avatar_url = p.picture;
}

module _ (b : Backend) where
  -- `bcrypt.GenerateFromPassword`, with the salt of this moment.
  unfoldable pub hashed : String → Call String
  hashed password s = (b.hash_password s.ticks password, record s { ticks = suc s.ticks })

  unfoldable pub issue_token : Account → Call String
  issue_token a = do
    issued_at ← time_now b.driver
    later ← time_now b.driver
    lift (generate_token b.jwt b.keys a.id a.role issued_at later)

  unfoldable pub register_new : String → String → String → Call String
  register_new name email password = do
    hash ← hashed password
    a ← put_account b (record blank_account { name = name; email = email; password = hash })
    issue_token a

  -- Any failure of the lookup counts as no account.
  unfoldable pub register : String → String → String → Call String
  register name email password = do
    found ← attempt (get_account_by_email b email)
    elim found [ ok _ ↦ raise account_exists | err _ ↦ register_new name email password ]

  -- The fault of a wrong password is the library's.
  unfoldable pub wrong_password : Fault
  wrong_password = external 0

  unfoldable pub login : String → String → Call String
  login email password = do
    a ← get_account_by_email b email
    raise_if (not (b.verify_password password a.password)) wrong_password
    raise_if (is_suspended a) account_suspended
    issue_token (normalize_role a)

  unfoldable pub google_account : GooglePayload → Account
  google_account p = record blank_account {
    name = p.name;
    email = p.email;
    avatar_url = p.picture;
    google_avatar_url = p.picture;
    google_subject = p.subject;
  }

  unfoldable pub link_identity : Account → GooglePayload → Call Account
  link_identity a p =
      if is_suspended a
      then raise account_suspended
      else (if needs_identity a p
          then (do update_google_identity b (with_identity a p); pure (with_identity a p))
          else pure a)

  unfoldable pub find_or_link : GooglePayload → Call Account
  find_or_link p = do
    found ← attempt (get_account_by_email b p.email)
    elim found [ ok a ↦ link_identity a p | err _ ↦ put_account b (google_account p) ]

  unfoldable pub checked_payload : String → Result GooglePayload
  checked_payload credential =
      if is_empty b.google_client_id
      then err google_not_configured
      else elim (b.validate_google credential) [
        | err _ ↦ err invalid_google_identity
        | ok found ↦ elim found [
          | none ↦ err invalid_google_identity
          | some p ↦
              if is_empty p.email || not p.email_verified then err invalid_google_identity else ok p
        ]
      ]

  unfoldable pub login_with_google : String → Call String
  login_with_google credential = do
    p ← lift (checked_payload credential)
    a ← find_or_link p
    issue_token a
