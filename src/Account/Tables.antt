-- ===== src/Account/Tables.antt =====
-- The tables of the account database (account/internal/repository.go), and what the service takes from
-- outside.
use goshop_x.Base.{
  ℕ, pos, String, Bool, Option, none, some, List, map, Result, Fault, Action, Session, Driver, Orm,
  query_on, change_on, read_db, write_db, pure, raise, publish, ◌>>=◌, ◌>>◌, same, is_empty, true,
  false, not, ◌==◌, if◌then◌else◌,
}
use goshop_x.Account.Models.{
  Account, AdminAuditEvent, role_id_for_name, normalize_role, status_active,
}
use goshop_x.Account.Tokens.{Jwt, Keys}

pub record Tables : Type 0 where
  pub accounts : List Account
  pub audit_events : List AdminAuditEvent

-- Before the envelope is stamped; the OTP is the one secret that an event carries.
pub data Event : Type 0 where
  password_reset_otp : ℕ → String → String → String → Event
  account_audited : ℕ → ℕ → String → String → String → String → Event

-- The claims of a Google identity that was validated for this client.
pub record GooglePayload : Type 0 where
  pub subject : String
  pub email : String
  pub email_verified : Bool
  pub name : String
  pub picture : String

pub record Backend : Type 0 where
  pub driver : Driver Tables
  pub account_orm : Orm Account
  pub audit_orm : Orm AdminAuditEvent
  -- bcrypt, whose salt is drawn at a point of the run.
  pub hash_password : ℕ → String → Result String
  pub verify_password : String → String → Bool
  pub jwt : Jwt
  pub keys : Keys
  pub google_client_id : String
  pub validate_google : String → Result (Option GooglePayload)
  -- Six random digits.
  pub random_otp : ℕ → Result String
  -- `UnixNano`, in decimal.
  pub show_nanos : ℕ → String
  pub has_producer : Bool
  pub marshal_fault : Event → Option Fault

abbrev pub Call : Type 0 → Type 0
Call = Action (Session Tables Event)

module _ {A : Type 0} where
  abbrev pub query_accounts : (List Account → Result A) → Tables → Result A
  query_accounts = query_on (λ t. t.accounts) (λ rows t. record t { accounts = rows })

  abbrev pub change_accounts :
      (List Account → Result (A × List Account)) → Tables → Result (A × Tables)
  change_accounts = change_on (λ t. t.accounts) (λ rows t. record t { accounts = rows })

  abbrev pub change_audit_events :
      (List AdminAuditEvent → Result (A × List AdminAuditEvent)) → Tables → Result (A × Tables)
  change_audit_events = change_on (λ t. t.audit_events) (λ rows t. record t { audit_events = rows })

abbrev pub has_email : String → Account → Bool
has_email email a = same a.email email

abbrev pub is_account : ℕ → Account → Bool
is_account id a = a.id == id

-- `Role` is no column.
abbrev pub account_row : Account → Account
account_row a = record a { role = "" }

abbrev pub with_role_id : Account → Account
with_role_id a = if is_empty a.role then a else record a { role_id = role_id_for_name a.role }

abbrev pub with_status : Account → Account
with_status a = if is_empty a.status then record a { status = status_active } else a

-- The columns that the four updates write.
abbrev pub assign_profile : Account → Account → Account
assign_profile a row = record row {
  name = a.name;
  email = a.email;
  avatar_url = a.avatar_url;
  google_avatar_url = a.google_avatar_url;
  phone = a.phone;
  shipping_address = a.shipping_address;
  role_id = a.role_id;
  status = a.status;
}

abbrev pub assign_google : Account → Account → Account
assign_google a row = record row {
  name = a.name;
  avatar_url = a.avatar_url;
  google_avatar_url = a.google_avatar_url;
  google_subject = a.google_subject;
}

abbrev pub assign_reset : Account → Account → Account
assign_reset a row = record row {
  password_reset_otp_hash = a.password_reset_otp_hash;
  password_reset_expires_at = a.password_reset_expires_at;
  password_reset_attempts = a.password_reset_attempts;
}

-- A column that is `NULL` reads as the empty text.
abbrev pub assign_password : Account → Account → Account
assign_password a row = record row {
  password = a.password;
  password_reset_otp_hash = "";
  password_reset_expires_at = none;
  password_reset_attempts = pos 0;
}

module _ (b : Backend) where
  open b use {account_orm, audit_orm}

  unfoldable pub put_account : Account → Call Account
  put_account a = do
    let ready = with_status (normalize_role (with_role_id a))
    row ← write_db (change_accounts (account_orm.create (account_row ready)))
    pure (record ready { id = row.id })

  unfoldable pub get_account_by_email : String → Call Account
  get_account_by_email email = do
    row ← read_db (query_accounts (account_orm.first (has_email email)))
    pure (normalize_role row)

  unfoldable pub get_account_by_id : ℕ → Call Account
  get_account_by_id id = do
    row ← read_db (query_accounts (account_orm.first (is_account id)))
    pure (normalize_role row)

  -- The order of a listing is not stated.
  unfoldable pub list_accounts : ℕ → ℕ → Call (List Account)
  list_accounts skip take = do
    rows ← read_db (
        query_accounts (
          account_orm.find
            (record { matching = λ _. true; precedes = λ _ _. false; page = some (skip, take) })))
    pure (map normalize_role rows)

  unfoldable pub update_row : ℕ → (Account → Account) → Call (Unit {0})
  update_row id f = do write_db (change_accounts (account_orm.updates (is_account id) f)); pure tt

  -- The account that is passed is changed too.
  unfoldable pub update_account : Account → Call Account
  update_account a = do
    let ready = normalize_role (with_role_id a)
    update_row a.id (assign_profile ready)
    pure ready

  unfoldable pub update_google_identity : Account → Call (Unit {0})
  update_google_identity a = update_row a.id (assign_google a)

  unfoldable pub save_password_reset : Account → Call (Unit {0})
  save_password_reset a = update_row a.id (assign_reset a)

  unfoldable pub update_password : Account → Call (Unit {0})
  update_password a = update_row a.id (assign_password a)

  unfoldable pub save_admin_audit_event : AdminAuditEvent → Call (Unit {0})
  save_admin_audit_event e = do write_db (change_audit_events (audit_orm.create e)); pure tt

  -- `kafka.SendMessage`: without a producer nothing is sent, and an event that cannot be encoded is an
  -- error.
  unfoldable pub send_message : Event → Call (Unit {0})
  send_message e =
      if not b.has_producer
      then pure tt
      else elim (b.marshal_fault e) [ none ↦ publish e | some x ↦ raise x ]
