-- ===== src/Account/Manage.antt =====
-- Profiles, listings, and the changes of status and role of account/internal/service.go.
pub mod Roles
use goshop_x.Base.{
  ℕ, String, Bool, not, ◌&&◌, ◌||◌, List, ok, err, attempt, pure, raise_if, time_now, ◌>>=◌, ◌>>◌,
  ◌==◌, ltb, same, append, decimal, is_empty, trim_space, byte_length, has_prefix, contains_code,
  forbidden_status_change, forbidden_role_change, profile_incomplete, email_in_use,
  avatar_too_large, if◌then◌else◌,
}
use goshop_x.Account.Models.{
  Account, role_customer, role_seller, role_support_admin, role_operations_admin,
  role_platform_admin, role_id_for_name, status_active, status_suspended,
}
use goshop_x.Account.Tables.{
  Call, Backend, account_audited, get_account_by_id, get_account_by_email, update_account,
  list_accounts, save_admin_audit_event, send_message,
}

unfoldable pub can_manage_accounts : String → Bool
can_manage_accounts role =
    same role "admin"
    || same role role_support_admin
    || same role role_operations_admin
    || same role role_platform_admin

unfoldable pub is_valid_role : String → Bool
is_valid_role role =
    same role role_customer
    || same role "admin"
    || same role role_seller
    || same role role_support_admin
    || same role role_operations_admin
    || same role role_platform_admin

abbrev pub is_role_refused : ℕ → ℕ → String → String → Bool
is_role_refused actor target actor_role role =
    (not (same actor_role "admin") && not (same actor_role role_platform_admin))
    || actor == target
    || not (is_valid_role role)

abbrev pub is_bad_status : String → Bool
is_bad_status status = not (same status status_active) && not (same status status_suspended)

abbrev pub is_avatar_refused : String → Bool
is_avatar_refused url =
    has_prefix url "data:"
    && (not (has_prefix url "data:image/") || ltb 3_500_000 (byte_length url))

abbrev pub with_profile : Account → String → String → String → String → String → Account
with_profile a name email avatar_url phone shipping_address = record a {
  name = name;
  email = email;
  google_avatar_url = trim_space a.google_avatar_url;
  avatar_url =
      if is_empty (trim_space avatar_url)
      then trim_space a.google_avatar_url
      else trim_space avatar_url;
  phone = trim_space phone;
  shipping_address = trim_space shipping_address;
}

module _ (b : Backend) where
  -- `%d-%d-%d` of the actor, the target and the clock.
  unfoldable pub audit_id : ℕ → ℕ → ℕ → String
  audit_id actor target nanos =
      append (decimal actor)
        (append "-" (append (decimal target) (append "-" (b.show_nanos nanos))))

  unfoldable pub audit : ℕ → ℕ → String → String → String → Call (Unit {0})
  audit actor target action outcome request_id = do
    nanos ← time_now b.driver
    now ← time_now b.driver
    save_admin_audit_event b (record {
      event_id = audit_id actor target nanos;
      actor_account_id = actor;
      target_account_id = target;
      action = action;
      outcome = outcome;
      request_id = request_id;
      occurred_at = now;
    })

  unfoldable pub publish_audit : ℕ → ℕ → String → String → String → String → Call (Unit {0})
  publish_audit actor target actor_role action outcome request_id =
      send_message b (account_audited actor target actor_role action outcome request_id)

  -- The account comes back beside an error of the last two calls in the source.
  unfoldable pub store_audited : ℕ → String → String → String → Account → Call Account
  store_audited actor actor_role action request_id target = do
    stored ← update_account b target
    audit actor target.id action "success" request_id
    publish_audit actor target.id actor_role action "success" request_id
    pure stored

  unfoldable pub set_account_status : ℕ → ℕ → String → String → String → Call Account
  set_account_status actor target_id actor_role status request_id = do
    raise_if (not (can_manage_accounts actor_role) || actor == target_id || is_bad_status status)
        forbidden_status_change
    target ← get_account_by_id b target_id
    store_audited actor actor_role "account_status_changed" request_id
        (record target { status = status })

  unfoldable pub set_account_role : ℕ → ℕ → String → String → String → Call Account
  set_account_role actor target_id actor_role role request_id = do
    raise_if (is_role_refused actor target_id actor_role role) forbidden_role_change
    target ← get_account_by_id b target_id
    store_audited actor actor_role "account_role_changed" request_id
        (record target { role = role; role_id = role_id_for_name role })

  unfoldable pub get_account : ℕ → Call Account
  get_account id = get_account_by_id b id

  -- A lookup that fails counts as a free e-mail.
  unfoldable pub check_email : ℕ → String → Account → Call (Unit {0})
  check_email id email a = if same email a.email then pure tt else (do
    found ← attempt (get_account_by_email b email)
    elim found [ err _ ↦ pure tt | ok other ↦ raise_if (not (other.id == id)) email_in_use ])

  unfoldable pub update_profile : ℕ → String → String → String → String → String → Call Account
  update_profile id name email avatar_url phone shipping_address = do
    raise_if (is_empty (trim_space name) || not (contains_code (trim_space email) b'@'))
        profile_incomplete
    a ← get_account_by_id b id
    check_email id (trim_space email) a
    raise_if (is_avatar_refused (trim_space avatar_url)) avatar_too_large
    update_account b
        (with_profile a (trim_space name) (trim_space email) avatar_url phone shipping_address)

  unfoldable pub get_accounts : ℕ → ℕ → Call (List Account)
  get_accounts skip take =
      list_accounts b skip (if ltb 100 take || (skip == 0 && take == 0) then 100 else take)
