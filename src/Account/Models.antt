-- ===== src/Account/Models.antt =====
-- The records and the role names of account/models/account.go. A row keeps no role: it has the role's
-- number, and the name is derived from it.
use goshop_x.Base.{ℕ, ℤ, pos, String, not, ◌&&◌, Option, same, is_empty, eq_ℤ, if◌then◌else◌}

pub record Account : Type 0 where
  pub id : ℕ
  pub name : String
  pub email : String
  pub avatar_url : String
  pub google_avatar_url : String
  pub phone : String
  pub shipping_address : String
  pub password_reset_otp_hash : String
  pub password_reset_expires_at : Option ℕ
  pub password_reset_attempts : ℤ
  pub password : String
  pub google_subject : String
  pub role_id : ℤ
  pub role : String
  pub status : String

pub record AdminAuditEvent : Type 0 where
  pub event_id : String
  pub actor_account_id : ℕ
  pub target_account_id : ℕ
  pub action : String
  pub outcome : String
  pub request_id : String
  pub occurred_at : ℕ

abbrev pub role_customer_id : ℤ
role_customer_id = pos 0

abbrev pub role_admin_id : ℤ
role_admin_id = pos 1

abbrev pub role_customer : String
role_customer = "customer"

abbrev pub role_seller : String
role_seller = "seller"

abbrev pub role_support_admin : String
role_support_admin = "support_admin"

abbrev pub role_operations_admin : String
role_operations_admin = "operations_admin"

abbrev pub role_platform_admin : String
role_platform_admin = "platform_admin"

abbrev pub status_active : String
status_active = "active"

abbrev pub status_suspended : String
status_suspended = "suspended"

unfoldable pub role_name : ℤ → String
role_name role_id = if eq_ℤ role_id role_admin_id then "admin" else role_customer

unfoldable pub role_id_for_name : String → ℤ
role_id_for_name role =
    if not (is_empty role) && not (same role role_customer) then role_admin_id else role_customer_id

abbrev pub clamped_role_id : ℤ → ℤ
clamped_role_id role_id = if eq_ℤ role_id role_admin_id then role_id else role_customer_id

unfoldable pub normalize_role : Account → Account
normalize_role a = record a {
  role_id = clamped_role_id a.role_id;
  role = role_name (clamped_role_id a.role_id);
}
