-- ===== src/Notification/Tables.antt =====
-- The table of notifications (notification/models, notification/internal/repository.go), and what the
-- service takes from outside.
use goshop_x.Base.{
  ◌||◌, not, if◌then◌else◌, ◌&&◌, time_now, ltb, pure, some, ◌==◌, Result, ℤ, read_db, write_db,
  true, Session, Orm, Option, Bool, ◌>>=◌, Action, Driver, List, String, ℕ, ◌>>◌,
}

pub record Notification : Type 0 where
  pub id : ℕ
  pub account_id : ℕ
  pub event_id : String
  pub event_type : String
  pub title : String
  pub message : String
  pub metadata_json : String
  pub is_read : Bool
  pub created_at : ℕ
  pub read_at : Option ℕ

-- Values of an event's data after they were read from JSON; `F` stands for `float64`.
pub data Leaf (F : Type 0) : Type 0 where
  number_leaf : F → Leaf F
  text_leaf : String → Leaf F
  other_leaf : Leaf F

-- A list has objects and what is none.
pub data Value (F : Type 0) : Type 0 where
  leaf : Leaf F → Value F
  list_value : List (Option (String → Leaf F)) → Value F

pub record Mail : Type 0 where
  pub recipient : String
  pub subject : String
  pub body : String

pub record Backend (F : Type 0) : Type 0 where
  pub driver : Driver (List Notification)
  pub notification_orm : Orm Notification
  -- The fields of the data, if it is an object, and the data encoded again.
  pub fields_of : String → Option (String → Value F)
  pub marshal : String → Result String
  -- `%.0f`.
  pub show_rounded : F → String
  pub has_sender : Bool
  pub resolve_email : Option (ℕ → Result String)

-- The mails that were handed to the mail server, in their order, are the session's events.
abbrev pub Call : Type 0 → Type 0
Call = Action (Session (List Notification) Mail)

abbrev pub is_of : ℕ → Notification → Bool
is_of account n = n.account_id == account

abbrev pub is_unread : ℕ → Notification → Bool
is_unread account n = n.account_id == account && not n.is_read

abbrev pub is_unread_one : ℕ → ℕ → Notification → Bool
is_unread_one account id n = n.id == id && is_unread account n

abbrev pub read_now : ℕ → Notification → Notification
read_now now n = record n { is_read = true; read_at = some now }

module _ {F : Type 0} (b : Backend F) where
  open b use {driver, notification_orm}

  unfoldable pub create_notification : Notification → Call (Unit {0})
  create_notification n = do write_db (notification_orm.create_unless n); pure tt

  unfoldable pub list_notifications : ℕ → ℕ → ℕ → Call (List Notification)
  list_notifications account skip take = read_db (
      notification_orm.find (record {
        matching = is_of account;
        precedes = λ x y. ltb y.created_at x.created_at;
        page = some (skip, if take == 0 || ltb 100 take then 20 else take);
      }))

  unfoldable pub count_unread : ℕ → Call ℤ
  count_unread account = read_db (notification_orm.count (is_unread account))

  unfoldable pub mark_read : ℕ → ℕ → Call Bool
  mark_read account id = do
    now ← time_now driver
    n ← write_db (notification_orm.updates (is_unread_one account id) (read_now now))
    pure (ltb 0 n)

  unfoldable pub mark_all_read : ℕ → Call ℕ
  mark_all_read account = do
    now ← time_now driver
    write_db (notification_orm.updates (is_unread account) (read_now now))
