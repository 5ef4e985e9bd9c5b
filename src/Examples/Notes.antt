-- ===== src/Examples/Notes.antt =====
-- A payment that is noted on a table in memory.
use goshop_x.Memory.{memory, memory-Laws}
use goshop_x.Notification.Noted.{create_from_event-once}
use Prim.Native.String.{char_at}
use goshop_x.Notification.Copy.Grouped.{dotted-flat}
use goshop_x.Notification.Copy.{digit_count, starts_group, notification_copy, dotted}
use goshop_x.Notification.Service.{
  send, recipient_of, send_mail, should_send_email, row_of, store_and_mail, create_from_event,
}
use goshop_x.Notification.Unread.{mark_all_read-count_unread, same_note, mark_read-once, NoteLaws}
use goshop_x.Base.{
  arith, decimal, ◌&&◌, true, pos, [], ◌==◌, ◌+◌, same, tally, ok, ◌∷◌, none, length, refl, ◌≡◌,
  Session, false, ℕ, List,
}
use goshop_x.Notification.Tables.{
  create_notification, is_unread, read_now, mark_read, count_unread, mark_all_read, Backend, Mail,
  Notification,
}
use goshop_x.Admin.Models.{Envelope}

abbrev fresh_note : List Notification → Notification → Notification
fresh_note rows n = record n { id = length rows + 1 }

abbrev backend : Backend ℕ
backend = record {
  driver = record { begin_fault = λ _. none; commit_fault = λ _. none; clock = λ i. i };
  notification_orm = memory (λ x y. x.id == y.id) same_note fresh_note;
  fields_of = λ _. none;
  marshal = λ content. ok content;
  show_rounded = decimal;
  has_sender = true;
  resolve_email = none;
}

backend-NoteLaws : NoteLaws backend
backend-NoteLaws =
    memory-Laws (λ x y. x.id == y.id) same_note fresh_note (λ r r'. r' ≡ record r { id = r'.id })
      (λ _ _. refl)

abbrev paid_event : Envelope
paid_event = record {
  version = "v1";
  event_id = "e1";
  event_type = "payment.succeeded";
  occurred_at = 5;
  account_id = 7;
  recipient_email = "lan@shop";
  event_key = "1";
  content = "{}";
}

abbrev note : Notification
note = record {
  id = 3;
  account_id = 7;
  event_id = "e0";
  event_type = "payment.failed";
  title = "Thanh toán thất bại";
  message = "";
  metadata_json = "{}";
  is_read = false;
  created_at = 0;
  read_at = none;
}

abbrev start : Session (List Notification) Mail
start = record { db = note ∷ []; tx = none; ticks = 0; published = [] }

abbrev noted : Session (List Notification) Mail
noted = (create_from_event backend paid_event start).1

event_noted : create_from_event backend paid_event start ≡ (ok tt, noted)
unfolding create_from_event notification_copy store_and_mail create_notification row_of
    should_send_email send_mail recipient_of send
event_noted = refl

-- The second delivery adds no row, but it sends the mail again.
mailed_twice : length (create_from_event backend paid_event noted).1.published ≡ 2
unfolding create_from_event notification_copy store_and_mail create_notification row_of
    should_send_email send_mail recipient_of send
mailed_twice = refl

create_from_event-once_example : (create_from_event backend paid_event noted).1.db ≡ noted.db
create_from_event-once_example =
    create_from_event-once backend backend-NoteLaws paid_event start noted noted event_noted refl

abbrev all_read : Session (List Notification) Mail
all_read = record start { db = read_now 0 note ∷ []; ticks = 1 }

read_all : mark_all_read backend 7 start ≡ (ok 1, all_read)
unfolding mark_all_read
read_all = refl

none_unread : count_unread backend 7 all_read ≡ (ok (pos 0), all_read)
unfolding count_unread
none_unread = refl

mark_all_read-count_unread_example : (1 ≡ tally (is_unread 7) start.db) × (pos 0 ≡ pos 0)
mark_all_read-count_unread_example =
    mark_all_read-count_unread backend backend-NoteLaws 7 start all_read all_read all_read 1 (pos 0)
      read_all refl none_unread

read_one : mark_read backend 7 3 start ≡ (ok true, all_read)
unfolding mark_read
read_one = refl

read_again : mark_read backend 7 3 all_read ≡ (ok false, record all_read { ticks = 2 })
unfolding mark_read
read_again = refl

mark_read-once_example : false ≡ false
mark_read-once_example =
    mark_read-once backend backend-NoteLaws 7 3 start all_read all_read
      (record all_read { ticks = 2 }) true false read_one refl read_again

grouped : same (dotted "1234567") "1.234.567" && same (dotted "-100") "-.100" ≡ true
unfolding dotted starts_group digit_count
grouped = refl

dotted-flat_example : dotted "1234567" ≡ "1.234.567"
dotted-flat_example =
    dotted-flat (char_at "1" 0 ∷ [])
      ((char_at "2" 0, char_at "3" 0, char_at "4" 0)
        ∷ (char_at "5" 0, char_at "6" 0, char_at "7" 0)
        ∷ [])
      (λ none_there. cc) (omega arith)
