-- ===== src/Notification/Service.antt =====
-- CreateFromEvent of notification/internal/service.go.
use goshop_x.Notification.Copy.{notification_email, notification_copy}
use goshop_x.Admin.Models.{Envelope}
use goshop_x.Base.{
  err, ok, ◌>>◌, ◌&&◌, time_now, pure, to_lower, ◌==◌, lift, false, is_empty, true, not, publish,
  ◌||◌, ◌>>=◌, ℕ, if◌then◌else◌, same, none, Bool, some, String, Option,
}
use goshop_x.Notification.Tables.{
  create_notification, other_leaf, list_value, Notification, number_leaf, Call, text_leaf, Mail,
  leaf, Backend, Value,
}

abbrev pub text_of : {F : Type 0} → Value F → String
text_of (leaf (text_leaf s)) = s
text_of (leaf (number_leaf _)) = ""
text_of (leaf other_leaf) = ""
text_of (list_value _) = ""

abbrev pub first_text : {F : Type 0} → Value F → Value F → String
first_text (leaf (text_leaf s)) other = s
first_text (leaf (number_leaf _)) other = text_of other
first_text (leaf other_leaf) other = text_of other
first_text (list_value _) other = text_of other

-- The first of the two fields that is a text, be it empty.
unfoldable pub event_recipient : {F : Type 0} → Option (String → Value F) → String
event_recipient none = ""
event_recipient (some values) = first_text (values "recipient_email") (values "email")

abbrev pub is_paid_status : String → Bool
is_paid_status status =
    same status "paid"
    || same status "succeeded"
    || same status "success"
    || same status "completed"

unfoldable pub should_send_email : {F : Type 0} → String → Option (String → Value F) → Bool
should_send_email event_type values =
    if same event_type "payment.succeeded"
      || same event_type "auth.password_reset_otp"
      || same event_type "order.cod_created"
    then true
    else (if same event_type "order.payment_status_updated"
        then elim values [
          | none ↦ false
          | some fields ↦ is_paid_status (to_lower (text_of (fields "payment_status")))
        ]
        else false)

module _ {F : Type 0} (b : Backend F) where
  -- The mail is handed over once; an error of the mail server is only logged.
  unfoldable pub send : Mail → Call (Unit {0})
  send m = publish m

  unfoldable pub recipient_of : Envelope → Call String
  recipient_of e =
      if not (is_empty e.recipient_email)
      then pure e.recipient_email
      else (if not (is_empty (event_recipient (b.fields_of e.content)))
          then pure (event_recipient (b.fields_of e.content))
          else elim b.resolve_email [
            | none ↦ pure ""
            | some resolve ↦ elim (resolve e.account_id) [ ok found ↦ pure found | err _ ↦ pure "" ]
          ])

  unfoldable pub send_mail : Envelope → String × String → Call (Unit {0})
  send_mail e (subject, body) = do
    recipient ← recipient_of e
    if is_empty recipient
        then pure tt
        else send (record { recipient = recipient; subject = subject; body = body })

  unfoldable pub row_of : Envelope → String → String → String → ℕ → Notification
  row_of e title message body now = record {
    id = 0;
    account_id = e.account_id;
    event_id = e.event_id;
    event_type = e.event_type;
    title = title;
    message = message;
    metadata_json = body;
    is_read = false;
    created_at = now;
    read_at = none;
  }

  unfoldable pub store_and_mail : Envelope → String → String → Call (Unit {0})
  store_and_mail e title message = do
    body ← lift (b.marshal e.content)
    now ← time_now b.driver
    create_notification b (row_of e title message body now)
    if b.has_sender && should_send_email e.event_type (b.fields_of e.content)
        then send_mail e
            (notification_email b.show_rounded e.event_type title message (b.fields_of e.content))
        else pure tt

  unfoldable pub create_from_event : Envelope → Call (Unit {0})
  create_from_event e =
      let (title, message) = notification_copy e.event_type in
      if e.account_id == 0 || (is_empty title && is_empty message)
      then pure tt
      else store_and_mail e title message
