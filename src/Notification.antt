-- ===== src/Notification.antt =====
-- internal/usecase/notification/notification.go: a notification is sent, and kept in an inbox.
--
-- Of a `UserNotification` the fields that nothing sets are left out. The three repositories are
-- parameters.
pub mod Sending
pub mod Templates
pub mod PushTemplates
mod Tests
use go_project_example.Base.{
  ℕ, Bool, true, false, List, [], ◌∷◌, Option, none, some, Bytes, codes, ℤ, pos, eqb_ℤ,
  if◌then◌else◌,
}
use go_project_example.Xerrors.{Error, message}
use go_project_example.Effects.{Outcome, ok, err, panic, M, return, throw, ◌>>=◌, ◌>>◌, continue}

-- `TypeSMS`, `TypeEmail` and `TypePushMessage`
abbrev pub type_sms : ℤ
type_sms = pos 1

abbrev pub type_email : ℤ
type_email = pos 2

abbrev pub type_push_message : ℤ
type_push_message = pos 3

-- `NotifData`, by its dynamic type
pub data NotifData : Type 0 where
  push_notification : (device_token : Bytes) → NotifData
  sms_notification : (from to_msisdn : Bytes) → NotifData
  email_notification : (to cc : Bytes) → NotifData
  other_data : NotifData

-- `Notification`, as far as `Send` reads it. Its `Validate` accepts every one.
pub record Notification : Type 0 where
  pub user_id : ℤ
  pub title : Bytes
  pub message : Bytes
  pub detail_body : Bytes
  pub web_link : Bytes
  pub notif_data : NotifData

pub record Options : Type 0 where
  pub inbox_save : Bool
  pub fake : Bool

pub record UserNotificationDetail : Type 0 where
  pub body : Bytes
  pub web_link : Bytes

pub record UserNotification : Type 0 where
  pub user_id : ℤ
  pub provider_type : ℤ
  pub provider_id : ℤ
  pub title : Bytes
  pub message : Bytes
  pub detail : UserNotificationDetail

-- `pushentity.Message` and `smsentity.Payload`
pub record PushMessage : Type 0 where
  pub token : Bytes
  pub title : Bytes
  pub body : Bytes

pub record Payload : Type 0 where
  pub from : Bytes
  pub to : Bytes
  pub message : Bytes
  pub purpose : ℤ

-- `Payload.Validate`, which nothing calls
abbrev pub validate_payload : Payload → Option Error
validate_payload p =
    if eqb_ℤ p.purpose (pos 0)
    then some (message (codes "sms: purpose payload cannot be empty"))
    else none

-- `notificationRepo`, `pushMessageRepo` and `smsRepo`
pub record Repos (W : Type 0) : Type 0 where
  pub save : UserNotification → M W (Unit {0})
  pub get : ℤ → M W (List UserNotification)
  pub get_detail : ℤ → Bytes → M W UserNotificationDetail
  pub push_send : PushMessage → M W (Unit {0})
  pub sms_send : Payload → M W (Unit {0})

abbrev pub zero_options : Options
zero_options = record { inbox_save = false; fake = false }

abbrev pub or_zero : Option Options → Options
or_zero none = zero_options
or_zero (some o) = o

-- What is kept of a notification. The type is written to the field of the provider.
abbrev pub inbox_entry : Notification → ℤ → UserNotification
inbox_entry n type = record {
  user_id = n.user_id;
  provider_type = pos 0;
  provider_id = type;
  title = n.title;
  message = n.message;
  detail = record { body = n.detail_body; web_link = n.web_link };
}

module _ {W : Type 0} (repos : Repos W) where
  -- The switch of `Send`: what is sent, and the type.
  unfoldable pub deliver : Notification → NotifData → M W ℤ
  deliver n (push_notification token) =
      repos.push_send (record { token = token; title = n.title; body = n.message })
      >> return type_push_message
  deliver n (sms_notification from to_msisdn) =
      repos.sms_send (record { from = from; to = to_msisdn; message = n.message; purpose = pos 0 })
      >> return type_sms
  deliver n (email_notification to cc) = return type_email
  deliver n other_data =
      throw (message (codes "notification: notification data type is not valid, got "))

  -- `Send`
  unfoldable pub send : Notification → Option Options → M W (Unit {0})
  unfolding deliver
  send n options = do
    type ← deliver n n.notif_data
    if (or_zero options).inbox_save then repos.save (inbox_entry n type) else return tt

  -- `Get` and `GetDetail`
  abbrev pub get : ℤ → M W (List UserNotification)
  get = repos.get

  abbrev pub get_detail : Bytes → ℤ → M W UserNotificationDetail
  get_detail notif_id user_id = repos.get_detail user_id notif_id
