-- ===== src/Notifications.antt =====
-- notifications/notifications.service.ts: NotificationsService, method by method.
pub mod Processor
pub mod Delivery
pub mod Reading
pub mod Breaches
pub mod Contacts
pub mod Later
pub mod Overdue
pub mod Digest
pub mod Once
mod Tests
use text.Mathlib.Text.{◌==◌ as str_eq}
use fruct.Prelude.{
  ℕ, String, Bool, true, false, not, ◌&&◌, Option, none, some, List, [], ◌∷◌, ◌++◌, ◌==◌, or_else,
  if◌then◌else◌,
}
use fruct.Action.{
  Action, not_found, notification_missing, record_missing, pure, gets, modify, or_throw, throw_if,
  ◌>>=◌, ◌>>◌,
}
use fruct.Schema.{Db, User, Notification, NotificationType, NotificationPayload, MailTemplate}
use fruct.Session.{AuthenticatedUser, Context, by_id}
use fruct.Platform.{Platform, desc}
use fruct.Deals.Pricing.{user_or_throw}

-- `NotifyParams`; the texts of the message and the letter are the id of what they are about.
pub record NotifyParams (D : Type 0) : Type 0 where
  pub user_id : ℕ
  pub tenant_id : ℕ
  pub type : NotificationType
  pub payload : NotificationPayload D
  pub subject_id : ℕ
  pub template : MailTemplate

-- `user.telegramChatId` in a condition.
abbrev pub has_chat : Option String → Bool
has_chat none = false
has_chat (some chat) = not (str_eq chat "")

abbrev pub notification_row : {D : Type 0} → ℕ → ℕ → NotifyParams D → Notification D
notification_row id now params = record {
  id = id;
  tenant_id = params.tenant_id;
  user_id = params.user_id;
  type = params.type;
  payload = params.payload;
  is_read = false;
  created_at = now;
}

abbrev pub set_read : {D : Type 0} → Notification D → Notification D
set_read n = record n { is_read = true }

-- `telegram` tells whether the bot delivers a message to a chat.
module _ (lib : Platform) (telegram : String → Bool) where
  open lib use {D, find_first, find_many, update, update_many, create, order_by, page}

  abbrev pub by_telegram : User D → Bool
  by_telegram user = has_chat user.telegram_chat_id && telegram (or_else user.telegram_chat_id "")

  -- The message if the bot delivers it, and else the letter.
  unfoldable pub deliver : NotifyParams D → User D → Db D → Db D
  deliver params user db =
      if by_telegram user
      then record db {
        telegram_messages =
            db.telegram_messages
            ++ record { chat_id = or_else user.telegram_chat_id ""; subject_id = params.subject_id }
              ∷ [];
      }
      else record db {
        mail_queue =
            db.mail_queue
            ++ record {
              tenant_id = params.tenant_id;
              user_id = user.id;
              to = user.email;
              template = params.template;
              subject_id = params.subject_id;
            }
              ∷ [];
      }

  unfoldable pub notify : Context → NotifyParams D → Action (Db D) (Unit {0})
  notify ctx params = do
    modify λ (db : Db D). record db {
      notifications = create (notification_row ctx.fresh_id ctx.now params) db.notifications;
    }
    user ← user_or_throw lib ctx params.user_id
    modify (deliver params user)

  abbrev pub matches_query : Context → Bool → AuthenticatedUser → Notification D → Bool
  matches_query ctx unread_only user n =
      n.tenant_id == ctx.tenant
      && n.user_id == user.id
      && (if unread_only then not n.is_read else true)

  unfoldable pub find_all_notifications :
      Context → Option Bool → AuthenticatedUser → Action (Db D) (List (Notification D))
  find_all_notifications ctx unread_only user = gets λ (db : Db D). page 100 0 (
      order_by desc (λ n. n.created_at)
        (find_many (matches_query ctx (or_else unread_only false) user) db.notifications))

  unfoldable pub mark_read : Context → ℕ → AuthenticatedUser → Action (Db D) (Notification D)
  mark_read ctx id user = do
    found ←
        gets λ (db : Db D). find_first (λ n. by_id ctx.tenant id n.tenant_id n.id) db.notifications
    notification ← or_throw found (not_found notification_missing)
    throw_if (not (notification.user_id == user.id)) (not_found notification_missing)
    updated ← gets λ (db : Db D).
        update (λ (n : Notification D). by_id ctx.tenant id n.tenant_id n.id) set_read
          db.notifications
    (row, rows) ← or_throw updated (not_found record_missing)
    modify λ (db : Db D). record db { notifications = rows }
    pure row

  abbrev pub unread_of : Context → AuthenticatedUser → Notification D → Bool
  unread_of ctx user n = n.tenant_id == ctx.tenant && n.user_id == user.id && not n.is_read

  unfoldable pub mark_all_read : Context → AuthenticatedUser → Action (Db D) ℕ
  mark_all_read ctx user db =
      let (rows, count) = update_many (unread_of ctx user) set_read db.notifications in
      pure count (record db { notifications = rows })
