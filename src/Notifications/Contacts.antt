-- ===== src/Notifications/Contacts.antt =====
-- Whom `deliver` of notifications/notifications.service.ts reaches.
use text.Mathlib.Text.{◌==◌ as str_eq}
use text.Mathlib.TextPositions.{eq_refl}
use fruct.Prelude.{
  ℕ, String, Bool, true, false, ◌&&◌, List, [], ◌∷◌, ◌++◌, ◌==◌, ◌≡◌, ◌≤◌, arith, inl, inr, length,
  filter, Bool-cases, length-filter-append, or_else, if◌then◌else◌,
}
use fruct.Schema.{Db, User, Lead, Notification, MailTemplate, MailJob, TelegramMessage}
use fruct.Platform.{Platform}
use fruct.Notifications.{by_telegram, deliver}
use fruct.Notifications.Processor.{breach_of, breach_params}

-- Whatever is asked of the elements, no fewer of them have it.
abbrev pub Grows : {A : Type 0} → List A → List A → Type 0
Grows {A} xs ys = (q : A → Bool) → length (filter q xs) ≤ length (filter q ys)

pub Grows-snoc : {A : Type 0} (xs : List A) (x : A) → Grows xs (xs ++ x ∷ [])
Grows-snoc xs x q = omega (arith, length-filter-append q xs x)

pub last-counted :
    {A : Type 0} (q : A → Bool) (xs : List A) (x : A)
    → q x ≡ true
    → 1 ≤ length (filter q (xs ++ x ∷ []))
last-counted q xs x e = ground (arith, e, length-filter-append q xs x)

abbrev pub is_breach_letter : MailTemplate → Bool
is_breach_letter MailTemplate.sla_breach = true
is_breach_letter _ = false

-- The message, the letter and the notification that tell a user that a lead waits.
abbrev pub is_message : {D : Type 0} → Lead → User D → TelegramMessage → Bool
is_message l u m = str_eq m.chat_id (or_else u.telegram_chat_id "") && m.subject_id == l.id

abbrev pub is_letter : {D : Type 0} → Lead → User D → MailJob → Bool
is_letter l u j =
    str_eq j.to u.email
    && (j.user_id == u.id
        && (j.tenant_id == l.tenant_id && (is_breach_letter j.template && j.subject_id == l.id)))

abbrev pub is_row_for : {D : Type 0} → Lead → Notification D → Bool
is_row_for l n = breach_of l.tenant_id l.id n && n.user_id == or_else l.assigned_manager_id 0

module _ (lib : Platform) (telegram : String → Bool) (new_id : ℕ → ℕ) where
  open lib use {D}

  -- How often the user was told, by the bot if it reaches the user, and else by mail.
  abbrev pub contacts : Db D → Lead → User D → ℕ
  contacts db l u =
      if by_telegram lib telegram u
      then length (filter (is_message l u) db.telegram_messages)
      else length (filter (is_letter l u) db.mail_queue)

  pub deliver-contacts :
      (l : Lead) (u : User D) (db : Db D)
      → let db' = deliver lib telegram (breach_params lib telegram new_id l) u db in
        (1 ≤ contacts db' l u)
        × Grows db.telegram_messages db'.telegram_messages
        × Grows db.mail_queue db'.mail_queue
  unfolding deliver
  deliver-contacts l u db = elim (Bool-cases (by_telegram lib telegram u)) [
    | inl hit ↦ rw hit (
      last-counted (is_message l u) db.telegram_messages _
          (ground (arith, eq_refl (or_else u.telegram_chat_id ""))),
      Grows-snoc db.telegram_messages _,
      λ q. omega arith,
    )
    | inr miss ↦ rw miss (
      last-counted (is_letter l u) db.mail_queue _ (ground (arith, eq_refl u.email)),
      λ q. omega arith,
      Grows-snoc db.mail_queue _,
    )
  ]
