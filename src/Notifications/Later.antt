-- ===== src/Notifications/Later.antt =====
-- What the notifications of a check leave, and what stays told.
use fruct.Prelude.{
  ℕ, String, Bool, some, ◌≡◌, ◌≤◌, ◌∙◌, arith, inl, inr, length, find, filter, Bool-cases, or_else,
}
use fruct.Schema.{Db, User, Lead}
use fruct.Session.{by_id}
use fruct.Platform.{Platform}
use fruct.Notifications.{by_telegram}
use fruct.Notifications.Contacts.{Grows, is_row_for, contacts}
use fruct.Notifications.Breaches.{breach_count}

module _ (lib : Platform) (telegram : String → Bool) (new_id : ℕ → ℕ) where
  open lib use {D}

  abbrev pub is_manager_of : Lead → User D → Bool
  is_manager_of l u = by_id l.tenant_id (or_else l.assigned_manager_id 0) u.tenant_id u.id

  -- The manager of the lead is a user of the lead's tenant.
  abbrev pub HasManager : Db D → Lead → Type 0
  HasManager db l = (u : User D) × (find (is_manager_of l) db.users ≡ some u)

  abbrev pub IsNotified : Db D → Lead → Type 0
  IsNotified db l = 1 ≤ breach_count l.tenant_id l.id db.notifications

  -- The manager of the lead has a notification of it, and was told by the bot or by mail.
  abbrev pub IsTold : Db D → Lead → Type 0
  IsTold db l =
      (1 ≤ length (filter (is_row_for l) db.notifications))
      × ((u : User D) × (find (is_manager_of l) db.users ≡ some u)
          × (1 ≤ contacts lib telegram new_id db l u))

  -- What a check leaves alone, and that notifications, messages and letters only come in.
  abbrev pub Later : Db D → Db D → Type 0
  Later db db' =
      (db'.users ≡ db.users)
      × (db'.leads ≡ db.leads)
      × (db'.tenants ≡ db.tenants)
      × Grows db.notifications db'.notifications
      × Grows db.telegram_messages db'.telegram_messages
      × Grows db.mail_queue db'.mail_queue

  pub contacts-grow :
      (db db' : Db D) (l : Lead) (u : User D)
      → Later db db'
      → contacts lib telegram new_id db l u ≤ contacts lib telegram new_id db' l u
  contacts-grow db db' l u later = elim (Bool-cases (by_telegram lib telegram u)) [
    | inl hit ↦ rw hit (later.4 _)
    | inr miss ↦ rw miss (later.5 _)
  ]

  pub IsTold-kept : (db db' : Db D) (l : Lead) → Later db db' → IsTold db l → IsTold db' l
  IsTold-kept db db' l later (row, (u, here, sent)) = (
    omega (arith, row, later.3 (is_row_for l)),
    (u, rw later.0 here, omega (arith, sent, contacts-grow db db' l u later)),
  )

  pub Later-trans : (a b c : Db D) → Later a b → Later b c → Later a c
  Later-trans a b c h k = (
    k.0 ∙ h.0,
    k.1 ∙ h.1,
    k.2 ∙ h.2,
    λ q. omega (arith, h.3 q, k.3 q),
    λ q. omega (arith, h.4 q, k.4 q),
    λ q. omega (arith, h.5 q, k.5 q),
  )
