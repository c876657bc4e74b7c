-- ===== src/Notifications/Delivery.antt =====
-- `notify` of notifications/notifications.service.ts: what is stored and what is sent.
use fruct.Prelude.{
  ℕ, String, Bool, none, some, List, [], ◌∷◌, ◌++◌, ◌≡◌, refl, arith, inl, inr, suc, length, find,
  Option-cases, Bool-cases,
}
use fruct.Action.{ok, err, not_found, record_missing}
use fruct.Schema.{Db, User}
use fruct.Session.{Context, by_id}
use fruct.Platform.{Platform}
use fruct.Deals.Pricing.{user_or_throw}
use fruct.Notifications.{NotifyParams, notification_row, by_telegram, deliver, notify}

module _ (lib : Platform) (telegram : String → Bool) where
  open lib use {D, find_first-find, create-rows}

  abbrev pub is_user : Context → ℕ → User D → Bool
  is_user ctx id u = by_id ctx.tenant id u.tenant_id u.id

  -- The state with the row of the notification in it.
  abbrev pub recorded : Context → NotifyParams D → Db D → Db D
  recorded ctx params db = record db {
    notifications = db.notifications ++ notification_row ctx.fresh_id ctx.now params ∷ [];
  }

  pub notify-ok :
      (ctx : Context) (params : NotifyParams D) (db : Db D) (user : User D)
      → find (is_user ctx params.user_id) db.users ≡ some user
      → notify lib telegram ctx params db
        ≡ (ok tt, deliver lib telegram params user (recorded ctx params db))
  unfolding notify user_or_throw
  notify-ok ctx params db user e = ground (
    arith,
    e,
    find_first-find (is_user ctx params.user_id) db.users,
    create-rows (notification_row ctx.fresh_id ctx.now params) db.notifications,
  )

  pub notify-missing :
      (ctx : Context) (params : NotifyParams D) (db : Db D)
      → find (is_user ctx params.user_id) db.users ≡ none
      → notify lib telegram ctx params db ≡ (err (not_found record_missing), recorded ctx params db)
  unfolding notify user_or_throw
  notify-missing ctx params db e = ground (
    arith,
    e,
    find_first-find (is_user ctx params.user_id) db.users,
    create-rows (notification_row ctx.fresh_id ctx.now params) db.notifications,
  )

  pub length-snoc : {A : Type 0} (xs : List A) (x : A) → length (xs ++ x ∷ []) ≡ suc (length xs)
  length-snoc [] x = refl
  length-snoc (y ∷ xs) x = omega (arith, length-snoc xs x)

  pub deliver_keeps :
      (params : NotifyParams D) (user : User D) (db : Db D)
      → let db' = deliver lib telegram params user db in
        (db'.notifications ≡ db.notifications)
        × (db'.users ≡ db.users)
        × (db'.leads ≡ db.leads)
        × (db'.tenants ≡ db.tenants)
        × (db'.deals ≡ db.deals)
  unfolding deliver
  deliver_keeps params user db = elim (Bool-cases (by_telegram lib telegram user)) [
    | inl hit ↦ rw hit (refl, refl, refl, refl, refl)
    | inr miss ↦ rw miss (refl, refl, refl, refl, refl)
  ]

  pub notify-stored :
      (ctx : Context) (params : NotifyParams D) (db : Db D)
      → (notify lib telegram ctx params db).1.notifications
        ≡ db.notifications ++ notification_row ctx.fresh_id ctx.now params ∷ []
  notify-stored ctx params db = elim (Option-cases (find (is_user ctx params.user_id) db.users)) [
    | inl gone ↦ rw (notify-missing ctx params db gone) refl
    | inr (user, here) ↦
        rw (notify-ok ctx params db user here)
          (deliver_keeps params user (recorded ctx params db)).0
  ]
