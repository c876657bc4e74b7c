-- ===== src/Notifications/Reading.antt =====
-- The list of a user's notifications and their marks: `findAll`, `markRead` and `markAllRead` of
-- notifications/notifications.service.ts.
use fruct.Prelude.{
  ℕ, Bool, true, false, Option, some, List, [], ◌∷◌, String, ◌≡◌, refl, arith, inl, inr, ◌⊎◌, ◌==◌,
  Unique, found_only, All, All-map, All-filter, Pointwise, Pointwise-update_rows, Pointwise-refl,
  All-of, length, filter, find, find_holds, update_rows, Option-cases, Bool-cases, or_else,
}
use fruct.Action.{ok, err, not_found, notification_missing}
use fruct.Schema.{Db, Notification}
use fruct.Session.{AuthenticatedUser, Context, by_id}
use fruct.Platform.{Platform, desc}
use fruct.Notifications.{
  matches_query, find_all_notifications, set_read, mark_read, unread_of, mark_all_read,
}

module _ (lib : Platform) (telegram : String → Bool) where
  open lib use {
    D, find_first-find, update-found, update_many-rows, find_many-filter, All-order_by, All-page,
    order_by, page, find_many,
  }

  -- A notification of the user who asks, in their tenant.
  abbrev IsOwn : Context → AuthenticatedUser → Notification D → Type 0
  IsOwn ctx user n = (n.tenant_id ≡ ctx.tenant) × (n.user_id ≡ user.id)

  -- A row of someone else is as it was; a row of the user is as it was or marked as read.
  abbrev pub OnlyOwnMarked : Context → AuthenticatedUser → Notification D → Notification D → Type 0
  OnlyOwnMarked ctx user n n' = (n' ≡ n) ⊎ (IsOwn ctx user n × (n' ≡ set_read n))

  matches_query_holds :
      (ctx : Context) (unread_only : Bool) (user : AuthenticatedUser) (n : Notification D)
      → matches_query lib telegram ctx unread_only user n ≡ true
      → IsOwn ctx user n × (unread_only ≡ true → n.is_read ≡ false)
  matches_query_holds ctx unread_only user n e = ((ground arith, ground arith), λ h. ground arith)

  none_matches :
      {A : Type 0} (p q : A → Bool) (f : A → A) (xs : List A)
      → ((a : A) → q (f a) ≡ false)
      → ((a : A) → q a ≡ true → p a ≡ true)
      → length (filter q (update_rows p f xs)) ≡ 0
  none_matches p q f [] off sub = refl
  none_matches p q f (x ∷ xs) off sub = ground (arith, off x, sub x, none_matches p q f xs off sub)

  -- The unread notifications of the user in the tenant of the request are counted by the answer; none is left,
  -- and no row but theirs is touched.
  pub mark_all_read_lem :
      (ctx : Context) (user : AuthenticatedUser) (db : Db D)
      → let r = mark_all_read lib telegram ctx user db in
        (r.0 ≡ ok (length (filter (unread_of lib telegram ctx user) db.notifications)))
        × (length (filter (unread_of lib telegram ctx user) r.1.notifications) ≡ 0)
        × Pointwise (OnlyOwnMarked ctx user) db.notifications r.1.notifications
  unfolding mark_all_read
  mark_all_read_lem ctx user db =
      rw (update_many-rows (unread_of lib telegram ctx user) set_read db.notifications) (
        refl,
        none_matches (unread_of lib telegram ctx user) (unread_of lib telegram ctx user) set_read
            db.notifications (λ n. ground arith) (λ n e. e),
        Pointwise-update_rows (OnlyOwnMarked ctx user) (λ n. inl refl)
            (unread_of lib telegram ctx user) set_read db.notifications
            (All-of _ (λ n e. inr ((ground arith, ground arith), refl)) db.notifications),
      )

  -- Only the user's own notifications of the tenant are listed, and only unread ones where these are asked for.
  find_all_notifications_lem :
      (ctx : Context) (unread_only : Option Bool) (user : AuthenticatedUser) (db : Db D)
      (ns : List (Notification D))
      → (find_all_notifications lib telegram ctx unread_only user db).0 ≡ ok ns
      → All (λ n. IsOwn ctx user n × (unread_only ≡ some true → n.is_read ≡ false)) ns
  unfolding find_all_notifications
  find_all_notifications_lem ctx unread_only user db ns e =
      let all =
        All-map _ _ _ (λ n h. matches_query_holds ctx (or_else unread_only false) user n h)
          (All-filter (matches_query lib telegram ctx (or_else unread_only false) user)
            db.notifications) in
      let listed = All-page _ 100 0 _ (All-order_by _ desc (λ n. n.created_at) _ all) in
      rw (← found ns e) rw
        (find_many-filter (matches_query lib telegram ctx (or_else unread_only false) user)
          db.notifications)
        (All-map _ _ _ (λ n h. (h.0, λ on. h.1 (rw on refl))) listed)
    where
      found :
          (ns : List (Notification D))
          → (find_all_notifications lib telegram ctx unread_only user db).0 ≡ ok ns
          → page 100 0 (
              order_by desc
                (λ n. n.created_at)
                (find_many
                  (matches_query lib telegram ctx (or_else unread_only false) user)
                  db.notifications))
            ≡ ns
      found ns e = ground arith

  abbrev pub at_id : Context → ℕ → Notification D → Bool
  at_id ctx id n = by_id ctx.tenant id n.tenant_id n.id

  mark_read-ok :
      (ctx : Context) (id : ℕ) (user : AuthenticatedUser) (db : Db D) (n : Notification D)
      → find (at_id ctx id) db.notifications ≡ some n
      → (n.user_id == user.id) ≡ true
      → mark_read lib telegram ctx id user db ≡ (
        ok (set_read n),
        record db { notifications = update_rows (at_id ctx id) set_read db.notifications },
      )
  unfolding mark_read
  mark_read-ok ctx id user db n e own = ground (
    arith,
    e,
    own,
    find_first-find (at_id ctx id) db.notifications,
    update-found (at_id ctx id) set_read db.notifications n e,
  )

  mark_read-err :
      (ctx : Context) (id : ℕ) (user : AuthenticatedUser) (db : Db D)
      → ((n : Notification D)
          → find (at_id ctx id) db.notifications ≡ some n
          → (n.user_id == user.id) ≡ false)
      → mark_read lib telegram ctx id user db ≡ (err (not_found notification_missing), db)
  unfolding mark_read
  mark_read-err ctx id user db other = elim (Option-cases (find (at_id ctx id) db.notifications)) [
    | inl gone ↦ ground (arith, gone, find_first-find (at_id ctx id) db.notifications)
    | inr (n, here) ↦
        ground (arith, here, other n here, find_first-find (at_id ctx id) db.notifications)
  ]

  pub mark_read-rows :
      (ctx : Context) (id : ℕ) (user : AuthenticatedUser) (db : Db D)
      → let ns = (mark_read lib telegram ctx id user db).1.notifications in
        (ns ≡ db.notifications) ⊎ (ns ≡ update_rows (at_id ctx id) set_read db.notifications)
  mark_read-rows ctx id user db = elim (Option-cases (find (at_id ctx id) db.notifications)) [
    | inl gone ↦ inl (rw (mark_read-err ctx id user db (λ n e. absurd (ground arith))) refl)
    | inr (n, here) ↦ elim (Bool-cases (n.user_id == user.id)) [
      | inr other ↦ inl (rw (mark_read-err ctx id user db (λ m e. ground arith)) refl)
      | inl own ↦ inr (rw (mark_read-ok ctx id user db n here own) refl)
    ]
  ]

  pub mark_all_read-rows :
      (ctx : Context) (user : AuthenticatedUser) (db : Db D)
      → (mark_all_read lib telegram ctx user db).1.notifications
        ≡ update_rows (unread_of lib telegram ctx user) set_read db.notifications
  unfolding mark_all_read
  mark_all_read-rows ctx user db =
      rw (update_many-rows (unread_of lib telegram ctx user) set_read db.notifications) refl

  -- Where ids are unique, a notification of the tenant that is the user's is returned as read, and no other row is
  -- touched. Any other id is answered as not found, and nothing changes.
  mark_read_lem :
      (ctx : Context) (id : ℕ) (user : AuthenticatedUser) (db : Db D)
      → Unique (λ n. n.id) db.notifications
      → let r = mark_read lib telegram ctx id user db in
        Pointwise (OnlyOwnMarked ctx user) db.notifications r.1.notifications
        × (((n : Notification D) × (r.0 ≡ ok n)
              × IsOwn ctx user n
              × (n.id ≡ id)
              × (n.is_read ≡ true))
            ⊎ (r ≡ (err (not_found notification_missing), db)))
  mark_read_lem ctx id user db unique = elim (Option-cases (find (at_id ctx id) db.notifications)) [
    | inl gone ↦
        rw (mark_read-err ctx id user db (λ n e. absurd (ground arith)))
          (Pointwise-refl _ (λ n. inl refl) db.notifications, inr refl)
    | inr (n, here) ↦ elim (Bool-cases (n.user_id == user.id)) [
      | inr other ↦
          rw (mark_read-err ctx id user db (λ m e. ground arith))
            (Pointwise-refl _ (λ n. inl refl) db.notifications, inr refl)
      | inl own ↦
          let same = find_holds (at_id ctx id) db.notifications n here in
          rw (mark_read-ok ctx id user db n here own) (
            Pointwise-update_rows _ (λ n. inl refl) (at_id ctx id) set_read db.notifications
                (All-map _ _ db.notifications
                  (λ m only hit. inr (rw (only hit) (ground arith, ground arith), refl))
                  (found_only (λ n. n.id) (at_id ctx id) id (λ m h. ground arith) db.notifications n
                    unique here)),
            inl (set_read n, refl, (ground arith, ground arith), ground arith, refl),
          )
    ]
  ]
