-- ===== src/Notifications/Digest.antt =====
-- The daily digest of notifications/notifications.processor.ts.
use fruct.Prelude.{
  append_assoc, append_nil, ℕ, String, Bool, false, ◌&&◌, some, List, [], ◌∷◌, ◌++◌, ◌≡◌, refl, ap,
  sym, ◌∙◌, arith, inl, inr, ◌==◌, find, filter, All, All-append, All-map, Bool-cases,
}
use fruct.Action.{ok, >>=-ok}
use fruct.Schema.{Db, User, Tenant, Notification, NotificationPayload}
use fruct.Session.{by_id}
use fruct.Platform.{Platform}
use fruct.Notifications.{notification_row, deliver, notify}
use fruct.Notifications.Processor.{
  is_breach, is_active_owner, day_payload, digest_params, notify_owners, digest_tenant,
  digest_tenants, run_daily_digest, job_context, within, start_of_day, end_of_day,
}
use fruct.Notifications.Delivery.{notify-ok, recorded, deliver_keeps}

module _ {A : Type 0} where
  appended_twice :
      (xs ys zs : List A) {mid last : List A}
      → mid ≡ xs ++ ys
      → last ≡ mid ++ zs
      → last ≡ xs ++ (ys ++ zs)
  appended_twice xs ys zs e e' = e' ∙ ap (λ l. l ++ zs) e ∙ append_assoc xs ys zs

  -- Elements that a test rejects do not change how many it accepts.
  pub filter-append-none :
      (p : A → Bool) (xs : List A) (ys : List A)
      → All (λ y. p y ≡ false) ys
      → filter p (xs ++ ys) ≡ filter p xs
  filter-append-none p [] [] h = refl
  filter-append-none p [] (y ∷ ys) h = ground (arith, h.0, filter-append-none p [] ys h.1)
  filter-append-none p (x ∷ xs) ys h = ground (arith, filter-append-none p xs ys h)

  find_later :
      (p : A → Bool) (x : A) (xs : List A)
      → (a : A) × (find p xs ≡ some a)
      → (a : A) × (find p (x ∷ xs) ≡ some a)
  find_later p x xs (a, e) = elim (Bool-cases (p x)) [
    | inl hit ↦ (x, rw hit refl)
    | inr miss ↦ (a, rw miss e)
  ]

module _ (lib : Platform) (telegram : String → Bool) (new_id : ℕ → ℕ) where
  open lib use {D, find_many, find_many-filter}

  abbrev pub digest_rows : ℕ → ℕ → NotificationPayload D → List (User D) → List (Notification D)
  digest_rows now tenant payload [] = []
  digest_rows now tenant payload (u ∷ us) =
      notification_row (new_id u.id) now (digest_params lib telegram new_id tenant payload u)
      ∷ digest_rows now tenant payload us

  -- The digests of a list of tenants, one for each active owner, from the numbers in the database.
  abbrev pub all_digests : ℕ → Db D → List (Tenant D) → List (Notification D)
  all_digests now db [] = []
  all_digests now db (t ∷ ts) =
      digest_rows now t.id (day_payload lib telegram new_id t.id now db)
        (filter (is_active_owner lib telegram new_id t.id) db.users)
      ++ all_digests now db ts

  -- What a digest leaves alone.
  abbrev Apart : List (Notification D) → Db D → Db D → Type 0
  Apart rows db db' =
      (db'.users ≡ db.users)
      × (db'.leads ≡ db.leads)
      × (db'.tenants ≡ db.tenants)
      × (db'.deals ≡ db.deals)
      × (db'.notifications ≡ db.notifications ++ rows)

  abbrev IsUser : ℕ → Db D → User D → Type 0
  IsUser tenant db u =
      (v : User D) × (find (λ (v : User D). by_id tenant u.id v.tenant_id v.id) db.users ≡ some v)

  owners_are_users :
      (tenant : ℕ) (us : List (User D))
      → All
          (λ (u : User D).
            (v : User D) × (find (λ (v : User D). by_id tenant u.id v.tenant_id v.id) us ≡ some v))
          (filter (is_active_owner lib telegram new_id tenant) us)
  owners_are_users tenant [] = tt
  owners_are_users tenant (u ∷ us) =
      let later =
        All-map _
          (λ (w : User D).
            (v : User D) × (find (λ (v : User D). by_id tenant w.id v.tenant_id v.id) (u ∷ us)
              ≡ some v))
          _ (λ w h. find_later _ u us h) (owners_are_users tenant us) in
      elim (Bool-cases (is_active_owner lib telegram new_id tenant u)) [
        | inl hit ↦ rw hit ((u, ground arith), later)
        | inr miss ↦ rw miss later
      ]

  notify_owners-ok :
      (tenant now : ℕ) (payload : NotificationPayload D) (us : List (User D)) (db : Db D)
      → All (IsUser tenant db) us
      → (db' : Db D) × (notify_owners lib telegram new_id tenant now payload us db ≡ (ok tt, db'))
        × Apart (digest_rows now tenant payload us) db db'
  unfolding notify_owners
  notify_owners-ok tenant now payload [] db h =
      (db, refl, (refl, refl, refl, refl, sym (append_nil db.notifications)))
  notify_owners-ok tenant now payload (u ∷ us) db h =
      let ctx = job_context lib telegram new_id tenant now u.id in
      let params = digest_params lib telegram new_id tenant payload u in
      let (user, here) = h.0 in
      let kept = deliver_keeps lib telegram params user (recorded lib telegram ctx params db) in
      let mid = deliver lib telegram params user (recorded lib telegram ctx params db) in
      let users : All (IsUser tenant mid) us = All-map _ _ us (λ v k. rw kept.1 k) h.1 in
      let (last, rest, (users', leads', tenants', deals', rows')) =
        notify_owners-ok tenant now payload us mid users in
      (
        last,
        rw
            (>>=-ok (notify lib telegram ctx params)
              (λ _. notify_owners lib telegram new_id tenant now payload us)
              (notify-ok lib telegram ctx params db user here))
            rest,
        (
          users' ∙ kept.1,
          leads' ∙ kept.2,
          tenants' ∙ kept.3,
          deals' ∙ kept.4,
          appended_twice db.notifications (notification_row ctx.fresh_id ctx.now params ∷ [])
              (digest_rows now tenant payload us) kept.0 rows',
        ),
      )

  -- The part of the summary that reads the notifications.
  abbrev breach_today : ℕ → ℕ → Notification D → Bool
  breach_today tenant now n =
      n.tenant_id == tenant
      && is_breach n.type
      && within (start_of_day now) (end_of_day now) n.created_at

  breach_today-same :
      (tenant now : ℕ) (ns rows : List (Notification D))
      → All (λ n. is_breach n.type ≡ false) rows
      → find_many (breach_today tenant now) (ns ++ rows) ≡ find_many (breach_today tenant now) ns
  breach_today-same tenant now ns rows h =
      find_many-filter (breach_today tenant now) (ns ++ rows)
      ∙ filter-append-none (breach_today tenant now) ns rows
          (All-map _ _ rows (λ n e. ground arith) h)
      ∙ sym (find_many-filter (breach_today tenant now) ns)

  day_payload-same :
      (tenant now : ℕ) (rows : List (Notification D)) (db db' : Db D)
      → All (λ n. is_breach n.type ≡ false) rows
      → Apart rows db db'
      → day_payload lib telegram new_id tenant now db'
        ≡ day_payload lib telegram new_id tenant now db
  unfolding day_payload
  day_payload-same tenant now rows db db' h (users, leads, tenants, deals, more) =
      rw leads rw deals rw more rw (breach_today-same tenant now db.notifications rows h) refl

  no_breach :
      (now tenant : ℕ) (payload : NotificationPayload D) (us : List (User D))
      → All (λ n. is_breach n.type ≡ false) (digest_rows now tenant payload us)
  no_breach now tenant payload [] = tt
  no_breach now tenant payload (u ∷ us) = (refl, no_breach now tenant payload us)

  pub all_digests-no_breach :
      (now : ℕ) (db : Db D) (ts : List (Tenant D))
      → All (λ n. is_breach n.type ≡ false) (all_digests now db ts)
  all_digests-no_breach now db [] = tt
  all_digests-no_breach now db (t ∷ ts) =
      All-append _ (digest_rows now t.id _ _) (all_digests now db ts) (no_breach now t.id _ _)
        (all_digests-no_breach now db ts)

  digest_tenant-ok :
      (now : ℕ) (t : Tenant D) (db : Db D)
      → (db' : Db D) × (digest_tenant lib telegram new_id now t db ≡ (ok tt, db'))
        × Apart
            (digest_rows now t.id
              (day_payload lib telegram new_id t.id now db)
              (filter (is_active_owner lib telegram new_id t.id) db.users))
            db
            db'
  unfolding digest_tenant
  digest_tenant-ok now t db =
      rw (find_many-filter (is_active_owner lib telegram new_id t.id) db.users) (
        notify_owners-ok t.id now (day_payload lib telegram new_id t.id now db) _ db
          (owners_are_users t.id db.users))

  all_digests-same :
      (now : ℕ) (ts : List (Tenant D)) (rows : List (Notification D)) (db db' : Db D)
      → All (λ n. is_breach n.type ≡ false) rows
      → Apart rows db db'
      → all_digests now db' ts ≡ all_digests now db ts
  all_digests-same now [] rows db db' h apart = refl
  all_digests-same now (t ∷ ts) rows db db' h apart =
      rw (all_digests-same now ts rows db db' h apart) rw
        (day_payload-same t.id now rows db db' h apart) rw apart.0 refl

  digest_tenants-ok :
      (now : ℕ) (ts : List (Tenant D)) (db : Db D)
      → (db' : Db D) × (digest_tenants lib telegram new_id now ts db ≡ (ok tt, db'))
        × Apart (all_digests now db ts) db db'
  unfolding digest_tenants
  digest_tenants-ok now [] db =
      (db, refl, (refl, refl, refl, refl, sym (append_nil db.notifications)))
  digest_tenants-ok now (t ∷ ts) db =
      let (mid, done, apart) = digest_tenant-ok now t db in
      let (last, rest, (users', leads', tenants', deals', rows')) = digest_tenants-ok now ts mid in
      let same = all_digests-same now ts _ db mid (no_breach now t.id _ _) apart in
      (
        last,
        rw
            (>>=-ok (digest_tenant lib telegram new_id now t)
              (λ _. digest_tenants lib telegram new_id now ts) done)
            rest,
        (
          users' ∙ apart.0,
          leads' ∙ apart.1,
          tenants' ∙ apart.2,
          deals' ∙ apart.3,
          appended_twice db.notifications
              (digest_rows now t.id (day_payload lib telegram new_id t.id now db)
                (filter (is_active_owner lib telegram new_id t.id) db.users))
              (all_digests now db ts) apart.4 (rw (sym same) rows'),
        ),
      )

  -- The digest always returns, and stores after the notifications that were there exactly one unread summary for each
  -- active owner of each active tenant, in order, each with its tenant's numbers at the start of the run.
  pub run_daily_digest_lem :
      (now : ℕ) (db : Db D)
      → let r = run_daily_digest lib telegram new_id now db in
        (r.0 ≡ ok tt)
        × (r.1.notifications
            ≡ db.notifications ++ all_digests now db (filter (λ t. t.is_active) db.tenants))
  unfolding run_daily_digest
  run_daily_digest_lem now db =
      let (db', done, apart) =
        digest_tenants-ok now (filter (λ (t : Tenant D). t.is_active) db.tenants) db in
      rw (find_many-filter (λ (t : Tenant D). t.is_active) db.tenants) rw done (refl, apart.4)
