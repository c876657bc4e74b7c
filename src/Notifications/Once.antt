-- ===== src/Notifications/Once.antt =====
-- A late answer is told once: the notifications through every sequence of the jobs and requests that write them.
use fruct.Prelude.{
  ℕ, String, Bool, false, List, ◌≡◌, refl, arith, inl, inr, All, All-map, length-filter-update_rows,
}
use fruct.Schema.{Db, Notification}
use fruct.Session.{AuthenticatedUser, Context}
use fruct.Platform.{Platform}
use fruct.Notifications.{set_read, unread_of, mark_read, mark_all_read}
use fruct.Notifications.Processor.{is_breach, breach_of, run_sla_check, run_daily_digest}
use fruct.Notifications.Breaches.{NotifiedOnce, run_sla_check-NotifiedOnce}
use fruct.Notifications.Digest.{run_daily_digest_lem, filter-append-none, all_digests-no_breach}
use fruct.Notifications.Reading.{at_id, mark_read-rows, mark_all_read-rows}

module _ (lib : Platform) (telegram : String → Bool) (new_id : ℕ → ℕ) where
  open lib use {D}

  -- A job or a request. What the other services do leaves the notifications as they are.
  pub data NotificationStep : Db D → Db D → Type 0 where
    checked :
        (now : ℕ) (db : Db D) → NotificationStep db (run_sla_check lib telegram new_id now db).1
    digested :
        (now : ℕ) (db : Db D) → NotificationStep db (run_daily_digest lib telegram new_id now db).1
    marked :
        (ctx : Context) (id : ℕ) (user : AuthenticatedUser) (db : Db D)
        → NotificationStep db (mark_read lib telegram ctx id user db).1
    all_marked :
        (ctx : Context) (user : AuthenticatedUser) (db : Db D)
        → NotificationStep db (mark_all_read lib telegram ctx user db).1
    elsewhere : (db db' : Db D) → db'.notifications ≡ db.notifications → NotificationStep db db'

  pub data NotificationRun : Db D → Db D → Type 0 where
    start : (db : Db D) → NotificationRun db db
    then_ :
        (db mid last : Db D)
        → NotificationRun db mid
        → NotificationStep mid last
        → NotificationRun db last

  no_breach_of :
      (tenant id : ℕ) (ns : List (Notification D))
      → All (λ n. is_breach n.type ≡ false) ns
      → All (λ n. breach_of tenant id n ≡ false) ns
  no_breach_of tenant id ns =
      All-map (λ (n : Notification D). is_breach n.type ≡ false)
        (λ n. breach_of tenant id n ≡ false) ns (λ n e. ground arith)

  step-NotifiedOnce :
      (db db' : Db D)
      → NotificationStep db db'
      → NotifiedOnce db.notifications
      → NotifiedOnce db'.notifications
  step-NotifiedOnce _ _ (checked now db) once tenant id =
      run_sla_check-NotifiedOnce lib telegram new_id now db once tenant id
  step-NotifiedOnce _ _ (digested now db) once tenant id =
      rw ((run_daily_digest_lem lib telegram new_id now db).1) rw
        (filter-append-none (breach_of tenant id) db.notifications _
          (no_breach_of tenant id _ (all_digests-no_breach lib telegram new_id now db _)))
        (once tenant id)
  step-NotifiedOnce _ _ (marked ctx id user db) once tenant i =
      elim (mark_read-rows lib telegram ctx id user db) [
        | inl same ↦ rw same (once tenant i)
        | inr rows ↦ rw rows omega (
          arith,
          once tenant i,
          length-filter-update_rows (breach_of tenant i) (at_id lib telegram ctx id) set_read
              db.notifications (λ n. refl),
        )
      ]
  step-NotifiedOnce _ _ (all_marked ctx user db) once tenant i =
      rw (mark_all_read-rows lib telegram ctx user db) omega (
        arith,
        once tenant i,
        length-filter-update_rows (breach_of tenant i) (unread_of lib telegram ctx user) set_read
            db.notifications (λ n. refl),
      )
  step-NotifiedOnce _ _ (elsewhere db db' same) once tenant id = rw same (once tenant id)

  -- From a state in which no lead has two notifications of a late answer, no sequence of checks, digests, marks and
  -- operations of other services leads to one in which a lead has two.
  pub run-NotifiedOnce :
      (db db' : Db D)
      → NotificationRun db db'
      → NotifiedOnce db.notifications
      → NotifiedOnce db'.notifications
  run-NotifiedOnce _ _ (start db) once = once
  run-NotifiedOnce _ _ (then_ db mid last run step) once =
      step-NotifiedOnce mid last step (run-NotifiedOnce db mid run once)
