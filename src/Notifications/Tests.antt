-- ===== src/Notifications/Tests.antt =====
-- Examples for notifications/.
use fruct.Prelude.{
  ℕ, String, Bool, ◌+◌, ◌*◌, ◌++◌, true, [], ◌∷◌, ◌≡◌, ◌⊎◌, refl, All, Pointwise, length, filter,
  arith,
}
use fruct.Prelude.Int.{ℤ}
use fruct.Action.{ok}
use fruct.Schema.{Db, NotificationType, lead_waits, MailTemplate}
use fruct.Platform.Sample.{sample}
use fruct.Samples.{shop, a_manager, manager_session, request_at}
use fruct.Notifications.{NotifyParams, notification_row, notify, unread_of, mark_all_read, deliver}
use fruct.Deals.Pricing.{user_or_throw}
use fruct.Notifications.Processor.{
  breaching, run_sla_check, check_leads, check_lead, run_daily_digest,
}
use fruct.Notifications.Breaches.{breach_count, NotifiedOnce}
use fruct.Notifications.Later.{IsTold}
use fruct.Notifications.Overdue.{run_sla_check_lem}
use fruct.Notifications.Reading.{OnlyOwnMarked, mark_all_read_lem}
use fruct.Notifications.Digest.{all_digests, run_daily_digest_lem}
use fruct.Notifications.Once.{checked, start, then_, run-NotifiedOnce}

-- A bot that delivers everything.
abbrev working_bot : String → Bool
working_bot chat = true

abbrev ids : ℕ → ℕ
ids subject = 100 + subject

-- A quarter of an hour after the lead came.
abbrev late : ℕ
late = 16 * 60000

abbrev waits : NotifyParams ℤ
waits = record {
  user_id = 2;
  tenant_id = 1;
  type = NotificationType.sla_breach;
  payload = lead_waits 30 "n" "p";
  subject_id = 30;
  template = MailTemplate.sla_breach;
}

abbrev told : Db ℤ
told = record shop { notifications = notification_row 50 9 waits ∷ [] }

run_sla_check_runs : length (run_sla_check sample working_bot ids late shop).1.mail_queue ≡ 1
unfolding run_sla_check check_leads check_lead notify deliver user_or_throw
run_sla_check_runs = refl

nobody_told : NotifiedOnce {D = ℤ} []
nobody_told tenant id = omega arith

run_sla_check_lem_example :
    let r = run_sla_check sample working_bot ids late shop in
    (r.0 ≡ ok tt)
    × All
        (λ l. breach_count l.tenant_id l.id r.1.notifications ≡ 1)
        (filter (breaching sample working_bot ids late shop.tenants) shop.leads)
    × All
        (λ l. (breach_count {D = ℤ} l.tenant_id l.id [] ≡ 1) ⊎ IsTold sample working_bot ids r.1 l)
        (filter (breaching sample working_bot ids late shop.tenants) shop.leads)
    × (run_sla_check sample working_bot ids late r.1 ≡ (ok tt, r.1))
run_sla_check_lem_example =
    run_sla_check_lem sample working_bot ids late shop (ground arith) nobody_told
      ((a_manager, refl), tt)

run-NotifiedOnce_example :
    NotifiedOnce (run_sla_check sample working_bot ids late shop).1.notifications
run-NotifiedOnce_example =
    run-NotifiedOnce sample working_bot ids shop (run_sla_check sample working_bot ids late shop).1
      (then_ shop shop (run_sla_check sample working_bot ids late shop).1 (start shop)
        (checked late shop))
      nobody_told

run_daily_digest_lem_example :
    let r = run_daily_digest sample working_bot ids late shop in
    (r.0 ≡ ok tt)
    × (r.1.notifications
        ≡ []
          ++ all_digests sample working_bot ids late shop (filter (λ t. t.is_active) shop.tenants))
run_daily_digest_lem_example = run_daily_digest_lem sample working_bot ids late shop

mark_all_read_lem_example :
    let r = mark_all_read sample working_bot (request_at 9 0) manager_session told in
    (r.0 ≡ ok 1)
    × (length
          (filter (unread_of sample working_bot (request_at 9 0) manager_session) r.1.notifications)
        ≡ 0)
    × Pointwise
        (OnlyOwnMarked sample working_bot (request_at 9 0) manager_session)
        told.notifications
        r.1.notifications
mark_all_read_lem_example =
    mark_all_read_lem sample working_bot (request_at 9 0) manager_session told
