-- ===== src/Notifications/Processor.antt =====
-- notifications/notifications.processor.ts: the two scheduled jobs. Each goes through every tenant; the
-- work for a tenant runs in that tenant's context.
use Prim.Native.Nat.{◌%◌}
use fruct.Prelude.{
  ℕ, String, Bool, true, false, not, ◌&&◌, ◌+◌, ◌-◌, ◌*◌, none, some, List, [], ◌∷◌, ◌==◌, ltb, leb,
  or_else, is_some, length, find, filter, if◌then◌else◌,
}
use fruct.Action.{Action, pure, gets, ◌>>=◌, ◌>>◌}
use fruct.Schema.{
  Db, User, Tenant, Lead, Deal, DealStatus, Notification, NotificationType, NotificationPayload,
  lead_waits, day_summary, MailTemplate,
}
use fruct.Session.{Context, is_manager}
use fruct.Platform.{Platform}
use fruct.Deals.Status.{has, commissionable}
use fruct.Notifications.{NotifyParams, notify}

-- `type === NotificationType.SLA_BREACH`
abbrev pub is_breach : NotificationType → Bool
is_breach NotificationType.sla_breach = true
is_breach _ = false

-- `payload: { path: ['leadId'], equals: id }`
abbrev pub is_about : {D : Type 0} → ℕ → NotificationPayload D → Bool
is_about id (lead_waits lead name phone) = lead == id
is_about id (day_summary new_leads closed revenue breaches) = false

abbrev pub breach_of : {D : Type 0} → ℕ → ℕ → Notification D → Bool
breach_of tenant id n = n.tenant_id == tenant && is_breach n.type && is_about id n.payload

-- The WHERE clause on a lead and the tenant that it is joined with.
abbrev pub is_overdue : {D : Type 0} → ℕ → Tenant D → Lead → Bool
is_overdue now t l =
    not (is_some l.first_response_at)
    && is_some l.assigned_manager_id
    && ltb (l.created_at + t.sla_minutes * 60000) now

abbrev pub is_completed : DealStatus → Bool
is_completed DealStatus.completed = true
is_completed _ = false

-- `Date.UTC` of the date, and the last millisecond of that day.
abbrev pub start_of_day : ℕ → ℕ
start_of_day now = now - now % (24 * 60 * 60 * 1000)

abbrev pub end_of_day : ℕ → ℕ
end_of_day now = start_of_day now + 24 * 60 * 60 * 1000 - 1

abbrev pub within : ℕ → ℕ → ℕ → Bool
within first last at = leb first at && leb at last

module _ (lib : Platform) (telegram : String → Bool) (new_id : ℕ → ℕ) where
  open lib use {D, zero_decimal, plus, find_first, find_many}

  abbrev pub breaching : ℕ → List (Tenant D) → Lead → Bool
  breaching now tenants l = elim (find (λ (t : Tenant D). t.id == l.tenant_id) tenants) [
    | none ↦ false
    | some t ↦ is_overdue now t l
  ]

  abbrev pub breach_params : Lead → NotifyParams D
  breach_params l = record {
    user_id = or_else l.assigned_manager_id 0;
    tenant_id = l.tenant_id;
    type = NotificationType.sla_breach;
    payload =
        lead_waits l.id (or_else l.full_name "без имени") (or_else l.phone "телефон не указан");
    subject_id = l.id;
    template = MailTemplate.sla_breach;
  }

  abbrev pub job_context : ℕ → ℕ → ℕ → Context
  job_context tenant now subject = record { tenant = tenant; now = now; fresh_id = new_id subject }

  -- One notification for a lead, ever.
  unfoldable pub check_lead : ℕ → Lead → Action (Db D) (Unit {0})
  check_lead now l = do
    already_notified ← gets λ (db : Db D). find_first (breach_of l.tenant_id l.id) db.notifications
    if is_some already_notified
        then pure tt
        else notify lib telegram (job_context l.tenant_id now l.id) (breach_params l)

  unfoldable pub check_leads : ℕ → List Lead → Action (Db D) (Unit {0})
  check_leads now [] = pure tt
  check_leads now (l ∷ ls) = let rest = check_leads now ls in check_lead now l >> rest

  -- The SQL query joins each lead with its tenant.
  unfoldable pub run_sla_check : ℕ → Action (Db D) (Unit {0})
  run_sla_check now = do
    leads ← gets λ (db : Db D). filter (breaching now db.tenants) db.leads
    check_leads now leads

  abbrev pub sum_amounts : D → List (Deal D) → D
  sum_amounts acc [] = acc
  sum_amounts acc (d ∷ ds) = sum_amounts (plus acc d.total_amount) ds

  abbrev pub is_active_owner : ℕ → User D → Bool
  is_active_owner tenant u = u.tenant_id == tenant && not (is_manager u.role) && u.is_active

  -- The four numbers of a tenant's day.
  unfoldable pub day_payload : ℕ → ℕ → Db D → NotificationPayload D
  day_payload tenant now db =
      let today = within (start_of_day now) (end_of_day now) in
      day_summary
        (length (find_many (λ (l : Lead). l.tenant_id == tenant && today l.created_at) db.leads))
        (length (
          find_many
            (λ (d : Deal D).
              d.tenant_id == tenant
              && is_completed d.status
              && elim d.closed_at [ none ↦ false | some at ↦ today at ])
            db.deals))
        (sum_amounts zero_decimal (
          find_many
            (λ (d : Deal D).
              d.tenant_id == tenant && has commissionable d.status && today d.created_at)
            db.deals))
        (length (
          find_many
            (λ (n : Notification D).
              n.tenant_id == tenant && is_breach n.type && today n.created_at)
            db.notifications))

  abbrev pub digest_params : ℕ → NotificationPayload D → User D → NotifyParams D
  digest_params tenant payload owner = record {
    user_id = owner.id;
    tenant_id = tenant;
    type = NotificationType.daily_digest;
    payload = payload;
    subject_id = tenant;
    template = MailTemplate.daily_digest;
  }

  unfoldable pub notify_owners :
      ℕ → ℕ → NotificationPayload D → List (User D) → Action (Db D) (Unit {0})
  notify_owners tenant now payload [] = pure tt
  notify_owners tenant now payload (u ∷ us) =
      let rest = notify_owners tenant now payload us in
      notify lib telegram (job_context tenant now u.id) (digest_params tenant payload u) >> rest

  unfoldable pub digest_tenant : ℕ → Tenant D → Action (Db D) (Unit {0})
  digest_tenant now t = do
    owners ← gets λ (db : Db D). find_many (is_active_owner t.id) db.users
    payload ← gets (day_payload t.id now)
    notify_owners t.id now payload owners

  unfoldable pub digest_tenants : ℕ → List (Tenant D) → Action (Db D) (Unit {0})
  digest_tenants now [] = pure tt
  digest_tenants now (t ∷ ts) = let rest = digest_tenants now ts in digest_tenant now t >> rest

  unfoldable pub run_daily_digest : ℕ → Action (Db D) (Unit {0})
  run_daily_digest now = do
    tenants ← gets λ (db : Db D). find_many (λ (t : Tenant D). t.is_active) db.tenants
    digest_tenants now tenants
