-- ===== src/Notifications/Breaches.antt =====
-- The check of the response time in notifications/notifications.processor.ts.
use fruct.Prelude.{
  ℕ, String, Bool, true, none, List, [], ◌∷◌, ◌++◌, ◌≡◌, ◌≤◌, ◌⊎◌, refl, arith, inl, inr, length,
  find, filter, Option-cases, Bool-cases, length-filter-append, length-filter-none,
}
use fruct.Action.{>>-keeps}
use fruct.Schema.{Db, Lead, Notification}
use fruct.Platform.{Platform}
use fruct.Notifications.{notification_row}
use fruct.Notifications.Processor.{
  breach_of, breach_params, job_context, check_lead, check_leads, run_sla_check,
}
use fruct.Notifications.Delivery.{notify-stored}

-- The notifications of a late answer to a lead of a tenant.
abbrev pub breach_count : {D : Type 0} → ℕ → ℕ → List (Notification D) → ℕ
breach_count tenant id ns = length (filter (breach_of tenant id) ns)

abbrev pub NotifiedOnce : {D : Type 0} → List (Notification D) → Type 0
NotifiedOnce ns = (tenant id : ℕ) → breach_count tenant id ns ≤ 1

module _ (lib : Platform) (telegram : String → Bool) (new_id : ℕ → ℕ) where
  open lib use {D, find_first-find}

  abbrev pub breach_row : ℕ → Lead → Notification D
  breach_row now l = notification_row (new_id l.id) now (breach_params lib telegram new_id l)

  is_own_breach : (now : ℕ) (l : Lead) → breach_of l.tenant_id l.id (breach_row now l) ≡ true
  is_own_breach now l = ground arith

  pub is_counted :
      (now : ℕ) (l : Lead)
      → length (filter (breach_of l.tenant_id l.id) (breach_row now l ∷ [])) ≡ 1
  is_counted now l = rw (is_own_breach now l) refl

  pub only_own_breach :
      (now : ℕ) (l : Lead) (tenant id : ℕ)
      → breach_of tenant id (breach_row now l) ≡ true
      → (l.tenant_id ≡ tenant) × (l.id ≡ id)
  only_own_breach now l tenant id e = (ground arith, ground arith)

  -- A lead is left alone, or was without a notification and gets its row.
  pub check_lead-cases :
      (now : ℕ) (l : Lead) (db : Db D)
      → let ns = (check_lead lib telegram new_id now l db).1.notifications in
        (ns ≡ db.notifications)
        ⊎ ((find (breach_of l.tenant_id l.id) db.notifications ≡ none)
            × (ns ≡ db.notifications ++ breach_row now l ∷ []))
  unfolding check_lead
  check_lead-cases now l db =
      elim (Option-cases (find (breach_of l.tenant_id l.id) db.notifications)) [
        | inl new_one ↦ inr (
          new_one,
          rw (find_first-find (breach_of l.tenant_id l.id) db.notifications) rw new_one (
              notify-stored lib telegram (job_context lib telegram new_id l.tenant_id now l.id)
                (breach_params lib telegram new_id l) db),
        )
        | inr (n, here) ↦
            inl (rw (find_first-find (breach_of l.tenant_id l.id) db.notifications) rw here refl)
      ]

  check_lead-NotifiedOnce :
      (now : ℕ) (l : Lead) (db : Db D)
      → NotifiedOnce db.notifications
      → NotifiedOnce (check_lead lib telegram new_id now l db).1.notifications
  check_lead-NotifiedOnce now l db once tenant id = elim (check_lead-cases now l db) [
    | inl same ↦ rw same (once tenant id)
    | inr (new_one, grown) ↦ rw grown (elim (Bool-cases (breach_of tenant id (breach_row now l))) [
      | inl mine ↦ ground (
        arith,
        mine,
        only_own_breach now l tenant id mine,
        length-filter-append (breach_of tenant id) db.notifications (breach_row now l),
        length-filter-none (breach_of l.tenant_id l.id) db.notifications new_one,
      )
      | inr other ↦ ground (
        arith,
        other,
        once tenant id,
        length-filter-append (breach_of tenant id) db.notifications (breach_row now l),
      )
    ])
  ]

  pub check_leads-NotifiedOnce :
      (now : ℕ) (ls : List Lead) (db : Db D)
      → NotifiedOnce db.notifications
      → NotifiedOnce (check_leads lib telegram new_id now ls db).1.notifications
  unfolding check_leads
  check_leads-NotifiedOnce now [] db once = once
  check_leads-NotifiedOnce now (l ∷ ls) db once =
      >>-keeps (λ (s t : Db D). NotifiedOnce s.notifications → NotifiedOnce t.notifications)
        (λ s t u h k once. k (h once)) (check_lead lib telegram new_id now l)
        (check_leads lib telegram new_id now ls) (check_lead-NotifiedOnce now l)
        (check_leads-NotifiedOnce now ls) db once

  pub run_sla_check-NotifiedOnce :
      (now : ℕ) (db : Db D)
      → NotifiedOnce db.notifications
      → NotifiedOnce (run_sla_check lib telegram new_id now db).1.notifications
  unfolding run_sla_check
  run_sla_check-NotifiedOnce now db once = check_leads-NotifiedOnce now _ db once
