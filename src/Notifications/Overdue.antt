-- ===== src/Notifications/Overdue.antt =====
-- The check of the response time reaches the manager of every overdue lead.
use fruct.Prelude.{
  ℕ, String, Bool, none, List, [], ◌∷◌, ◌++◌, ◌≡◌, ◌≢◌, ◌≤◌, Unique, Unique-filter, ◌⊎◌, refl, sym,
  ap, subst, ◌∙◌, arith, inl, inr, find, filter, All, All-map, All-both, Option-cases, Bool-cases,
  length-filter-append, length-filter-none, length-filter-some,
}
use fruct.Action.{ok, Result, >>=-ok}
use fruct.Schema.{Db, Lead}
use fruct.Platform.{Platform}
use fruct.Notifications.{deliver}
use fruct.Notifications.Processor.{
  breach_of, breaching, breach_params, job_context, check_lead, check_leads, run_sla_check,
}
use fruct.Notifications.Delivery.{notify-ok, recorded, deliver_keeps}
use fruct.Notifications.Contacts.{Grows-snoc, last-counted, is_row_for, deliver-contacts}
use fruct.Notifications.Breaches.{
  breach_count, NotifiedOnce, breach_row, only_own_breach, check_lead-cases,
  check_leads-NotifiedOnce,
}
use fruct.Notifications.Later.{HasManager, IsNotified, IsTold, Later, IsTold-kept, Later-trans}

module _ (lib : Platform) (telegram : String → Bool) (new_id : ℕ → ℕ) where
  open lib use {D, find_first-find}

  check_lead-again :
      (now : ℕ) (l : Lead) (db : Db D)
      → IsNotified lib telegram new_id db l
      → check_lead lib telegram new_id now l db ≡ (ok tt, db)
  unfolding check_lead
  check_lead-again now l db notified =
      elim (Option-cases (find (breach_of l.tenant_id l.id) db.notifications)) [
        | inl gone ↦
            absurd
              (omega (arith, length-filter-none (breach_of l.tenant_id l.id) db.notifications gone))
        | inr (n, here) ↦
            rw (find_first-find (breach_of l.tenant_id l.id) db.notifications) rw here refl
      ]

  check_leads-again :
      (now : ℕ) (ls : List Lead) (db : Db D)
      → All (IsNotified lib telegram new_id db) ls
      → check_leads lib telegram new_id now ls db ≡ (ok tt, db)
  unfolding check_leads
  check_leads-again now [] db h = refl
  check_leads-again now (l ∷ ls) db h =
      rw
        (>>=-ok (check_lead lib telegram new_id now l) (λ _. check_leads lib telegram new_id now ls)
          (check_lead-again now l db h.0))
        (check_leads-again now ls db h.1)

  -- A lead without a notification is told of, and gets its row.
  check_lead-new :
      (now : ℕ) (l : Lead) (db : Db D)
      → HasManager lib telegram new_id db l
      → find (breach_of l.tenant_id l.id) db.notifications ≡ none
      → (db' : Db D) × (check_lead lib telegram new_id now l db ≡ (ok tt, db'))
        × IsNotified lib telegram new_id db' l
        × IsTold lib telegram new_id db' l
        × Later lib telegram new_id db db'
  unfolding check_lead
  check_lead-new now l db (user, here) gone =
      let ctx = job_context lib telegram new_id l.tenant_id now l.id in
      let params = breach_params lib telegram new_id l in
      let row = breach_row lib telegram new_id now l in
      let stored = recorded lib telegram ctx params db in
      let kept = deliver_keeps lib telegram params user stored in
      let (sent, messages, letters) = deliver-contacts lib telegram new_id l user stored in
      (
        deliver lib telegram params user stored,
        rw (find_first-find (breach_of l.tenant_id l.id) db.notifications) rw gone
            (notify-ok lib telegram ctx params db user here),
        rw kept.0 (last-counted (breach_of l.tenant_id l.id) db.notifications row (ground arith)),
        (
          rw kept.0 (last-counted (is_row_for l) db.notifications row (ground arith)),
          (user, rw kept.1 here, sent),
        ),
        (kept.1, kept.2, kept.3, rw kept.0 (Grows-snoc db.notifications row), messages, letters),
      )

  check_lead-ok :
      (now : ℕ) (l : Lead) (db : Db D)
      → HasManager lib telegram new_id db l
      → (db' : Db D) × (check_lead lib telegram new_id now l db ≡ (ok tt, db'))
        × IsNotified lib telegram new_id db' l
        × (IsNotified lib telegram new_id db l ⊎ IsTold lib telegram new_id db' l)
        × Later lib telegram new_id db db'
  check_lead-ok now l db has =
      elim (Option-cases (find (breach_of l.tenant_id l.id) db.notifications)) [
        | inr (n, here) ↦
            let notified : IsNotified lib telegram new_id db l =
              length-filter-some (breach_of l.tenant_id l.id) db.notifications n here in
            (
              db,
              check_lead-again now l db notified,
              notified,
              inl notified,
              (refl, refl, refl, λ q. omega arith, λ q. omega arith, λ q. omega arith),
            )
        | inl gone ↦
            let (db', done, notified, told, later) = check_lead-new now l db has gone in
            (db', done, notified, inr told, later)
      ]

  -- Another lead's notification stays as missing as it was.
  check_lead-other :
      (now : ℕ) (l k : Lead) (db db' : Db D)
      → k.id ≢ l.id
      → check_lead lib telegram new_id now l db ≡ (ok tt, db')
      → IsNotified lib telegram new_id db' k
      → IsNotified lib telegram new_id db k
  check_lead-other now l k db db' other done notified =
      let row = breach_row lib telegram new_id now l in
      let after : (check_lead lib telegram new_id now l db).1.notifications ≡ db'.notifications =
        ap (λ (r : Result (Unit {0}) × Db D). r.1.notifications) done in
      let count = breach_count k.tenant_id k.id in
      elim (check_lead-cases lib telegram new_id now l db) [
        | inl same ↦ subst (λ ns. 1 ≤ count ns) (sym after ∙ same) notified
        | inr (new_one, grown) ↦
            let now_one : 1 ≤ count (db.notifications ++ row ∷ []) =
              subst (λ ns. 1 ≤ count ns) (sym after ∙ grown) notified in
            elim (Bool-cases (breach_of k.tenant_id k.id row)) [
              | inl mine ↦
                  let own = only_own_breach lib telegram new_id now l k.tenant_id k.id mine in
                  absurd (other (sym own.1))
              | inr miss ↦
                  let counted =
                    length-filter-append (breach_of k.tenant_id k.id) db.notifications row in
                  ground (arith, miss, now_one, counted)
            ]
      ]

  check_leads-ok :
      (now : ℕ) (ls : List Lead) (db : Db D)
      → Unique (λ l. l.id) ls
      → All (HasManager lib telegram new_id db) ls
      → (db' : Db D) × (check_leads lib telegram new_id now ls db ≡ (ok tt, db'))
        × All (IsNotified lib telegram new_id db') ls
        × All (λ l. IsNotified lib telegram new_id db l ⊎ IsTold lib telegram new_id db' l) ls
        × Later lib telegram new_id db db'
  unfolding check_leads
  check_leads-ok now [] db u has =
      (db, refl, tt, tt, (refl, refl, refl, λ q. omega arith, λ q. omega arith, λ q. omega arith))
  check_leads-ok now (l ∷ ls) db u has =
      let (mid, done, notified, told, later) = check_lead-ok now l db has.0 in
      let managers : All (HasManager lib telegram new_id mid) ls =
        All-map _ _ ls (λ k h. rw later.0 h) has.1 in
      let (last, rest, all, all_told, later') = check_leads-ok now ls mid u.1 managers in
      (
        last,
        rw
            (>>=-ok (check_lead lib telegram new_id now l)
              (λ _. check_leads lib telegram new_id now ls) done)
            rest,
        (omega (arith, notified, later'.3 (breach_of l.tenant_id l.id)), all),
        (
          elim told [
            | inl old ↦ inl old
            | inr new ↦ inr (IsTold-kept lib telegram new_id mid last l later' new)
          ],
          All-map _ _ ls
              (λ k h. elim h.1 [
                | inl old ↦ inl (check_lead-other now l k db mid h.0 done old)
                | inr new ↦ inr new
              ])
              (All-both _ _ ls u.0 all_told),
        ),
        Later-trans lib telegram new_id db mid last later later',
      )

  -- When lead ids are unique, no lead has two notifications of a late answer and the manager of every
  -- overdue lead is a user of the lead's tenant, a check returns. Every overdue lead then has exactly
  -- one such notification. If it had none before, its manager has it now and was told, by the bot if it
  -- reaches the manager, and else by mail. A second check at the same time returns and changes nothing.
  pub run_sla_check_lem :
      (now : ℕ) (db : Db D)
      → Unique (λ l. l.id) db.leads
      → NotifiedOnce db.notifications
      → All
          (HasManager lib telegram new_id db)
          (filter (breaching lib telegram new_id now db.tenants) db.leads)
      → let r = run_sla_check lib telegram new_id now db in
        (r.0 ≡ ok tt)
        × All
            (λ l. breach_count l.tenant_id l.id r.1.notifications ≡ 1)
            (filter (breaching lib telegram new_id now db.tenants) db.leads)
        × All
            (λ l.
              (breach_count l.tenant_id l.id db.notifications ≡ 1)
              ⊎ IsTold lib telegram new_id r.1 l)
            (filter (breaching lib telegram new_id now db.tenants) db.leads)
        × (run_sla_check lib telegram new_id now r.1 ≡ (ok tt, r.1))
  unfolding run_sla_check
  run_sla_check_lem now db u once has =
      let overdue = filter (breaching lib telegram new_id now db.tenants) db.leads in
      let (db', done, all, told, later) =
        check_leads-ok now overdue db
          (Unique-filter (λ l. l.id) (breaching lib telegram new_id now db.tenants) db.leads u)
          has in
      let once' : NotifiedOnce db'.notifications =
        rw (← ap (λ (r : Result (Unit {0}) × Db D). r.1) done)
          (check_leads-NotifiedOnce lib telegram new_id now overdue db once) in
      rw done (
        refl,
        All-map _ _ overdue (λ l h. omega (arith, h, once' l.tenant_id l.id)) all,
        All-map _ _ overdue
            (λ l h. elim h [
              | inl old ↦ inl (omega (arith, old, once l.tenant_id l.id))
              | inr new ↦ inr new
            ])
            told,
        rw later.1 rw later.2 (check_leads-again now overdue db' all),
      )
