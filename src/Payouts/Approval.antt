-- ===== src/Payouts/Approval.antt =====
-- The rest of payouts/payouts.service.ts: listing, the manual correction of a draft, the states DRAFT,
-- APPROVED and PAID, and the letters to the managers.
use fruct.Prelude.{
  ℕ, Bool, true, false, not, ◌&&◌, Option, none, some, List, [], ◌∷◌, ◌==◌, ltb, ◌++◌,
  if◌then◌else◌, map, or_else, length, contains, where_eq, where_id,
}
use fruct.Action.{
  Action, not_found, conflict, payout_missing, record_missing, only_draft_edited,
  only_draft_approved, only_approved_paid, pure, gets, modify, or_throw, throw_if, ◌>>=◌, ◌>>◌,
}
use fruct.Schema.{
  Db, Payout, PayoutStatus, draft, approved, paid, MailTemplate, payout_statement,
  payout_status_changed,
}
use fruct.Session.{AuthenticatedUser, Context, is_manager, by_id}
use fruct.Platform.{Platform, desc}
use fruct.Deals.Pricing.{user_or_throw}
use fruct.Payouts.Period.{PayoutPeriod}

pub PayoutStatus-discrete : Discrete PayoutStatus
PayoutStatus-discrete = hlevel

pub record ListPayoutsQuery : Type 0 where
  pub status : Option PayoutStatus
  pub manager_id : Option ℕ

pub record UpdatePayout (D : Type 0) : Type 0 where
  pub base_salary : Option D
  pub total_commission : Option D
  pub total_payout : Option D

pub record ApprovePayout : Type 0 where
  pub notify_manager : Option Bool

abbrev pub is_draft : PayoutStatus → Bool
is_draft draft = true
is_draft _ = false

abbrev pub is_approved : PayoutStatus → Bool
is_approved approved = true
is_approved _ = false

abbrev pub mark_approved : {D : Type 0} → ℕ → Payout D → Payout D
mark_approved now p = record p { status = approved; approved_at = some now }

abbrev pub mark_as_paid : {D : Type 0} → Payout D → Payout D
mark_as_paid p = record p { status = paid }

abbrev pub mark_sent : {D : Type 0} → ℕ → Payout D → Payout D
mark_sent now p = record p { email_sent_at = some now }

module _ (lib : Platform) where
  open lib use {D, plus, column, find_first, find_many, update, update_many, order_by}

  abbrev pub matches_query : Context → ListPayoutsQuery → AuthenticatedUser → Payout D → Bool
  matches_query ctx query user p =
      let manager = if is_manager user.role then some user.id else query.manager_id in
      p.tenant_id == ctx.tenant
      && where_eq PayoutStatus-discrete query.status p.status
      && where_id manager p.manager_id

  unfoldable pub find_all_payouts :
      Context → ListPayoutsQuery → AuthenticatedUser → Action (Db D) (List (Payout D))
  find_all_payouts ctx query user = gets λ (db : Db D).
      order_by desc (λ p. p.period_start) (find_many (matches_query ctx query user) db.payouts)

  -- `findUnique` and the check that follows it in every method.
  unfoldable pub existing_payout : Context → ℕ → Action (Db D) (Payout D)
  existing_payout ctx id = do
    found ← gets λ (db : Db D). find_first (λ p. by_id ctx.tenant id p.tenant_id p.id) db.payouts
    or_throw found (not_found payout_missing)

  unfoldable pub payout_or_throw : Context → ℕ → AuthenticatedUser → Action (Db D) (Payout D)
  payout_or_throw ctx id user = do
    payout ← existing_payout ctx id
    throw_if (is_manager user.role && not (payout.manager_id == user.id)) (not_found payout_missing)
    pure payout

  -- `payout.update({ where: { id }, data })`
  unfoldable pub update_payout : Context → ℕ → (Payout D → Payout D) → Action (Db D) (Payout D)
  update_payout ctx id f db =
      elim (update (λ (p : Payout D). by_id ctx.tenant id p.tenant_id p.id) f db.payouts) [
        | none ↦ or_throw none (not_found record_missing) db
        | some (p, payouts) ↦ pure p (record db { payouts = payouts })
      ]

  -- The data of `update`: `seen` is the row that was read, and a total that is not given is added up.
  unfoldable pub correct : UpdatePayout D → Payout D → Payout D → Payout D
  correct dto seen p =
      let base_salary = or_else dto.base_salary seen.base_salary in
      let total_commission = or_else dto.total_commission seen.total_commission in
      record p {
        base_salary = column 10 2 base_salary;
        total_commission = column 10 2 total_commission;
        total_payout = column 10 2 (or_else dto.total_payout (plus base_salary total_commission));
      }

  unfoldable pub update_draft : Context → ℕ → UpdatePayout D → Action (Db D) (Payout D)
  update_draft ctx id dto = do
    payout ← existing_payout ctx id
    throw_if (not (is_draft payout.status)) (conflict only_draft_edited)
    update_payout ctx id (correct dto payout)

  -- `mailQueue.enqueue` for the manager of a payout.
  unfoldable pub enqueue_email : Context → MailTemplate → Payout D → Action (Db D) (Unit {0})
  enqueue_email ctx template payout = do
    recipient ← user_or_throw lib ctx payout.manager_id
    modify λ (db : Db D). record db {
      mail_queue =
          db.mail_queue
          ++ record {
            tenant_id = payout.tenant_id;
            user_id = recipient.id;
            to = recipient.email;
            template = template;
            subject_id = payout.id;
          }
            ∷ [];
    }

  unfoldable pub approve : Context → ℕ → ApprovePayout → Action (Db D) (Payout D)
  approve ctx id dto = do
    payout ← existing_payout ctx id
    throw_if (not (is_draft payout.status)) (conflict only_draft_approved)
    updated ← update_payout ctx id (mark_approved ctx.now)
    if or_else dto.notify_manager false
        then enqueue_email ctx payout_status_changed updated
        else pure tt
    pure updated

  unfoldable pub mark_paid : Context → ℕ → ApprovePayout → Action (Db D) (Payout D)
  mark_paid ctx id dto = do
    payout ← existing_payout ctx id
    throw_if (not (is_approved payout.status)) (conflict only_approved_paid)
    updated ← update_payout ctx id mark_as_paid
    if or_else dto.notify_manager false
        then enqueue_email ctx payout_status_changed updated
        else pure tt
    pure updated

  unfoldable pub send_email : Context → ℕ → Action (Db D) (Unit {0})
  send_email ctx id = do
    payout ← existing_payout ctx id
    enqueue_email ctx payout_statement payout
    update_payout ctx id (mark_sent ctx.now)
    pure tt

  unfoldable pub enqueue_all : Context → List (Payout D) → Action (Db D) (Unit {0})
  enqueue_all ctx [] = pure tt
  enqueue_all ctx (p ∷ ps) =
      let rest = enqueue_all ctx ps in (do enqueue_email ctx payout_statement p; rest)

  -- `if (payouts.length > 0) { … }`
  unfoldable pub stamp_sent : Context → List (Payout D) → Db D → Db D
  stamp_sent ctx payouts db =
      if ltb 0 (length payouts)
      then record db {
        payouts =
            (update_many
              (λ (p : Payout D).
                contains p.id (map (λ q. q.id) payouts) && p.tenant_id == ctx.tenant)
              (mark_sent ctx.now) db.payouts).0;
      }
      else db

  -- The period's payouts of every manager: `managerId` of the period is not read.
  unfoldable pub send_bulk : Context → PayoutPeriod → Action (Db D) ℕ
  send_bulk ctx period = do
    payouts ← gets λ (db : Db D).
        find_many
          (λ (p : Payout D).
            p.tenant_id == ctx.tenant
            && p.period_start == period.period_start
            && p.period_end == period.period_end)
          db.payouts
    enqueue_all ctx payouts
    modify (stamp_sent ctx payouts)
    pure (length payouts)
