-- ===== src/Payouts/Generation.antt =====
-- `generate` of payouts/payouts.service.ts: one DRAFT payout for each manager that has something to
-- be paid, with the manager's deals linked to it.
use fruct.Prelude.{ℕ, Bool, ◌&&◌, none, some, List, [], ◌∷◌, map, ◌==◌, if◌then◌else◌, contains}
use fruct.Action.{Action, pure, ◌>>=◌}
use fruct.Schema.{Db, Deal, Payout, draft}
use fruct.Session.{Context}
use fruct.Platform.{Platform}
use fruct.Payouts.Period.{PayoutPeriod, ManagerPayoutCalc, calculate_for_period}

abbrev pub deal_ids : {D : Type 0} → ManagerPayoutCalc D → List ℕ
deal_ids calc = map (λ d. d.id) calc.deals

-- `where: { id: { in: ids } }`, with the tenant.
abbrev pub claimed_by : {D : Type 0} → Context → List ℕ → Deal D → Bool
claimed_by ctx ids d = contains d.id ids && d.tenant_id == ctx.tenant

abbrev pub link : {D : Type 0} → ℕ → Deal D → Deal D
link payout d = record d { payout_id = some payout }

module _ (lib : Platform) where
  open lib use {D, is_zero, column, create, update_many, transaction}

  unfoldable pub payout_row : Context → PayoutPeriod → (ℕ → ℕ) → ManagerPayoutCalc D → Payout D
  payout_row ctx period new_id calc = record {
    id = new_id calc.manager_id;
    tenant_id = ctx.tenant;
    manager_id = calc.manager_id;
    period_start = period.period_start;
    period_end = period.period_end;
    base_salary = column 10 2 calc.base_salary;
    total_commission = column 10 2 calc.total_commission;
    total_payout = column 10 2 calc.total_payout;
    status = draft;
    email_sent_at = none;
    approved_at = none;
  }

  -- The transaction for one manager; `new_id` gives the id of the row that is created for them.
  unfoldable pub persist_calc :
      Context → PayoutPeriod → (ℕ → ℕ) → ManagerPayoutCalc D → Action (Db D) (Payout D)
  persist_calc ctx period new_id calc = transaction λ (db : Db D).
      let row = payout_row ctx period new_id calc in
      pure row (record db {
        payouts = create row db.payouts;
        deals = elim calc.deals [
          | [] ↦ db.deals
          | _ ∷ _ ↦ (update_many (claimed_by ctx (deal_ids calc)) (link row.id) db.deals).0
        ];
      })

  unfoldable pub persist_all :
      Context
      → PayoutPeriod
      → (ℕ → ℕ)
      → List (ManagerPayoutCalc D)
      → Action (Db D) (List (Payout D))
  persist_all ctx period new_id [] = pure []
  persist_all ctx period new_id (calc ∷ calcs) =
      let rest = persist_all ctx period new_id calcs in
      if is_zero calc.total_payout
      then rest
      else (do payout ← persist_calc ctx period new_id calc; others ← rest; pure (payout ∷ others))

  unfoldable pub generate : Context → PayoutPeriod → (ℕ → ℕ) → Action (Db D) (List (Payout D))
  generate ctx period new_id db =
      persist_all ctx period new_id (calculate_for_period lib ctx period db) db
