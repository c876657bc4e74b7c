-- ===== src/Payouts/Period.antt =====
-- `calculateForPeriod` and `preview` of payouts/payouts.service.ts: what each manager has earned in a
-- period.
use fruct.Prelude.{
  ℕ, String, Bool, not, ◌&&◌, Option, List, [], ◌∷◌, map, ◌==◌, leb, where_id, is_some,
}
use fruct.Schema.{Db, Deal, User}
use fruct.Session.{Context, is_manager}
use fruct.Platform.{Platform, asc}
use fruct.Deals.Status.{has, commissionable}

-- `PayoutPeriodDto`, its dates as instants.
pub record PayoutPeriod : Type 0 where
  pub period_start : ℕ
  pub period_end : ℕ
  pub manager_id : Option ℕ

pub record DealLine (D : Type 0) : Type 0 where
  pub id : ℕ
  pub created_at : ℕ
  pub total_amount : D
  pub commission_amount : D

pub record ManagerPayoutCalc (D : Type 0) : Type 0 where
  pub manager_id : ℕ
  pub manager_full_name : String
  pub manager_email : String
  pub base_salary : D
  pub total_commission : D
  pub total_payout : D
  pub deals : List (DealLine D)

-- The where clause for the deals of a manager that no payout has claimed.
abbrev pub claimable : {D : Type 0} → Context → PayoutPeriod → ℕ → Deal D → Bool
claimable ctx period manager d =
    d.tenant_id == ctx.tenant
    && d.manager_id == manager
    && has commissionable d.status
    && leb period.period_start d.created_at
    && leb d.created_at period.period_end
    && not (is_some d.payout_id)

abbrev pub deal_line : {D : Type 0} → Deal D → DealLine D
deal_line d = record {
  id = d.id;
  created_at = d.created_at;
  total_amount = d.total_amount;
  commission_amount = d.commission_amount;
}

module _ (lib : Platform) where
  open lib use {D, zero_decimal, plus, find_many, order_by}

  -- The sum of the commissions, from left to right.
  abbrev pub commission_from : D → List (Deal D) → D
  commission_from acc [] = acc
  commission_from acc (d ∷ ds) = commission_from (plus acc d.commission_amount) ds

  abbrev pub claimable_deals : Context → PayoutPeriod → ℕ → Db D → List (Deal D)
  claimable_deals ctx period manager db =
      order_by asc (λ d. d.created_at) (find_many (claimable ctx period manager) db.deals)

  abbrev pub calc_manager : Context → PayoutPeriod → Db D → User D → ManagerPayoutCalc D
  calc_manager ctx period db m =
      let deals = claimable_deals ctx period m.id db in
      let total_commission = commission_from zero_decimal deals in
      record {
        manager_id = m.id;
        manager_full_name = m.full_name;
        manager_email = m.email;
        base_salary = m.base_salary;
        total_commission = total_commission;
        total_payout = plus m.base_salary total_commission;
        deals = map deal_line deals;
      }

  abbrev pub managers_of : Context → PayoutPeriod → Db D → List (User D)
  managers_of ctx period db =
      find_many
        (λ (u : User D).
          u.tenant_id == ctx.tenant && is_manager u.role && where_id period.manager_id u.id)
        db.users

  -- `calculateForPeriod`; `preview` returns it.
  unfoldable pub calculate_for_period : Context → PayoutPeriod → Db D → List (ManagerPayoutCalc D)
  calculate_for_period ctx period db = map (calc_manager ctx period db) (managers_of ctx period db)
