-- ===== src/Analytics.antt =====
-- analytics/analytics.service.ts: the metrics from the query builder. Times are milliseconds; minutes
-- are their quotients by 60 000, and a percentage is kept as the fraction that `toFixed(2)` rounds.
pub mod Queries
pub mod Metrics
pub mod Totals
mod Tests
use fruct.Prelude.{
  ℕ, String, Bool, true, false, not, ◌&&◌, ◌+◌, ◌*◌, ◌/◌, ◌==◌, ltb, leb, if◌then◌else◌, Option,
  none, some, List, [], ◌∷◌, map, sum, length, filter, sort, item, is_id, is_some,
}
use fruct.Prelude.Int.{ℤ, pos, sub_ℕ, ltb_ℤ, ◌+ℤ◌}
use fruct.Action.{Action, not_found, record_missing, pure, gets, or_throw, ◌>>=◌}
use fruct.Schema.{Db, Tenant, User, Lead, LeadStatus, Deal}
use fruct.Session.{Context, is_manager}
use fruct.Platform.{Platform}
use fruct.Deals.Status.{has, commissionable}

-- `PeriodQueryDto`, parsed.
pub record Period : Type 0 where
  pub first : ℕ
  pub last : ℕ

pub record Fraction : Type 0 where
  pub numerator : ℕ
  pub denominator : ℕ

pub record Stage : Type 0 where
  pub status : LeadStatus
  pub count : ℕ

pub record Funnel : Type 0 where
  pub stages : List Stage
  pub total_leads : ℕ
  pub conversion_rate_percent : Fraction

-- A sum of milliseconds and the number of summands.
pub record Average : Type 0 where
  pub total : ℤ
  pub count : ℕ

pub record SlaMetrics : Type 0 where
  pub total_leads : ℕ
  pub responded_count : ℕ
  pub avg_response : Option Average
  pub median_response : Option ℤ
  pub sla_breach_count : ℕ
  pub sla_minutes : ℕ

pub record ManagerComparison (D : Type 0) : Type 0 where
  pub manager_id : ℕ
  pub manager_full_name : String
  pub revenue : D
  pub deals_count : ℕ
  pub leads_assigned : ℕ
  pub leads_won : ℕ
  pub conversion_rate_percent : Fraction
  pub avg_response : Option Average

-- The index of a status in `FUNNEL_STAGES`.
abbrev pub stage_index : LeadStatus → ℕ
stage_index LeadStatus.new = 0
stage_index LeadStatus.contacted = 1
stage_index LeadStatus.in_dialogue = 2
stage_index LeadStatus.proposal_sent = 3
stage_index LeadStatus.waiting_decision = 4
stage_index LeadStatus.won = 5
stage_index LeadStatus.lost = 6

abbrev pub funnel_stages : List LeadStatus
funnel_stages =
    LeadStatus.new ∷ LeadStatus.contacted ∷ LeadStatus.in_dialogue ∷ LeadStatus.proposal_sent
    ∷ LeadStatus.waiting_decision ∷ LeadStatus.won ∷ LeadStatus.lost ∷ []

abbrev pub has_status : LeadStatus → Lead → Bool
has_status status l = stage_index l.status == stage_index status

abbrev pub in_period : Period → ℕ → Bool
in_period period at = leb period.first at && leb at period.last

-- `total > 0 ? ((won / total) * 100).toFixed(2) : '0.00'`
abbrev pub conversion_rate : ℕ → ℕ → Fraction
conversion_rate won total =
    if ltb 0 total
    then record { numerator = won * 100; denominator = total }
    else record { numerator = 0; denominator = 1 }

-- The time from the creation of a lead, where it has been answered.
abbrev pub response_time : Lead → Option ℤ
response_time l = elim l.first_response_at [ none ↦ none | some at ↦ some (sub_ℕ at l.created_at) ]

-- The times that the loop pushes.
abbrev pub response_times : List Lead → List ℤ
response_times [] = []
response_times (l ∷ ls) =
    let rest = response_times ls in elim (response_time l) [ none ↦ rest | some t ↦ t ∷ rest ]

-- `minutes > tenant.slaMinutes`, of the answer or, where there is none, of the lead's age.
abbrev pub counts_as_breach : ℕ → ℕ → Lead → Bool
counts_as_breach now sla_minutes l = elim l.first_response_at [
  | none ↦ ltb_ℤ (pos (sla_minutes * 60000)) (sub_ℕ now l.created_at)
  | some at ↦ ltb_ℤ (pos (sla_minutes * 60000)) (sub_ℕ at l.created_at)
]

abbrev pub breach_total : ℕ → ℕ → List Lead → ℕ
breach_total now sla_minutes ls = length (filter (counts_as_breach now sla_minutes) ls)

abbrev pub add_all : List ℤ → ℤ
add_all [] = pos 0
add_all (t ∷ ts) = t +ℤ add_all ts

abbrev pub average : List ℤ → Option Average
average ts =
    if ltb 0 (length ts) then some (record { total = add_all ts; count = length ts }) else none

-- `times[Math.floor(times.length / 2)]`, of the sorted times.
abbrev pub median : List ℤ → Option ℤ
median ts = item (length ts / 2) ts

module _ (lib : Platform) where
  open lib use {D, zero_decimal, plus, greater_than, find_first, find_many}

  -- The leads of the tenant that were created in the period.
  unfoldable pub period_leads : Context → Period → Action (Db D) (List Lead)
  period_leads ctx period = gets λ (db : Db D).
      find_many (λ l. l.tenant_id == ctx.tenant && in_period period l.created_at) db.leads

  -- `groupBy` counts the leads of each status; a status without leads counts zero.
  abbrev pub stage_of : List Lead → LeadStatus → Stage
  stage_of leads status = record {
    status = status;
    count = length (filter (has_status status) leads);
  }

  unfoldable pub funnel : Context → Period → Action (Db D) Funnel
  funnel ctx period = do
    leads ← period_leads ctx period
    let stages : List Stage = map (stage_of leads) funnel_stages
    let total : ℕ = sum (λ (s : Stage). s.count) stages
    let won : ℕ = length (filter (has_status LeadStatus.won) leads)
    pure (record {
      stages = stages;
      total_leads = total;
      conversion_rate_percent = conversion_rate won total;
    })

  unfoldable pub sla_metrics : Context → Period → Action (Db D) SlaMetrics
  sla_metrics ctx period = do
    found ← gets λ (db : Db D). find_first (λ (t : Tenant D). t.id == ctx.tenant) db.tenants
    tenant ← or_throw found (not_found record_missing)
    leads ← period_leads ctx period
    let times : List ℤ = sort ltb_ℤ (response_times leads)
    pure (record {
      total_leads = length leads;
      responded_count = length times;
      avg_response = average times;
      median_response = median times;
      sla_breach_count = breach_total ctx.now tenant.sla_minutes leads;
      sla_minutes = tenant.sla_minutes;
    })

  abbrev pub add_amounts : D → List (Deal D) → D
  add_amounts acc [] = acc
  add_amounts acc (d ∷ ds) = add_amounts (plus acc d.total_amount) ds

  abbrev pub is_assigned : Context → Period → ℕ → Lead → Bool
  is_assigned ctx period manager_id l =
      l.tenant_id == ctx.tenant
      && is_id l.assigned_manager_id manager_id
      && in_period period l.created_at

  abbrev pub is_sale_of : Context → Period → ℕ → Deal D → Bool
  is_sale_of ctx period manager_id d =
      d.tenant_id == ctx.tenant
      && d.manager_id == manager_id
      && has commissionable d.status
      && in_period period d.created_at

  -- The body of the loop over the managers.
  unfoldable pub compare_manager : Context → Period → Db D → User D → ManagerComparison D
  compare_manager ctx period db u =
      let deals = find_many (is_sale_of ctx period u.id) db.deals in
      let assigned = length (find_many (is_assigned ctx period u.id) db.leads) in
      let won =
        length (
          find_many (λ l. is_assigned ctx period u.id l && has_status LeadStatus.won l) db.leads) in
      let responded =
        find_many (λ l. is_assigned ctx period u.id l && is_some l.first_response_at) db.leads in
      record {
        manager_id = u.id;
        manager_full_name = u.full_name;
        revenue = add_amounts zero_decimal deals;
        deals_count = length deals;
        leads_assigned = assigned;
        leads_won = won;
        conversion_rate_percent = conversion_rate won assigned;
        avg_response = average (response_times responded);
      }

  -- `Number(b.revenue) - Number(a.revenue)`
  abbrev pub earns_more : ManagerComparison D → ManagerComparison D → Bool
  earns_more a b = greater_than a.revenue b.revenue

  unfoldable pub managers_comparison : Context → Period → Action (Db D) (List (ManagerComparison D))
  managers_comparison ctx period = do
    managers ←
        gets λ (db : Db D). find_many (λ u. u.tenant_id == ctx.tenant && is_manager u.role) db.users
    results ← gets λ (db : Db D). map (compare_manager ctx period db) managers
    pure (sort earns_more results)
