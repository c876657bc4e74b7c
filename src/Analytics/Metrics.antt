-- ===== src/Analytics/Metrics.antt =====
-- The funnel, the response times and the comparison of managers of analytics/analytics.service.ts.
use fruct.Prelude.{
  ℕ, Bool, true, false, not, ◌&&◌, ◌+◌, ◌*◌, ◌/◌, ◌≤◌, ◌≡◌, refl, arith, suc, ◌==◌, if◌then◌else◌,
  some, List, [], ◌∷◌, map, sum, length, filter, find, sort, All, All-sort, count-sort, length-sort,
  sort-IsSorted, item-rank, item-lt, length-filter-le, length-filter-and_le,
}
use fruct.Prelude.Int.{ℤ, ltb_ℤ}
use fruct.Action.{ok}
use fruct.Schema.{Db, Tenant, User, Lead, LeadStatus}
use fruct.Session.{Context, is_manager}
use fruct.Platform.{Platform}
use fruct.Analytics.{
  Period, Funnel, Stage, SlaMetrics, Fraction, ManagerComparison, stage_index, funnel_stages,
  has_status, in_period, conversion_rate, response_times, counts_as_breach, median, period_leads,
  funnel, sla_metrics, compare_manager, managers_comparison, is_assigned, earns_more,
}

-- A percentage between 0 and 100.
abbrev pub IsRate : Fraction → Type 0
IsRate f = (1 ≤ f.denominator) × (f.numerator ≤ 100 * f.denominator)

conversion_rate-IsRate : (won total : ℕ) → won ≤ total → IsRate (conversion_rate won total)
conversion_rate-IsRate won total le = (ground arith, ground arith)

ltb_ℤ-asym : (a b : ℤ) → ltb_ℤ a b ≡ true → ltb_ℤ b a ≡ false
ltb_ℤ-asym a b e = ground arith

ltb_ℤ-trans : (a b c : ℤ) → ltb_ℤ b a ≡ false → ltb_ℤ c b ≡ false → ltb_ℤ c a ≡ false
ltb_ℤ-trans a b c e f = ground arith

ltb_ℤ-irrefl : (a : ℤ) → ltb_ℤ a a ≡ false
ltb_ℤ-irrefl a = ground arith

-- Every status is a stage, once.
one_stage :
    (s : LeadStatus) → sum (λ t. if stage_index s == stage_index t then 1 else 0) funnel_stages ≡ 1
one_stage LeadStatus.new = refl
one_stage LeadStatus.contacted = refl
one_stage LeadStatus.in_dialogue = refl
one_stage LeadStatus.proposal_sent = refl
one_stage LeadStatus.waiting_decision = refl
one_stage LeadStatus.won = refl
one_stage LeadStatus.lost = refl

counts_cons :
    (l : Lead) (ls : List Lead) (ss : List LeadStatus)
    → sum (λ s. length (filter (has_status s) (l ∷ ls))) ss
      ≡ sum (λ t. if stage_index l.status == stage_index t then 1 else 0) ss
        + sum (λ s. length (filter (has_status s) ls)) ss
counts_cons l ls [] = refl
counts_cons l ls (s ∷ ss) = ground (arith, counts_cons l ls ss)

stage_counts :
    (ls : List Lead) → sum (λ s. length (filter (has_status s) ls)) funnel_stages ≡ length ls
stage_counts [] = refl
stage_counts (l ∷ ls) =
    omega (arith, counts_cons l ls funnel_stages, one_stage l.status, stage_counts ls)

response_times-le : (ls : List Lead) → length (response_times ls) ≤ length ls
response_times-le [] = omega arith
response_times-le (l ∷ ls) = ground (arith, response_times-le ls)

module _ (lib : Platform) where
  open lib use {D, find_many, find_many-filter, find_first-find}

  abbrev pub is_period_lead : Context → Period → Lead → Bool
  is_period_lead ctx period l = l.tenant_id == ctx.tenant && in_period period l.created_at

  -- The funnel of a period is answered without a change of state: its stages add up to the leads of the tenant that were
  -- created in the period, and the conversion rate lies between 0 and 100 per cent, also where there are none.
  pub funnel_lem :
      (ctx : Context) (period : Period) (db : Db D)
      → (f : Funnel) × (funnel lib ctx period db ≡ (ok f, db))
        × (f.total_leads ≡ length (filter (is_period_lead ctx period) db.leads))
        × (f.total_leads ≡ sum (λ (s : Stage). s.count) f.stages)
        × IsRate f.conversion_rate_percent
  unfolding funnel period_leads
  funnel_lem ctx period db =
      rw (find_many-filter (is_period_lead ctx period) db.leads)
        let leads = filter (is_period_lead ctx period) db.leads in
          (_, refl, stage_counts leads, refl, conversion_rate-IsRate _ _ (omega arith))

  -- The middle time, where a lead of the list has been answered: no more than half of the answers took less, and no
  -- more than half took more.
  abbrev pub IsMedian : List ℤ → ℤ → Type 0
  IsMedian ts m =
      (suc (length ts / 2) ≤ length (filter (λ t. not (ltb_ℤ m t)) ts))
      × (length ts ≤ length (filter (λ t. not (ltb_ℤ t m)) ts) + length ts / 2)

  median-IsMedian :
      (ts : List ℤ) → 1 ≤ length ts → (m : ℤ) × (median (sort ltb_ℤ ts) ≡ some m) × IsMedian ts m
  median-IsMedian ts some_time =
      let same = length-sort ltb_ℤ ts in
      let (m, found) = item-lt ltb_ℤ (length (sort ltb_ℤ ts) / 2) (sort ltb_ℤ ts) (omega arith) in
      let rank =
        item-rank ltb_ℤ ltb_ℤ-irrefl (length (sort ltb_ℤ ts) / 2) (sort ltb_ℤ ts) m
          (sort-IsSorted ltb_ℤ ltb_ℤ-asym ltb_ℤ-trans ts) found in
      (
        m,
        found,
        (
          omega (arith, rank.0, same, count-sort ltb_ℤ (λ t. not (ltb_ℤ m t)) ts),
          omega (arith, rank.1, same, count-sort ltb_ℤ (λ t. not (ltb_ℤ t m)) ts),
        ),
      )

  -- For a tenant that exists the response times are answered without a change of state: the leads are the tenant's of the
  -- period, no more have been answered or count as breaches than there are, and where one has been answered the median is
  -- a time that no more than half of the answers took less than and no more than half took more than.
  pub sla_metrics_lem :
      (ctx : Context) (period : Period) (db : Db D) (t : Tenant D)
      → find (λ (t : Tenant D). t.id == ctx.tenant) db.tenants ≡ some t
      → let leads = filter (is_period_lead ctx period) db.leads in
        (m : SlaMetrics) × (sla_metrics lib ctx period db ≡ (ok m, db))
        × (m.total_leads ≡ length leads)
        × (m.responded_count ≤ m.total_leads)
        × (m.sla_breach_count ≤ m.total_leads)
        × (1 ≤ m.responded_count
            → (middle : ℤ) × (m.median_response ≡ some middle)
              × IsMedian (response_times leads) middle)
  unfolding sla_metrics period_leads
  sla_metrics_lem ctx period db t e =
      let leads = filter (is_period_lead ctx period) db.leads in
      let same = length-sort ltb_ℤ (response_times leads) in
      rw (find_first-find (λ (t : Tenant D). t.id == ctx.tenant) db.tenants) rw e rw
        (find_many-filter (is_period_lead ctx period) db.leads)
        (
          _,
          refl,
          refl,
          omega (arith, same, response_times-le leads),
          length-filter-le (counts_as_breach ctx.now t.sla_minutes) leads,
          λ h. median-IsMedian (response_times leads) (omega arith),
        )

  compare_manager-IsRate :
      (ctx : Context) (period : Period) (db : Db D) (u : User D)
      → let r = compare_manager lib ctx period db u in
        (r.leads_won ≤ r.leads_assigned) × IsRate r.conversion_rate_percent
  unfolding compare_manager
  compare_manager-IsRate ctx period db u =
      rw (find_many-filter (is_assigned lib ctx period u.id) db.leads) rw
        (find_many-filter (λ l. is_assigned lib ctx period u.id l && has_status LeadStatus.won l)
          db.leads)
        let le =
            length-filter-and_le (is_assigned lib ctx period u.id) (has_status LeadStatus.won)
              db.leads in
          (le, conversion_rate-IsRate _ _ le)

  All-map_list :
      {A B : Type 0} (P : B → Type 0) (f : A → B) (xs : List A)
      → ((a : A) → P (f a))
      → All P (map f xs)
  All-map_list P f [] h = tt
  All-map_list P f (x ∷ xs) h = (h x, All-map_list P f xs h)

  length-map_list : {A B : Type 0} (f : A → B) (xs : List A) → length (map f xs) ≡ length xs
  length-map_list f [] = refl
  length-map_list f (x ∷ xs) = omega (arith, length-map_list f xs)

  -- The comparison of managers is answered without a change of state, with one row for each manager of the tenant, and in
  -- each row no more leads are won than assigned and the conversion rate lies between 0 and 100 per cent.
  managers_comparison_lem :
      (ctx : Context) (period : Period) (db : Db D)
      → (rows : List (ManagerComparison D)) × (managers_comparison lib ctx period db
          ≡ (ok rows, db))
        × (length rows
            ≡ length
                (filter (λ (u : User D). u.tenant_id == ctx.tenant && is_manager u.role) db.users))
        × All (λ r. (r.leads_won ≤ r.leads_assigned) × IsRate r.conversion_rate_percent) rows
  unfolding managers_comparison
  managers_comparison_lem ctx period db =
      rw
        (find_many-filter (λ (u : User D). u.tenant_id == ctx.tenant && is_manager u.role) db.users)
        let managers =
            filter (λ (u : User D). u.tenant_id == ctx.tenant && is_manager u.role) db.users in
          let rows = map (compare_manager lib ctx period db) managers in
          (
            _,
            refl,
            omega (
              arith,
              length-sort (earns_more lib) rows,
              length-map_list (compare_manager lib ctx period db) managers,
            ),
            All-sort (earns_more lib) _ rows (
                All-map_list _ (compare_manager lib ctx period db) managers
                  (compare_manager-IsRate ctx period db)),
          )
