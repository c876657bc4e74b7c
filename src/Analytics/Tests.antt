-- ===== src/Analytics/Tests.antt =====
-- Examples for analytics/analytics.service.ts.
use Prim.Native.Nat.{◌%◌}
use fruct.Prelude.{true, ◌/◌, ◌+◌, ◌≡◌, ◌≤◌, refl, none, some, [], ◌∷◌, sum, at_index, arith}
use fruct.Prelude.Int.{ℤ}
use fruct.Action.{ok}
use fruct.Schema.{Db, DealStatus}
use fruct.Platform.Sample.{sample}
use fruct.Samples.{amount, shop, sold, sample_lead, request_at}
use fruct.Analytics.{Period, Funnel, Stage, SlaMetrics, funnel, sla_metrics, response_times}
use fruct.Analytics.Queries.{
  Calendar, PurchaseDistribution, purchase_distribution, top_products, product_groups,
}
use fruct.Analytics.Metrics.{IsRate, IsMedian, funnel_lem, sla_metrics_lem}
use fruct.Analytics.Totals.{purchase_distribution_lem}

-- UTC, with weeks and months of seven and thirty days.
abbrev utc : Calendar
utc = record {
  date_trunc = λ unit at. at;
  hour_of = λ at. at / 3600000 % 24;
  day_of_week = λ at. (at / 86400000 + 4) % 7;
  hour_of-lt = λ at. omega arith;
  day_of_week-lt = λ at. omega arith;
}

abbrev a_day : Period
a_day = record { first = 0; last = 86400000 }

-- A deal that is paid, and an answered lead.
abbrev busy : Db ℤ
busy = record shop {
  deals = record sold { status = DealStatus.paid } ∷ [];
  leads = record sample_lead { first_response_at = some 65 } ∷ [];
}

top_products_runs :
    (top_products sample utc (request_at 9 0) a_day none busy).0
    ≡ ok (
        record {
          product_id = 10;
          product_name = "chair";
          total_quantity = 2;
          total_revenue = amount 10000;
        }
        ∷ [])
unfolding top_products product_groups
top_products_runs = refl

funnel_lem_example :
    (f : Funnel) × (funnel sample (request_at 9 0) a_day busy ≡ (ok f, busy))
    × (f.total_leads ≡ 1)
    × (f.total_leads ≡ sum (λ (s : Stage). s.count) f.stages)
    × IsRate f.conversion_rate_percent
funnel_lem_example = funnel_lem sample (request_at 9 0) a_day busy

sla_metrics_lem_example :
    (m : SlaMetrics) × (sla_metrics sample (request_at 9 0) a_day busy ≡ (ok m, busy))
    × (m.total_leads ≡ 1)
    × (m.responded_count ≤ m.total_leads)
    × (m.sla_breach_count ≤ m.total_leads)
    × (1 ≤ m.responded_count
        → (middle : ℤ) × (m.median_response ≡ some middle)
          × IsMedian sample (response_times busy.leads) middle)
sla_metrics_lem_example =
    sla_metrics_lem sample (request_at 9 0) a_day busy
      (record {
        id = 1;
        name = "shop";
        sla_minutes = 15;
        legal_entity_markup_percent = amount 20;
        is_active = true;
      })
      refl

purchase_distribution_lem_example :
    (p : PurchaseDistribution) × (purchase_distribution sample utc (request_at 9 0) a_day busy
      ≡ (ok p, busy))
    × (at_index 0 p.by_hour ≡ 1)
    × (at_index 4 p.by_day_of_week ≡ 1)
purchase_distribution_lem_example =
    purchase_distribution_lem sample utc (request_at 9 0) a_day busy 0 4
