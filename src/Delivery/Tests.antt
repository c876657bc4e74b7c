-- ===== src/Delivery/Tests.antt =====
-- Examples for delivery-calc/.
use fruct.Prelude.{ℕ, true, false, ◌+◌, ◌/◌, ◌≤◌, ◌≡◌, refl, some, [], ◌∷◌}
use fruct.Prelude.Int.{ℤ, pos, pos_part, ltb_ℤ}
use fruct.Schema.{individual}
use fruct.Platform.Sample.{sample}
use fruct.Samples.{shop, amount}
use fruct.Delivery.{DeliveryState}
use fruct.Delivery.Requests.{DeliveryCalcRequest}
use fruct.Delivery.Estimator.{
  DeliveryEstimate, estimate, checked_estimate, from_json, parse_estimate, from_content,
  from_response, estimate_lem,
}
use fruct.Delivery.Cache.{Redis, cache_get, cache_set, cache_get-cache_set}
use fruct.Delivery.Sample.{plain_texts, courier}

abbrev to_moscow : DeliveryCalcRequest
to_moscow = record {
  items = record { product_id = 10; quantity = 2 } ∷ record { product_id = 10; quantity = 1 } ∷ [];
  destination_city = "Moscow";
  buyer_type = individual;
  requires_vat_invoice = false;
}

abbrev cold : DeliveryState ℤ
cold = record { db = shop; redis = [] }

abbrev in_hundredths : ℤ → ℕ
in_hundredths weight = pos_part weight / 100

abbrev plus_500 : ℕ → ℕ
plus_500 id = 500 + id

abbrev nothing_cached : ℕ → Redis
nothing_cached id = []

abbrev an_estimate : DeliveryEstimate ℤ
an_estimate = record { cost_rub = amount 700; eta_days_min = 2; eta_days_max = 4 }

estimate_lem_example : (ltb_ℤ (pos 0) an_estimate.cost_rub ≡ true) × (2 ≤ 4)
unfolding estimate from_response from_content parse_estimate from_json checked_estimate
estimate_lem_example =
    estimate_lem sample courier
      (record { from_city = "Samara"; to_city = "Moscow"; weight_kg = amount 45 }) an_estimate refl

cache_get-cache_set_example :
    cache_get plain_texts "Samara" "Moscow" 4500
      (cache_set plain_texts "Samara" "Moscow" 4100 an_estimate [])
    ≡ some an_estimate
cache_get-cache_set_example =
    cache_get-cache_set plain_texts "Samara" "Moscow" "Samara" "Moscow" 4100 4500 an_estimate []
      refl refl refl refl
