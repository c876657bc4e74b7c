-- ===== src/Delivery/Estimator.antt =====
-- delivery-calc/deepseek-delivery-estimator.service.ts. What `fetch`, `JSON.parse` and `Math.round` give
-- is a parameter; the request's address and prompt are not modelled.
use fruct.Prelude.{
  ℕ, String, Bool, true, false, not, ◌||◌, ◌≤◌, ◌≡◌, arith, inl, inr, Option-cases, Option, none,
  some, if◌then◌else◌,
}
use text.Mathlib.Text.{◌==◌ as str_eq}
use fruct.Action.{
  Result, ok, err, unavailable, internal, estimator_not_configured, estimator_unreachable,
  estimator_status, estimator_body, estimator_empty, estimator_bad_json, estimator_bad_shape,
  estimator_bad_values,
}
use fruct.Platform.{Platform}

-- `DeliveryEstimateParams`
pub record EstimateParams (D : Type 0) : Type 0 where
  pub from_city : String
  pub to_city : String
  pub weight_kg : D

-- `DeliveryEstimate`, without the raw response.
pub record DeliveryEstimate (D : Type 0) : Type 0 where
  pub cost_rub : D
  pub eta_days_min : ℕ
  pub eta_days_max : ℕ

-- What `fetch` and the body of its response give: no connection, a status that is not in the range 200
-- to 299, a body that is no JSON, or the content of the first choice.
pub data FetchResult : Type 0 where
  connection_failed : FetchResult
  not_ok : ℕ → FetchResult
  body_not_json : FetchResult
  completion : Option String → FetchResult

-- The type of a field of a parsed value, with the number where it is one.
pub data JsonField (D : Type 0) : Type 0 where
  number : D → JsonField D
  not_number : JsonField D

-- A parsed value: an object with the fields costRub, etaDaysMin and etaDaysMax, or no object.
pub data JsonValue (D : Type 0) : Type 0 where
  object : JsonField D → JsonField D → JsonField D → JsonValue D
  not_object : JsonValue D

module _ (lib : Platform) where
  open lib use {D, zero_decimal, greater_than}

  pub record Remote : Type 0 where
    pub api_key : Option String
    pub fetch : EstimateParams D → FetchResult
    pub parse_json : String → Option (JsonValue D)
    -- On numbers that are not negative.
    pub math_round : D → ℕ
    pub math_round-mono : (a b : D) → greater_than a b ≡ false → math_round a ≤ math_round b

  module _ (remote : Remote) where
    open remote use {api_key, fetch, parse_json, math_round, math_round-mono}

    -- The three guards of `parseEstimate` on the numbers.
    abbrev pub is_invalid : D → D → D → Bool
    is_invalid cost eta_min eta_max =
        not (greater_than cost zero_decimal)
        || (greater_than zero_decimal eta_min || greater_than eta_min eta_max)

    unfoldable pub checked_estimate : D → D → D → Result (DeliveryEstimate D)
    checked_estimate cost eta_min eta_max =
        if is_invalid cost eta_min eta_max
        then err (unavailable estimator_bad_values)
        else ok (record {
          cost_rub = cost;
          eta_days_min = math_round eta_min;
          eta_days_max = math_round eta_max;
        })

    unfoldable pub from_json : JsonValue D → Result (DeliveryEstimate D)
    from_json (object (number cost) (number eta_min) (number eta_max)) =
        checked_estimate cost eta_min eta_max
    from_json _ = err (unavailable estimator_bad_shape)

    unfoldable pub parse_estimate : String → Result (DeliveryEstimate D)
    parse_estimate content = elim (parse_json content) [
      | none ↦ err (unavailable estimator_bad_json)
      | some value ↦ from_json value
    ]

    -- `if (!content)`
    unfoldable pub from_content : Option String → Result (DeliveryEstimate D)
    from_content none = err (unavailable estimator_empty)
    from_content (some content) =
        if str_eq content "" then err (unavailable estimator_empty) else parse_estimate content

    unfoldable pub from_response : FetchResult → Result (DeliveryEstimate D)
    from_response connection_failed = err (unavailable estimator_unreachable)
    from_response (not_ok status) = err (unavailable estimator_status)
    from_response body_not_json = err (internal estimator_body)
    from_response (completion content) = from_content content

    unfoldable pub estimate : EstimateParams D → Result (DeliveryEstimate D)
    estimate params = elim api_key [
      | none ↦ err (unavailable estimator_not_configured)
      | some key ↦
          if str_eq key ""
          then err (unavailable estimator_not_configured)
          else from_response (fetch params)
    ]

    abbrev IsPriced : DeliveryEstimate D → Type 0
    IsPriced e = (greater_than e.cost_rub zero_decimal ≡ true) × (e.eta_days_min ≤ e.eta_days_max)

    checked_estimate-IsPriced :
        (cost eta_min eta_max : D) (e : DeliveryEstimate D)
        → checked_estimate cost eta_min eta_max ≡ ok e
        → IsPriced e
    unfolding checked_estimate
    checked_estimate-IsPriced cost eta_min eta_max e h =
        (ground arith, ground (arith, math_round-mono eta_min eta_max))

    from_json-IsPriced :
        (value : JsonValue D) (e : DeliveryEstimate D) → from_json value ≡ ok e → IsPriced e
    unfolding from_json
    from_json-IsPriced (object (number cost) (number eta_min) (number eta_max)) e h =
        checked_estimate-IsPriced cost eta_min eta_max e h
    from_json-IsPriced (object not_number b c) e h = absurd (ground arith)
    from_json-IsPriced (object (number a) not_number c) e h = absurd (ground arith)
    from_json-IsPriced (object (number a) (number b) not_number) e h = absurd (ground arith)
    from_json-IsPriced not_object e h = absurd (ground arith)

    parse_estimate-IsPriced :
        (content : String) (e : DeliveryEstimate D) → parse_estimate content ≡ ok e → IsPriced e
    unfolding parse_estimate
    parse_estimate-IsPriced content e h = elim (Option-cases (parse_json content)) [
      | inl bad ↦ absurd (ground arith)
      | inr (value, parsed) ↦ from_json-IsPriced value e (ground arith)
    ]

    from_response-IsPriced :
        (response : FetchResult) (e : DeliveryEstimate D)
        → from_response response ≡ ok e
        → IsPriced e
    unfolding from_response from_content
    from_response-IsPriced (completion (some content)) e h =
        parse_estimate-IsPriced content e (ground arith)
    from_response-IsPriced (completion none) e h = absurd (ground arith)
    from_response-IsPriced connection_failed e h = absurd (ground arith)
    from_response-IsPriced (not_ok status) e h = absurd (ground arith)
    from_response-IsPriced body_not_json e h = absurd (ground arith)

    -- Whatever the remote service answers, an estimate that is returned has a positive cost, and its longest time is not
    -- below its shortest.
    pub estimate_lem :
        (params : EstimateParams D) (e : DeliveryEstimate D)
        → estimate params ≡ ok e
        → (greater_than e.cost_rub zero_decimal ≡ true) × (e.eta_days_min ≤ e.eta_days_max)
    unfolding estimate
    estimate_lem params e h = elim (Option-cases api_key) [
      | inl gone ↦ absurd (ground arith)
      | inr (key, set) ↦ from_response-IsPriced (fetch params) e (ground arith)
    ]
