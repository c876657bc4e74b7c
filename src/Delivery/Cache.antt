-- ===== src/Delivery/Cache.antt =====
-- delivery-calc/delivery-cache.service.ts. Redis is a map from keys to texts; `trim`, `toLowerCase`, the
-- printing of a number and JSON are parameters. The weight of an order is counted in hundredths of a
-- kilogram, the scale of its column.
use Prim.Native.String.{◌++◌ as str_append}
use fruct.Prelude.{
  ℕ, String, Bool, true, false, ◌&&◌, ◌+◌, ◌-◌, ◌*◌, ◌/◌, ◌≤◌, ◌<◌, ◌==◌, ◌≡◌, ◌⊎◌, refl, sym, ap,
  ◌∙◌, arith, Option, none, some, List, [], ◌∷◌, ltb, if◌then◌else◌, inl, inr, Bool-cases,
}
use text.Mathlib.Text.{◌==◌ as str_eq}
use text.Mathlib.TextEquality.{eq_iff}
use fruct.Prelude.Texts.{colon_free, colon_split, append_cancel}
use fruct.Delivery.Estimator.{DeliveryEstimate}

-- `WEIGHT_BUCKET_SIZE_KG`
abbrev pub bucket_size : ℕ
bucket_size = 5

-- `Math.ceil(weightKg / 5) * 5`, and no less than 5.
unfoldable pub bucket_weight : ℕ → ℕ
bucket_weight hundredths =
    let rounded = (hundredths + (bucket_size * 100 - 1)) / (bucket_size * 100) * bucket_size in
    if ltb rounded bucket_size then bucket_size else rounded

-- The bucket ends with the five kilograms that the weight is in.
bucket_weight-bracket : (n : ℕ) → bucket_weight n ≡ ((n - 1) / 500 + 1) * 5
unfolding bucket_weight
bucket_weight-bracket n = ground arith

abbrev pub Redis : Type 0
Redis = List (String × String)

-- `redis.get` and `redis.set`
abbrev pub redis_get : String → Redis → Option String
redis_get key [] = none
redis_get key ((k, text) ∷ rest) =
    let later = redis_get key rest in if str_eq k key then some text else later

abbrev pub redis_set : String → String → Redis → Redis
redis_set key text cache = (key, text) ∷ cache

pub record Texts (D : Type 0) : Type 0 where
  pub trim : String → String
  pub to_lower_case : String → String
  pub number_text : ℕ → String
  pub stringify : DeliveryEstimate D → String
  pub parse : String → Option (DeliveryEstimate D)
  -- Different numbers are printed differently.
  pub number_text-injective : (m n : ℕ) → number_text m ≡ number_text n → m ≡ n
  -- An estimate survives JSON, and its text is not empty.
  pub parse-stringify : (e : DeliveryEstimate D) → parse (stringify e) ≡ some e
  pub stringify-filled : (e : DeliveryEstimate D) → str_eq (stringify e) "" ≡ false

module _ {D : Type 0} (texts : Texts D) where
  open texts use {
    trim, to_lower_case, number_text, number_text-injective, stringify, parse, parse-stringify,
    stringify-filled,
  }

  abbrev pub normalize_city : String → String
  normalize_city city = to_lower_case (trim city)

  unfoldable pub build_cache_key : String → String → ℕ → String
  build_cache_key from_city to_city weight = str_append "delivery:" (
      str_append (normalize_city from_city) (
        str_append ":" (
          str_append (normalize_city to_city)
            (str_append ":" (number_text (bucket_weight weight))))))

  unfoldable pub cache_get : String → String → ℕ → Redis → Option (DeliveryEstimate D)
  cache_get from_city to_city weight cache =
      elim (redis_get (build_cache_key from_city to_city weight) cache) [
        | none ↦ none
        | some raw ↦ if str_eq raw "" then none else parse raw
      ]

  unfoldable pub cache_set : String → String → ℕ → DeliveryEstimate D → Redis → Redis
  cache_set from_city to_city weight e cache =
      redis_set (build_cache_key from_city to_city weight) (stringify e) cache

  -- The part of a key that the route and the weight decide.
  abbrev route_text : String → String → ℕ → String
  route_text from_city to_city weight = str_append (normalize_city from_city) (
      str_append ":"
        (str_append (normalize_city to_city) (str_append ":" (number_text (bucket_weight weight)))))

  -- Two orders share a cached estimate: the same cities but for spaces around them and capitals, and
  -- weights in the same five kilograms.
  abbrev pub same_route : String → String → ℕ → String → String → ℕ → Bool
  same_route from_city to_city weight from_city' to_city' weight' =
      str_eq (to_lower_case (trim from_city)) (to_lower_case (trim from_city'))
      && (str_eq (to_lower_case (trim to_city)) (to_lower_case (trim to_city'))
          && (weight - 1) / 500 == (weight' - 1) / 500)

  key_splits :
      (from_city to_city from_city' to_city' : String) (weight weight' : ℕ)
      → colon_free (normalize_city from_city) ≡ true
      → colon_free (normalize_city from_city') ≡ true
      → colon_free (normalize_city to_city) ≡ true
      → colon_free (normalize_city to_city') ≡ true
      → build_cache_key from_city to_city weight ≡ build_cache_key from_city' to_city' weight'
      → (normalize_city from_city ≡ normalize_city from_city')
        × (normalize_city to_city ≡ normalize_city to_city')
        × (bucket_weight weight ≡ bucket_weight weight')
  unfolding build_cache_key
  key_splits from_city to_city from_city' to_city' weight weight' f f' t t' e =
      let (froms, rest) =
        colon_split (normalize_city from_city) (normalize_city from_city') _ _ f f' (
          append_cancel "delivery:" (route_text from_city to_city weight)
            (route_text from_city' to_city' weight') e) in
      let (tos, weights) =
        colon_split (normalize_city to_city) (normalize_city to_city') _ _ t t' rest in
      (froms, tos, number_text-injective _ _ weights)

  same_key :
      (from_city to_city from_city' to_city' : String) (weight weight' : ℕ)
      → normalize_city from_city ≡ normalize_city from_city'
      → normalize_city to_city ≡ normalize_city to_city'
      → bucket_weight weight ≡ bucket_weight weight'
      → build_cache_key from_city to_city weight ≡ build_cache_key from_city' to_city' weight'
  unfolding build_cache_key
  same_key from_city to_city from_city' to_city' weight weight' f t w = rw f rw t rw w refl

  -- Keys agree exactly where the orders may share an estimate.
  build_cache_key-same_route :
      (from_city to_city from_city' to_city' : String) (weight weight' : ℕ)
      → colon_free (normalize_city from_city) ≡ true
      → colon_free (normalize_city from_city') ≡ true
      → colon_free (normalize_city to_city) ≡ true
      → colon_free (normalize_city to_city') ≡ true
      → str_eq
          (build_cache_key from_city to_city weight)
          (build_cache_key from_city' to_city' weight')
        ≡ same_route from_city to_city weight from_city' to_city' weight'
  build_cache_key-same_route from_city to_city from_city' to_city' weight weight' f f' t t' =
      let key = build_cache_key from_city to_city weight in
      let key' = build_cache_key from_city' to_city' weight' in
      let froms = eq_iff (normalize_city from_city) (normalize_city from_city') in
      let tos = eq_iff (normalize_city to_city) (normalize_city to_city') in
      let split = key_splits from_city to_city from_city' to_city' weight weight' f f' t t' in
      let join = same_key from_city to_city from_city' to_city' weight weight' in
      elim (Bool-cases (str_eq key key')) [
        | inl hit ↦
            let (a, b, c) = split ((eq_iff key key').0 hit) in
            ground (
              arith,
              hit,
              froms.1 a,
              tos.1 b,
              c,
              bucket_weight-bracket weight,
              bucket_weight-bracket weight',
            )
        | inr miss ↦
            elim (Bool-cases (same_route from_city to_city weight from_city' to_city' weight')) [
              | inr other ↦ miss ∙ sym other
              | inl shared ↦
                  let a = froms.0 (ground (arith, shared)) in
                  let b = tos.0 (ground (arith, shared)) in
                  let brackets : (weight - 1) / 500 ≡ (weight' - 1) / 500 =
                    ground (arith, shared) in
                  let c : bucket_weight weight ≡ bucket_weight weight' =
                    bucket_weight-bracket weight
                    ∙ ap (λ n. (n + 1) * 5) brackets
                    ∙ sym (bucket_weight-bracket weight') in
                  (eq_iff key key').1 (join a b c) ∙ sym shared
            ]
      ]

  -- After an estimate is stored for an order, a read finds it for every order with the same cities, but
  -- for spaces around them and capitals, and a weight in the same five kilograms; for every other order
  -- it finds what it found before. No city may have a colon in it.
  pub cache_get-cache_set :
      (from_city to_city from_city' to_city' : String) (weight weight' : ℕ) (e : DeliveryEstimate D)
      (cache : Redis)
      → colon_free (normalize_city from_city) ≡ true
      → colon_free (normalize_city from_city') ≡ true
      → colon_free (normalize_city to_city) ≡ true
      → colon_free (normalize_city to_city') ≡ true
      → cache_get from_city' to_city' weight' (cache_set from_city to_city weight e cache) ≡ (
          if same_route from_city to_city weight from_city' to_city' weight'
          then some e
          else cache_get from_city' to_city' weight' cache)
  unfolding cache_get cache_set
  cache_get-cache_set from_city to_city from_city' to_city' weight weight' e cache f f' t t' =
      rw
        (← build_cache_key-same_route from_city to_city from_city' to_city' weight weight' f f' t
          t')
        ground (arith, stringify-filled e, parse-stringify e)

-- A weight is at most its bucket, which exceeds it by less than five kilograms, unless the weight is zero: its bucket is five.
bucket_weight_lem :
    (n : ℕ)
    → (n ≤ bucket_weight n * 100)
      × ((n ≡ 0) × (bucket_weight n ≡ 5) ⊎ (bucket_weight n * 100 < n + 500))
unfolding bucket_weight
bucket_weight_lem n = elim (Bool-cases (n == 0)) [
  | inl light ↦
      let none_at_all : n ≡ 0 = ground arith in
      (ground arith, inl (none_at_all, rw none_at_all refl))
  | inr heavy ↦ (ground arith, inr (ground arith))
]
