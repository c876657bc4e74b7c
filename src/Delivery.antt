-- ===== src/Delivery.antt =====
-- delivery-calc/delivery-calc.service.ts: DeliveryCalcService, method by method.
pub mod Requests
pub mod Estimator
pub mod Cache
pub mod Ordering
pub mod Eligible
pub mod Building
pub mod Quotes
pub mod Sample
mod Tests
use fruct.Prelude.{
  ℕ, String, Bool, true, false, not, ◌&&◌, ◌||◌, ◌+◌, ◌==◌, ltb, leb, if◌then◌else◌, Option, none,
  some, List, [], ◌∷◌, ◌++◌, map, filter, find, contains, length, or_else, sort, map_get, map_set,
  keys,
}
use text.Mathlib.Text.{◌==◌ as str_eq}
use fruct.Action.{
  Action, Result, ok, err, HttpError, conflict, not_found, products_missing, warehouse_missing,
  record_missing, no_eligible_warehouse, pure, gets, modify, or_throw, throw_if, ◌>>=◌, ◌>>◌,
}
use fruct.Schema.{
  Db, Tenant, Product, Stock, Warehouse, DeliveryOption, DeliveryQuote, DeliveryQuoteSource,
  BuyerType,
}
use fruct.Session.{Context, by_id}
use fruct.Platform.{Platform}
use fruct.Deals.Pricing.{is_legal_entity}
use Estimator.{Remote, DeliveryEstimate, estimate}
use Requests.{
  DeliveryCalcRequest, CreateManualQuote, requested_qty, add_stocks, eligible_warehouse_ids,
}
use Cache.{Texts, Redis, normalize_city, cache_get, cache_set}

-- How a warehouse delivers: by the tenant's options, at a quoted price, or not for a reason.
pub data VariantKind (D : Type 0) : Type 0 where
  local : List (DeliveryOption D) → VariantKind D
  quoted : DeliveryQuote D → VariantKind D
  unquoted : HttpError → VariantKind D

pub record Variant (D : Type 0) : Type 0 where
  pub warehouse_id : ℕ
  pub warehouse_name : String
  pub warehouse_city : String
  pub kind : VariantKind D

pub record DeliveryCalcResponse (D : Type 0) : Type 0 where
  pub subtotal : D
  pub legal_entity_markup : D
  pub total_weight_kg : D
  pub variants : List (Variant D)

-- The tables, and what Redis holds.
pub record DeliveryState (D : Type 0) : Type 0 where
  pub db : Db D
  pub redis : Redis

abbrev pub column_value : {D : Type 0} → (D → D) → Option D → Option D
column_value f none = none
column_value f (some v) = some (f v)

abbrev pub is_local : {D : Type 0} → VariantKind D → Bool
is_local (local options) = true
is_local _ = false

-- `new_id` gives the id of the quote row of a warehouse. `seen` is what Redis holds when the variant of a
-- warehouse is read: the variants are built at once, along with other requests, and entries expire.
-- `hundredths` is the weight as a number.
module _ (lib : Platform) (remote : Remote lib) (texts : Texts lib.D) (hundredths : lib.D → ℕ)
    (new_id : ℕ → ℕ) (seen : ℕ → Redis) where
  open lib use {
    D, zero_decimal, of_int, plus, times, divided_by, greater_than, column, find_first, find_many,
    create, order_by_decimal,
  }

  abbrev pub subtotal_of : List (ℕ × ℕ) → D → List (Product D) → D
  subtotal_of requested acc [] = acc
  subtotal_of requested acc (p ∷ ps) =
      subtotal_of requested (plus acc (times p.price (of_int (or_else (map_get p.id requested) 0))))
        ps

  abbrev pub add_weight : Option D → ℕ → D → D
  add_weight none quantity acc = acc
  add_weight (some weight) quantity acc = plus acc (times weight (of_int quantity))

  abbrev pub weight_of : List (ℕ × ℕ) → D → List (Product D) → D
  weight_of requested acc [] = acc
  weight_of requested acc (p ∷ ps) =
      weight_of requested (add_weight p.weight_kg (or_else (map_get p.id requested) 0) acc) ps

  abbrev pub is_same_city : Warehouse → String → Bool
  is_same_city w city = str_eq (normalize_city texts w.city) (normalize_city texts city)

  abbrev pub quote_row : Context → Warehouse → String → D → DeliveryEstimate D → DeliveryQuote D
  quote_row ctx w city weight e = record {
    id = new_id w.id;
    tenant_id = ctx.tenant;
    warehouse_id = w.id;
    destination_city = city;
    weight_kg = some (column 6 2 weight);
    cost = column 10 2 e.cost_rub;
    eta_days_min = e.eta_days_min;
    eta_days_max = e.eta_days_max;
    source = DeliveryQuoteSource.ai_estimate;
    is_approximate = true;
  }

  abbrev pub variant : Warehouse → VariantKind D → Variant D
  variant w kind = record {
    warehouse_id = w.id;
    warehouse_name = w.name;
    warehouse_city = w.city;
    kind = kind;
  }

  -- The estimate from the cache, or the estimator's, which is then stored; an error of the estimator is a value.
  unfoldable pub find_estimate :
      Warehouse → String → D → Action (DeliveryState D) (Result (DeliveryEstimate D))
  find_estimate w city weight s =
      elim (cache_get texts w.city city (hundredths weight) (seen w.id)) [
        | some e ↦ (ok (ok e), s)
        | none ↦
            elim (estimate lib remote
              (record { from_city = w.city; to_city = city; weight_kg = weight })) [
                | ok e ↦ (
                  ok (ok e),
                  record s { redis = cache_set texts w.city city (hundredths weight) e s.redis },
                )
                | err e ↦ (ok (err e), s)
              ]
      ]

  unfoldable pub price_variant :
      Context
      → Warehouse
      → String
      → D
      → Result (DeliveryEstimate D)
      → Action (DeliveryState D) (Variant D)
  price_variant ctx w city weight (err e) = pure (variant w (unquoted e))
  price_variant ctx w city weight (ok e) = do
    let row : DeliveryQuote D = quote_row ctx w city weight e
    modify λ (s : DeliveryState D). record s {
      db = record s.db { delivery_quotes = create row s.db.delivery_quotes };
    }
    pure (variant w (quoted row))

  unfoldable pub build_variant :
      Context
      → List (DeliveryOption D)
      → String
      → D
      → Warehouse
      → Action (DeliveryState D) (Variant D)
  build_variant ctx options city weight w =
      if is_same_city w city
      then pure (variant w (local options))
      else (do found ← find_estimate w city weight; price_variant ctx w city weight found)

  unfoldable pub build_variants :
      Context
      → List (DeliveryOption D)
      → String
      → D
      → List Warehouse
      → Action (DeliveryState D) (List (Variant D))
  build_variants ctx options city weight [] = pure []
  build_variants ctx options city weight (w ∷ ws) = do
    v ← build_variant ctx options city weight w
    vs ← build_variants ctx options city weight ws
    pure (v ∷ vs)

  -- `Number.MAX_SAFE_INTEGER`
  abbrev pub max_safe_integer : ℕ
  max_safe_integer = 9007199254740991

  abbrev pub representative_eta : List (DeliveryOption D) → VariantKind D → ℕ
  representative_eta [] (local options) = 0
  representative_eta (cheapest ∷ _) (local options) = or_else cheapest.eta_days 0
  representative_eta _ (quoted q) = q.eta_days_max
  representative_eta _ (unquoted e) = max_safe_integer

  abbrev pub representative_price : List (DeliveryOption D) → VariantKind D → D
  representative_price [] (local options) = zero_decimal
  representative_price (cheapest ∷ _) (local options) = cheapest.price
  representative_price _ (quoted q) = q.cost
  representative_price _ (unquoted e) = of_int max_safe_integer

  -- `compareVariants` gives a negative number.
  abbrev pub comes_first : List (DeliveryOption D) → Variant D → Variant D → Bool
  comes_first options a b =
      let eta_a = representative_eta options a.kind in
      let eta_b = representative_eta options b.kind in
      let cheaper =
        greater_than (representative_price options b.kind) (representative_price options a.kind) in
      if is_local a.kind
      then (if is_local b.kind then ltb eta_a eta_b || (eta_a == eta_b && cheaper) else true)
      else (if is_local b.kind then false else ltb eta_a eta_b || (eta_a == eta_b && cheaper))

  abbrev pub legal_entity_markup_of : Tenant D → DeliveryCalcRequest → D → D
  legal_entity_markup_of t dto subtotal =
      if is_legal_entity dto.buyer_type && dto.requires_vat_invoice
      then divided_by (times subtotal t.legal_entity_markup_percent) (of_int 100)
      else zero_decimal

  abbrev pub eligible_in : Db D → DeliveryCalcRequest → List ℕ
  eligible_in db dto =
      let requested = requested_qty dto.items in
      eligible_warehouse_ids requested (
        add_stocks db.warehouses
          (find_many (λ (s : Stock). contains s.product_id (keys requested)) db.stocks) [])

  unfoldable pub quote :
      Context → DeliveryCalcRequest → Action (DeliveryState D) (DeliveryCalcResponse D)
  quote ctx dto = do
    let requested : List (ℕ × ℕ) = requested_qty dto.items
    products ← gets λ (s : DeliveryState D).
        find_many (λ (p : Product D). contains p.id (keys requested) && p.tenant_id == ctx.tenant)
          s.db.products
    throw_if (not (length products == length (keys requested))) (not_found products_missing)
    let subtotal : D = subtotal_of requested zero_decimal products
    let weight : D = weight_of requested zero_decimal products
    found ←
        gets λ (s : DeliveryState D). find_first (λ (t : Tenant D). t.id == ctx.tenant) s.db.tenants
    tenant ← or_throw found (not_found record_missing)
    eligible ← gets λ (s : DeliveryState D). eligible_in s.db dto
    throw_if (length eligible == 0) (conflict no_eligible_warehouse)
    warehouses ← gets λ (s : DeliveryState D).
        find_many (λ (w : Warehouse). contains w.id eligible && w.tenant_id == ctx.tenant)
          s.db.warehouses
    options ← gets λ (s : DeliveryState D).
        order_by_decimal (λ o. o.price)
          (find_many (λ (o : DeliveryOption D). o.tenant_id == ctx.tenant) s.db.delivery_options)
    variants ← build_variants ctx options dto.destination_city weight warehouses
    pure (record {
      subtotal = subtotal;
      legal_entity_markup = legal_entity_markup_of tenant dto subtotal;
      total_weight_kg = weight;
      variants = sort (comes_first options) variants;
    })

  unfoldable pub create_manual_quote :
      Context → CreateManualQuote D → Action (DeliveryState D) (DeliveryQuote D)
  create_manual_quote ctx dto = do
    found ← gets λ (s : DeliveryState D).
        find_first (λ (w : Warehouse). by_id ctx.tenant dto.warehouse_id w.tenant_id w.id)
          s.db.warehouses
    warehouse ← or_throw found (not_found warehouse_missing)
    let row : DeliveryQuote D = record {
      id = ctx.fresh_id;
      tenant_id = ctx.tenant;
      warehouse_id = dto.warehouse_id;
      destination_city = dto.destination_city;
      weight_kg = column_value (column 6 2) dto.weight_kg;
      cost = column 10 2 dto.cost;
      eta_days_min = dto.eta_days_min;
      eta_days_max = dto.eta_days_max;
      source = DeliveryQuoteSource.manual;
      is_approximate = false;
    }
    modify λ (s : DeliveryState D). record s {
      db = record s.db { delivery_quotes = create row s.db.delivery_quotes };
    }
    pure row
