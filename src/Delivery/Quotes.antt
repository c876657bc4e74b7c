-- ===== src/Delivery/Quotes.antt =====
-- `buildVariant` and `quote` of delivery-calc/delivery-calc.service.ts: an order is always answered, whatever the estimator does.
use fruct.Prelude.{ℕ, Bool, ◌&&◌, ◌≡◌, List, ◌==◌, Mem, contains, keys}
use fruct.Schema.{Tenant, Product, Warehouse, DeliveryOption}
use fruct.Session.{Context}
use fruct.Platform.{Platform}
use fruct.Delivery.{
  DeliveryCalcResponse, DeliveryState, Variant, legal_entity_markup_of, eligible_in,
}
use fruct.Delivery.Requests.{DeliveryCalcRequest, requested_qty}
use fruct.Delivery.Estimator.{Remote}
use fruct.Delivery.Cache.{Texts, Redis}
use fruct.Delivery.Eligible.{HasEnough}
use fruct.Delivery.Building.{IsVariantOf}

module _ (lib : Platform) (remote : Remote lib) (texts : Texts lib.D) (hundredths : lib.D → ℕ)
    (new_id : ℕ → ℕ) (seen : ℕ → Redis) where
  open lib use {
    D, zero_decimal, find_many, find_many-filter, find_first-find, create-rows, order_by_decimal,
  }

  abbrev is_requested : Context → DeliveryCalcRequest → Product D → Bool
  is_requested ctx dto p =
      contains p.id (keys (requested_qty dto.items)) && p.tenant_id == ctx.tenant

  abbrev is_option : Context → DeliveryOption D → Bool
  is_option ctx o = o.tenant_id == ctx.tenant

  abbrev pub eligible : DeliveryState D → DeliveryCalcRequest → List ℕ
  eligible s dto = eligible_in lib remote texts hundredths new_id seen s.db dto

  abbrev pub is_considered : Context → DeliveryState D → DeliveryCalcRequest → Warehouse → Bool
  is_considered ctx s dto w = contains w.id (eligible s dto) && w.tenant_id == ctx.tenant

  -- A variant of a warehouse of the table, of the tenant, with enough of everything that is requested.
  abbrev pub Delivers : Context → DeliveryState D → DeliveryCalcRequest → Variant D → Type 0
  Delivers ctx s dto v =
      (w : Warehouse) × Mem w s.db.warehouses
      × (w.tenant_id ≡ ctx.tenant)
      × IsVariantOf lib remote texts hundredths new_id seen dto.destination_city w v
      × HasEnough s.db.warehouses s.db.stocks (requested_qty dto.items) w.id

  abbrev response :
      DeliveryCalcRequest → Tenant D → D → D → List (Variant D) → DeliveryCalcResponse D
  response dto t subtotal weight variants = record {
    subtotal = subtotal;
    legal_entity_markup =
        legal_entity_markup_of lib remote texts hundredths new_id seen t dto subtotal;
    total_weight_kg = weight;
    variants = variants;
  }
