-- ===== src/Delivery/Requests.antt =====
-- The orders of delivery-calc/delivery-calc.service.ts: what is requested, and which warehouses have it.
use fruct.Prelude.{
  ℕ, String, Bool, true, false, ◌&&◌, ◌+◌, ◌==◌, leb, if◌then◌else◌, Option, none, some, List, [],
  ◌∷◌, filter, find, or_else, map_get, map_set, keys,
}
use fruct.Schema.{Stock, Warehouse, BuyerType}

pub record DeliveryCalcItem : Type 0 where
  pub product_id : ℕ
  pub quantity : ℕ

pub record DeliveryCalcRequest : Type 0 where
  pub items : List DeliveryCalcItem
  pub destination_city : String
  pub buyer_type : BuyerType
  pub requires_vat_invoice : Bool

pub record CreateManualQuote (D : Type 0) : Type 0 where
  pub warehouse_id : ℕ
  pub destination_city : String
  pub weight_kg : Option D
  pub cost : D
  pub eta_days_min : ℕ
  pub eta_days_max : ℕ

-- `requestedQtyByProduct`
abbrev pub add_requested : List DeliveryCalcItem → List (ℕ × ℕ) → List (ℕ × ℕ)
add_requested [] m = m
add_requested (i ∷ is) m =
    add_requested is (map_set i.product_id (or_else (map_get i.product_id m) 0 + i.quantity) m)

abbrev pub requested_qty : List DeliveryCalcItem → List (ℕ × ℕ)
requested_qty items = add_requested items []

abbrev pub is_active_warehouse : List Warehouse → ℕ → Bool
is_active_warehouse ws id = elim (find (λ (w : Warehouse). w.id == id) ws) [
  | none ↦ false
  | some w ↦ w.is_active
]

-- `stockByWarehouse`
abbrev pub add_stocks :
    List Warehouse → List Stock → List (ℕ × List (ℕ × ℕ)) → List (ℕ × List (ℕ × ℕ))
add_stocks ws [] m = m
add_stocks ws (s ∷ ss) m =
    let per_product = or_else (map_get s.warehouse_id m) [] in
    add_stocks ws ss (
      if is_active_warehouse ws s.warehouse_id
      then map_set s.warehouse_id (map_set s.product_id s.quantity per_product) m
      else m)

-- `every` requested quantity is there.
abbrev pub has_all : List (ℕ × ℕ) → List (ℕ × ℕ) → Bool
has_all [] stock = true
has_all ((product_id, quantity) ∷ rest) stock =
    leb quantity (or_else (map_get product_id stock) 0) && has_all rest stock

abbrev pub eligible_warehouse_ids : List (ℕ × ℕ) → List (ℕ × List (ℕ × ℕ)) → List ℕ
eligible_warehouse_ids requested by_warehouse =
    keys (filter (λ (e : ℕ × List (ℕ × ℕ)). has_all requested e.1) by_warehouse)
