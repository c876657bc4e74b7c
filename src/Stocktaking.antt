-- ===== src/Stocktaking.antt =====
-- catalog/stock/stock.service.ts, method by method, and the checks of the warehouse and the product that
-- it makes through catalog/warehouses/warehouses.service.ts and catalog/products/products.service.ts.
pub mod Counted
mod Tests
use fruct.Prelude.{ℕ, String, Bool, none, some, List, find, ◌==◌}
use fruct.Action.{
  Action, not_found, warehouse_missing, product_missing, pure, gets, modify, or_throw, ◌>>=◌, ◌>>◌,
}
use fruct.Schema.{Db, Product, Warehouse, Stock}
use fruct.Session.{Context, by_id}
use fruct.Platform.{Platform}
use fruct.Deals.Creation.{stock_at}

abbrev pub set_to : ℕ → Stock → Stock
set_to quantity s = record s { quantity = quantity }

-- The name of the related row.
abbrev pub product_name : {D : Type 0} → List (Product D) → Stock → String
product_name products s = elim (find (λ p. p.id == s.product_id) products) [
  | none ↦ ""
  | some p ↦ p.name
]

abbrev pub warehouse_name : List Warehouse → Stock → String
warehouse_name warehouses s = elim (find (λ w. w.id == s.warehouse_id) warehouses) [
  | none ↦ ""
  | some w ↦ w.name
]

module _ (lib : Platform) where
  open lib use {D, find_first, find_many, update, create, order_by_text}

  unfoldable pub warehouse_or_throw : Context → ℕ → Action (Db D) Warehouse
  warehouse_or_throw ctx id = do
    found ← gets λ (db : Db D).
        find_first (λ (w : Warehouse). by_id ctx.tenant id w.tenant_id w.id) db.warehouses
    or_throw found (not_found warehouse_missing)

  unfoldable pub product_or_throw : Context → ℕ → Action (Db D) (Product D)
  product_or_throw ctx id = do
    found ← gets λ (db : Db D).
        find_first (λ (p : Product D). by_id ctx.tenant id p.tenant_id p.id) db.products
    or_throw found (not_found product_missing)

  -- `upsert`: the row is rewritten, or created where there is none.
  unfoldable pub upsert_stock : ℕ → ℕ → ℕ → List Stock → List Stock
  upsert_stock warehouse product quantity stocks =
      elim (update (stock_at warehouse product) (set_to quantity) stocks) [
        | none ↦
            create (record { warehouse_id = warehouse; product_id = product; quantity = quantity })
              stocks
        | some (_, rows) ↦ rows
      ]

  unfoldable pub set_quantity : Context → ℕ → ℕ → ℕ → Action (Db D) (Unit {0})
  set_quantity ctx warehouse product quantity = do
    warehouse_or_throw ctx warehouse
    product_or_throw ctx product
    modify λ (db : Db D). record db { stocks = upsert_stock warehouse product quantity db.stocks }

  unfoldable pub list_by_warehouse : Context → ℕ → Action (Db D) (List Stock)
  list_by_warehouse ctx warehouse = do
    warehouse_or_throw ctx warehouse
    gets λ (db : Db D).
        order_by_text (product_name db.products)
          (find_many (λ (s : Stock). s.warehouse_id == warehouse) db.stocks)

  unfoldable pub list_by_product : Context → ℕ → Action (Db D) (List Stock)
  list_by_product ctx product = do
    product_or_throw ctx product
    gets λ (db : Db D).
        order_by_text (warehouse_name db.warehouses)
          (find_many (λ (s : Stock). s.product_id == product) db.stocks)
