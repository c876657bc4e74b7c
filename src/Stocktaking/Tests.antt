-- ===== src/Stocktaking/Tests.antt =====
-- Examples for catalog/stock/stock.service.ts.
use fruct.Prelude.{false, [], ◌∷◌, ◌≡◌, refl, arith, inl}
use fruct.Action.{ok, is_ok}
use fruct.Platform.Sample.{sample}
use fruct.Samples.{shop, sample_warehouse, sample_product, request_at}
use fruct.Deals.Stocks.{stock_of, OneRow}
use fruct.Stocktaking.{set_quantity, warehouse_or_throw, product_or_throw, upsert_stock}
use fruct.Stocktaking.Counted.{set_quantity_lem, set_quantity-foreign}

set_quantity_runs :
    (set_quantity sample (request_at 50 0) 20 10 12 shop).1.stocks
    ≡ record { warehouse_id = 20; product_id = 10; quantity = 12 } ∷ []
unfolding set_quantity warehouse_or_throw product_or_throw upsert_stock
set_quantity_runs = refl

shop-OneRow : OneRow shop.stocks
shop-OneRow w p = ground arith

set_quantity_lem_example :
    let r = set_quantity sample (request_at 50 0) 20 10 12 shop in
    (r.0 ≡ ok tt) × OneRow r.1.stocks × (stock_of 20 10 r.1.stocks ≡ 12)
set_quantity_lem_example =
    set_quantity_lem sample (request_at 50 0) 20 10 12 shop sample_warehouse sample_product 20 10
      refl refl shop-OneRow

set_quantity-foreign_example :
    let r = set_quantity sample (request_at 50 0) 21 10 12 shop in
    (is_ok r.0 ≡ false) × (r.1 ≡ shop)
set_quantity-foreign_example =
    set_quantity-foreign sample (request_at 50 0) 21 10 12 shop (inl refl)
