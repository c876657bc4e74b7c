-- ===== src/Stocktaking/Counted.antt =====
-- What `setQuantity` of catalog/stock/stock.service.ts leaves in the table of stocks.
use fruct.Prelude.{
  ℕ, Bool, false, ◌&&◌, ◌+◌, ◌≤◌, none, some, List, [], ◌∷◌, ◌++◌, ◌==◌, ◌≡◌, ◌⊎◌, refl, arith, inl,
  inr, Option-cases, if◌then◌else◌, find, filter, length, sum, sum-append, update_rows,
  length-filter-update_rows, sum_one,
}
use fruct.Action.{ok, is_ok}
use fruct.Schema.{Db, Product, Warehouse, Stock}
use fruct.Session.{Context, by_id}
use fruct.Platform.{Platform}
use fruct.Deals.Creation.{stock_at}
use fruct.Deals.Stocks.{held, stock_of, OneRow}
use fruct.Stocktaking.{set_to, warehouse_or_throw, product_or_throw, upsert_stock, set_quantity}

-- Another product, or another warehouse.
abbrev is_same : ℕ → ℕ → ℕ → ℕ → Bool
is_same w p w' p' = w == w' && p == p'

stock_of-none :
    (w p : ℕ) (stocks : List Stock) → find (stock_at w p) stocks ≡ none → stock_of w p stocks ≡ 0
stock_of-none w p [] e = refl
stock_of-none w p (s ∷ stocks) e = ground (arith, stock_of-none w p stocks)

filter_of_none :
    (w p : ℕ) (stocks : List Stock)
    → find (stock_at w p) stocks ≡ none
    → length (filter (stock_at w p) stocks) ≡ 0
filter_of_none w p [] e = refl
filter_of_none w p (s ∷ stocks) e = ground (arith, filter_of_none w p stocks)

stock_of-set :
    (w p q w' p' : ℕ) (stocks : List Stock)
    → stock_of w' p' (update_rows (stock_at w p) (set_to q) stocks) ≡ (
        if is_same w p w' p'
        then sum (λ _. q) (filter (stock_at w p) stocks)
        else stock_of w' p' stocks)
stock_of-set w p q w' p' [] = ground arith
stock_of-set w p q w' p' (s ∷ stocks) = ground (arith, stock_of-set w p q w' p' stocks)

found_length :
    (w p : ℕ) (stocks : List Stock) (s : Stock)
    → find (stock_at w p) stocks ≡ some s
    → 1 ≤ length (filter (stock_at w p) stocks)
found_length w p [] s e = cc
found_length w p (x ∷ stocks) s e = ground (arith, found_length w p stocks s)

length-filter-append :
    (q : Stock → Bool) (xs : List Stock) (y : Stock)
    → length (filter q (xs ++ y ∷ [])) ≡ length (filter q xs) + (if q y then 1 else 0)
length-filter-append q [] y = ground arith
length-filter-append q (x ∷ xs) y = ground (arith, length-filter-append q xs y)

module _ (lib : Platform) where
  open lib use {D, find_first-find, update-found, update-missing, create-rows}

  abbrev new_row : ℕ → ℕ → ℕ → Stock
  new_row w p q = record { warehouse_id = w; product_id = p; quantity = q }

  upsert_stock-stock_of :
      (w p q w' p' : ℕ) (stocks : List Stock)
      → OneRow stocks
      → stock_of w' p' (upsert_stock lib w p q stocks)
        ≡ (if is_same w p w' p' then q else stock_of w' p' stocks)
  unfolding upsert_stock
  upsert_stock-stock_of w p q w' p' stocks one = elim (Option-cases (find (stock_at w p) stocks)) [
    | inl absent ↦ ground (
      arith,
      update-missing (stock_at w p) (set_to q) stocks absent,
      create-rows (new_row w p q) stocks,
      sum-append (held w' p') stocks (new_row w p q ∷ []),
      stock_of-none w p stocks absent,
    )
    | inr (s, e) ↦
        let single : length (filter (stock_at w p) stocks) ≡ 1 =
          omega (arith, one w p, found_length w p stocks s e) in
        ground (
          arith,
          update-found (stock_at w p) (set_to q) stocks s e,
          stock_of-set w p q w' p' stocks,
          sum_one q (filter (stock_at w p) stocks) single,
        )
  ]

  upsert_stock-OneRow :
      (w p q : ℕ) (stocks : List Stock) → OneRow stocks → OneRow (upsert_stock lib w p q stocks)
  unfolding upsert_stock
  upsert_stock-OneRow w p q stocks one w' p' = elim (Option-cases (find (stock_at w p) stocks)) [
    | inl absent ↦ ground (
      arith,
      one w' p',
      update-missing (stock_at w p) (set_to q) stocks absent,
      create-rows (new_row w p q) stocks,
      length-filter-append (stock_at w' p') stocks (new_row w p q),
      filter_of_none w p stocks absent,
    )
    | inr (s, e) ↦ ground (
      arith,
      one w' p',
      update-found (stock_at w p) (set_to q) stocks s e,
      length-filter-update_rows (stock_at w' p') (stock_at w p) (set_to q) stocks (λ r. refl),
    )
  ]

  module _ (ctx : Context) (w p q : ℕ) (db : Db D) where
    abbrev pub is_warehouse : Warehouse → Bool
    is_warehouse r = by_id ctx.tenant w r.tenant_id r.id

    abbrev pub is_product : Product D → Bool
    is_product r = by_id ctx.tenant p r.tenant_id r.id

    -- A count for a warehouse and a product of the tenant, if no product has two rows in a warehouse: the
    -- product has that quantity there, also when it had no row, every other product and warehouse has
    -- what it had, and still no product has two rows in a warehouse.
    pub set_quantity_lem :
        (warehouse : Warehouse) (product : Product D) (w' p' : ℕ)
        → find is_warehouse db.warehouses ≡ some warehouse
        → find is_product db.products ≡ some product
        → OneRow db.stocks
        → let r = set_quantity lib ctx w p q db in
          (r.0 ≡ ok tt)
          × OneRow r.1.stocks
          × (stock_of w' p' r.1.stocks
              ≡ (if w == w' && p == p' then q else stock_of w' p' db.stocks))
    unfolding set_quantity warehouse_or_throw product_or_throw
    set_quantity_lem warehouse product w' p' e f one =
        let done : set_quantity lib ctx w p q db
            ≡ (ok tt, record db { stocks = upsert_stock lib w p q db.stocks }) =
          ground (
            arith,
            e,
            f,
            find_first-find is_warehouse db.warehouses,
            find_first-find is_product db.products,
          ) in
        rw done (
          refl,
          upsert_stock-OneRow w p q db.stocks one,
          upsert_stock-stock_of w p q w' p' db.stocks one,
        )

    -- A count for a warehouse or a product that the tenant does not have is refused, and changes nothing.
    pub set_quantity-foreign :
        ((find is_warehouse db.warehouses ≡ none) ⊎ (find is_product db.products ≡ none))
        → (is_ok (set_quantity lib ctx w p q db).0 ≡ false)
          × ((set_quantity lib ctx w p q db).1 ≡ db)
    unfolding set_quantity warehouse_or_throw product_or_throw
    set_quantity-foreign (inl absent) = (
      ground (arith, absent, find_first-find is_warehouse db.warehouses),
      ground (arith, absent, find_first-find is_warehouse db.warehouses),
    )
    set_quantity-foreign (inr absent) = (
      ground (
        arith,
        absent,
        find_first-find is_warehouse db.warehouses,
        find_first-find is_product db.products,
      ),
      ground (
        arith,
        absent,
        find_first-find is_warehouse db.warehouses,
        find_first-find is_product db.products,
      ),
    )
