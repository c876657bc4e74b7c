-- ===== src/Deals/Stocks.antt =====
-- What a conditional decrement and an increment do to the stock of each product in each warehouse:
-- the updates of `stocks` in deals/deals.service.ts.
use fruct.Prelude.{
  ℕ, Bool, false, ◌&&◌, ◌+◌, ◌≤◌, List, [], ◌∷◌, ◌==◌, leb, ◌≡◌, refl, arith, if◌then◌else◌, sum,
  length, filter, update_rows, length-filter-update_rows, length-filter-and_le, sum_one,
}
use fruct.Schema.{Stock}
use fruct.Deals.Creation.{stock_at, decrement}
use fruct.Deals.StatusChange.{increment}

abbrev pub held : ℕ → ℕ → Stock → ℕ
held warehouse product s = if stock_at warehouse product s then s.quantity else 0

-- The stock of a product in a warehouse.
abbrev pub stock_of : ℕ → ℕ → List Stock → ℕ
stock_of warehouse product = sum (held warehouse product)

-- `@@unique([warehouseId, productId])`
abbrev pub OneRow : List Stock → Type 0
OneRow stocks = (w p : ℕ) → length (filter (stock_at w p) stocks) ≤ 1

-- The product has its row in the warehouse.
abbrev pub HasRow : List Stock → ℕ → ℕ → Type 0
HasRow stocks w p = length (filter (stock_at w p) stocks) ≡ 1

-- Rows are neither added nor removed, and keep their keys.
abbrev pub SameRows : List Stock → List Stock → Type 0
SameRows before after =
    (w p : ℕ) → length (filter (stock_at w p) after) ≡ length (filter (stock_at w p) before)

abbrev pub enough : ℕ → ℕ → ℕ → Stock → Bool
enough w p q s = stock_at w p s && leb q s.quantity

-- A quantity that concerns one product of one warehouse.
abbrev pub only_at : ℕ → ℕ → ℕ → ℕ → ℕ → ℕ
only_at w p q w' p' = if w == w' && p == p' then q else 0

module _ (w p q : ℕ) where
  pub decrement-SameRows :
      (stocks : List Stock) → SameRows stocks (update_rows (enough w p q) (decrement q) stocks)
  decrement-SameRows stocks w' p' =
      length-filter-update_rows (stock_at w' p') (enough w p q) (decrement q) stocks (λ s. refl)

  pub increment-SameRows :
      (stocks : List Stock) → SameRows stocks (update_rows (stock_at w p) (increment q) stocks)
  increment-SameRows stocks w' p' =
      length-filter-update_rows (stock_at w' p') (stock_at w p) (increment q) stocks (λ s. refl)

  decrement_rows :
      (w' p' : ℕ) (stocks : List Stock)
      → stock_of w' p' (update_rows (enough w p q) (decrement q) stocks)
          + sum (λ _. only_at w p q w' p') (filter (enough w p q) stocks)
        ≡ stock_of w' p' stocks
  decrement_rows w' p' [] = refl
  decrement_rows w' p' (s ∷ stocks) = ground (arith, decrement_rows w' p' stocks)

  increment_rows :
      (w' p' : ℕ) (stocks : List Stock)
      → stock_of w' p' (update_rows (stock_at w p) (increment q) stocks)
        ≡ stock_of w' p' stocks + sum (λ _. only_at w p q w' p') (filter (stock_at w p) stocks)
  increment_rows w' p' [] = refl
  increment_rows w' p' (s ∷ stocks) = ground (arith, increment_rows w' p' stocks)

  -- A decrement that finds a row takes the quantity from that product and from no other.
  pub stock_of-decrement :
      (w' p' : ℕ) (stocks : List Stock)
      → OneRow stocks
      → (length (filter (enough w p q) stocks) == 0) ≡ false
      → (stock_of w' p' (update_rows (enough w p q) (decrement q) stocks) + only_at w p q w' p'
          ≡ stock_of w' p' stocks)
        × HasRow stocks w p
  stock_of-decrement w' p' stocks one hit =
      let few = length-filter-and_le (stock_at w p) (λ s. leb q s.quantity) stocks in
      let single : length (filter (enough w p q) stocks) ≡ 1 = ground (arith, few, one w p) in
      (
        omega (
          arith,
          decrement_rows w' p' stocks,
          sum_one (only_at w p q w' p') (filter (enough w p q) stocks) single,
        ),
        omega (arith, few, one w p),
      )

  -- An increment of a row that exists adds the quantity to that product and to no other.
  pub stock_of-increment :
      (w' p' : ℕ) (stocks : List Stock)
      → HasRow stocks w p
      → stock_of w' p' (update_rows (stock_at w p) (increment q) stocks)
        ≡ stock_of w' p' stocks + only_at w p q w' p'
  stock_of-increment w' p' stocks row = omega (
    arith,
    increment_rows w' p' stocks,
    sum_one (only_at w p q w' p') (filter (stock_at w p) stocks) row,
  )
