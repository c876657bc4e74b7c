-- ===== src/Deals/Ledger.antt =====
-- The stock ledger of deals/deals.service.ts: what is in the warehouses, what live deals hold, and
-- when the tables are in order.
use fruct.Prelude.{
  ℕ, Bool, not, ◌&&◌, ◌+◌, Option, none, some, List, ◌≢◌, arith, if◌then◌else◌, is_id, sum, All,
  All-map, Unique,
}
use fruct.Schema.{Db, Deal, DealItem, DealStatus, Stock}
use fruct.Deals.Status.{has, stock_restoring}
use fruct.Deals.Stocks.{stock_of, OneRow, HasRow, SameRows}
use fruct.Deals.Reservation.{needed}

-- A deal that is neither cancelled nor refunded.
abbrev pub is_live : DealStatus → Bool
is_live status = not (has stock_restoring status)

module _ {D : Type 0} where
  -- What a live deal holds of a product of a warehouse.
  abbrev pub holds : ℕ → ℕ → Deal D → ℕ
  holds w p d = if is_live d.status && is_id d.warehouse_id w then needed p d.items else 0

  -- In the warehouse and held by live deals together.
  abbrev pub ledger : ℕ → ℕ → Db D → ℕ
  ledger w p db = stock_of w p db.stocks + sum (holds w p) db.deals

  -- The items of a deal that has a warehouse have their stock rows there.
  abbrev pub ItemRows : List Stock → Option ℕ → List (DealItem D) → Type 0
  ItemRows stocks none items = Unit {0}
  ItemRows stocks (some w) items = (w ≢ 0) × All (λ i. HasRow stocks w i.product_id) items

  pub record InOrder (db : Db D) : Type 0 where
    pub one_row : OneRow db.stocks
    pub unique_ids : Unique (λ d. d.id) db.deals
    pub item_rows : All (λ d. ItemRows db.stocks d.warehouse_id d.items) db.deals

  pub ItemRows-SameRows :
      (before after : List Stock) (w : Option ℕ) (items : List (DealItem D))
      → SameRows before after
      → ItemRows before w items
      → ItemRows after w items
  ItemRows-SameRows before after none items same h = tt
  ItemRows-SameRows before after (some w) items same h =
      (h.0, All-map _ _ items (λ i row. ground (arith, same w i.product_id)) h.1)

  pub All-SameRows :
      (before after : List Stock) (deals : List (Deal D))
      → SameRows before after
      → All (λ d. ItemRows before d.warehouse_id d.items) deals
      → All (λ d. ItemRows after d.warehouse_id d.items) deals
  All-SameRows before after deals same h =
      All-map _ _ deals (λ d rows. ItemRows-SameRows before after d.warehouse_id d.items same rows)
        h
