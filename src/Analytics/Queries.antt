-- ===== src/Analytics/Queries.antt =====
-- analytics/analytics.service.ts: the metrics from SQL queries.
use fruct.Prelude.{
  ℕ, zero, suc, String, Bool, ◌&&◌, ◌<◌, ◌==◌, Option, none, some, List, [], ◌∷◌, ◌++◌, map, sum,
  length, filter, find, sort, Group, group_rows, add_at, or_else,
}
use fruct.Action.{Action, gets}
use fruct.Schema.{Db, Deal, DealItem, Product}
use fruct.Session.{Context}
use fruct.Platform.{Platform, asc}
use fruct.Deals.Status.{has, commissionable}
use fruct.Analytics.{Period, in_period, add_amounts}

-- `groupBy` of `RevenueQueryDto`
pub data Bucket : Type 0 where
  day week month : Bucket

-- What the queries call of the database: `date_trunc` and `EXTRACT` in its time zone.
pub record Calendar : Type 0 where
  pub date_trunc : Bucket → ℕ → ℕ
  pub hour_of : ℕ → ℕ
  pub day_of_week : ℕ → ℕ
  pub hour_of-lt : (at : ℕ) → hour_of at < 24
  pub day_of_week-lt : (at : ℕ) → day_of_week at < 7

pub record RevenueBucket (D : Type 0) : Type 0 where
  pub period_start : ℕ
  pub revenue : D
  pub deals_count : ℕ

pub record TopProduct (D : Type 0) : Type 0 where
  pub product_id : ℕ
  pub product_name : String
  pub total_quantity : ℕ
  pub total_revenue : D

pub record PurchaseDistribution : Type 0 where
  pub by_hour : List ℕ
  pub by_day_of_week : List ℕ

-- `new Array(n).fill(0)`
abbrev pub zeros : ℕ → List ℕ
zeros zero = []
zeros (suc n) = 0 ∷ zeros n

-- An item with the product that it is joined with.
pub record SoldItem (D : Type 0) : Type 0 where
  pub item : DealItem D
  pub product_name : String

module _ (lib : Platform) (cal : Calendar) where
  open lib use {D, zero_decimal, plus, greater_than, order_by, page}
  open cal use {date_trunc, hour_of, day_of_week}

  -- The WHERE clause of the three queries.
  abbrev pub is_sale : Context → Period → Deal D → Bool
  is_sale ctx period d =
      d.tenant_id == ctx.tenant && has commissionable d.status && in_period period d.created_at

  abbrev pub same_bucket : Bucket → Deal D → Deal D → Bool
  same_bucket unit a b = date_trunc unit a.created_at == date_trunc unit b.created_at

  abbrev pub bucket_row : Bucket → Group (Deal D) → RevenueBucket D
  bucket_row unit g = record {
    period_start = date_trunc unit g.sample_row.created_at;
    revenue = add_amounts lib zero_decimal g.rows;
    deals_count = length g.rows;
  }

  unfoldable pub revenue : Context → Period → Option Bucket → Action (Db D) (List (RevenueBucket D))
  revenue ctx period unit = gets λ (db : Db D).
      let unit' = or_else unit day in
      order_by asc (λ b. b.period_start)
        (map (bucket_row unit')
          (group_rows (same_bucket unit') (filter (is_sale ctx period) db.deals)))

  -- The items of the deals, each with its product; an item without one drops out of the join.
  abbrev pub join_items : List (Product D) → List (DealItem D) → List (SoldItem D)
  join_items products [] = []
  join_items products (i ∷ is) =
      let rest = join_items products is in
      elim (find (λ (p : Product D). p.id == i.product_id) products) [
        | none ↦ rest
        | some p ↦ record { item = i; product_name = p.name } ∷ rest
      ]

  abbrev pub all_items : List (Deal D) → List (DealItem D)
  all_items [] = []
  all_items (d ∷ ds) = d.items ++ all_items ds

  -- Rows of one product: its id determines its name.
  abbrev pub same_product : SoldItem D → SoldItem D → Bool
  same_product a b = a.item.product_id == b.item.product_id

  abbrev pub add_subtotals : D → List (SoldItem D) → D
  add_subtotals acc [] = acc
  add_subtotals acc (i ∷ is) = add_subtotals (plus acc i.item.subtotal) is

  abbrev pub top_row : Group (SoldItem D) → TopProduct D
  top_row g = record {
    product_id = g.sample_row.item.product_id;
    product_name = g.sample_row.product_name;
    total_quantity = sum (λ (i : SoldItem D). i.item.quantity) g.rows;
    total_revenue = add_subtotals zero_decimal g.rows;
  }

  unfoldable pub product_groups : Context → Period → Db D → List (Group (SoldItem D))
  product_groups ctx period db =
      group_rows same_product
        (join_items db.products (all_items (filter (is_sale ctx period) db.deals)))

  -- `ORDER BY "totalRevenue" DESC LIMIT`
  unfoldable pub top_products : Context → Period → Option ℕ → Action (Db D) (List (TopProduct D))
  top_products ctx period limit = gets λ (db : Db D). page (or_else limit 10) 0 (
      sort (λ (a b : TopProduct D). greater_than a.total_revenue b.total_revenue)
        (map top_row (product_groups ctx period db)))

  abbrev pub same_slot : Deal D → Deal D → Bool
  same_slot a b =
      hour_of a.created_at == hour_of b.created_at
      && day_of_week a.created_at == day_of_week b.created_at

  -- The loop over the rows of the query.
  abbrev pub fill : List (Group (Deal D)) → PurchaseDistribution → PurchaseDistribution
  fill [] acc = acc
  fill (g ∷ gs) acc = fill gs (record {
    by_hour = add_at (hour_of g.sample_row.created_at) (length g.rows) acc.by_hour;
    by_day_of_week =
        add_at (day_of_week g.sample_row.created_at) (length g.rows) acc.by_day_of_week;
  })

  unfoldable pub purchase_distribution : Context → Period → Action (Db D) PurchaseDistribution
  purchase_distribution ctx period = gets λ (db : Db D).
      fill (group_rows same_slot (filter (is_sale ctx period) db.deals))
        (record { by_hour = zeros 24; by_day_of_week = zeros 7 })
