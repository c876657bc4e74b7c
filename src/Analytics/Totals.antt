-- ===== src/Analytics/Totals.antt =====
-- The SQL queries of analytics/analytics.service.ts: no sale is lost or counted twice.
use fruct.Prelude.{
  ℕ, ◌+◌, ◌-◌, ◌≡◌, refl, arith, suc, zero, ◌==◌, if◌then◌else◌, Option, List, [], ◌∷◌, map, sum,
  length, filter, group_rows, group_rows-sum, group_rows-count, Group, at_index, add_at,
  at_index-add_at, length-add_at, or_else, ◌∙◌,
}
use fruct.Action.{ok}
use fruct.Schema.{Db, Deal}
use fruct.Session.{Context}
use fruct.Platform.{Platform, asc}
use fruct.Analytics.{Period}
use fruct.Analytics.Queries.{
  Calendar, Bucket, day, RevenueBucket, PurchaseDistribution, zeros, is_sale, same_bucket,
  bucket_row, revenue, same_slot, fill, purchase_distribution,
}

module _ (lib : Platform) (cal : Calendar) where
  open lib use {D, order_by, sum-order_by}
  open cal use {hour_of, day_of_week, hour_of-lt, day_of_week-lt, date_trunc}

  sum-map :
      {A B : Type 0} (f : A → B) (m : B → ℕ) (xs : List A)
      → sum m (map f xs) ≡ sum (λ x. m (f x)) xs
  sum-map f m [] = refl
  sum-map f m (x ∷ xs) = omega (arith, sum-map f m xs)

  length-sum : {A : Type 0} (xs : List A) → sum (λ x. 1) xs ≡ length xs
  length-sum [] = refl
  length-sum (x ∷ xs) = omega (arith, length-sum xs)

  group_lengths :
      {A : Type 0} (gs : List (Group A))
      → sum (λ g. length g.rows) gs ≡ sum (λ g. sum (λ x. 1) g.rows) gs
  group_lengths [] = refl
  group_lengths (g ∷ gs) = omega (arith, group_lengths gs, length-sum g.rows)

  -- Whatever the size of a bucket, the deals of the buckets add up to the sales of the tenant in the period.
  revenue_lem :
      (ctx : Context) (period : Period) (unit : Option Bucket) (db : Db D)
      → (rows : List (RevenueBucket D)) × (revenue lib cal ctx period unit db ≡ (ok rows, db))
        × (sum (λ (r : RevenueBucket D). r.deals_count) rows
            ≡ length (filter (is_sale lib cal ctx period) db.deals))
  unfolding revenue
  revenue_lem ctx period unit db =
      let unit' = or_else unit day in
      let sales = filter (is_sale lib cal ctx period) db.deals in
      let groups = group_rows (same_bucket lib cal unit') sales in
      (
        _,
        refl,
        sum-order_by (λ (r : RevenueBucket D). r.deals_count) asc (λ b. b.period_start)
              (map (bucket_row lib cal unit') groups)
            ∙ sum-map (bucket_row lib cal unit') (λ r. r.deals_count) groups
            ∙ group_lengths groups
            ∙ group_rows-sum (same_bucket lib cal unit') (λ _. 1) sales
            ∙ length-sum sales,
      )

  fill-counts :
      (h d : ℕ) (gs : List (Group (Deal D))) (acc : PurchaseDistribution)
      → length acc.by_hour ≡ 24
      → length acc.by_day_of_week ≡ 7
      → (at_index h (fill lib cal gs acc).by_hour
          ≡ at_index h acc.by_hour
            + sum (λ g. if hour_of g.sample_row.created_at == h then length g.rows else 0) gs)
        × (at_index d (fill lib cal gs acc).by_day_of_week
            ≡ at_index d acc.by_day_of_week
              + sum (λ g. if day_of_week g.sample_row.created_at == d then length g.rows else 0) gs)
  fill-counts h d [] acc e f = (omega arith, omega arith)
  fill-counts h d (g ∷ gs) acc e f =
      let hour = hour_of g.sample_row.created_at in
      let dow = day_of_week g.sample_row.created_at in
      let rest =
        fill-counts h d gs
          (record {
            by_hour = add_at hour (length g.rows) acc.by_hour;
            by_day_of_week = add_at dow (length g.rows) acc.by_day_of_week;
          })
          (omega (arith, e, length-add_at hour (length g.rows) acc.by_hour))
          (omega (arith, f, length-add_at dow (length g.rows) acc.by_day_of_week)) in
      (
        omega (
          arith,
          rest.0,
          at_index-add_at hour h (length g.rows) acc.by_hour
              (omega (arith, e, hour_of-lt g.sample_row.created_at)),
        ),
        omega (
          arith,
          rest.1,
          at_index-add_at dow d (length g.rows) acc.by_day_of_week
              (omega (arith, f, day_of_week-lt g.sample_row.created_at)),
        ),
      )

  at_index-zeros : (i n : ℕ) → at_index i (zeros n) ≡ 0
  at_index-zeros i zero = refl
  at_index-zeros i (suc n) = ground (arith, at_index-zeros (i - 1) n)

  -- The distribution of purchases says of every hour and of every day of the week how many sales of the tenant in the
  -- period fall on it.
  pub purchase_distribution_lem :
      (ctx : Context) (period : Period) (db : Db D) (h d : ℕ)
      → let sales = filter (is_sale lib cal ctx period) db.deals in
        (p : PurchaseDistribution) × (purchase_distribution lib cal ctx period db ≡ (ok p, db))
        × (at_index h p.by_hour ≡ length (filter (λ (s : Deal D). hour_of s.created_at == h) sales))
        × (at_index d p.by_day_of_week
            ≡ length (filter (λ (s : Deal D). day_of_week s.created_at == d) sales))
  unfolding purchase_distribution
  purchase_distribution_lem ctx period db h d =
      let sales = filter (is_sale lib cal ctx period) db.deals in
      let counts =
        fill-counts h d (group_rows (same_slot lib cal) sales)
          (record { by_hour = zeros 24; by_day_of_week = zeros 7 }) refl refl in
      (
        _,
        refl,
        omega (
          arith,
          counts.0,
          at_index-zeros h 24,
          group_rows-count (same_slot lib cal) (λ s. hour_of s.created_at == h)
              (λ a b e. ground arith) sales,
        ),
        omega (
          arith,
          counts.1,
          at_index-zeros d 7,
          group_rows-count (same_slot lib cal) (λ s. day_of_week s.created_at == d)
              (λ a b e. ground arith) sales,
        ),
      )
