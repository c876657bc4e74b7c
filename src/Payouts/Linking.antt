-- ===== src/Payouts/Linking.antt =====
-- One manager of `generate` in payouts/payouts.service.ts: the draft, and which deals it is linked to.
use fruct.Prelude.{
  ℕ, Bool, false, not, List, [], ◌∷◌, ◌++◌, map, ◌==◌, ◌≡◌, ◌≢◌, refl, arith, if◌then◌else◌,
  contains, filter, update_rows, sum, All, All-map, All-both, Unique,
}
use fruct.Action.{ok}
use fruct.Schema.{Db, Deal}
use fruct.Session.{Context}
use fruct.Platform.{Platform, asc}
use fruct.Payouts.Period.{PayoutPeriod, ManagerPayoutCalc, claimable, claimable_deals, deal_line}
use fruct.Payouts.Generation.{deal_ids, claimed_by, link, payout_row, persist_calc}

module _ {A : Type 0} where
  update_none :
      (p : A → Bool) (f : A → A) (xs : List A) → ((a : A) → p a ≡ false) → update_rows p f xs ≡ xs
  update_none p f [] h = refl
  update_none p f (x ∷ xs) h = ground (arith, h x, update_none p f xs h)

  pub map_same :
      {B : Type 0} (f g : A → B) → ((a : A) → f a ≡ g a) → (xs : List A) → map f xs ≡ map g xs
  map_same f g h [] = refl
  map_same f g h (x ∷ xs) = ground (arith, h x, map_same f g h xs)

  pub update_rows-map :
      (p c : A → Bool) (f g : A → A) (xs : List A)
      → All (λ a. p (g a) ≡ c a) xs
      → update_rows p f (map g xs) ≡ map (λ a. if c a then f (g a) else g a) xs
  update_rows-map p c f g [] h = refl
  update_rows-map p c f g (x ∷ xs) h = ground (arith, h.0, update_rows-map p c f g xs h.1)

  abbrev with_key : (A → ℕ) → ℕ → A → ℕ
  with_key key k y = if key y == k then 1 else 0

  no_key :
      (key : A → ℕ) (q : A → Bool) (k : ℕ) (xs : List A)
      → All (λ y. key y ≢ k) xs
      → sum (with_key key k) (filter q xs) ≡ 0
  no_key key q k [] h = refl
  no_key key q k (x ∷ xs) h = ground (arith, h.0, no_key key q k xs h.1)

  -- In a table with unique keys, the rows of one row's key that pass a test.
  count_key :
      (key : A → ℕ) (q : A → Bool) (xs : List A)
      → Unique key xs
      → All (λ x. sum (with_key key (key x)) (filter q xs) ≡ (if q x then 1 else 0)) xs
  count_key key q [] u = tt
  count_key key q (x ∷ xs) u = (
    ground (arith, no_key key q (key x) xs u.0),
    All-map _ _ xs (λ a h. ground (arith, h.0, h.1)) (All-both _ _ xs u.0 (count_key key q xs u.1)),
  )

module _ (lib : Platform) (ctx : Context) (period : PayoutPeriod) (new_id : ℕ → ℕ) where
  open lib use {
    D, is_zero, order_by, find_many, create-rows, update_many-rows, find_many-filter, sum-order_by,
    All-order_by, transaction-ok,
  }

  pub persist_calc_lem :
      (calc : ManagerPayoutCalc D) (db : Db D)
      → let row = payout_row lib ctx period new_id calc in
        persist_calc lib ctx period new_id calc db ≡ (
          ok row,
          record db {
            payouts = db.payouts ++ row ∷ [];
            deals =
                update_rows
                  (claimed_by ctx (deal_ids calc))
                  (link (new_id calc.manager_id))
                  db.deals;
          },
        )
  unfolding persist_calc payout_row
  persist_calc_lem calc db =
      let row = payout_row lib ctx period new_id calc in
      transaction-ok _ db (
        ground (
          arith,
          create-rows row db.payouts,
          update_many-rows (claimed_by ctx (deal_ids calc)) (link row.id) db.deals,
          update_none (claimed_by ctx []) (link row.id) db.deals (λ d. refl),
        ))

  contains-lines :
      (k : ℕ) (ds : List (Deal D))
      → contains k (map (λ l. l.id) (map deal_line ds))
        ≡ not (sum (with_key (λ (d : Deal D). d.id) k) ds == 0)
  contains-lines k [] = refl
  contains-lines k (d ∷ ds) = ground (arith, contains-lines k ds)

  -- The lines of a manager name a deal of the table exactly if it is theirs to be paid.
  pub ids_of-claimable :
      (db : Db D) (m : ℕ)
      → Unique (λ d. d.id) db.deals
      → All
          (λ d.
            contains d.id (map (λ l. l.id) (map deal_line (claimable_deals lib ctx period m db)))
            ≡ claimable ctx period m d)
          db.deals
  ids_of-claimable db m u =
      let mine = claimable ctx period m in
      All-map _ _ db.deals
        (λ d count.
          let ds = find_many mine db.deals in
          let is_d = with_key (λ (e : Deal D). e.id) d.id in
          ground (
            arith,
            count,
            contains-lines d.id (claimable_deals lib ctx period m db),
            sum-order_by is_d asc (λ e. e.created_at) ds,
            find_many-filter mine db.deals,
          ))
        (count_key (λ d. d.id) mine db.deals u)
