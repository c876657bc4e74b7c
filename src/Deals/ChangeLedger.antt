-- ===== src/Deals/ChangeLedger.antt =====
-- `changeStatus` of deals/deals.service.ts: a cancelled or refunded deal gives back exactly what it
-- held, if no other request commits between the read of the deal and the transaction.
use fruct.Prelude.{
  ℕ, Bool, true, not, ◌&&◌, ◌+◌, Option, none, some, List, [], ◌∷◌, ◌==◌, ◌≡◌, refl, ◌∙◌, arith,
  inl, inr, ◌⊎◌, if◌then◌else◌, is_id, or_else, find, find-All, update_rows, All, All-map,
  All-update_rows, Bool-cases, Option-cases, Unique-update_rows, filter-found, sum-update_rows,
}
use fruct.Action.{HttpError, ok, err, not_found, deal_missing, bad_request, bad_transition}
use fruct.Schema.{Db, Deal, DealItem, DealStatus, Stock, truthy}
use fruct.Session.{AuthenticatedUser, Context, is_manager, by_id}
use fruct.Platform.{Platform}
use fruct.Deals.Status.{has, transitions, stock_restoring}
use fruct.Deals.Creation.{stock_at}
use fruct.Deals.StatusChange.{
  increment, restore, should_restore, set_status, commit_status, find_or_throw, change_deal_status,
}
use fruct.Deals.Stocks.{stock_of, HasRow, SameRows, increment-SameRows, stock_of-increment}
use fruct.Deals.Reservation.{needed}
use fruct.Deals.Ledger.{is_live, holds, ledger, ItemRows, InOrder, All-SameRows}

-- Only a live deal can change its status.
transition-live : (s t : DealStatus) → has (transitions s) t ≡ true → is_live s ≡ true
transition-live DealStatus.cancelled t h = cc
transition-live DealStatus.refunded t h = cc
transition-live _ t h = refl

module _ (lib : Platform) where
  open lib use {D, find_first-find, update-found, update_many-rows, transaction-ok}

  restore-SameRows :
      (w : ℕ) (items : List (DealItem D)) (stocks : List Stock)
      → SameRows stocks (restore lib w items stocks)
  unfolding restore
  restore-SameRows w [] stocks w' p' = refl
  restore-SameRows w (i ∷ is) stocks w' p' =
      rw (update_many-rows (stock_at w i.product_id) (increment i.quantity) stocks)
        (restore-SameRows w is _ w' p' ∙ increment-SameRows w i.product_id i.quantity stocks w' p')

  pub restore-needed :
      (w : ℕ) (items : List (DealItem D)) (stocks : List Stock) (w' p' : ℕ)
      → All (λ i. HasRow stocks w i.product_id) items
      → stock_of w' p' (restore lib w items stocks)
        ≡ stock_of w' p' stocks + (if w == w' then needed p' items else 0)
  unfolding restore
  restore-needed w [] stocks w' p' h = ground arith
  restore-needed w (i ∷ is) stocks w' p' h =
      let same = increment-SameRows w i.product_id i.quantity stocks in
      rw (update_many-rows (stock_at w i.product_id) (increment i.quantity) stocks) (
        ground (
          arith,
          stock_of-increment w i.product_id i.quantity w' p' stocks h.0,
          restore-needed w is (update_rows (stock_at w i.product_id) (increment i.quantity) stocks)
              w' p' (All-map _ _ is (λ k row. ground (arith, same w k.product_id)) h.1),
        ))

  module _ (ctx : Context) (id : ℕ) (status : DealStatus) where
    abbrev pub here : Deal D → Bool
    here d = by_id ctx.tenant id d.tenant_id d.id

    -- The stock after the transaction, for the deal that was read before it.
    abbrev pub restored : Deal D → List Stock → List Stock
    restored seen stocks =
        if should_restore lib status seen
        then restore lib (or_else seen.warehouse_id 0) seen.items stocks
        else stocks

    pub commit_status-found :
        (seen d : Deal D) (db : Db D)
        → find here db.deals ≡ some d
        → commit_status lib ctx id status seen db ≡ (
          ok (set_status status ctx.now d),
          record db {
            stocks = restored seen db.stocks;
            deals = update_rows here (set_status status ctx.now) db.deals;
          },
        )
    unfolding commit_status
    commit_status-found seen d db e =
        transaction-ok _ db (rw (update-found here (set_status status ctx.now) db.deals d e) refl)

    at_id : (d : Deal D) → here d ≡ true → d.id ≡ id
    at_id d h = ground arith

    restored_stock :
        (warehouse : Option ℕ) (items : List (DealItem D)) (stocks : List Stock) (w p : ℕ)
        → ItemRows stocks warehouse items
        → stock_of w p (
            if has stock_restoring status && truthy warehouse
            then restore lib (or_else warehouse 0) items stocks
            else stocks)
          ≡ stock_of w p stocks
            + (if has stock_restoring status && is_id warehouse w then needed p items else 0)
    restored_stock none items stocks w p rows = ground arith
    restored_stock (some k) items stocks w p rows =
        ground (arith, rows.0, restore-needed k items stocks w p rows.1)

    -- The transaction gives back what the deal that was read needs, and takes what the deal in the
    -- table holds off the account.
    pub commit_status-ledger :
        (seen d : Deal D) (db : Db D) (w p : ℕ)
        → InOrder db
        → find here db.deals ≡ some d
        → ItemRows db.stocks seen.warehouse_id seen.items
        → ledger w p (commit_status lib ctx id status seen db).1 + holds w p d
          ≡ ledger w p db
            + holds w p (set_status status ctx.now d)
            + (if has stock_restoring status && is_id seen.warehouse_id w
                then needed p seen.items
                else 0)
    commit_status-ledger seen d db w p good e rows =
        let only = filter-found (λ r. r.id) here id at_id db.deals d good.unique_ids e in
        rw (commit_status-found seen d db e) (
          ground (
            arith,
            restored_stock seen.warehouse_id seen.items db.stocks w p rows,
            rw only at (sum-update_rows (holds w p) here (set_status status ctx.now) db.deals),
          ))

    -- A request to change a status throws and leaves the database as it was, or is allowed and
    -- commits for the deal that it read.
    pub change_deal_status-cases :
        (user : AuthenticatedUser) (db : Db D)
        → ((e : HttpError) × (change_deal_status lib ctx id status user db ≡ (err e, db)))
          ⊎ ((d : Deal D) × (find here db.deals ≡ some d)
              × (has (transitions d.status) status ≡ true)
              × (change_deal_status lib ctx id status user db
                  ≡ commit_status lib ctx id status d db))
    unfolding change_deal_status find_or_throw
    change_deal_status-cases user db = elim (Option-cases (find here db.deals)) [
      | inl absent ↦ inl (not_found deal_missing, ground (arith, find_first-find here db.deals))
      | inr (d, e) ↦ elim (Bool-cases (is_manager user.role && not (d.manager_id == user.id))) [
        | inl foreign ↦ inl (not_found deal_missing, ground (arith, find_first-find here db.deals))
        | inr own ↦ elim (Bool-cases (has (transitions d.status) status)) [
          | inl allowed ↦ inr (d, e, allowed, ground (arith, find_first-find here db.deals))
          | inr refused ↦
              inl (bad_request bad_transition, ground (arith, find_first-find here db.deals))
        ]
      ]
    ]

    -- A status change keeps the ledger of every product in every warehouse: what a cancelled or
    -- refunded deal held is back in its warehouse.
    pub change_deal_status-ledger :
        (user : AuthenticatedUser) (db : Db D) (w p : ℕ)
        → InOrder db
        → ledger w p (change_deal_status lib ctx id status user db).1 ≡ ledger w p db
    change_deal_status-ledger user db w p good = elim (change_deal_status-cases user db) [
      | inl (x, refused) ↦ rw refused refl
      | inr (d, e, allowed, done) ↦ rw done (
          ground (
            arith,
            transition-live d.status status allowed,
            commit_status-ledger d d db w p good e (find-All _ here db.deals d good.item_rows e).0,
          ))
    ]

    restored-SameRows :
        (seen : Deal D) (stocks : List Stock) → SameRows stocks (restored seen stocks)
    restored-SameRows seen stocks w p =
        ground (arith, restore-SameRows (or_else seen.warehouse_id 0) seen.items stocks w p)

    pub commit_status-InOrder :
        (seen d : Deal D) (db : Db D)
        → find here db.deals ≡ some d
        → InOrder db
        → InOrder (commit_status lib ctx id status seen db).1
    commit_status-InOrder seen d db e good =
        let same = restored-SameRows seen db.stocks in
        rw (commit_status-found seen d db e) (record {
          one_row = λ w p. ground (arith, same w p, good.one_row w p);
          unique_ids =
              Unique-update_rows (λ r. r.id) here (set_status status ctx.now) db.deals (λ r. refl)
                good.unique_ids;
          item_rows =
              All-update_rows _ _ here (set_status status ctx.now) db.deals
                (λ r rows. elim (Bool-cases (here r)) [
                  | inl hit ↦ rw hit rows
                  | inr miss ↦ rw miss rows
                ])
                (All-SameRows db.stocks (restored seen db.stocks) db.deals same good.item_rows);
        })

    pub change_deal_status-InOrder :
        (user : AuthenticatedUser) (db : Db D)
        → InOrder db
        → InOrder (change_deal_status lib ctx id status user db).1
    change_deal_status-InOrder user db good = elim (change_deal_status-cases user db) [
      | inl (x, refused) ↦ rw refused good
      | inr (d, e, _, done) ↦ rw done (commit_status-InOrder d d db e good)
    ]
