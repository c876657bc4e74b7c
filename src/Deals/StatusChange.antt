-- ===== src/Deals/StatusChange.antt =====
-- `findAll`, `findOne` and `changeStatus` of deals/deals.service.ts.
use fruct.Prelude.{
  ℕ, Bool, true, not, ◌&&◌, ◌+◌, Option, none, some, List, [], ◌∷◌, ◌==◌, or_else, if◌then◌else◌,
  where_eq,
}
use fruct.Action.{
  Action, bad_request, not_found, bad_transition, deal_missing, record_missing, pure, gets,
  or_throw, throw_if, ◌>>=◌, ◌>>◌,
}
use fruct.Schema.{Db, Stock, Deal, DealItem, DealStatus, truthy}
use fruct.Session.{AuthenticatedUser, Context, is_manager, by_id}
use fruct.Platform.{Platform, desc}
use fruct.Deals.Status.{has, transitions, stock_restoring, terminal}
use fruct.Deals.Creation.{stock_at}

pub DealStatus-discrete : Discrete DealStatus
DealStatus-discrete = hlevel

pub record ListDealsQuery : Type 0 where
  pub status : Option DealStatus
  pub manager_id : Option ℕ
  pub lead_id : Option ℕ
  pub limit : Option ℕ
  pub offset : Option ℕ

-- `{ increment: quantity }`
abbrev pub increment : ℕ → Stock → Stock
increment quantity s = record s { quantity = s.quantity + quantity }

-- The data of the update: a terminal status also closes the deal.
abbrev pub set_status : {D : Type 0} → DealStatus → ℕ → Deal D → Deal D
set_status status now d = record d {
  status = status;
  closed_at = if has terminal status then some now else d.closed_at;
}

module _ (lib : Platform) where
  open lib use {D, find_first, find_many, update, update_many, order_by, page, transaction}

  unfoldable pub find_or_throw : Context → ℕ → AuthenticatedUser → Action (Db D) (Deal D)
  find_or_throw ctx id user = do
    found ← gets λ (db : Db D). find_first (λ d. by_id ctx.tenant id d.tenant_id d.id) db.deals
    deal ← or_throw found (not_found deal_missing)
    throw_if (is_manager user.role && not (deal.manager_id == user.id)) (not_found deal_missing)
    pure deal

  -- The where clause of `findAll`.
  abbrev pub matches_query : Context → ListDealsQuery → AuthenticatedUser → Deal D → Bool
  matches_query ctx query user d =
      let manager = if is_manager user.role then some user.id else query.manager_id in
      d.tenant_id == ctx.tenant
      && where_eq DealStatus-discrete query.status d.status
      && elim manager [ none ↦ true | some m ↦ d.manager_id == m ]
      && elim query.lead_id [ none ↦ true | some l ↦ d.lead_id == l ]

  unfoldable pub find_all_deals :
      Context → ListDealsQuery → AuthenticatedUser → Action (Db D) (List (Deal D))
  find_all_deals ctx query user = gets λ (db : Db D).
      page (or_else query.limit 50) (or_else query.offset 0)
        (order_by desc (λ d. d.created_at) (find_many (matches_query ctx query user) db.deals))

  -- Puts the items of a deal back into its warehouse.
  unfoldable pub restore : ℕ → List (DealItem D) → List Stock → List Stock
  restore warehouse [] stocks = stocks
  restore warehouse (i ∷ is) stocks =
      restore warehouse is
        (update_many (stock_at warehouse i.product_id) (increment i.quantity) stocks).0

  -- `shouldRestoreStock`
  abbrev pub should_restore : DealStatus → Deal D → Bool
  should_restore status d = has stock_restoring status && truthy d.warehouse_id

  -- The transaction of `changeStatus`, for the deal that was read before it began.
  unfoldable pub commit_status : Context → ℕ → DealStatus → Deal D → Action (Db D) (Deal D)
  commit_status ctx id status seen = transaction λ (db : Db D).
      let stocks =
        if should_restore status seen
        then restore (or_else seen.warehouse_id 0) seen.items db.stocks
        else db.stocks in
      elim (update (λ (d : Deal D). by_id ctx.tenant id d.tenant_id d.id)
        (set_status status ctx.now) db.deals) [
          | none ↦ or_throw none (not_found record_missing) (record db { stocks = stocks })
          | some (d, deals) ↦ pure d (record db { stocks = stocks; deals = deals })
        ]

  unfoldable pub change_deal_status :
      Context → ℕ → DealStatus → AuthenticatedUser → Action (Db D) (Deal D)
  change_deal_status ctx id status user = do
    deal ← find_or_throw ctx id user
    throw_if (not (has (transitions deal.status) status)) (bad_request bad_transition)
    commit_status ctx id status deal
