-- ===== src/Deals/Creation.antt =====
-- `create` of deals/deals.service.ts: the checks, the amounts, and the transaction that reserves the
-- stock and inserts the deal.
use fruct.Prelude.{
  ℕ, Bool, false, not, ◌&&◌, ◌-◌, none, some, List, [], ◌∷◌, map, ◌==◌, leb, or_else,
}
use fruct.Action.{
  Action, not_found, conflict, warehouse_unavailable, not_enough_stock, pure, gets, or_throw,
  throw_if, ◌>>=◌, ◌>>◌,
}
use fruct.Schema.{Db, Stock, User, Deal, DealItem, new}
use fruct.Session.{AuthenticatedUser, Context, by_id}
use fruct.Platform.{Platform}
use fruct.Leads.{get_accessible_lead}
use fruct.Deals.Pricing.{
  CreateDeal, Line, ResolvedDelivery, check_items, price_lines, subtotal_from, percent_of,
  user_or_throw, check_discount, resolve_delivery, legal_entity_markup,
}

abbrev pub stock_at : ℕ → ℕ → Stock → Bool
stock_at warehouse product s = s.warehouse_id == warehouse && s.product_id == product

-- `{ decrement: quantity }`
abbrev pub decrement : ℕ → Stock → Stock
decrement quantity s = record s { quantity = s.quantity - quantity }

-- The amounts that `create` computes before its transaction.
pub record Amounts (D : Type 0) : Type 0 where
  pub lines : List (Line D)
  pub discount : D
  pub delivery : ResolvedDelivery D
  pub markup : D
  pub total : D
  pub manager_id : ℕ
  pub manager : User D
  pub commission : D

module _ (lib : Platform) where
  open lib use {D, zero_decimal, plus, minus, column, find_first, update_many, create, transaction}

  -- The value that a column of type NUMERIC(10, 2) keeps.
  abbrev pub money : D → D
  money = column 10 2

  -- A conditional decrement; an update that finds no row with enough stock aborts the deal.
  unfoldable pub reserve_line : ℕ → Line D → Action (Db D) (Unit {0})
  reserve_line warehouse line db =
      let (stocks, count) =
        update_many
          (λ (s : Stock). stock_at warehouse line.product_id s && leb line.quantity s.quantity)
          (decrement line.quantity) db.stocks in
      throw_if (count == 0) (conflict not_enough_stock) (record db { stocks = stocks })

  unfoldable pub reserve : ℕ → List (Line D) → Action (Db D) (Unit {0})
  reserve warehouse [] = pure tt
  reserve warehouse (l ∷ ls) = do reserve_line warehouse l; reserve warehouse ls

  abbrev pub item_row : Line D → DealItem D
  item_row l = record {
    product_id = l.product_id;
    quantity = l.quantity;
    unit_price = money l.unit_price;
    subtotal = money l.subtotal;
  }

  -- The row of `tx.deal.create`, with the schema's defaults.
  unfoldable pub deal_row : Context → CreateDeal D → Amounts D → Deal D
  deal_row ctx dto a = record {
    id = ctx.fresh_id;
    tenant_id = ctx.tenant;
    lead_id = dto.lead_id;
    manager_id = a.manager_id;
    warehouse_id = some dto.warehouse_id;
    delivery_option_id = a.delivery.delivery_option_id;
    delivery_quote_id = a.delivery.delivery_quote_id;
    delivery_cost = money a.delivery.delivery_cost;
    discount = money a.discount;
    requires_vat_invoice = or_else dto.requires_vat_invoice false;
    legal_entity_markup = money a.markup;
    total_amount = money a.total;
    payment_method = dto.payment_method;
    status = new;
    commission_percent_snap = column 5 2 a.manager.commission_percent;
    commission_amount = money a.commission;
    items = map item_row a.lines;
    created_at = ctx.now;
    closed_at = none;
    payout_id = none;
  }

  -- Everything that `create` does before its transaction; it only reads.
  unfoldable pub prepare : Context → CreateDeal D → AuthenticatedUser → Action (Db D) (Amounts D)
  prepare ctx dto user = do
    lead ← get_accessible_lead lib ctx dto.lead_id user
    found ← gets λ (db : Db D).
        find_first (λ w. by_id ctx.tenant dto.warehouse_id w.tenant_id w.id) db.warehouses
    warehouse ← or_throw found (not_found warehouse_unavailable)
    throw_if (not warehouse.is_active) (not_found warehouse_unavailable)
    products ← check_items lib ctx dto.items
    lines ← price_lines lib products dto.items
    let subtotal = subtotal_from lib zero_decimal lines
    let manager_id = or_else lead.assigned_manager_id user.id
    manager ← user_or_throw lib ctx manager_id
    let discount = or_else dto.discount zero_decimal
    check_discount lib ctx user subtotal discount
    delivery ← resolve_delivery lib ctx dto
    markup ← legal_entity_markup lib ctx lead dto subtotal
    let total = plus (plus (minus subtotal discount) delivery.delivery_cost) markup
    pure (record {
      lines = lines;
      discount = discount;
      delivery = delivery;
      markup = markup;
      total = total;
      manager_id = manager_id;
      manager = manager;
      commission = percent_of lib total manager.commission_percent;
    })

  unfoldable pub insert_deal : Context → CreateDeal D → Amounts D → Action (Db D) (Deal D)
  insert_deal ctx dto a db =
      (pure (deal_row ctx dto a)) (record db { deals = create (deal_row ctx dto a) db.deals })

  unfoldable pub create_deal : Context → CreateDeal D → AuthenticatedUser → Action (Db D) (Deal D)
  create_deal ctx dto user = do
    a ← prepare ctx dto user
    transaction (reserve dto.warehouse_id a.lines >> insert_deal ctx dto a)
