-- ===== src/Deals/Tests.antt =====
-- Examples for deals/deals.service.ts.
use fruct.Prelude.{ℕ, ◌≤◌, none, some, List, [], ◌∷◌, ◌≡◌, refl, arith, sum}
use fruct.Prelude.Int.{ℤ}
use fruct.Action.{ok, err, conflict, bad_request, not_enough_stock, bad_transition}
use fruct.Schema.{Db, DealStatus}
use fruct.Platform.Sample.{sample}
use fruct.Samples.{sold, shop, amount, manager_session, owner_session, request_at}
use fruct.Deals.Pricing.{
  CreateDeal, check_items, price_lines, user_or_throw, check_discount, resolve_delivery,
  legal_entity_markup,
}
use fruct.Deals.Creation.{create_deal, prepare, reserve, reserve_line, insert_deal, deal_row}
use fruct.Deals.StatusChange.{change_deal_status, commit_status, find_or_throw}
use fruct.Deals.Stocks.{OneRow}
use fruct.Deals.Ledger.{holds, ledger, InOrder}
use fruct.Deals.History.{
  Request, creates, changes, run, run-ledger, never_oversold, restored_twice, AllAllowed,
}
use fruct.Leads.{get_accessible_lead}

abbrev chairs : ℕ → CreateDeal ℤ
chairs n = record {
  lead_id = 30;
  warehouse_id = 20;
  items = record { product_id = 10; quantity = n } ∷ [];
  discount = none;
  requires_vat_invoice = none;
  payment_method = none;
  delivery_option_id = none;
  delivery_quote_id = none;
  delivery_cost = some (amount 300);
}

abbrev shop_after_sale : Db ℤ
shop_after_sale = record shop {
  stocks = record { warehouse_id = 20; product_id = 10; quantity = 3 } ∷ [];
  deals = sold ∷ [];
}

-- Two chairs at 5000 with delivery for 300; the manager's commission is a fifth of the total.
create_deal_runs :
    create_deal sample (request_at 50 40) (chairs 2) manager_session shop
    ≡ (ok sold, shop_after_sale)
unfolding create_deal prepare get_accessible_lead check_items price_lines user_or_throw
    check_discount resolve_delivery legal_entity_markup reserve reserve_line insert_deal deal_row
create_deal_runs = refl

create_deal_oversell :
    create_deal sample (request_at 50 40) (chairs 6) manager_session shop
    ≡ (err (conflict not_enough_stock), shop)
unfolding create_deal prepare get_accessible_lead check_items price_lines user_or_throw
    check_discount resolve_delivery legal_entity_markup reserve reserve_line insert_deal deal_row
create_deal_oversell = refl

change_deal_status_jump :
    change_deal_status sample
      (request_at 60 0)
      40
      DealStatus.completed
      owner_session
      shop_after_sale
    ≡ (err (bad_request bad_transition), shop_after_sale)
unfolding change_deal_status find_or_throw
change_deal_status_jump = refl

shop-OneRow : OneRow shop.stocks
shop-OneRow w p = ground arith

after_sale-InOrder : InOrder shop_after_sale
after_sale-InOrder = record {
  one_row = λ w p. ground arith;
  unique_ids = (tt, tt);
  item_rows = ((ground arith, (refl, tt)), tt);
}

shop-InOrder : InOrder shop
shop-InOrder = record { one_row = shop-OneRow; unique_ids = tt; item_rows = tt }

abbrev requests : List (Request ℤ)
requests =
    creates (request_at 50 40) (chairs 2) manager_session
    ∷ changes (request_at 60 0) 40 DealStatus.cancelled manager_session
    ∷ []

requests-AllAllowed : AllAllowed sample requests shop
requests-AllAllowed = ((ground arith, tt), (tt, tt))

run-ledger_example :
    InOrder (run sample requests shop) × (ledger 20 10 (run sample requests shop) ≡ 5)
run-ledger_example = run-ledger sample requests shop 20 10 shop-InOrder requests-AllAllowed

never_oversold_example : sum (holds 20 10) (run sample requests shop).deals ≤ 5
never_oversold_example =
    never_oversold sample requests shop 20 10 shop-InOrder refl requests-AllAllowed

restored_twice_example :
    let db₁ =
      (commit_status sample (request_at 60 0) 40 DealStatus.cancelled sold shop_after_sale).1 in
    let db₂ = (commit_status sample (request_at 61 0) 40 DealStatus.cancelled sold db₁).1 in
    ledger 20 10 db₂ ≡ 7
restored_twice_example =
    restored_twice sample (request_at 60 0) 40 61 20 10 DealStatus.cancelled DealStatus.cancelled
      shop_after_sale sold after_sale-InOrder refl refl refl refl refl
