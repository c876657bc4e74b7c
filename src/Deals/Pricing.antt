-- ===== src/Deals/Pricing.antt =====
-- The amounts of a deal: the part of `create` in deals/deals.service.ts before the transaction, with
-- `resolveDelivery` and `computeLegalEntityMarkup`.
use fruct.Prelude.{
  ℕ, Bool, true, false, not, ◌&&◌, Option, none, some, List, [], ◌∷◌, map, ◌==◌, ltb, if◌then◌else◌,
  is_id, is_some, or_else, contains, length, find, ◌+◌,
}
use fruct.Action.{
  Action, bad_request, not_found, conflict, internal, products_missing, duplicate_items,
  discount_over_subtotal, discount_over_limit, too_many_deliveries, option_missing, quote_missing,
  quote_linked, record_missing, pure, gets, or_throw, throw_if, ◌>>=◌, ◌>>◌,
}
use fruct.Schema.{
  Db, Tenant, Product, User, Lead, BuyerType, individual, legal_entity, PaymentMethod, truthy,
}
use fruct.Session.{AuthenticatedUser, Context, is_manager, by_id}
use fruct.Platform.{Platform}

pub record CreateDealItem : Type 0 where
  pub product_id : ℕ
  pub quantity : ℕ

pub record CreateDeal (D : Type 0) : Type 0 where
  pub lead_id : ℕ
  pub warehouse_id : ℕ
  pub items : List CreateDealItem
  pub discount : Option D
  pub requires_vat_invoice : Option Bool
  pub payment_method : Option PaymentMethod
  pub delivery_option_id : Option ℕ
  pub delivery_quote_id : Option ℕ
  pub delivery_cost : Option D

-- An element of `itemsData`.
pub record Line (D : Type 0) : Type 0 where
  pub product_id : ℕ
  pub quantity : ℕ
  pub unit_price : D
  pub subtotal : D

-- `ResolvedDelivery`
pub record ResolvedDelivery (D : Type 0) : Type 0 where
  pub delivery_cost : D
  pub delivery_option_id : Option ℕ
  pub delivery_quote_id : Option ℕ

abbrev product_ids : List CreateDealItem → List ℕ
product_ids = map λ i. i.product_id

-- The elements of `new Set(ids)`.
abbrev distinct : List ℕ → List ℕ
distinct [] = []
distinct (k ∷ ks) = let rest = distinct ks in if contains k rest then rest else k ∷ rest

abbrev pub is_legal_entity : BuyerType → Bool
is_legal_entity individual = false
is_legal_entity legal_entity = true

abbrev one_if : Bool → ℕ
one_if true = 1
one_if false = 0

module _ (lib : Platform) where
  open lib use {
    D, zero_decimal, of_int, plus, minus, times, divided_by, greater_than, find_first, find_many,
  }

  -- `dto.items.map(…)`: the lines with the price of their product. A product that is missing from
  -- the map would be a crash.
  unfoldable pub price_lines :
      List (Product D) → List CreateDealItem → Action (Db D) (List (Line D))
  price_lines products [] = pure []
  price_lines products (i ∷ is) = do
    product ←
        or_throw (find (λ (p : Product D). p.id == i.product_id) products) (internal record_missing)
    rest ← price_lines products is
    pure (
        record {
          product_id = i.product_id;
          quantity = i.quantity;
          unit_price = product.price;
          subtotal = times product.price (of_int i.quantity);
        }
        ∷ rest)

  -- The running total of the loop.
  abbrev pub subtotal_from : D → List (Line D) → D
  subtotal_from acc [] = acc
  subtotal_from acc (l ∷ ls) = subtotal_from (plus acc l.subtotal) ls

  -- `value.times(percent).dividedBy(100)`
  abbrev pub percent_of : D → D → D
  percent_of value percent = divided_by (times value percent) (of_int 100)

  unfoldable pub check_items : Context → List CreateDealItem → Action (Db D) (List (Product D))
  check_items ctx items = do
    throw_if (not (length (distinct (product_ids items)) == length (product_ids items)))
        (bad_request duplicate_items)
    products ← gets λ (db : Db D).
        find_many (λ p. contains p.id (product_ids items) && p.tenant_id == ctx.tenant) db.products
    throw_if (not (length products == length (product_ids items))) (not_found products_missing)
    pure products

  -- `findUniqueOrThrow` on users.
  unfoldable pub user_or_throw : Context → ℕ → Action (Db D) (User D)
  user_or_throw ctx id = do
    found ← gets λ (db : Db D). find_first (λ u. by_id ctx.tenant id u.tenant_id u.id) db.users
    or_throw found (not_found record_missing)

  -- An owner may always override; a manager is held to their own limit.
  unfoldable pub check_discount : Context → AuthenticatedUser → D → D → Action (Db D) (Unit {0})
  unfolding user_or_throw
  check_discount ctx user subtotal discount = do
    throw_if (greater_than discount subtotal) (bad_request discount_over_subtotal)
    if is_manager user.role
        then (do
          acting ← user_or_throw ctx user.id
          throw_if (greater_than discount (percent_of subtotal acting.max_discount_percent))
              (bad_request discount_over_limit))
        else pure tt

  abbrev provided_count : CreateDeal D → ℕ
  provided_count dto =
      one_if (is_some dto.delivery_option_id)
      + one_if (is_some dto.delivery_quote_id)
      + one_if (is_some dto.delivery_cost)

  by_option : Context → ℕ → Action (Db D) (ResolvedDelivery D)
  by_option ctx id = do
    found ←
        gets
          λ (db : Db D). find_first (λ o. by_id ctx.tenant id o.tenant_id o.id) db.delivery_options
    option ← or_throw found (not_found option_missing)
    pure (record {
      delivery_cost = option.price;
      delivery_option_id = some option.id;
      delivery_quote_id = none;
    })

  by_quote : Context → ℕ → Action (Db D) (ResolvedDelivery D)
  by_quote ctx id = do
    found ←
        gets
          λ (db : Db D). find_first (λ q. by_id ctx.tenant id q.tenant_id q.id) db.delivery_quotes
    quote ← or_throw found (not_found quote_missing)
    linked ← gets λ (db : Db D).
        find_first (λ d. is_id d.delivery_quote_id quote.id && d.tenant_id == ctx.tenant) db.deals
    throw_if (is_some linked) (conflict quote_linked)
    pure (record {
      delivery_cost = quote.cost;
      delivery_option_id = none;
      delivery_quote_id = some quote.id;
    })

  unfoldable pub resolve_delivery : Context → CreateDeal D → Action (Db D) (ResolvedDelivery D)
  unfolding by_option by_quote
  resolve_delivery ctx dto = do
    throw_if (ltb 1 (provided_count dto)) (bad_request too_many_deliveries)
    if truthy dto.delivery_option_id
        then by_option ctx (or_else dto.delivery_option_id 0)
        else if truthy dto.delivery_quote_id
        then by_quote ctx (or_else dto.delivery_quote_id 0)
        else pure (record {
          delivery_cost = or_else dto.delivery_cost zero_decimal;
          delivery_option_id = none;
          delivery_quote_id = none;
        })

  unfoldable pub legal_entity_markup : Context → Lead → CreateDeal D → D → Action (Db D) D
  legal_entity_markup ctx lead dto subtotal =
      if is_legal_entity lead.buyer_type && or_else dto.requires_vat_invoice false
      then (do
        found ← gets λ (db : Db D). find_first (λ (t : Tenant D). t.id == ctx.tenant) db.tenants
        tenant ← or_throw found (not_found record_missing)
        pure (percent_of subtotal tenant.legal_entity_markup_percent))
      else pure zero_decimal
