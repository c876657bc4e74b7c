-- ===== src/Deals/Reservation.antt =====
-- The transaction of `create` in deals/deals.service.ts: what a reservation takes from the stock, and
-- that the checks before it only read.
use fruct.Prelude.{
  ℕ, false, ◌+◌, List, [], ◌∷◌, map, ◌==◌, ◌≡◌, refl, arith, if◌then◌else◌, sum, length, filter,
  update_rows, All, All-map,
}
use fruct.Action.{ok, Reads, >>=-eq-ok}
use fruct.Schema.{Db, DealItem, Lead, Product}
use fruct.Session.{AuthenticatedUser, Context}
use fruct.Platform.{Platform}
use fruct.Leads.{get_accessible_lead}
use fruct.Leads.Visibility.{get_accessible_lead-cases}
use fruct.Deals.Pricing.{
  CreateDeal, CreateDealItem, Line, check_items, price_lines, user_or_throw, check_discount,
  resolve_delivery, legal_entity_markup,
}
use fruct.Deals.Creation.{decrement, reserve_line, reserve, prepare, item_row}
use fruct.Deals.Stocks.{
  stock_of, OneRow, HasRow, SameRows, enough, decrement-SameRows, stock_of-decrement,
}

-- The quantity of a product in the items of a deal, and in the lines it is made from.
abbrev pub needed : {D : Type 0} → ℕ → List (DealItem D) → ℕ
needed p = sum λ i. if i.product_id == p then i.quantity else 0

module _ (lib : Platform) where
  open lib use {D, update_many-rows}

  abbrev pub needed_lines : ℕ → List (Line D) → ℕ
  needed_lines p = sum λ l. if l.product_id == p then l.quantity else 0

  pub needed-item_row :
      (p : ℕ) (ls : List (Line D)) → needed p (map (item_row lib) ls) ≡ needed_lines p ls
  needed-item_row p [] = refl
  needed-item_row p (l ∷ ls) = ground (arith, needed-item_row p ls)

  -- A reservation of some lines in a warehouse, between two states.
  pub record Reserved (w : ℕ) (ls : List (Line D)) (db db' : Db D) : Type 0 where
    pub others : db' ≡ record db { stocks = db'.stocks }
    pub same_rows : SameRows db.stocks db'.stocks
    pub rows : All (λ l. HasRow db.stocks w l.product_id) ls
    pub taken :
        (w' p' : ℕ)
        → stock_of w' p' db'.stocks + (if w == w' then needed_lines p' ls else 0)
          ≡ stock_of w' p' db.stocks

  reserve_line-ok :
      (w : ℕ) (l : Line D) (db db' : Db D)
      → OneRow db.stocks
      → reserve_line lib w l db ≡ (ok tt, db')
      → (length (filter (enough w l.product_id l.quantity) db.stocks) == 0 ≡ false)
        × (db' ≡ record db {
          stocks = update_rows (enough w l.product_id l.quantity) (decrement l.quantity) db.stocks;
        })
  unfolding reserve_line
  reserve_line-ok w l db db' one e =
      ground (
        arith,
        update_many-rows (enough w l.product_id l.quantity) (decrement l.quantity) db.stocks,
      )

  pub reserve-Reserved :
      (w : ℕ) (ls : List (Line D)) (db db' : Db D)
      → OneRow db.stocks
      → reserve lib w ls db ≡ (ok tt, db')
      → Reserved w ls db db'
  unfolding reserve
  reserve-Reserved w [] db db' one e =
      let same : db' ≡ db = cc in
      rw same (record {
        others = refl;
        same_rows = λ _ _. refl;
        rows = tt;
        taken = λ w' p'. ground arith;
      })
  reserve-Reserved w (l ∷ ls) db db' one e =
      let (_, mid, first, second) =
        >>=-eq-ok (reserve_line lib w l) (λ _. reserve lib w ls) db db' tt e in
      let (hit, at) = reserve_line-ok w l db mid one first in
      let kept = decrement-SameRows w l.product_id l.quantity db.stocks in
      let one' : OneRow mid.stocks = λ w' p'. ground (arith, kept w' p', one w' p') in
      let rest = reserve-Reserved w ls mid db' one' second in
      record {
        others = ground (arith, rest.others);
        same_rows = λ w' p'. ground (arith, kept w' p', rest.same_rows w' p');
        rows = (
          (stock_of-decrement w l.product_id l.quantity w l.product_id db.stocks one hit).1,
          All-map _ _ ls (λ k row. ground (arith, kept w k.product_id)) rest.rows,
        );
        taken = λ w' p'. ground (
          arith,
          rest.taken w' p',
          (stock_of-decrement w l.product_id l.quantity w' p' db.stocks one hit).0,
        );
      }

  get_accessible_lead-Reads :
      (ctx : Context) (id : ℕ) (user : AuthenticatedUser)
      → Reads (get_accessible_lead lib ctx id user)
  get_accessible_lead-Reads ctx id user db =
      ground (arith, get_accessible_lead-cases lib ctx id user db)

  check_items-Reads :
      (ctx : Context) (items : List CreateDealItem) → Reads (check_items lib ctx items)
  unfolding check_items
  check_items-Reads ctx items db = ground arith

  price_lines-Reads :
      (products : List (Product D)) (items : List CreateDealItem)
      → Reads (price_lines lib products items)
  unfolding price_lines
  price_lines-Reads products [] db = refl
  price_lines-Reads products (i ∷ is) db = ground (arith, price_lines-Reads products is db)

  user_or_throw-Reads : (ctx : Context) (id : ℕ) → Reads (user_or_throw lib ctx id)
  unfolding user_or_throw
  user_or_throw-Reads ctx id db = ground arith

  check_discount-Reads :
      (ctx : Context) (user : AuthenticatedUser) (a b : D) → Reads (check_discount lib ctx user a b)
  unfolding check_discount
  check_discount-Reads ctx user a b db = ground arith

  resolve_delivery-Reads :
      (ctx : Context) (dto : CreateDeal D) → Reads (resolve_delivery lib ctx dto)
  unfolding resolve_delivery
  resolve_delivery-Reads ctx dto db = ground arith

  legal_entity_markup-Reads :
      (ctx : Context) (lead : Lead) (dto : CreateDeal D) (a : D)
      → Reads (legal_entity_markup lib ctx lead dto a)
  unfolding legal_entity_markup
  legal_entity_markup-Reads ctx lead dto a db = ground arith

  -- The checks before the transaction only read.
  pub prepare-Reads :
      (ctx : Context) (dto : CreateDeal D) (user : AuthenticatedUser)
      → Reads (prepare lib ctx dto user)
  unfolding prepare
  prepare-Reads ctx dto user db = grind (
    arith, get_accessible_lead-Reads, check_items-Reads, price_lines-Reads, user_or_throw-Reads,
    check_discount-Reads, resolve_delivery-Reads, legal_entity_markup-Reads,
  )
