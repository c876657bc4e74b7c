-- ===== src/Deals/CreateLedger.antt =====
-- `create` of deals/deals.service.ts moves stock from the warehouse to the new deal, or changes
-- nothing.
use fruct.Prelude.{
  ℕ, List, [], ◌∷◌, ◌++◌, map, ◌≡◌, ◌≢◌, refl, ◌∙◌, arith, inl, inr, ◌⊎◌, sum-append, All,
  All-append, Unique-append,
}
use fruct.Action.{
  Action, Result, HttpError, ok, err, >>=-eq-ok, >>=-ok, >>=-err, Result-cases, ◌>>◌,
}
use fruct.Schema.{Db, Deal, Stock}
use fruct.Session.{AuthenticatedUser, Context}
use fruct.Platform.{Platform}
use fruct.Deals.Pricing.{CreateDeal, Line}
use fruct.Deals.Creation.{Amounts, prepare, reserve, insert_deal, create_deal, deal_row, item_row}
use fruct.Deals.Stocks.{HasRow, SameRows}
use fruct.Deals.Reservation.{needed-item_row, Reserved, reserve-Reserved, prepare-Reads}
use fruct.Deals.Ledger.{holds, ledger, InOrder, All-SameRows}

module _ (lib : Platform) (ctx : Context) (dto : CreateDeal (lib.D))
    (user : AuthenticatedUser) where
  open lib use {D, create-rows, transaction, transaction-ok, transaction-err}

  abbrev body : Amounts D → Action (Db D) (Deal D)
  body a = reserve lib dto.warehouse_id a.lines >> insert_deal lib ctx dto a

  whole : {A : Type 0} (r : Result A) (m : Result A × Db D) → m.0 ≡ r → m ≡ (r, m.1)
  whole r m h = cc

  body-ok :
      (a : Amounts D) (db after : Db D) (d : Deal D)
      → InOrder db
      → body a db ≡ (ok d, after)
      → (mid : Db D) × Reserved lib dto.warehouse_id a.lines db mid
        × (d ≡ deal_row lib ctx dto a)
        × (after
            ≡ record db { stocks = mid.stocks; deals = db.deals ++ deal_row lib ctx dto a ∷ [] })
  unfolding insert_deal
  body-ok a db after d good e =
      let (_, mid, first, second) =
        >>=-eq-ok (reserve lib dto.warehouse_id a.lines) (λ _. insert_deal lib ctx dto a) db after d
          e in
      let r = reserve-Reserved lib dto.warehouse_id a.lines db mid good.one_row first in
      (mid, r, cc, ground (arith, r.others, create-rows (deal_row lib ctx dto a) mid.deals))

  -- A request to create a deal throws and leaves the database as it was, or reserves all its lines
  -- and adds one deal.
  pub create_deal-cases :
      (db : Db D)
      → InOrder db
      → ((e : HttpError) × (create_deal lib ctx dto user db ≡ (err e, db)))
        ⊎ ((a : Amounts D) × (mid : Db D) × (prepare lib ctx dto user db ≡ (ok a, db))
            × Reserved lib dto.warehouse_id a.lines db mid
            × (create_deal lib ctx dto user db ≡ (
              ok (deal_row lib ctx dto a),
              record db { stocks = mid.stocks; deals = db.deals ++ deal_row lib ctx dto a ∷ [] },
            )))
  unfolding create_deal
  create_deal-cases db good = elim (Result-cases (prepare lib ctx dto user db).0) [
    | inr (e, refused) ↦ inl (
      e,
      >>=-err (prepare lib ctx dto user) (λ b. transaction (body b))
          (ground (arith, prepare-Reads lib ctx dto user db)),
    )
    | inl (a, e) ↦
        let prepared : prepare lib ctx dto user db ≡ (ok a, db) =
          ground (arith, prepare-Reads lib ctx dto user db) in
        elim (Result-cases (body a db).0) [
          | inr (x, refused) ↦ inl (
            x,
            >>=-ok (prepare lib ctx dto user) (λ b. transaction (body b)) prepared
                ∙ transaction-err (body a) db (whole (err x) (body a db) refused),
          )
          | inl (d, done) ↦
              let ran = whole (ok d) (body a db) done in
              let (mid, r, row, after) = body-ok a db (body a db).1 d good ran in
              inr (
                a,
                mid,
                prepared,
                r,
                >>=-ok (prepare lib ctx dto user) (λ b. transaction (body b)) prepared
                    ∙ transaction-ok (body a) db ran
                    ∙ (λ i. (ok (row i), after i)),
              )
        ]
  ]

  item_rows-lines :
      (ls : List (Line D)) (before after : List Stock)
      → SameRows before after
      → All (λ l. HasRow before dto.warehouse_id l.product_id) ls
      → All (λ i. HasRow after dto.warehouse_id i.product_id) (map (item_row lib) ls)
  item_rows-lines [] before after same h = tt
  item_rows-lines (l ∷ ls) before after same h =
      (ground (arith, same dto.warehouse_id l.product_id), item_rows-lines ls before after same h.1)

  -- Creating a deal keeps the ledger of every product in every warehouse, whether it succeeds or not.
  pub create_deal-ledger :
      (db : Db D) (w p : ℕ)
      → InOrder db
      → ledger w p (create_deal lib ctx dto user db).1 ≡ ledger w p db
  unfolding deal_row
  create_deal-ledger db w p good = elim (create_deal-cases db good) [
    | inl (e, refused) ↦ rw refused refl
    | inr (a, mid, _, r, done) ↦ rw done (
        ground (
          arith,
          r.taken w p,
          sum-append (holds w p) db.deals (deal_row lib ctx dto a ∷ []),
          needed-item_row lib p a.lines,
        ))
  ]

  pub create_deal-InOrder :
      (db : Db D)
      → dto.warehouse_id ≢ 0
      → All (λ d. d.id ≢ ctx.fresh_id) db.deals
      → InOrder db
      → InOrder (create_deal lib ctx dto user db).1
  unfolding deal_row
  create_deal-InOrder db named fresh good = elim (create_deal-cases db good) [
    | inl (e, refused) ↦ rw refused good
    | inr (a, mid, _, r, done) ↦ rw done (record {
      one_row = λ w p. ground (arith, r.same_rows w p, good.one_row w p);
      unique_ids = Unique-append _ db.deals (deal_row lib ctx dto a) good.unique_ids fresh;
      item_rows =
          All-append _ db.deals (deal_row lib ctx dto a ∷ [])
            (All-SameRows db.stocks mid.stocks db.deals r.same_rows good.item_rows)
            ((named, item_rows-lines a.lines db.stocks mid.stocks r.same_rows r.rows), tt);
    })
  ]
