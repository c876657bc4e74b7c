-- ===== src/Deals/History.antt =====
-- Requests to deals/deals.service.ts one after the other, and the schedule of two requests that
-- both read a deal before either commits.
use fruct.Prelude.{
  ℕ, ◌+◌, ◌≤◌, true, some, List, [], ◌∷◌, ◌≡◌, ◌≢◌, refl, ◌∙◌, arith, sum, find, find_holds,
  find-All, All, find-update_rows,
}
use fruct.Schema.{Db, Deal, DealStatus}
use fruct.Session.{AuthenticatedUser, Context}
use fruct.Platform.{Platform}
use fruct.Deals.Status.{has, stock_restoring}
use fruct.Deals.Pricing.{CreateDeal}
use fruct.Deals.Creation.{create_deal}
use fruct.Deals.StatusChange.{set_status, commit_status, change_deal_status}
use fruct.Deals.Stocks.{stock_of}
use fruct.Deals.Reservation.{needed}
use fruct.Deals.Ledger.{is_live, holds, ledger, InOrder}
use fruct.Deals.CreateLedger.{create_deal-ledger, create_deal-InOrder}
use fruct.Deals.ChangeLedger.{
  here, commit_status-found, commit_status-ledger, commit_status-InOrder, change_deal_status-ledger,
  change_deal_status-InOrder,
}

pub data Request (D : Type 0) : Type 0 where
  creates : Context → CreateDeal D → AuthenticatedUser → Request D
  changes : Context → ℕ → DealStatus → AuthenticatedUser → Request D

module _ (lib : Platform) where
  open lib use {D}

  abbrev pub step : Request D → Db D → Db D
  step (creates ctx dto user) db = (create_deal lib ctx dto user db).1
  step (changes ctx id status user) db = (change_deal_status lib ctx id status user db).1

  abbrev pub run : List (Request D) → Db D → Db D
  run [] db = db
  run (r ∷ rs) db = run rs (step r db)

  -- The database gives a new deal an id that no deal has, and the DTO names a warehouse.
  abbrev pub IsAllowed : Request D → Db D → Type 0
  IsAllowed (creates ctx dto user) db =
      (dto.warehouse_id ≢ 0) × All (λ d. d.id ≢ ctx.fresh_id) db.deals
  IsAllowed (changes ctx id status user) db = Unit {0}

  abbrev pub AllAllowed : List (Request D) → Db D → Type 0
  AllAllowed [] db = Unit {0}
  AllAllowed (r ∷ rs) db = IsAllowed r db × AllAllowed rs (step r db)

  step-InOrder : (r : Request D) (db : Db D) → IsAllowed r db → InOrder db → InOrder (step r db)
  step-InOrder (creates ctx dto user) db h good =
      create_deal-InOrder lib ctx dto user db h.0 h.1 good
  step-InOrder (changes ctx id status user) db h good =
      change_deal_status-InOrder lib ctx id status user db good

  step-ledger :
      (r : Request D) (db : Db D) (w p : ℕ) → InOrder db → ledger w p (step r db) ≡ ledger w p db
  step-ledger (creates ctx dto user) db w p good = create_deal-ledger lib ctx dto user db w p good
  step-ledger (changes ctx id status user) db w p good =
      change_deal_status-ledger lib ctx id status user db w p good

  -- After any history of requests to create deals and to change their status, succeeding or refused, the
  -- tables are in order, and what a warehouse has of a product and what live deals hold of it add up to
  -- what they did at first, if the tables were in order and each new deal has a fresh id and names a
  -- warehouse.
  pub run-ledger :
      (rs : List (Request D)) (db : Db D) (w p : ℕ)
      → InOrder db
      → AllAllowed rs db
      → InOrder (run rs db) × (ledger w p (run rs db) ≡ ledger w p db)
  run-ledger [] db w p good h = (good, refl)
  run-ledger (r ∷ rs) db w p good h =
      let (good', same) = run-ledger rs (step r db) w p (step-InOrder r db h.0 good) h.1 in
      (good', same ∙ step-ledger r db w p good)

  -- From tables in order with no deals, after any history that is allowed as above, live deals hold no
  -- more of a product of a warehouse than its stock was.
  pub never_oversold :
      (rs : List (Request D)) (db : Db D) (w p : ℕ)
      → InOrder db
      → db.deals ≡ []
      → AllAllowed rs db
      → sum (holds w p) (run rs db).deals ≤ stock_of w p db.stocks
  never_oversold rs db w p good fresh h =
      let kept : ledger w p db ≡ stock_of w p db.stocks = rw fresh (omega arith) in
      omega (arith, (run-ledger rs db w p good h).1, kept)

  -- When two requests have read the same live deal of a warehouse, in tables in order, and then both
  -- commit a cancellation or refund, the ledger of each product in that warehouse ends higher by what the
  -- deal holds.
  pub restored_twice :
      (ctx : Context) (id later w p : ℕ) (first second : DealStatus) (db : Db D) (d : Deal D)
      → InOrder db
      → find (here lib ctx id first) db.deals ≡ some d
      → is_live d.status ≡ true
      → d.warehouse_id ≡ some w
      → has stock_restoring first ≡ true
      → has stock_restoring second ≡ true
      → let db₁ = (commit_status lib ctx id first d db).1 in
        let db₂ = (commit_status lib (record ctx { now = later }) id second d db₁).1 in
        ledger w p db₂ ≡ ledger w p db + needed p d.items
  restored_twice ctx id later w p first second db d good e live at f s =
      let now = ctx.now in
      let db₁ = (commit_status lib ctx id first d db).1 in
      let d₁ = set_status first now d in
      let rows = (find-All _ (here lib ctx id first) db.deals d good.item_rows e).0 in
      let good₁ = commit_status-InOrder lib ctx id first d d db e good in
      let e₁ : find (here lib ctx id first) db₁.deals ≡ some d₁ =
        rw (commit_status-found lib ctx id first d d db e) (
          find-update_rows (here lib ctx id first) (set_status first now) db.deals d e
            (find_holds (here lib ctx id first) db.deals d e)) in
      let rows₁ = (find-All _ (here lib ctx id first) db₁.deals d₁ good₁.item_rows e₁).0 in
      ground (
        arith,
        commit_status-ledger lib ctx id first d d db w p good e rows,
        commit_status-ledger lib (record ctx { now = later }) id second d d₁ db₁ w p good₁ e₁ rows₁,
      )
