-- ===== src/Payouts/Lifecycle.antt =====
-- Any series of requests of payouts/payouts.service.ts on the payouts that exist.
use fruct.Prelude.{
  ℕ, List, [], ◌∷◌, Pointwise, Pointwise-refl, Pointwise-trans, Unique, Unique-Pointwise,
}
use fruct.Schema.{Db}
use fruct.Session.{Context}
use fruct.Platform.{Platform}
use fruct.Payouts.Period.{PayoutPeriod}
use fruct.Payouts.Approval.{
  UpdatePayout, ApprovePayout, update_draft, approve, mark_paid, send_email, send_bulk,
}
use fruct.Payouts.Evolution.{Evolves, Evolves-refl, Evolves-trans}
use fruct.Payouts.States.{
  update_draft-Evolves, approve-Evolves, mark_paid-Evolves, send_email-Evolves, send_bulk-Evolves,
}

-- A request that is sent to PayoutsController about existing payouts.
pub data Request (D : Type 0) : Type 0 where
  corrects : ℕ → UpdatePayout D → Request D
  approves : ℕ → ApprovePayout → Request D
  pays : ℕ → ApprovePayout → Request D
  sends : ℕ → Request D
  sends_all : PayoutPeriod → Request D

module _ (lib : Platform) where
  open lib use {D}

  unfoldable pub handle : Context → Request D → Db D → Db D
  handle ctx (corrects id dto) db = (update_draft lib ctx id dto db).1
  handle ctx (approves id dto) db = (approve lib ctx id dto db).1
  handle ctx (pays id dto) db = (mark_paid lib ctx id dto db).1
  handle ctx (sends id) db = (send_email lib ctx id db).1
  handle ctx (sends_all period) db = (send_bulk lib ctx period db).1

  abbrev pub handle_all : List (Context × Request D) → Db D → Db D
  handle_all [] db = db
  handle_all ((ctx, r) ∷ rs) db = handle_all rs (handle ctx r db)

  handle-Evolves :
      (ctx : Context) (r : Request D) (db : Db D)
      → Unique (λ p. p.id) db.payouts
      → Pointwise Evolves db.payouts (handle ctx r db).payouts
  unfolding handle
  handle-Evolves ctx (corrects id dto) db u = update_draft-Evolves lib ctx id dto db u
  handle-Evolves ctx (approves id dto) db u = approve-Evolves lib ctx id dto db u
  handle-Evolves ctx (pays id dto) db u = mark_paid-Evolves lib ctx id dto db u
  handle-Evolves ctx (sends id) db u = send_email-Evolves lib ctx id db u
  handle-Evolves ctx (sends_all period) db u = send_bulk-Evolves lib ctx period db

  -- After any requests on existing payouts, succeeding or refused, if payout ids are unique: there are
  -- the same payouts in the same order, each with its manager and period, none has gone back a stage,
  -- and those that were past DRAFT have the amounts and the time of approval that they had.
  pub handle_all-Evolves :
      (rs : List (Context × Request D)) (db : Db D)
      → Unique (λ p. p.id) db.payouts
      → Pointwise Evolves db.payouts (handle_all rs db).payouts
  handle_all-Evolves [] db u = Pointwise-refl Evolves Evolves-refl db.payouts
  handle_all-Evolves ((ctx, r) ∷ rs) db u =
      let step = handle-Evolves ctx r db u in
      Pointwise-trans Evolves Evolves-trans db.payouts (handle ctx r db).payouts _ step (
        handle_all-Evolves rs (handle ctx r db)
          (Unique-Pointwise (λ p. p.id) Evolves (λ a b e. e.same_id) _ _ step u))
