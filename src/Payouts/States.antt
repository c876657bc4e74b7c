-- ===== src/Payouts/States.antt =====
-- What each method of payouts/payouts.service.ts does to the table of payouts.
use fruct.Prelude.{
  ℕ, Bool, true, ◌&&◌, some, List, [], ◌∷◌, ◌==◌, ◌≡◌, refl, sym, ◌⊎◌, inl, inr, arith, find,
  update_rows, All-map, All-of, map, ltb, length, contains, Unique, found_only, Option-cases,
  Bool-cases, Pointwise, Pointwise-refl, Pointwise-update_rows,
}
use fruct.Action.{Result-cases, ok, err, not_found, payout_missing}
use fruct.Schema.{Db, Payout, MailTemplate, payout_statement, payout_status_changed}
use fruct.Session.{Context, by_id}
use fruct.Platform.{Platform}
use fruct.Deals.Pricing.{user_or_throw}
use fruct.Payouts.Period.{PayoutPeriod}
use fruct.Payouts.Approval.{
  UpdatePayout, ApprovePayout, is_draft, is_approved, mark_approved, mark_as_paid, mark_sent,
  correct, existing_payout, update_payout, update_draft, enqueue_email, approve, mark_paid,
  send_email, enqueue_all, stamp_sent, send_bulk,
}
use fruct.Payouts.Evolution.{
  Evolves, Evolves-refl, Evolves-mark_sent, Evolves-mark_approved, Evolves-mark_as_paid,
  Evolves-correct,
}

module _ (lib : Platform) where
  open lib use {D, find_first-find, update-found, update_many-rows, find_many}

  enqueue_email-payouts :
      (ctx : Context) (template : MailTemplate) (p : Payout D) (db : Db D)
      → (enqueue_email lib ctx template p db).1.payouts ≡ db.payouts
  unfolding enqueue_email user_or_throw
  enqueue_email-payouts ctx template p db = ground arith

  enqueue_all-payouts :
      (ctx : Context) (ps : List (Payout D)) (db : Db D)
      → (enqueue_all lib ctx ps db).1.payouts ≡ db.payouts
  unfolding enqueue_all
  enqueue_all-payouts ctx [] db = refl
  enqueue_all-payouts ctx (p ∷ ps) db = ground (
    arith,
    enqueue_email-payouts ctx payout_statement p db,
    enqueue_all-payouts ctx ps (enqueue_email lib ctx payout_statement p db).1,
  )

  module _ (ctx : Context) (id : ℕ) where
    abbrev here : Payout D → Bool
    here p = by_id ctx.tenant id p.tenant_id p.id

    abbrev AllEvolve : List (Payout D) → List (Payout D) → Type 0
    AllEvolve = Pointwise Evolves

    at_id : (p : Payout D) → here p ≡ true → p.id ≡ id
    at_id p h = ground arith

    evolve-same : (ps ps' : List (Payout D)) → ps' ≡ ps → AllEvolve ps ps'
    evolve-same ps ps' e = rw e (Pointwise-refl Evolves Evolves-refl ps)

    evolve-found :
        (f : Payout D → Payout D) (p : Payout D) (ps ps' : List (Payout D))
        → Unique (λ q. q.id) ps
        → find here ps ≡ some p
        → Evolves p (f p)
        → ps' ≡ update_rows here f ps
        → AllEvolve ps ps'
    evolve-found f p ps ps' u e h eq = rw eq (
        Pointwise-update_rows Evolves Evolves-refl here f ps (
          All-map _ _ ps (λ q same hit. rw (same hit) h)
            (found_only (λ q. q.id) here id at_id ps p u e)))

    existing_payout-cases :
        (db : Db D)
        → ((p : Payout D) × (existing_payout lib ctx id db ≡ (ok p, db))
            × (find here db.payouts ≡ some p))
          ⊎ (existing_payout lib ctx id db ≡ (err (not_found payout_missing), db))
    unfolding existing_payout
    existing_payout-cases db = elim (Option-cases (find here db.payouts)) [
      | inl absent ↦ inr (ground (arith, find_first-find here db.payouts))
      | inr (p, e) ↦ inl (p, ground (arith, find_first-find here db.payouts), e)
    ]

    update_payout_lem :
        (f : Payout D → Payout D) (p : Payout D) (db : Db D)
        → find here db.payouts ≡ some p
        → update_payout lib ctx id f db
          ≡ (ok (f p), record db { payouts = update_rows here f db.payouts })
    unfolding update_payout
    update_payout_lem f p db e = ground (arith, update-found here f db.payouts p)

    pub update_draft-Evolves :
        (dto : UpdatePayout D) (db : Db D)
        → Unique (λ q. q.id) db.payouts
        → AllEvolve db.payouts (update_draft lib ctx id dto db).1.payouts
    unfolding update_draft
    update_draft-Evolves dto db u = elim (existing_payout-cases db) [
      | inr missing ↦ evolve-same _ _ (ground (arith, missing))
      | inl (p, got, e) ↦ elim (Bool-cases (is_draft p.status)) [
        | inr settled ↦ evolve-same _ _ (ground (arith, got))
        | inl open_still ↦
            evolve-found (correct lib dto p) p _ _ u e (Evolves-correct lib dto p open_still)
              (ground (arith, got, update_payout_lem (correct lib dto p) p db e))
      ]
    ]

    pub approve-Evolves :
        (dto : ApprovePayout) (db : Db D)
        → Unique (λ q. q.id) db.payouts
        → AllEvolve db.payouts (approve lib ctx id dto db).1.payouts
    unfolding approve
    approve-Evolves dto db u = elim (existing_payout-cases db) [
      | inr missing ↦ evolve-same _ _ (ground (arith, missing))
      | inl (p, got, e) ↦ elim (Bool-cases (is_draft p.status)) [
        | inr settled ↦ evolve-same _ _ (ground (arith, got))
        | inl open_still ↦
            evolve-found (mark_approved ctx.now) p _ _ u e
              (Evolves-mark_approved ctx.now p open_still)
              (ground (
                arith,
                got,
                update_payout_lem (mark_approved ctx.now) p db e,
                enqueue_email-payouts ctx payout_status_changed (mark_approved ctx.now p)
                    (record db { payouts = update_rows here (mark_approved ctx.now) db.payouts }),
              ))
      ]
    ]

    pub mark_paid-Evolves :
        (dto : ApprovePayout) (db : Db D)
        → Unique (λ q. q.id) db.payouts
        → AllEvolve db.payouts (mark_paid lib ctx id dto db).1.payouts
    unfolding mark_paid
    mark_paid-Evolves dto db u = elim (existing_payout-cases db) [
      | inr missing ↦ evolve-same _ _ (ground (arith, missing))
      | inl (p, got, e) ↦ elim (Bool-cases (is_approved p.status)) [
        | inr other ↦ evolve-same _ _ (ground (arith, got))
        | inl due ↦ evolve-found mark_as_paid p _ _ u e (Evolves-mark_as_paid p due) (
            ground (
              arith,
              got,
              update_payout_lem mark_as_paid p db e,
              enqueue_email-payouts ctx payout_status_changed (mark_as_paid p)
                  (record db { payouts = update_rows here mark_as_paid db.payouts }),
            ))
      ]
    ]

    pub send_email-Evolves :
        (db : Db D)
        → Unique (λ q. q.id) db.payouts
        → AllEvolve db.payouts (send_email lib ctx id db).1.payouts
    unfolding send_email
    send_email-Evolves db u = elim (existing_payout-cases db) [
      | inr missing ↦ evolve-same _ _ (ground (arith, missing))
      | inl (p, got, e) ↦
          let db' = (enqueue_email lib ctx payout_statement p db).1 in
          let same = enqueue_email-payouts ctx payout_statement p db in
          elim (Result-cases (enqueue_email lib ctx payout_statement p db).0) [
            | inr (x, r) ↦ evolve-same _ _ (ground (arith, got, same, r))
            | inl (_, r) ↦
                evolve-found (mark_sent ctx.now) p _ _ u e (Evolves-mark_sent ctx.now p) (
                  ground
                    (arith, got, same, r, update_payout_lem (mark_sent ctx.now) p db' (rw same e)))
          ]
    ]

  stamp_sent-Evolves :
      (ctx : Context) (ps : List (Payout D)) (db : Db D)
      → Pointwise Evolves db.payouts (stamp_sent lib ctx ps db).payouts
  unfolding stamp_sent
  stamp_sent-Evolves ctx ps db = elim (Bool-cases (ltb 0 (length ps))) [
    | inr nobody ↦ rw nobody (Pointwise-refl Evolves Evolves-refl db.payouts)
    | inl somebody ↦
        let among =
          λ (p : Payout D). contains p.id (map (λ q. q.id) ps) && p.tenant_id == ctx.tenant in
        rw (somebody, update_many-rows among (mark_sent ctx.now) db.payouts)
          (Pointwise-update_rows Evolves Evolves-refl among (mark_sent ctx.now) db.payouts
            (All-of _ (λ p _. Evolves-mark_sent ctx.now p) db.payouts))
  ]

  stamp_sent-from :
      (ctx : Context) (ps before : List (Payout D)) (db : Db D)
      → db.payouts ≡ before
      → Pointwise Evolves before (stamp_sent lib ctx ps db).payouts
  stamp_sent-from ctx ps before db e = rw (sym e) (stamp_sent-Evolves ctx ps db)

  pub send_bulk-Evolves :
      (ctx : Context) (period : PayoutPeriod) (db : Db D)
      → Pointwise Evolves db.payouts (send_bulk lib ctx period db).1.payouts
  unfolding send_bulk
  send_bulk-Evolves ctx period db =
      let ps =
        find_many
          (λ (p : Payout D).
            p.tenant_id == ctx.tenant
            && p.period_start == period.period_start
            && p.period_end == period.period_end)
          db.payouts in
      let same = enqueue_all-payouts ctx ps db in
      let queued = (enqueue_all lib ctx ps db).1 in
      elim (Result-cases (enqueue_all lib ctx ps db).0) [
        | inr (x, r) ↦ evolve-same ctx 0 _ _ (ground (arith, same, r))
        | inl (x, r) ↦
            let after : (send_bulk lib ctx period db).1.payouts
                ≡ (stamp_sent lib ctx ps queued).payouts =
              ground (arith, r) in
            rw after (stamp_sent-from ctx ps _ queued same)
      ]
