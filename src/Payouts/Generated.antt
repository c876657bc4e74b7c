-- ===== src/Payouts/Generated.antt =====
-- What `generate` of payouts/payouts.service.ts writes, deal by deal and manager by manager.
use fruct.Prelude.{
  ℕ, Bool, true, false, not, ◌&&◌, List, [], ◌∷◌, ◌++◌, map, ◌==◌, ◌≡◌, refl, sym, ◌∙◌, ap, inl,
  inr, arith, if◌then◌else◌, filter, update_rows, any, All, All-map, Unique, Bool-cases,
}
use mathlib.Core.List.{map-id, append-nil, append_assoc}
use fruct.Action.{ok}
use fruct.Schema.{Db, Deal, Payout, User}
use fruct.Session.{Context}
use fruct.Platform.{Platform}
use fruct.Payouts.Period.{
  PayoutPeriod, ManagerPayoutCalc, claimable, calc_manager, managers_of, calculate_for_period,
}
use fruct.Payouts.Linking.{map_same, update_rows-map, persist_calc_lem, ids_of-claimable}
use fruct.Payouts.Generation.{deal_ids, claimed_by, link, payout_row, persist_all, generate}

module _ (lib : Platform) (ctx : Context) (period : PayoutPeriod) (new_id : ℕ → ℕ) where
  open lib use {
    D, is_zero, order_by, find_many, create-rows, update_many-rows, find_many-filter, sum-order_by,
    All-order_by, transaction-ok,
  }

  module _ (db : Db D) where
    abbrev pub calc_of : User D → ManagerPayoutCalc D
    calc_of = calc_manager lib ctx period db

    abbrev pub due : User D → Bool
    due m = not (is_zero (calc_of m).total_payout)

    abbrev pub rows_of : List (User D) → List (Payout D)
    rows_of ms = map (λ m. payout_row lib ctx period new_id (calc_of m)) (filter due ms)

    -- What the managers in turn do to a deal `d` that has become `e`.
    abbrev claimed_in_turn : List (User D) → Deal D → Deal D → Deal D
    claimed_in_turn [] d e = e
    claimed_in_turn (m ∷ ms) d e =
        claimed_in_turn ms d
          (if due m && claimable ctx period m.id d then link (new_id m.id) e else e)

    claimed_by-same :
        (m : User D) (g : Deal D → Deal D)
        → Unique (λ d. d.id) db.deals
        → ((d : Deal D) → (g d).id ≡ d.id)
        → ((d : Deal D) → (g d).tenant_id ≡ d.tenant_id)
        → All
            (λ d. claimed_by ctx (deal_ids (calc_of m)) (g d) ≡ claimable ctx period m.id d)
            db.deals
    claimed_by-same m g u same_id same_tenant =
        All-map _ _ db.deals (λ d h. ground (arith, same_id d, same_tenant d, h))
          (ids_of-claimable lib ctx period new_id db m.id u)

    persist_all_lem :
        (ms : List (User D)) (g : Deal D → Deal D) (s : Db D)
        → Unique (λ d. d.id) db.deals
        → s.deals ≡ map g db.deals
        → ((d : Deal D) → (g d).id ≡ d.id)
        → ((d : Deal D) → (g d).tenant_id ≡ d.tenant_id)
        → persist_all lib ctx period new_id (map calc_of ms) s ≡ (
          ok (rows_of ms),
          record s {
            payouts = s.payouts ++ rows_of ms;
            deals = map (λ d. claimed_in_turn ms d (g d)) db.deals;
          },
        )
    unfolding persist_all
    persist_all_lem [] g s u e same_id same_tenant = ground (arith, e, append-nil s.payouts)
    persist_all_lem (m ∷ ms) g s u e same_id same_tenant = elim (Bool-cases (due m)) [
      | inr nothing ↦ ground (arith, nothing, persist_all_lem ms g s u e same_id same_tenant)
      | inl something ↦
          let row = payout_row lib ctx period new_id (calc_of m) in
          let c = λ (d : Deal D). due m && claimable ctx period m.id d in
          let g' = λ (d : Deal D). if c d then link (new_id m.id) (g d) else g d in
          let s' : Db D = record s {
            payouts = s.payouts ++ row ∷ [];
            deals =
                update_rows (claimed_by ctx (deal_ids (calc_of m))) (link (new_id m.id)) s.deals;
          } in
          let claims : s'.deals ≡ map g' db.deals =
            ap (update_rows (claimed_by ctx (deal_ids (calc_of m))) (link (new_id m.id))) e
            ∙ update_rows-map _ c (link (new_id m.id)) g db.deals (
                All-map _ _ db.deals (λ d h. rw something h)
                  (claimed_by-same m g u same_id same_tenant)) in
          ground (
            arith,
            something,
            persist_calc_lem lib ctx period new_id (calc_of m) s,
            append_assoc s.payouts (row ∷ []) (rows_of ms),
            persist_all_lem ms g' s' u claims (λ d. ground (arith, same_id d))
                (λ d. ground (arith, same_tenant d)),
          )
    ]

    -- Some manager of the period with this id has something to be paid.
    abbrev pub is_paid : ℕ → Bool
    is_paid manager = any (λ m. m.id == manager && due m) (managers_of lib ctx period db)

    -- A deal after `generate`.
    abbrev pub settled : Deal D → Deal D
    settled d =
        if is_paid d.manager_id && claimable ctx period d.manager_id d
        then link (new_id d.manager_id) d
        else d

    claimable-own :
        (k : ℕ) (d : Deal D)
        → claimable ctx period k d ≡ (k == d.manager_id && claimable ctx period d.manager_id d)
    claimable-own k d = ground arith

    link_twice :
        (b : Bool) (k : ℕ) (d : Deal D)
        → (b ≡ true → k ≡ d.manager_id)
        → (if b
            then link (new_id k) (link (new_id d.manager_id) d)
            else link (new_id d.manager_id) d)
          ≡ link (new_id d.manager_id) d
    link_twice true k d h = rw (h refl) refl
    link_twice false k d h = refl

    link_first :
        (b : Bool) (k : ℕ) (d : Deal D)
        → (b ≡ true → k ≡ d.manager_id)
        → (if b then link (new_id k) d else d) ≡ (if b then link (new_id d.manager_id) d else d)
    link_first true k d h = rw (h refl) refl
    link_first false k d h = refl

    pub own_manager :
        (y : Bool) (k : ℕ) (d : Deal D) → (y && claimable ctx period k d) ≡ true → k ≡ d.manager_id
    own_manager y k d h = ground (arith, claimable-own k d)

    claimed_again :
        (ms : List (User D)) (d : Deal D)
        → claimed_in_turn ms d (link (new_id d.manager_id) d) ≡ link (new_id d.manager_id) d
    claimed_again [] d = refl
    claimed_again (m ∷ ms) d =
        ap (claimed_in_turn ms d) (link_twice _ m.id d (own_manager (due m) m.id d))
        ∙ claimed_again ms d

    by_step :
        (f : Deal D → Deal D) (l d : Deal D) (b t z : Bool)
        → t ≡ (if b then true else z)
        → f l ≡ l
        → f d ≡ (if z then l else d)
        → f (if b then l else d) ≡ (if t then l else d)
    by_step f l d true t z e h k = rw e h
    by_step f l d false t z e h k = rw e k

    any_step :
        (x y z w b : Bool)
        → b ≡ (y && (x && w))
        → ((if x && y then true else z) && w) ≡ (if b then true else z && w)
    any_step x y z w b h = ground arith

    claimed_in_turn_lem :
        (ms : List (User D)) (d : Deal D)
        → claimed_in_turn ms d d ≡ (
            if any (λ m. m.id == d.manager_id && due m) ms && claimable ctx period d.manager_id d
            then link (new_id d.manager_id) d
            else d)
    claimed_in_turn_lem [] d = refl
    claimed_in_turn_lem (m ∷ ms) d =
        let own = ap (λ w. due m && w) (claimable-own m.id d) in
        let first = link_first _ m.id d (own_manager (due m) m.id d) in
        let test =
          any_step (m.id == d.manager_id) (due m) _ (claimable ctx period d.manager_id d) _ own in
        ap (claimed_in_turn ms d) first
        ∙ by_step (claimed_in_turn ms d) (link (new_id d.manager_id) d) d _ _ _ test
            (claimed_again ms d) (claimed_in_turn_lem ms d)

    -- The period is generated, if deal ids are unique: one draft for each manager of the period whose
    -- total is not zero is added, in their order, and returned; a deal that such a manager is owed a
    -- commission for is linked to that manager's draft, and every other row stays as it was.
    pub generate_lem :
        Unique (λ d. d.id) db.deals
        → generate lib ctx period new_id db ≡ (
          ok (rows_of (managers_of lib ctx period db)),
          record db {
            payouts = db.payouts ++ rows_of (managers_of lib ctx period db);
            deals = map settled db.deals;
          },
        )
    unfolding generate calculate_for_period
    generate_lem u =
        let managers = managers_of lib ctx period db in
        persist_all_lem managers (λ d. d) db u (sym (map-id db.deals)) (λ d. refl) (λ d. refl)
        ∙ ap
            (λ (ds : List (Deal D)). (
              ok (rows_of managers),
              record db { payouts = db.payouts ++ rows_of managers; deals = ds },
            ))
            (map_same _ _ (claimed_in_turn_lem managers) db.deals)
