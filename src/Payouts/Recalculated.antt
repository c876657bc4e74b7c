-- ===== src/Payouts/Recalculated.antt =====
-- What is left to calculate with payouts/payouts.service.ts, after a period has been generated.
use fruct.Prelude.{
  ℕ, Bool, true, false, ◌&&◌, List, [], ◌∷◌, ◌++◌, map, ◌≡◌, refl, sym, ap, ◌∙◌, inl, inr, arith,
  All, not, Bool-cases,
}
use mathlib.Core.Bool.{true≢false}
use fruct.Schema.{Db, Deal, User}
use fruct.Session.{Context}
use fruct.Platform.{Platform, asc}
use fruct.Payouts.Period.{
  PayoutPeriod, ManagerPayoutCalc, claimable, managers_of, commission_from, deal_line, calc_manager,
}
use fruct.Payouts.Generation.{link}
use fruct.Payouts.Generated.{is_paid, own_manager, settled, rows_of}
use fruct.Prelude.Mapped.{filter-map_none, filter-map_kept}

left_out : (p c : ℕ → Bool) (k j : ℕ) → k ≡ j → p k ≡ true → c k ≡ true → (p j && c j) ≡ false → ⊥
left_out p c k j same paid hit miss = true≢false (sym both ∙ miss)
  where
    both : (p j && c j) ≡ true
    both = rw (sym same) (ground (arith, paid, hit))

module _ {A : Type 0} where
  nothing_left : (xs : List A) → All (λ _. ⊥) xs → xs ≡ []
  nothing_left [] h = refl
  nothing_left (x ∷ xs) h = absurd h.0

module _ (lib : Platform) (ctx : Context) (period : PayoutPeriod) (new_id : ℕ → ℕ) where
  open lib use {D, zero_decimal, plus, is_zero, order_by, find_many, find_many-filter, All-order_by}

  linked-taken : (k j : ℕ) (d : Deal D) → claimable ctx period k (link j d) ≡ false
  linked-taken k j d = ground arith

  pub settled-taken :
      (db : Db D) (k : ℕ) (d : Deal D)
      → is_paid lib ctx period new_id db k ≡ true
      → claimable ctx period k (settled lib ctx period new_id db d) ≡ false
  settled-taken db k d paid =
      elim (Bool-cases
        (is_paid lib ctx period new_id db d.manager_id && claimable ctx period d.manager_id d)) [
          | inl linked ↦ rw linked (linked-taken k (new_id d.manager_id) d)
          | inr not_linked ↦ rw not_linked (elim (Bool-cases (claimable ctx period k d)) [
            | inr free ↦ free
            | inl hit ↦ absurd (
                left_out (is_paid lib ctx period new_id db) (λ i. claimable ctx period i d) _ _
                  (own_manager lib ctx period new_id db true k d hit) paid hit not_linked)
          ])
        ]

  order_by_none : (ds : List (Deal D)) → ds ≡ [] → order_by asc (λ d. d.created_at) ds ≡ []
  order_by_none ds e =
      rw e (nothing_left _ (All-order_by (λ _. ⊥) asc (λ (d : Deal D). d.created_at) [] tt))

  -- What a manager is paid in whose deals none is left.
  abbrev pub salary_only : User D → ManagerPayoutCalc D
  salary_only m = record {
    manager_id = m.id;
    manager_full_name = m.full_name;
    manager_email = m.email;
    base_salary = m.base_salary;
    total_commission = zero_decimal;
    total_payout = plus m.base_salary zero_decimal;
    deals = [];
  }

  abbrev calc_from : User D → List (Deal D) → ManagerPayoutCalc D
  calc_from m ds = record {
    manager_id = m.id;
    manager_full_name = m.full_name;
    manager_email = m.email;
    base_salary = m.base_salary;
    total_commission = commission_from lib zero_decimal ds;
    total_payout = plus m.base_salary (commission_from lib zero_decimal ds);
    deals = map deal_line ds;
  }

  -- The managers whom a second request pays.
  abbrev pub paid_again : Db D → User D → Bool
  paid_again db m =
      is_paid lib ctx period new_id db m.id && not (is_zero (plus m.base_salary zero_decimal))

  module _ (db : Db D) where
    -- The state after the first request.
    abbrev pub once : Db D
    once = record db {
      payouts = db.payouts ++ rows_of lib ctx period new_id db (managers_of lib ctx period db);
      deals = map (settled lib ctx period new_id db) db.deals;
    }

    pub calc_paid :
        (m : User D)
        → is_paid lib ctx period new_id db m.id ≡ true
        → calc_manager lib ctx period once m ≡ salary_only m
    calc_paid m paid =
        let mine = claimable ctx period m.id in
        ap (calc_from m) (
          order_by_none _ (
            find_many-filter mine _
            ∙ filter-map_none mine (settled lib ctx period new_id db) db.deals
                (λ d. settled-taken db m.id d paid)))

    settled-other :
        (k : ℕ) (d : Deal D)
        → is_paid lib ctx period new_id db k ≡ false
        → claimable ctx period k d ≡ true
        → settled lib ctx period new_id db d ≡ d
    settled-other k d unpaid hit =
        let own : k ≡ d.manager_id = own_manager lib ctx period new_id db true k d hit in
        rw (sym own) rw unpaid refl

    settled-claimable :
        (k : ℕ) (d : Deal D)
        → is_paid lib ctx period new_id db k ≡ false
        → claimable ctx period k (settled lib ctx period new_id db d) ≡ claimable ctx period k d
    settled-claimable k d unpaid = elim (Bool-cases (claimable ctx period k d)) [
      | inl hit ↦ ap (claimable ctx period k) (settled-other k d unpaid hit)
      | inr miss ↦
          elim (Bool-cases (
            is_paid lib ctx period new_id db d.manager_id && claimable ctx period d.manager_id d)) [
              | inl linked ↦ rw linked (linked-taken k (new_id d.manager_id) d ∙ sym miss)
              | inr not_linked ↦ rw not_linked refl
            ]
    ]

    pub calc_unpaid :
        (m : User D)
        → is_paid lib ctx period new_id db m.id ≡ false
        → calc_manager lib ctx period once m ≡ calc_manager lib ctx period db m
    calc_unpaid m unpaid =
        let mine = claimable ctx period m.id in
        ap (λ ds. calc_from m (order_by asc (λ d. d.created_at) ds))
          (find_many-filter mine _
            ∙ filter-map_kept mine (settled lib ctx period new_id db) db.deals
                (λ d. settled-claimable m.id d unpaid) (λ d. settled-other m.id d unpaid)
            ∙ sym (find_many-filter mine db.deals))
