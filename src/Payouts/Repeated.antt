-- ===== src/Payouts/Repeated.antt =====
-- Generating the same period twice with payouts/payouts.service.ts.
use fruct.Prelude.{
  ℕ, Bool, true, false, ◌&&◌, List, [], ◌∷◌, ◌++◌, map, ◌≡◌, refl, sym, ap, ◌∙◌, inl, inr, arith,
  filter, All, All-map, any, not, ◌==◌, Unique, Bool-cases,
}
use mathlib.Core.Bool.{true≢false}
use fruct.Action.{ok}
use fruct.Schema.{Db, Deal, User}
use fruct.Session.{Context}
use fruct.Platform.{Platform}
use fruct.Payouts.Period.{PayoutPeriod, claimable, managers_of}
use fruct.Payouts.Generation.{payout_row, generate}
use fruct.Payouts.Generated.{is_paid, settled, rows_of, due, generate_lem}
use fruct.Prelude.Mapped.{Unique-map, map-map_kept}
use fruct.Payouts.Recalculated.{
  salary_only, paid_again, once, calc_paid, calc_unpaid, settled-taken,
}

module _ (lib : Platform) (ctx : Context) (period : PayoutPeriod) (new_id : ℕ → ℕ) where
  open lib use {D, zero_decimal, plus, is_zero}

  module _ (db : Db D) where
    abbrev first_due : User D → Bool
    first_due = due lib ctx period new_id db

    first_due-any :
        (ms : List (User D))
        → All (λ m. first_due m ≡ true → any (λ k. k.id == m.id && first_due k) ms ≡ true) ms
    first_due-any [] = tt
    first_due-any (x ∷ xs) =
        (λ e. ground (arith, e), All-map _ _ xs (λ m h e. ground (arith, h e)) (first_due-any xs))

    -- Who was not paid had nothing due.
    not_due :
        All
          (λ m. is_paid lib ctx period new_id db m.id ≡ false → first_due m ≡ false)
          (managers_of lib ctx period db)
    not_due =
        All-map _ _ (managers_of lib ctx period db)
          (λ m h unpaid. elim (Bool-cases (first_due m)) [
            | inl something ↦ absurd (true≢false (sym (h something) ∙ unpaid))
            | inr nothing ↦ nothing
          ])
          (first_due-any (managers_of lib ctx period db))

    module _ (new_again : ℕ → ℕ) where
      abbrev due_again : User D → Bool
      due_again = due lib ctx period new_again (once lib ctx period new_id db)

      due_again-paid :
          (m : User D)
          → is_paid lib ctx period new_id db m.id ≡ true
          → due_again m ≡ not (is_zero (plus m.base_salary zero_decimal))
      due_again-paid m paid =
          ap (λ c. not (is_zero c.total_payout)) (calc_paid lib ctx period new_id db m paid)

      due_again-unpaid :
          (m : User D)
          → (is_paid lib ctx period new_id db m.id ≡ false → first_due m ≡ false)
          → is_paid lib ctx period new_id db m.id ≡ false
          → due_again m ≡ false
      due_again-unpaid m h unpaid =
          ap (λ c. not (is_zero c.total_payout)) (calc_unpaid lib ctx period new_id db m unpaid)
          ∙ h unpaid

      rows_again :
          (ms : List (User D))
          → All (λ m. is_paid lib ctx period new_id db m.id ≡ false → first_due m ≡ false) ms
          → rows_of lib ctx period new_again (once lib ctx period new_id db) ms
            ≡ map
                (λ m. payout_row lib ctx period new_again (salary_only lib ctx period new_id m))
                (filter (paid_again lib ctx period new_id db) ms)
      rows_again [] h = refl
      rows_again (m ∷ ms) h =
          let rest = rows_again ms h.1 in
          elim (Bool-cases (is_paid lib ctx period new_id db m.id)) [
            | inr unpaid ↦ rw unpaid rw (due_again-unpaid m h.0 unpaid) rest
            | inl paid ↦ elim (Bool-cases (is_zero (plus m.base_salary zero_decimal))) [
              | inl zero ↦ rw paid rw (due_again-paid m paid) rw zero rest
              | inr salary ↦ rw paid rw (due_again-paid m paid) rw salary cc (
                ap (payout_row lib ctx period new_again)
                    (calc_paid lib ctx period new_id db m paid),
                rest,
              )
            ]
          ]

      unpaid_again :
          (k : ℕ) (ms : List (User D))
          → All (λ m. is_paid lib ctx period new_id db m.id ≡ false → first_due m ≡ false) ms
          → is_paid lib ctx period new_id db k ≡ false
          → any (λ m. m.id == k && due_again m) ms ≡ false
      unpaid_again k [] h unpaid = refl
      unpaid_again k (m ∷ ms) h unpaid =
          let rest = unpaid_again k ms h.1 unpaid in
          elim (Bool-cases (m.id == k)) [
            | inr other ↦ rw other rest
            | inl same ↦
                let own : m.id ≡ k = ground (arith, same) in
                rw same rw
                  (due_again-unpaid m h.0 (ap (is_paid lib ctx period new_id db) own ∙ unpaid)) rest
          ]

      settled_again :
          (d : Deal D)
          → settled lib ctx period new_again
              (once lib ctx period new_id db)
              (settled lib ctx period new_id db d)
            ≡ settled lib ctx period new_id db d
      settled_again d =
          let e = settled lib ctx period new_id db d in
          elim (Bool-cases (is_paid lib ctx period new_id db e.manager_id)) [
            | inl paid ↦
                let taken = settled-taken lib ctx period new_id db e.manager_id d paid in
                let skipped : (is_paid lib ctx period new_again (once lib ctx period new_id db)
                        e.manager_id
                      && claimable ctx period e.manager_id e)
                    ≡ false =
                  ground (arith, taken) in
                rw skipped refl
            | inr unpaid ↦ rw (unpaid_again e.manager_id _ not_due unpaid) refl
          ]

  -- If deal ids are unique, a second `generate` of the same period, right after the first, pays every
  -- manager whom the first one paid once more, if their base salary is not zero: one draft with the base
  -- salary and no commission is added and returned for each of them, in their order, and nothing else
  -- changes.
  pub generate_again :
      (new_again : ℕ → ℕ) (db : Db D) (u : Unique (λ d. d.id) db.deals)
      → let first = (generate lib ctx period new_id db).1 in
        let again =
          map
            (λ m. payout_row lib ctx period new_again (salary_only lib ctx period new_id m))
            (filter (paid_again lib ctx period new_id db) (managers_of lib ctx period db)) in
        generate lib ctx period new_again first
        ≡ (ok again, record first { payouts = first.payouts ++ again })
  generate_again new_again db u =
      let second = generate_lem lib ctx period new_again (once lib ctx period new_id db) (
        Unique-map (λ d. d.id) (settled lib ctx period new_id db) db.deals (λ d. ground arith) u) in
      let rows = rows_again db new_again (managers_of lib ctx period db) (not_due db) in
      let deals =
        map-map_kept (settled lib ctx period new_again (once lib ctx period new_id db))
          (settled lib ctx period new_id db) db.deals (settled_again db new_again) in
      rw (generate_lem lib ctx period new_id db u) rw second rw rows rw deals refl
