-- ===== src/Payouts/Tests.antt =====
-- Examples for payouts/payouts.service.ts.
use fruct.Prelude.{
  ℕ, ◌+◌, none, some, List, [], ◌∷◌, ◌++◌, map, filter, length, ◌≡◌, refl, Pointwise,
}
use fruct.Prelude.Int.{ℤ}
use fruct.Action.{ok}
use fruct.Schema.{Db, Payout, PayoutStatus, DealStatus, draft}
use fruct.Session.{Context}
use fruct.Platform.Sample.{sample}
use fruct.Samples.{shop, sold, amount, manager_session, request_at}
use fruct.Payouts.Period.{PayoutPeriod, managers_of, calculate_for_period}
use fruct.Payouts.Generation.{generate, persist_all, persist_calc, payout_row}
use fruct.Payouts.Approval.{
  update_draft, update_payout, correct, approve, mark_paid, existing_payout, UpdatePayout,
  ApprovePayout,
}
use fruct.Payouts.Evolution.{Evolves}
use fruct.Payouts.Generated.{generate_lem}
use fruct.Payouts.Lifecycle.{
  Request, corrects, approves, pays, handle, handle_all, handle_all-Evolves,
}
use fruct.Payouts.Recalculated.{salary_only, paid_again}
use fruct.Payouts.Repeated.{generate_again}
use fruct.Payouts.Visibility.{visible, payouts-visible}
use fruct.Payouts.Approval.{ListPayoutsQuery, find_all_payouts, payout_or_throw}
use fruct.Prelude.{All, true}

abbrev shop_with_paid_deal : Db ℤ
shop_with_paid_deal = record shop { deals = record sold { status = DealStatus.paid } ∷ [] }

abbrev month : PayoutPeriod
month = record { period_start = 40; period_end = 70; manager_id = some 2 }

abbrev payout_id_of : ℕ → ℕ
payout_id_of manager = manager + 100

abbrev statement : Payout ℤ
statement = record {
  id = 102;
  tenant_id = 1;
  manager_id = 2;
  period_start = 40;
  period_end = 70;
  base_salary = amount 30000;
  total_commission = amount 2060;
  total_payout = amount 32060;
  status = draft;
  email_sent_at = none;
  approved_at = none;
}

-- The base salary and the commission of one deal, and the deal is linked.
generate_runs : generate sample (request_at 80 0) month payout_id_of shop_with_paid_deal ≡ (
  ok (statement ∷ []),
  record shop_with_paid_deal {
    payouts = statement ∷ [];
    deals = record sold { status = DealStatus.paid; payout_id = some 102 } ∷ [];
  },
)
unfolding generate calculate_for_period persist_all persist_calc payout_row
generate_runs = refl

generate_lem_example : generate sample (request_at 80 0) month payout_id_of shop_with_paid_deal ≡ (
  ok (statement ∷ []),
  record shop_with_paid_deal {
    payouts = statement ∷ [];
    deals = record sold { status = DealStatus.paid; payout_id = some 102 } ∷ [];
  },
)
unfolding payout_row
generate_lem_example =
    generate_lem sample (request_at 80 0) month payout_id_of shop_with_paid_deal (tt, tt)

-- The second request pays the base salary once more.
abbrev second_id_of : ℕ → ℕ
second_id_of manager = manager + 200

generate_again_example :
    let first = (generate sample (request_at 80 0) month payout_id_of shop_with_paid_deal).1 in
    let again =
      map
        (λ m.
          payout_row sample
            (request_at 80 0)
            month
            second_id_of
            (salary_only sample (request_at 80 0) month payout_id_of m))
        (filter
          (paid_again sample (request_at 80 0) month payout_id_of shop_with_paid_deal)
          (managers_of sample (request_at 80 0) month shop_with_paid_deal)) in
    generate sample (request_at 80 0) month second_id_of first
    ≡ (ok again, record first { payouts = first.payouts ++ again })
generate_again_example =
    generate_again sample (request_at 80 0) month payout_id_of second_id_of shop_with_paid_deal
      (tt, tt)

one_paid_again :
    length (
      filter
        (paid_again sample (request_at 80 0) month payout_id_of shop_with_paid_deal)
        (managers_of sample (request_at 80 0) month shop_with_paid_deal))
    ≡ 1
one_paid_again = refl

abbrev shop_with_draft : Db ℤ
shop_with_draft = record shop { payouts = statement ∷ [] }

abbrev correction : UpdatePayout ℤ
correction = record {
  base_salary = some (amount 20000);
  total_commission = none;
  total_payout = none;
}

abbrev silent : ApprovePayout
silent = record { notify_manager = none }

abbrev requests : List (Context × Request ℤ)
requests =
    (request_at 90 0, corrects 102 correction)
    ∷ (request_at 91 0, approves 102 silent)
    ∷ (request_at 92 0, corrects 102 correction)
    ∷ (request_at 93 0, pays 102 silent)
    ∷ []

-- A draft is corrected, approved and paid; the correction after the approval is refused.
handle_all_runs :
    (handle_all sample requests shop_with_draft).payouts
    ≡ record statement {
      base_salary = amount 20000;
      total_payout = amount 22060;
      status = PayoutStatus.paid;
      approved_at = some 91;
    }
      ∷ []
unfolding handle update_draft existing_payout update_payout correct approve mark_paid
handle_all_runs = refl

handle_all-Evolves_example :
    Pointwise Evolves (statement ∷ []) (handle_all sample requests shop_with_draft).payouts
handle_all-Evolves_example = handle_all-Evolves sample requests shop_with_draft (tt, tt)

abbrev any_payout : ListPayoutsQuery
any_payout = record { status = none; manager_id = some 3 }

payouts-visible_example :
    All (λ q. visible (request_at 90 0) manager_session q ≡ true) (statement ∷ [])
    × (visible (request_at 90 0) manager_session statement ≡ true)
    × (statement.id ≡ 102)
    × (shop_with_draft ≡ shop_with_draft)
    × (shop_with_draft ≡ shop_with_draft)
unfolding find_all_payouts payout_or_throw existing_payout
payouts-visible_example =
    payouts-visible sample (request_at 90 0) manager_session any_payout 102 shop_with_draft
      shop_with_draft shop_with_draft (statement ∷ []) statement refl refl
