-- ===== src/Payouts/Visibility.antt =====
-- Who sees a payout: `findAll` and `findOne` of payouts/payouts.service.ts.
use fruct.Prelude.{
  ℕ, Bool, true, not, ◌&&◌, ◌||◌, List, ◌==◌, ◌≡◌, arith, find_holds, sym, All, All-map, All-filter,
}
use fruct.Action.{Result, ok}
use fruct.Schema.{Db, Payout}
use fruct.Session.{AuthenticatedUser, Context, is_manager, by_id}
use fruct.Platform.{Platform}
use fruct.Payouts.Approval.{
  ListPayoutsQuery, matches_query, find_all_payouts, existing_payout, payout_or_throw,
}

-- A payout of the tenant; to a manager, only their own.
abbrev pub visible : {D : Type 0} → Context → AuthenticatedUser → Payout D → Bool
visible ctx user p =
    p.tenant_id == ctx.tenant && (not (is_manager user.role) || p.manager_id == user.id)

module _ (lib : Platform) (ctx : Context) (user : AuthenticatedUser) where
  open lib use {D, find_many-filter, find_first-find, All-order_by}

  query-visible :
      (query : ListPayoutsQuery) (p : Payout D)
      → matches_query lib ctx query user p ≡ true
      → visible ctx user p ≡ true
  query-visible query p h = ground arith

  -- Every payout that a list or a request for one payout returns is of the tenant, and to a manager their
  -- own, whatever is asked for; the one payout has the id that was asked for, and neither request
  -- changes anything.
  pub payouts-visible :
      (query : ListPayoutsQuery) (id : ℕ) (db db₁ db₂ : Db D) (list : List (Payout D))
      (p : Payout D)
      → find_all_payouts lib ctx query user db ≡ (ok list, db₁)
      → payout_or_throw lib ctx id user db ≡ (ok p, db₂)
      → All (λ q. visible ctx user q ≡ true) list
        × (visible ctx user p ≡ true)
        × (p.id ≡ id)
        × (db₁ ≡ db)
        × (db₂ ≡ db)
  unfolding find_all_payouts payout_or_throw existing_payout
  payouts-visible query id db db₁ db₂ list p e f = (
    rw (sym (listed e)) (
        All-order_by _ _ _ _ (
          rw (find_many-filter (matches_query lib ctx query user) db.payouts) (
            All-map _ _ _ (query-visible query)
              (All-filter (matches_query lib ctx query user) db.payouts)))),
    ground (arith, find_first-find here db.payouts, find_holds here db.payouts p),
    ground (arith, find_first-find here db.payouts, find_holds here db.payouts p),
    cc,
    ground (arith, find_first-find here db.payouts),
  )
    where
      here : Payout D → Bool
      here q = by_id ctx.tenant id q.tenant_id q.id

      listed :
          {a b : List (Payout D)} {s s' : Db D}
          → ◌≡◌ {A = Result (List (Payout D)) × Db D} (ok a, s) (ok b, s')
          → a ≡ b
      listed h = cc
