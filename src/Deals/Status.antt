-- ===== src/Deals/Status.antt =====
-- deals/deal-status-transitions.ts: the life cycle of a deal.
use fruct.Prelude.{ℕ, Bool, List, [], ◌∷◌, ◌==◌, any}
use fruct.Schema.{DealStatus, new, waiting_payment, paid, shipped, completed, cancelled, refunded}

-- Members of the enum are compared by their position in it.
abbrev pub position : DealStatus → ℕ
position new = 0
position waiting_payment = 1
position paid = 2
position shipped = 3
position completed = 4
position cancelled = 5
position refunded = 6

-- `statuses.includes(status)` and `statuses.has(status)`
abbrev pub has : List DealStatus → DealStatus → Bool
has statuses status = any (λ s. position s == position status) statuses

-- DEAL_STATUS_TRANSITIONS
abbrev pub transitions : DealStatus → List DealStatus
transitions new = waiting_payment ∷ cancelled ∷ []
transitions waiting_payment = paid ∷ cancelled ∷ []
transitions paid = shipped ∷ refunded ∷ []
transitions shipped = completed ∷ refunded ∷ []
transitions completed = refunded ∷ []
transitions cancelled = []
transitions refunded = []

-- STOCK_RESTORING_STATUSES
abbrev pub stock_restoring : List DealStatus
stock_restoring = cancelled ∷ refunded ∷ []

-- TERMINAL_DEAL_STATUSES
abbrev pub terminal : List DealStatus
terminal = completed ∷ cancelled ∷ refunded ∷ []

-- COMMISSIONABLE_DEAL_STATUSES
abbrev pub commissionable : List DealStatus
commissionable = paid ∷ shipped ∷ completed ∷ []
