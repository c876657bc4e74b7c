-- ===== src/Payouts/Evolution.antt =====
-- What a method of payouts/payouts.service.ts may do to one payout: DRAFT, APPROVED, PAID, and amounts
-- that are fixed once the payout has left DRAFT.
use fruct.Prelude.{ℕ, true, false, ◌≤◌, ◌≡◌, refl, ◌∙◌, arith}
use fruct.Schema.{Payout, PayoutStatus, draft, approved, paid}
use fruct.Platform.{Platform}
use fruct.Payouts.Approval.{
  UpdatePayout, is_draft, is_approved, mark_approved, mark_as_paid, mark_sent, correct,
}

-- DRAFT, then APPROVED, then PAID.
abbrev pub stage : PayoutStatus → ℕ
stage draft = 0
stage approved = 1
stage paid = 2

-- What may become of a payout: it stays with its manager and period, never goes back a stage, and
-- past DRAFT its amounts and the time of its approval stay as they are.
pub record Evolves {D : Type 0} (p q : Payout D) : Type 0 where
  pub same_id : q.id ≡ p.id
  pub same_tenant : q.tenant_id ≡ p.tenant_id
  pub same_manager : q.manager_id ≡ p.manager_id
  pub same_start : q.period_start ≡ p.period_start
  pub same_end : q.period_end ≡ p.period_end
  pub stage_le : stage p.status ≤ stage q.status
  pub frozen :
      is_draft p.status ≡ false
      → (q.base_salary ≡ p.base_salary)
        × (q.total_commission ≡ p.total_commission)
        × (q.total_payout ≡ p.total_payout)
        × (q.approved_at ≡ p.approved_at)

past_draft : (s t : PayoutStatus) → stage s ≤ stage t → is_draft s ≡ false → is_draft t ≡ false
past_draft draft t le e = cc
past_draft approved draft le e = absurd (omega (arith, le))
past_draft approved approved le e = refl
past_draft approved paid le e = refl
past_draft paid draft le e = absurd (omega (arith, le))
past_draft paid approved le e = refl
past_draft paid paid le e = refl

from_draft : (s : PayoutStatus) → is_draft s ≡ true → stage s ≤ 1
from_draft draft e = omega arith
from_draft approved e = cc
from_draft paid e = cc

not_paid : (s : PayoutStatus) → is_approved s ≡ true → stage s ≤ 2
not_paid draft e = cc
not_paid approved e = omega arith
not_paid paid e = cc

module _ {D : Type 0} where
  pub Evolves-refl : (p : Payout D) → Evolves p p
  Evolves-refl p = record {
    same_id = refl;
    same_tenant = refl;
    same_manager = refl;
    same_start = refl;
    same_end = refl;
    stage_le = omega arith;
    frozen = λ _. (refl, refl, refl, refl);
  }

  pub Evolves-trans : (p q r : Payout D) → Evolves p q → Evolves q r → Evolves p r
  Evolves-trans p q r h k = record {
    same_id = k.same_id ∙ h.same_id;
    same_tenant = k.same_tenant ∙ h.same_tenant;
    same_manager = k.same_manager ∙ h.same_manager;
    same_start = k.same_start ∙ h.same_start;
    same_end = k.same_end ∙ h.same_end;
    stage_le = omega (arith, h.stage_le, k.stage_le);
    frozen = λ e.
        let (a, b, c, d) = h.frozen e in
        let (a', b', c', d') = k.frozen (past_draft p.status q.status h.stage_le e) in
        (a' ∙ a, b' ∙ b, c' ∙ c, d' ∙ d);
  }

  pub Evolves-mark_sent : (now : ℕ) (p : Payout D) → Evolves p (mark_sent now p)
  Evolves-mark_sent now p = record {
    same_id = refl;
    same_tenant = refl;
    same_manager = refl;
    same_start = refl;
    same_end = refl;
    stage_le = omega arith;
    frozen = λ _. (refl, refl, refl, refl);
  }

  pub Evolves-mark_approved :
      (now : ℕ) (p : Payout D) → is_draft p.status ≡ true → Evolves p (mark_approved now p)
  Evolves-mark_approved now p e = record {
    same_id = refl;
    same_tenant = refl;
    same_manager = refl;
    same_start = refl;
    same_end = refl;
    stage_le = from_draft p.status e;
    frozen = λ k. cc;
  }

  pub Evolves-mark_as_paid :
      (p : Payout D) → is_approved p.status ≡ true → Evolves p (mark_as_paid p)
  Evolves-mark_as_paid p e = record {
    same_id = refl;
    same_tenant = refl;
    same_manager = refl;
    same_start = refl;
    same_end = refl;
    stage_le = not_paid p.status e;
    frozen = λ _. (refl, refl, refl, refl);
  }

module _ (lib : Platform) where
  open lib use {D}

  pub Evolves-correct :
      (dto : UpdatePayout D) (p : Payout D)
      → is_draft p.status ≡ true
      → Evolves p (correct lib dto p p)
  unfolding correct
  Evolves-correct dto p e = record {
    same_id = refl;
    same_tenant = refl;
    same_manager = refl;
    same_start = refl;
    same_end = refl;
    stage_le = omega arith;
    frozen = λ k. cc;
  }
