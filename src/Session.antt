-- ===== src/Session.antt =====
-- Who makes a request, and what its handler takes from outside: common/types/jwt-payload.type.ts,
-- common/prisma/current-tenant.service.ts.
use fruct.Prelude.{ℕ, String, Bool, true, false, ◌==◌, ◌&&◌}
use fruct.Schema.{Role, owner, manager}

pub record AuthenticatedUser : Type 0 where
  pub id : ℕ
  pub tenant_id : ℕ
  pub role : Role
  pub email : String

-- The tenant of the request, the clock, and the id that the database gives to a created row.
pub record Context : Type 0 where
  pub tenant : ℕ
  pub now : ℕ
  pub fresh_id : ℕ

-- `role === Role.MANAGER`
abbrev pub is_manager : Role → Bool
is_manager owner = false
is_manager manager = true

-- `where: { id }`, with the tenant that the tenant extension adds.
abbrev pub by_id : ℕ → ℕ → ℕ → ℕ → Bool
by_id tenant id row_tenant row_id = row_id == id && row_tenant == tenant
