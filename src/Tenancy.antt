-- ===== src/Tenancy.antt =====
-- The isolation of tenants: common/prisma/tenant.extension.ts, common/prisma/tenant-scoped-models.ts,
-- common/guards/tenant.guard.ts and common/guards/roles.guard.ts.
pub mod Isolation
pub mod Guards
pub mod Admission
mod Tests
use text.Mathlib.Text.{◌==◌ as str_eq}
use fruct.Prelude.{
  ℕ, String, Bool, true, false, not, Option, none, some, List, [], ◌∷◌, map, or_else, if◌then◌else◌,
}
use fruct.Action.{Result, ok, err, HttpError, forbidden, internal, role_required, no_tenant_context}
use fruct.Schema.{Role, owner, manager, truthy}
use fruct.Session.{AuthenticatedUser}

-- `Prisma.ModelName`
pub data Model : Type 0 where
  tenant user refresh_token password_reset_token category product warehouse : Model
  stock delivery_option delivery_quote script_template lead deal deal_item : Model
  payout notification activity_log : Model

-- `TENANT_SCOPED_MODELS`
abbrev pub tenant_scoped : Model → Bool
tenant_scoped tenant = false
tenant_scoped refresh_token = false
tenant_scoped password_reset_token = false
tenant_scoped stock = false
tenant_scoped deal_item = false
tenant_scoped _ = true

-- The operations of a Prisma model.
pub data Operation : Type 0 where
  find_unique find_unique_or_throw find_first find_first_or_throw find_many : Operation
  update update_many update_many_and_return delete delete_many : Operation
  count aggregate group_by create create_many create_many_and_return upsert : Operation

-- `WHERE_SCOPED_OPERATIONS`
abbrev pub where_scoped : Operation → Bool
where_scoped create = false
where_scoped create_many = false
where_scoped create_many_and_return = false
where_scoped upsert = false
where_scoped _ = true

-- An object of the query's arguments: its fields, with values that are not looked into.
pub data Value : Type 0 where
  id_value : ℕ → Value
  other_value : String → Value

abbrev pub Fields : Type 0
Fields = List (String × Value)

-- `data`: an object, or, of createMany, an array of objects.
pub data Data : Type 0 where
  one : Fields → Data
  many : List Fields → Data

pub record Args : Type 0 where
  pub where_fields : Option Fields
  pub data_fields : Option Data
  pub create_fields : Option Fields
  pub update_fields : Option Fields

-- `{ ...fields, tenantId }`
abbrev pub with_tenant : ℕ → Fields → Fields
with_tenant t [] = ("tenantId", id_value t) ∷ []
with_tenant t ((key, v) ∷ fields) =
    let rest = with_tenant t fields in
    if str_eq key "tenantId" then (key, id_value t) ∷ fields else (key, v) ∷ rest

abbrev pub scoped_object : ℕ → Option Fields → Option Fields
scoped_object t fields = some (with_tenant t (or_else fields []))

abbrev pub scoped_data : ℕ → Option Data → Option Data
scoped_data t none = some (one (with_tenant t []))
scoped_data t (some (one fields)) = some (one (with_tenant t fields))
scoped_data t (some (many items)) = some (many (map (with_tenant t) items))

-- The arguments that the query is given.
unfoldable pub scoped_args : ℕ → Operation → Args → Args
scoped_args t create args = record args { data_fields = scoped_data t args.data_fields }
scoped_args t create_many args = record args { data_fields = scoped_data t args.data_fields }
scoped_args t create_many_and_return args = record args {
  data_fields = scoped_data t args.data_fields;
}
scoped_args t upsert args = record args {
  where_fields = scoped_object t args.where_fields;
  create_fields = scoped_object t args.create_fields;
  update_fields = scoped_object t args.update_fields;
}
scoped_args t operation args =
    if where_scoped operation
    then record args { where_fields = scoped_object t args.where_fields }
    else args

-- `$allOperations`: the arguments that are passed on, or the error where the context has no tenant.
unfoldable pub all_operations : Option ℕ → Model → Operation → Args → Result Args
all_operations tenant_id model operation args =
    if not (tenant_scoped model)
    then ok args
    else if truthy tenant_id
    then ok (scoped_args (or_else tenant_id 0) operation args)
    else err (internal no_tenant_context)

-- The request's store that the guards fill.
pub record Cls : Type 0 where
  pub tenant_id : Option ℕ
  pub user_id : Option ℕ
  pub role : Option Role

-- `requiredRoles.includes(role)`
abbrev pub includes : List Role → Role → Bool
includes [] r = false
includes (owner ∷ rs) owner = true
includes (manager ∷ rs) manager = true
includes (_ ∷ rs) r = includes rs r

-- TenantGuard
unfoldable pub tenant_guard : Bool → Option AuthenticatedUser → Cls → Bool × Cls
tenant_guard is_public current_user cls = if is_public then (true, cls) else elim current_user [
  | none ↦ (false, cls)
  | some u ↦
      (true, record { tenant_id = some u.tenant_id; user_id = some u.id; role = some u.role })
]

-- RolesGuard
unfoldable pub roles_guard : Bool → Option (List Role) → Option AuthenticatedUser → Result Bool
roles_guard is_public required current_user =
    if is_public then ok true else elim (or_else required []) [
      | [] ↦ ok true
      | r ∷ rs ↦ elim current_user [
        | none ↦ err (forbidden role_required)
        | some u ↦ if includes (r ∷ rs) u.role then ok true else err (forbidden role_required)
      ]
    ]
