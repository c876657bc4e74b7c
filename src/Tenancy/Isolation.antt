-- ===== src/Tenancy/Isolation.antt =====
-- What the tenant extension and the guards guarantee to a query, whatever its arguments say.
use text.Mathlib.Text.{◌==◌ as str_eq}
use fruct.Prelude.{
  ℕ, String, true, false, Option, none, some, List, [], ◌∷◌, map, ◌≡◌, refl, inl, inr, Bool-cases,
  or_else, All, if◌then◌else◌,
}
use fruct.Action.{ok}
use fruct.Schema.{truthy}
use fruct.Session.{AuthenticatedUser}
use fruct.Tenancy.{
  Model, tenant_scoped, Operation, create, create_many, create_many_and_return, upsert, Value,
  id_value, Fields, Data, one, many, Args, with_tenant, scoped_data, scoped_args, all_operations,
  Cls, tenant_guard,
}

abbrev pub lookup : String → Fields → Option Value
lookup k [] = none
lookup k ((key, v) ∷ fields) = if str_eq key k then some v else lookup k fields

-- The object names this tenant.
abbrev pub OfTenant : ℕ → Fields → Type 0
OfTenant t fields = lookup "tenantId" fields ≡ some (id_value t)

abbrev pub ObjectOfTenant : ℕ → Option Fields → Type 0
ObjectOfTenant t none = ⊥
ObjectOfTenant t (some fields) = OfTenant t fields

abbrev pub DataOfTenant : ℕ → Option Data → Type 0
DataOfTenant t none = ⊥
DataOfTenant t (some (one fields)) = OfTenant t fields
DataOfTenant t (some (many items)) = All (OfTenant t) items

-- What the arguments that are passed on say of a tenant, beside the given ones: the rows that the query
-- creates name it, and the rows that it reads, changes or removes are looked for in it. The data that it
-- writes into rows that exist are the given ones, but for an upsert.
abbrev pub Scoped : ℕ → Operation → Args → Args → Type 0
Scoped t create given args = DataOfTenant t args.data_fields
Scoped t create_many given args = DataOfTenant t args.data_fields
Scoped t create_many_and_return given args = DataOfTenant t args.data_fields
Scoped t upsert given args =
    ObjectOfTenant t args.where_fields
    × ObjectOfTenant t args.create_fields
    × ObjectOfTenant t args.update_fields
Scoped t _ given args = ObjectOfTenant t args.where_fields × (args.data_fields ≡ given.data_fields)

with_tenant-OfTenant : (t : ℕ) (fields : Fields) → OfTenant t (with_tenant t fields)
with_tenant-OfTenant t [] = refl
with_tenant-OfTenant t ((key, v) ∷ fields) = elim (Bool-cases (str_eq key "tenantId")) [
  | inl same ↦ rw (same, same) refl
  | inr other ↦ rw (other, other) (with_tenant-OfTenant t fields)
]

All-OfTenant : (t : ℕ) (items : List Fields) → All (OfTenant t) (map (with_tenant t) items)
All-OfTenant t [] = tt
All-OfTenant t (fields ∷ items) = (with_tenant-OfTenant t fields, All-OfTenant t items)

scoped_data-DataOfTenant :
    (t : ℕ) (data_fields : Option Data) → DataOfTenant t (scoped_data t data_fields)
scoped_data-DataOfTenant t none = refl
scoped_data-DataOfTenant t (some (one fields)) = with_tenant-OfTenant t fields
scoped_data-DataOfTenant t (some (many items)) = All-OfTenant t items

scoped_args-Scoped :
    (t : ℕ) (operation : Operation) (args : Args)
    → Scoped t operation args (scoped_args t operation args)
unfolding scoped_args
scoped_args-Scoped t create args = scoped_data-DataOfTenant t args.data_fields
scoped_args-Scoped t create_many args = scoped_data-DataOfTenant t args.data_fields
scoped_args-Scoped t create_many_and_return args = scoped_data-DataOfTenant t args.data_fields
scoped_args-Scoped t upsert args = (
  with_tenant-OfTenant t (or_else args.where_fields []),
  with_tenant-OfTenant t (or_else args.create_fields []),
  with_tenant-OfTenant t (or_else args.update_fields []),
)
scoped_args-Scoped t _ args = (with_tenant-OfTenant t (or_else args.where_fields []), refl)

-- A query on a model with tenants, made on a route that is not public by a user whose tenant's id is not
-- empty, passes TenantGuard and is passed on: whatever its arguments say, the rows that it creates name the
-- user's tenant, and the rows that it reads, changes or removes are looked for there. The data that an
-- update writes are passed on as they are, also a tenantId in them; those of an upsert name the user's
-- tenant.
pub guarded-Scoped :
    (u : AuthenticatedUser) (cls : Cls) (model : Model) (operation : Operation) (args : Args)
    → truthy (some u.tenant_id) ≡ true
    → tenant_scoped model ≡ true
    → let (passed, cls') = tenant_guard false (some u) cls in
      (passed ≡ true)
      × ((args' : Args) × (all_operations cls'.tenant_id model operation args ≡ ok args')
          × Scoped u.tenant_id operation args args')
unfolding tenant_guard all_operations
guarded-Scoped u cls model operation args has_tenant scoped = (
  refl,
  (
    scoped_args u.tenant_id operation args,
    rw (scoped, has_tenant) refl,
    scoped_args-Scoped u.tenant_id operation args,
  ),
)
