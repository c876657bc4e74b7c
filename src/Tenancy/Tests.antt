-- ===== src/Tenancy/Tests.antt =====
-- Examples for the tenant extension and the guards.
use fruct.Prelude.{
  true, false, if◌then◌else◌, inl, inr, Bool-cases, arith, none, some, [], ◌∷◌, ◌≡◌, refl,
}
use text.Mathlib.Text.{◌==◌ as str_eq}
use fruct.Action.{ok, unauthorized, not_authenticated, throw}
use fruct.Schema.{owner}
use fruct.Platform.Sample.{sample}
use fruct.Samples.{shop, owner_session}
use fruct.Security.{AccessTokenPayload}
use fruct.Security.Sample.{sample_security}
use fruct.Auth.{validate}
use fruct.Tenancy.{
  lead, update, upsert, Args, id_value, other_value, one, Cls, Fields, tenant_guard, roles_guard,
  all_operations, scoped_args,
}
use fruct.Tenancy.Guards.{Route, Passport, CallsValidate, jwt_guard, run_guards}
use fruct.Tenancy.Admission.{Admitted, run_guards-Admitted}
use fruct.Tenancy.Isolation.{Scoped, guarded-Scoped}

-- A query that asks for another tenant.
abbrev forged : Fields
forged = ("fullName", other_value "x") ∷ ("tenantId", id_value 7) ∷ []

abbrev forged_args : Args
forged_args = record {
  where_fields = some forged;
  data_fields = some (one forged);
  create_fields = none;
  update_fields = none;
}

abbrev no_context : Cls
no_context = record { tenant_id = none; user_id = none; role = none }

all_operations_runs :
    all_operations (some 1) lead update forged_args
    ≡ ok (record forged_args {
      where_fields = some (("fullName", other_value "x") ∷ ("tenantId", id_value 1) ∷ []);
    })
unfolding all_operations scoped_args
all_operations_runs = refl

guarded-Scoped_example :
    let (passed, cls') = tenant_guard false (some owner_session) no_context in
    (passed ≡ true)
    × ((args' : Args) × (all_operations cls'.tenant_id lead upsert forged_args ≡ ok args')
        × Scoped 1 upsert forged_args args')
guarded-Scoped_example = guarded-Scoped owner_session no_context lead upsert forged_args refl refl

-- A request with a header is the owner's.
abbrev owner_claims : AccessTokenPayload
owner_claims = record { sub = 1; tenant_id = 1; role = owner; email = "o@x" }

abbrev sample_passport : Passport sample
sample_passport next header =
    if str_eq header "" then throw (unauthorized not_authenticated) else next owner_claims

sample_passport-CallsValidate : CallsValidate sample sample_passport
sample_passport-CallsValidate next header db db' u e = elim (Bool-cases (str_eq header "")) [
  | inl blank ↦ absurd (ground arith)
  | inr token ↦ (owner_claims, ground arith)
]

abbrev owners_only : Route
owners_only = record { is_public = false; required_roles = some (owner ∷ []) }

abbrev owner_context : Cls
owner_context = record { tenant_id = some 1; user_id = some 1; role = some owner }

run_guards_runs :
    run_guards sample sample_security sample_passport owners_only "Bearer x" no_context shop
    ≡ (ok owner_context, shop)
unfolding run_guards jwt_guard validate tenant_guard roles_guard
run_guards_runs = refl

run_guards-Admitted_example :
    Admitted sample sample_security owners_only shop owner_context × (shop ≡ shop)
run_guards-Admitted_example =
    run_guards-Admitted sample sample_security sample_passport sample_passport-CallsValidate
      owners_only "Bearer x" no_context owner_context shop shop refl run_guards_runs
