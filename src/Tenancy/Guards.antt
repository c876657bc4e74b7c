-- ===== src/Tenancy/Guards.antt =====
-- common/guards/jwt-auth.guard.ts and the guards of app.module.ts in their order.
use fruct.Prelude.{String, Bool, not, Option, none, some, List, ◌≡◌, if◌then◌else◌}
use fruct.Action.{Action, ok, forbidden, refused_by_guard, pure, throw_if, ◌>>=◌, ◌>>◌}
use fruct.Schema.{Db, Role}
use fruct.Session.{AuthenticatedUser}
use fruct.Platform.{Platform}
use fruct.Security.{Security, AccessTokenPayload}
use fruct.Auth.{validate}
use fruct.Tenancy.{Cls, tenant_guard, roles_guard}

-- What `@Public()` and `@Roles()` say of a route.
pub record Route : Type 0 where
  pub is_public : Bool
  pub required_roles : Option (List Role)

-- `AuthGuard('jwt')` of @nestjs/passport: it reads the token of a request's header, and calls the
-- strategy's `validate` with the claims of a token that it accepts.
abbrev pub Passport : Platform → Type 0
Passport lib =
    (AccessTokenPayload → Action (Db lib.D) AuthenticatedUser)
    → String
    → Action (Db lib.D) AuthenticatedUser

-- What it accepts was answered by `validate`.
abbrev pub CallsValidate : (lib : Platform) → Passport lib → Type 0
CallsValidate lib passport =
    (next : AccessTokenPayload → Action (Db lib.D) AuthenticatedUser) (header : String)
    (db db' : Db lib.D) (u : AuthenticatedUser)
    → passport next header db ≡ (ok u, db')
    → (payload : AccessTokenPayload) × (next payload db ≡ (ok u, db'))

module _ (lib : Platform) (sec : Security) (passport : Passport lib) where
  open lib use {D}

  -- JwtAuthGuard: the user that it leaves in the request.
  unfoldable pub jwt_guard : Route → String → Action (Db D) (Option AuthenticatedUser)
  jwt_guard route header =
      if route.is_public
      then pure none
      else (do user ← passport (validate lib sec) header; pure (some user))

  -- A guard that answers false ends the request.
  unfoldable pub run_guards : Route → String → Cls → Action (Db D) Cls
  run_guards route header cls = do
    user ← jwt_guard route header
    throw_if (not (tenant_guard route.is_public user cls).0) (forbidden refused_by_guard)
    allowed ← λ db. (roles_guard route.is_public route.required_roles user, db)
    throw_if (not allowed) (forbidden refused_by_guard)
    pure (tenant_guard route.is_public user cls).1
