-- ===== src/Tenancy/Admission.antt =====
-- The requests that pass the three guards of app.module.ts.
use fruct.Prelude.{
  String, Bool, true, false, Option, none, some, List, [], ◌∷◌, ◌==◌, ◌≡◌, refl, ap, subst, ◌∙◌,
  find, or_else, arith, inl, inr, Bool-cases, Option-cases,
}
use fruct.Action.{ok, Result-cases, >>=-eq-ok}
use fruct.Schema.{Db, Role, User}
use fruct.Session.{AuthenticatedUser}
use fruct.Platform.{Platform}
use fruct.Security.{Security, AccessTokenPayload}
use fruct.Auth.{validate}
use fruct.Tenancy.{Cls, includes, tenant_guard, roles_guard}
use fruct.Tenancy.Guards.{Route, Passport, CallsValidate, jwt_guard, run_guards}

abbrev pub role_allowed : Option (List Role) → Role → Bool
role_allowed required role = elim (or_else required []) [
  | [] ↦ true
  | r ∷ rs ↦ includes (r ∷ rs) role
]

module _ (lib : Platform) (sec : Security) where
  open lib use {D, find_first-find}

  -- The store of a request after the guards, and the row of the user who makes it.
  pub record Admitted (route : Route) (db : Db D) (cls : Cls) : Type 0 where
    pub payload : AccessTokenPayload
    pub user : User D
    pub found : find (λ (u : User D). u.id == payload.sub) db.users ≡ some user
    pub active : user.is_active ≡ true
    pub same_tenant : user.tenant_id ≡ payload.tenant_id
    pub allowed : role_allowed route.required_roles user.role ≡ true
    pub filled :
        cls
        ≡ record { tenant_id = some user.tenant_id; user_id = some user.id; role = some user.role }

  validate-ok :
      (payload : AccessTokenPayload) (db db' : Db D) (u : AuthenticatedUser)
      → validate lib sec payload db ≡ (ok u, db')
      → (row : User D) × (find (λ (r : User D). r.id == payload.sub) db.users ≡ some row)
        × (row.is_active ≡ true)
        × (row.tenant_id ≡ payload.tenant_id)
        × (u
            ≡ record { id = row.id; tenant_id = row.tenant_id; role = row.role; email = row.email })
        × (db' ≡ db)
  unfolding validate
  validate-ok payload db db' u e =
      elim (Option-cases (find (λ (r : User D). r.id == payload.sub) db.users)) [
        | inl unknown ↦
            absurd (ground (arith, find_first-find (λ (r : User D). r.id == payload.sub) db.users))
        | inr (row, r) ↦
            let first = find_first-find (λ (r : User D). r.id == payload.sub) db.users in
            (
              row,
              r,
              ground (arith, first),
              ground (arith, first),
              ground (arith, first),
              ground (arith, first),
            )
      ]

  module _ (passport : Passport lib) where
    jwt_guard-ok :
        CallsValidate lib passport
        → (route : Route) (header : String) (db db' : Db D) (found : Option AuthenticatedUser)
        → route.is_public ≡ false
        → jwt_guard lib sec passport route header db ≡ (ok found, db')
        → (u : AuthenticatedUser) × (payload : AccessTokenPayload) × (found ≡ some u)
          × (validate lib sec payload db ≡ (ok u, db'))
    unfolding jwt_guard
    jwt_guard-ok calls route header db db' found closed e =
        let (u, s, accepted, rest) =
          >>=-eq-ok (passport (validate lib sec) header) (λ u s. (ok (some u), s)) db db' found
            (ground (arith, e, closed)) in
        let (payload, v) = calls (validate lib sec) header db s u accepted in
        (u, payload, ground arith, v ∙ ap (λ r. (ok u, r.1)) rest)

    roles_guard-ok :
        (required : Option (List Role)) (u : AuthenticatedUser)
        → roles_guard false required (some u) ≡ ok true
        → role_allowed required u.role ≡ true
    unfolding roles_guard
    roles_guard-ok none u e = refl
    roles_guard-ok (some []) u e = refl
    roles_guard-ok (some (r ∷ rs)) u e = elim (Bool-cases (includes (r ∷ rs) u.role)) [
      | inl member ↦ member
      | inr stranger ↦ absurd (ground arith)
    ]

    behind_jwt_guard :
        (route : Route) (header : String) (cls cls' : Cls) (db s db' : Db D) (u : AuthenticatedUser)
        → route.is_public ≡ false
        → jwt_guard lib sec passport route header db ≡ (ok (some u), s)
        → run_guards lib sec passport route header cls db ≡ (ok cls', db')
        → (role_allowed route.required_roles u.role ≡ true)
          × (db' ≡ s)
          × (cls'
              ≡ record { tenant_id = some u.tenant_id; user_id = some u.id; role = some u.role })
    unfolding run_guards tenant_guard
    behind_jwt_guard route header cls cls' db s db' u closed j e =
        elim (Result-cases (roles_guard false route.required_roles (some u))) [
          | inr (x, refused) ↦ absurd (ground (arith, e, j, closed, refused))
          | inl (true, passed) ↦ (
            roles_guard-ok route.required_roles u passed,
            ground (arith, e, j, closed, passed),
            ground (arith, e, j, closed, passed),
          )
          | inl (false, passed) ↦ absurd (ground (arith, e, j, closed, passed))
        ]

    -- If passport calls `validate` with the claims of a token that it accepts, and answers with what
    -- `validate` returns, then a request that the guards let through to a route that is not public
    -- comes from an active user, of the tenant that the token names and with a role that the route
    -- asks for, if it asks for one; the request's store then holds this user's tenant, id and role,
    -- and the database is as before.
    pub run_guards-Admitted :
        CallsValidate lib passport
        → (route : Route) (header : String) (cls cls' : Cls) (db db' : Db D)
        → route.is_public ≡ false
        → run_guards lib sec passport route header cls db ≡ (ok cls', db')
        → Admitted route db cls' × (db' ≡ db)
    unfolding run_guards
    run_guards-Admitted calls route header cls cls' db db' closed e =
        elim (Result-cases (jwt_guard lib sec passport route header db).0) [
          | inr (x, refused) ↦ absurd (ground arith)
          | inl (found, passed) ↦
              let s = (jwt_guard lib sec passport route header db).1 in
              let (u, payload, some_u, v) =
                jwt_guard-ok calls route header db s found closed (ground arith) in
              let (row, by_sub, active, tenant, u_lem, kept) = validate-ok payload db s u v in
              let (role, same, filled) =
                behind_jwt_guard route header cls cls' db s db' u closed (ground arith) e in
              (
                record {
                  payload = payload;
                  user = row;
                  found = by_sub;
                  active = active;
                  same_tenant = tenant;
                  allowed = subst (λ w. role_allowed route.required_roles w.role ≡ true) u_lem role;
                  filled =
                      filled
                      ∙ ap
                          (λ w. record {
                            tenant_id = some w.tenant_id;
                            user_id = some w.id;
                            role = some w.role;
                          })
                          u_lem;
                },
                same ∙ kept,
              )
        ]
