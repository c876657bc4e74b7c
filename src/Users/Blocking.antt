-- ===== src/Users/Blocking.antt =====
-- Blocking and deleting a manager in users/users.service.ts: every way in is closed.
use fruct.Prelude.{
  ℕ, String, Bool, true, false, some, List, ◌==◌, ◌≡◌, refl, sym, ap, ◌∙◌, arith, find, find_holds,
  update_rows, Unique,
}
use fruct.Action.{ok, err, unauthorized, account_unavailable}
use fruct.Schema.{Db, User}
use fruct.Session.{Context, is_manager, by_id}
use fruct.Platform.{Platform}
use fruct.Security.{Security, AccessTokenPayload}
use fruct.Auth.{revoke_all, validate}
use fruct.Auth.Tokens.{AllRevoked, revoke_all-AllRevoked}
use fruct.Auth.Reset.{find_by_key, find-update_same}
use fruct.Users.{
  set_active, anonymize, find_manager_or_throw, update_user, block_manager, delete_manager,
}

module _ (lib : Platform) (sec : Security) (id_text : ℕ → String) (ctx : Context) (id : ℕ) where
  open lib use {D, find_first-find, update-found}

  abbrev here : User D → Bool
  here u = by_id ctx.tenant id u.tenant_id u.id

  -- The state after an update of the user and the end of their sessions.
  abbrev locked : (User D → User D) → Db D → Db D
  locked f db = revoke_all lib sec ctx.now id (record db { users = update_rows here f db.users })

  block_manager_lem :
      (m : User D) (db : Db D)
      → find here db.users ≡ some m
      → is_manager m.role ≡ true
      → (block_manager lib sec id_text ctx id db
          ≡ (ok (set_active false m), locked (set_active false) db))
        × (delete_manager lib sec id_text ctx id db
            ≡ (ok tt, locked (anonymize lib sec id_text id) db))
  unfolding block_manager delete_manager find_manager_or_throw update_user
  block_manager_lem m db e role = (
    ground (
      arith,
      e,
      role,
      find_first-find here db.users,
      update-found here (set_active false) db.users m,
    ),
    ground (
      arith,
      e,
      role,
      find_first-find here db.users,
      update-found here (anonymize lib sec id_text id) db.users m,
    ),
  )

  validate-inactive :
      (payload : AccessTokenPayload) (u : User D) (db : Db D)
      → find (λ (r : User D). r.id == payload.sub) db.users ≡ some u
      → u.is_active ≡ false
      → validate lib sec payload db ≡ (err (unauthorized account_unavailable), db)
  unfolding validate
  validate-inactive payload u db e off =
      ground (arith, e, off, find_first-find (λ (r : User D). r.id == payload.sub) db.users)

  at_same :
      (j k : ℕ) (users : List (User D)) (m : User D)
      → j ≡ k
      → find (λ (r : User D). r.id == k) users ≡ some m
      → find (λ (r : User D). r.id == j) users ≡ some m
  at_same j k users m same e = rw same e

  locked-out :
      (f : User D → User D) (m : User D) (payload : AccessTokenPayload) (db : Db D)
      → ((u : User D) → (f u).id ≡ u.id)
      → (f m).is_active ≡ false
      → Unique (λ u. u.id) db.users
      → find here db.users ≡ some m
      → payload.sub ≡ id
      → validate lib sec payload (locked f db)
        ≡ (err (unauthorized account_unavailable), locked f db)
  unfolding revoke_all
  locked-out f m payload db same off u e to =
      let m_id : m.id ≡ id = ground (arith, find_holds here db.users m e) in
      let by_sub : find (λ (r : User D). r.id == payload.sub) db.users ≡ some m =
        at_same payload.sub m.id db.users m (to ∙ sym m_id)
          (find_by_key (λ r. r.id) here db.users m u e) in
      validate-inactive payload (f m) (locked f db)
        (find-update_same (λ (r : User D). r.id == payload.sub) here f db.users m
          (λ r. ap (λ k. k == payload.sub) (same r)) by_sub (find_holds here db.users m e))
        off

  -- Once a manager is blocked or deleted, if user ids are unique: none of their refresh tokens can be
  -- used any more, and an access token that was issued to them is refused.
  pub block_manager-AllRevoked :
      (m : User D) (payload : AccessTokenPayload) (db : Db D)
      → Unique (λ u. u.id) db.users
      → find here db.users ≡ some m
      → is_manager m.role ≡ true
      → payload.sub ≡ id
      → let blocked = block_manager lib sec id_text ctx id db in
        let deleted = delete_manager lib sec id_text ctx id db in
        (blocked.0 ≡ ok (set_active false m))
        × (deleted.0 ≡ ok tt)
        × AllRevoked id blocked.1.refresh_tokens
        × AllRevoked id deleted.1.refresh_tokens
        × ((validate lib sec payload blocked.1).0 ≡ err (unauthorized account_unavailable))
        × ((validate lib sec payload deleted.1).0 ≡ err (unauthorized account_unavailable))
  block_manager-AllRevoked m payload db u e role to =
      let (b, d) = block_manager_lem m db e role in
      rw (b, d)
        (
          refl,
          refl,
          revoke_all-AllRevoked lib sec ctx.now id
              (record db { users = update_rows here (set_active false) db.users }),
          revoke_all-AllRevoked lib sec ctx.now id
              (record db { users = update_rows here (anonymize lib sec id_text id) db.users }),
          ap (λ r. r.0) (locked-out (set_active false) m payload db (λ _. refl) refl u e to),
          ap (λ r. r.0)
              (locked-out (anonymize lib sec id_text id) m payload db (λ _. refl) refl u e to),
        )
