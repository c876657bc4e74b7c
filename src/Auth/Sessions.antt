-- ===== src/Auth/Sessions.antt =====
-- The sessions of a user: `refresh` of auth/auth.service.ts rotates the refresh token, and a token that
-- comes back ends every session of its user.
use fruct.Prelude.{
  ℕ, String, true, false, some, List, [], ◌∷◌, ◌++◌, ◌==◌, ◌≡◌, refl, sym, arith, inl, inr,
  Bool-cases, Option-cases, ltb, is_some, find, find_holds, find-update_rows, update_rows,
  All-update_rows,
}
use fruct.Action.{ok, err, unauthorized, token_reused}
use fruct.Schema.{Db, User, RefreshToken}
use fruct.Platform.{Platform}
use fruct.Security.{Security, RefreshTokenPayload, token_hash_matches}
use fruct.Auth.{Moment, AuthTokens, set_revoked, check_reuse, revoke_all, refresh}
use fruct.Auth.Tokens.{
  AllRevoked, IsFresh, revoke_all-AllRevoked, update_token_lem, issued, tokens_of,
  issue_token_pair_lem, find-append,
}

module _ (lib : Platform) (sec : Security) where
  open lib use {D, find_first-find}
  open sec use {verify_refresh}

  -- A refresh token whose row has been revoked is refused as reused, and no refresh token of its user
  -- can be used any more.
  pub refresh-reused :
      (at : Moment) (token : String) (payload : RefreshTokenPayload) (row : RefreshToken)
      (db : Db D)
      → verify_refresh at.now token ≡ some payload
      → find (λ (t : RefreshToken). t.id == payload.jti) db.refresh_tokens ≡ some row
      → is_some row.revoked_at ≡ true
      → ((refresh lib sec at token db).0 ≡ err (unauthorized token_reused))
        × AllRevoked row.user_id (refresh lib sec at token db).1.refresh_tokens
  unfolding refresh check_reuse
  refresh-reused at token payload row db v e used =
      let here = λ (t : RefreshToken). t.id == payload.jti in
      let after : refresh lib sec at token db
          ≡ (err (unauthorized token_reused), revoke_all lib sec at.now row.user_id db) =
        ground (arith, v, used, find_first-find here db.refresh_tokens) in
      rw after (refl, revoke_all-AllRevoked lib sec at.now row.user_id db)

  -- What was true of the state in which `refresh` returned a pair of tokens.
  pub record Accepted (at : Moment) (token : String) (db : Db D) : Type 0 where
    pub payload : RefreshTokenPayload
    pub row : RefreshToken
    pub user : User D
    pub signed : verify_refresh at.now token ≡ some payload
    pub found : find (λ (t : RefreshToken). t.id == payload.jti) db.refresh_tokens ≡ some row
    pub unused : is_some row.revoked_at ≡ false
    pub in_time : ltb row.expires_at at.now ≡ false
    pub same_hash : token_hash_matches sec token row.token_hash ≡ true
    pub owner : find (λ (u : User D). u.id == row.user_id) db.users ≡ some user
    pub active : user.is_active ≡ true

  -- A pair is returned only for a refresh token with a valid signature, whose row is not revoked, has
  -- not expired and has its hash, and whose user is active.
  pub refresh-Accepted :
      (at : Moment) (token : String) (tokens : AuthTokens) (db db' : Db D)
      → refresh lib sec at token db ≡ (ok tokens, db')
      → Accepted at token db
  unfolding refresh check_reuse
  refresh-Accepted at token tokens db db' e = elim (Option-cases (verify_refresh at.now token)) [
    | inl rejected ↦ absurd (ground arith)
    | inr (payload, v) ↦
        elim (Option-cases (find (λ (t : RefreshToken). t.id == payload.jti) db.refresh_tokens)) [
          | inl unknown ↦ absurd (
              ground (
                arith,
                find_first-find (λ (t : RefreshToken). t.id == payload.jti) db.refresh_tokens,
              ))
          | inr (row, r) ↦
              elim (Option-cases (find (λ (u : User D). u.id == row.user_id) db.users)) [
                | inl orphan ↦ absurd (
                    ground (
                      arith,
                      find_first-find (λ (t : RefreshToken). t.id == payload.jti) db.refresh_tokens,
                      find_first-find (λ (u : User D). u.id == row.user_id) db.users,
                    ))
                | inr (user, o) ↦ record {
                  payload = payload;
                  row = row;
                  user = user;
                  signed = v;
                  found = r;
                  unused = ground (
                    arith,
                    find_first-find (λ (t : RefreshToken). t.id == payload.jti) db.refresh_tokens,
                    find_first-find (λ (u : User D). u.id == row.user_id) db.users,
                  );
                  in_time = ground (
                    arith,
                    find_first-find (λ (t : RefreshToken). t.id == payload.jti) db.refresh_tokens,
                    find_first-find (λ (u : User D). u.id == row.user_id) db.users,
                  );
                  same_hash = ground (
                    arith,
                    find_first-find (λ (t : RefreshToken). t.id == payload.jti) db.refresh_tokens,
                    find_first-find (λ (u : User D). u.id == row.user_id) db.users,
                  );
                  owner = o;
                  active = ground (
                    arith,
                    find_first-find (λ (t : RefreshToken). t.id == payload.jti) db.refresh_tokens,
                    find_first-find (λ (u : User D). u.id == row.user_id) db.users,
                  );
                }
              ]
        ]
  ]

  row_id :
      (k : ℕ) (rows : List RefreshToken) (row : RefreshToken)
      → find (λ (t : RefreshToken). t.id == k) rows ≡ some row
      → row.id ≡ k
  row_id k rows row e = ground (arith, find_holds (λ (t : RefreshToken). t.id == k) rows row e)

  row_at :
      (k : ℕ) (rows : List RefreshToken) (row : RefreshToken)
      → find (λ (t : RefreshToken). t.id == k) rows ≡ some row
      → find (λ (t : RefreshToken). t.id == row.id) rows ≡ some row
  row_at k rows row e = same_row (row.id) k (row_id k rows row e) e
    where
      same_row :
          (j k : ℕ)
          → j ≡ k
          → find (λ (t : RefreshToken). t.id == k) rows ≡ some row
          → find (λ (t : RefreshToken). t.id == j) rows ≡ some row
      same_row j k same h = rw same h

  -- The table of refresh tokens after a rotation.
  abbrev rotated : (at : Moment) → RefreshToken → User D → List RefreshToken → List RefreshToken
  rotated at row user rows =
      update_rows (λ (t : RefreshToken). t.id == row.id) (set_revoked at.now) rows
      ++ issued lib sec at user ∷ []

  revoked-IsFresh :
      (at : Moment) (k now : ℕ) (rows : List RefreshToken)
      → IsFresh at.fresh_id rows
      → IsFresh at.fresh_id (update_rows (λ (t : RefreshToken). t.id == k) (set_revoked now) rows)
  revoked-IsFresh at k now rows fresh =
      All-update_rows _ _ (λ (t : RefreshToken). t.id == k) (set_revoked now) rows
        (λ t ne. elim (Bool-cases (t.id == k)) [ inl hit ↦ rw hit ne | inr miss ↦ rw miss ne ])
        fresh

  -- A refresh token with a valid signature, whose row is not revoked, has not expired and has its hash,
  -- and whose user is active, is accepted if the id of the new row is fresh: its row is revoked, and a
  -- new pair is returned whose row is added.
  pub refresh-rotated :
      (at : Moment) (token : String) (db : Db D)
      → IsFresh at.fresh_id db.refresh_tokens
      → (a : Accepted at token db)
      → refresh lib sec at token db ≡ (
        ok (tokens_of lib sec at a.user),
        record db { refresh_tokens = rotated at a.row a.user db.refresh_tokens },
      )
  unfolding refresh check_reuse
  refresh-rotated at token db fresh a =
      let here = λ (t : RefreshToken). t.id == a.payload.jti in
      let at_row = λ (t : RefreshToken). t.id == a.row.id in
      let is_owner = λ (u : User D). u.id == a.row.user_id in
      let seen : find at_row db.refresh_tokens ≡ some a.row =
        row_at a.payload.jti db.refresh_tokens a.row a.found in
      let db' : Db D = record db {
        refresh_tokens = update_rows at_row (set_revoked at.now) db.refresh_tokens;
      } in
      ground (
        arith,
        a.signed,
        a.found,
        a.unused,
        a.in_time,
        a.same_hash,
        a.owner,
        a.active,
        find_first-find here db.refresh_tokens,
        find_first-find is_owner db.users,
        update_token_lem lib sec a.row.id (set_revoked at.now) a.row db seen,
        issue_token_pair_lem lib sec at a.user db'
            (revoked-IsFresh at a.row.id at.now db.refresh_tokens fresh),
      )

  rotated-found :
      (at : Moment) (k : ℕ) (row : RefreshToken) (user : User D) (rows : List RefreshToken)
      → find (λ (t : RefreshToken). t.id == k) rows ≡ some row
      → find (λ (t : RefreshToken). t.id == k) (rotated at row user rows)
        ≡ some (set_revoked at.now row)
  rotated-found at k row user rows e =
      let at_row = λ (t : RefreshToken). t.id == row.id in
      rw (sym (row_id k rows row e)) (
        find-append at_row _ _ _ (
          find-update_rows at_row (set_revoked at.now) rows row (row_at k rows row e)
            (ground arith)))

  -- A refresh token is used up by the request that it is accepted for: sent again while its signature
  -- is valid, it is refused as reused, and no refresh token of its user can be used any more, the one
  -- that it was exchanged for included. The id of the new row is fresh.
  pub refresh-replayed :
      (at later : Moment) (token : String) (db : Db D)
      → IsFresh at.fresh_id db.refresh_tokens
      → (a : Accepted at token db) → verify_refresh later.now token ≡ some a.payload
      → let db' = (refresh lib sec at token db).1 in
        ((refresh lib sec later token db').0 ≡ err (unauthorized token_reused))
        × AllRevoked a.row.user_id (refresh lib sec later token db').1.refresh_tokens
  refresh-replayed at later token db fresh a v = rw (refresh-rotated at token db fresh a) (
      refresh-reused later token a.payload (set_revoked at.now a.row) _ v
        (rotated-found at a.payload.jti a.row a.user db.refresh_tokens a.found) refl)
