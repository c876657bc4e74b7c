-- ===== src/Auth/Tokens.antt =====
-- The table of refresh tokens under the methods of auth/auth.service.ts.
use fruct.Prelude.{
  ℕ, any, refl, Bool, true, false, ◌*◌, some, List, [], ◌∷◌, ◌++◌, ◌==◌, ◌≡◌, ◌≢◌, arith, find,
  update_rows, All, All-map,
}
use fruct.Action.{ok}
use fruct.Schema.{Db, User, RefreshToken}
use fruct.Platform.{Platform}
use fruct.Security.{Security, hash_token}
use fruct.Auth.{
  Moment, AuthTokens, set_revoked, live_of, placeholder, update_token, revoke_all, issue_token_pair,
}

module _ {A : Type 0} where
  pub find-append :
      (p : A → Bool) (xs ys : List A) (x : A) → find p xs ≡ some x → find p (xs ++ ys) ≡ some x
  find-append p [] ys x e = cc
  find-append p (y ∷ xs) ys x e = ground (arith, find-append p xs ys x)

  find_new :
      (p : A → Bool) (xs : List A) (x : A)
      → All (λ a. p a ≡ false) xs
      → p x ≡ true
      → find p (xs ++ x ∷ []) ≡ some x
  find_new p [] x h e = ground arith
  find_new p (y ∷ xs) x h e = ground (arith, h.0, find_new p xs x h.1 e)

  update_new :
      (p : A → Bool) (f : A → A) (xs : List A) (x : A)
      → All (λ a. p a ≡ false) xs
      → p x ≡ true
      → update_rows p f (xs ++ x ∷ []) ≡ xs ++ f x ∷ []
  update_new p f [] x h e = ground arith
  update_new p f (y ∷ xs) x h e = ground (arith, h.0, update_new p f xs x h.1 e)

module _ {A : Type 0} where
  -- An update of the rows that pass a test, to rows that do not, leaves none that passes it.
  any-update_rows :
      (p : A → Bool) (f : A → A) (xs : List A)
      → ((a : A) → p (f a) ≡ false)
      → any p (update_rows p f xs) ≡ false
  any-update_rows p f [] h = refl
  any-update_rows p f (x ∷ xs) h = ground (arith, h x, any-update_rows p f xs h)

-- No row of a user can be used again.
abbrev pub AllRevoked : ℕ → List RefreshToken → Type 0
AllRevoked user rows = any (live_of user) rows ≡ false

-- No row has the id that the database is about to give.
abbrev pub IsFresh : ℕ → List RefreshToken → Type 0
IsFresh id = All λ t. t.id ≢ id

module _ (lib : Platform) (sec : Security) where
  open lib use {D, update-found, update_many-rows, create-rows}
  open sec use {sign_access, sign_refresh, decode_exp}

  pub revoke_all-AllRevoked :
      (now user : ℕ) (db : Db D) → AllRevoked user (revoke_all lib sec now user db).refresh_tokens
  unfolding revoke_all
  revoke_all-AllRevoked now user db =
      rw (update_many-rows (live_of user) (set_revoked now) db.refresh_tokens)
        (any-update_rows (live_of user) (set_revoked now) db.refresh_tokens (λ t. ground arith))

  pub update_token_lem :
      (id : ℕ) (f : RefreshToken → RefreshToken) (t : RefreshToken) (db : Db D)
      → find (λ (r : RefreshToken). r.id == id) db.refresh_tokens ≡ some t
      → update_token lib sec id f db ≡ (
        ok tt,
        record db {
          refresh_tokens = update_rows (λ (r : RefreshToken). r.id == id) f db.refresh_tokens;
        },
      )
  unfolding update_token
  update_token_lem id f t db e =
      ground (arith, update-found (λ (r : RefreshToken). r.id == id) f db.refresh_tokens t)

  abbrev pub tokens_of : Moment → User D → AuthTokens
  tokens_of at user = record {
    access_token = sign_access at.now (record {
      sub = user.id;
      tenant_id = user.tenant_id;
      role = user.role;
      email = user.email;
    });
    refresh_token =
        sign_refresh at.now
          (record { sub = user.id; jti = at.fresh_id; tenant_id = user.tenant_id });
  }

  -- The row of an issued refresh token.
  abbrev pub issued : Moment → User D → RefreshToken
  issued at user = record (placeholder at.fresh_id user.id) {
    token_hash = hash_token sec (tokens_of at user).refresh_token;
    expires_at = decode_exp (tokens_of at user).refresh_token * 1000;
  }

  pub issue_token_pair_lem :
      (at : Moment) (user : User D) (db : Db D)
      → IsFresh at.fresh_id db.refresh_tokens
      → issue_token_pair lib sec at user db ≡ (
        ok (tokens_of at user),
        record db { refresh_tokens = db.refresh_tokens ++ issued at user ∷ [] },
      )
  unfolding issue_token_pair
  issue_token_pair_lem at user db fresh =
      let here = λ (r : RefreshToken). r.id == at.fresh_id in
      let ph = placeholder at.fresh_id user.id in
      let none_here : All (λ r. here r ≡ false) db.refresh_tokens =
        All-map _ _ db.refresh_tokens (λ r ne. ground arith) fresh in
      let fill : RefreshToken → RefreshToken = λ t. record t {
        token_hash = (issued at user).token_hash;
        expires_at = (issued at user).expires_at;
      } in
      ground (
        arith,
        create-rows ph db.refresh_tokens,
        update_token_lem at.fresh_id fill ph
            (record db { refresh_tokens = db.refresh_tokens ++ ph ∷ [] })
            (find_new here db.refresh_tokens ph none_here (ground arith)),
        update_new here fill db.refresh_tokens ph none_here (ground arith),
      )
