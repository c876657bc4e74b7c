-- ===== src/Auth.antt =====
-- auth/auth.service.ts: AuthService, method by method, on the unscoped database; and the check of an
-- access token in auth/strategies/jwt.strategy.ts.
pub mod Tokens
pub mod Sessions
pub mod Reset
mod Tests
use text.Mathlib.Text.{◌==◌ as str_eq}
use fruct.Prelude.{
  ℕ, String, Bool, true, false, not, ◌&&◌, ◌||◌, ◌+◌, ◌*◌, Option, none, some, List, [], ◌∷◌, ◌++◌,
  ◌==◌, ltb, is_some, if◌then◌else◌,
}
use fruct.Action.{
  Action, unauthorized, not_found, bad_credentials, bad_refresh_token, refresh_token_rejected,
  token_reused, refresh_expired, account_unavailable, bad_reset_link, record_missing, pure, throw,
  gets, modify, or_throw, throw_if, ◌>>=◌, ◌>>◌,
}
use fruct.Schema.{Db, User, RefreshToken, PasswordResetToken, password_reset}
use fruct.Session.{AuthenticatedUser}
use fruct.Platform.{Platform}
use fruct.Security.{
  Security, AccessTokenPayload, RefreshTokenPayload, hash_token, token_hash_matches, hash_password,
  verify_password,
}

-- The clock, the id that the database gives to a created row, and `generateSecureToken()`.
pub record Moment : Type 0 where
  pub now : ℕ
  pub fresh_id : ℕ
  pub secure_token : String

pub record AuthTokens : Type 0 where
  pub access_token : String
  pub refresh_token : String

-- `PASSWORD_RESET_TTL_MINUTES`, in milliseconds.
abbrev pub password_reset_ttl : ℕ
password_reset_ttl = 60 * 60000

abbrev pub set_revoked : ℕ → RefreshToken → RefreshToken
set_revoked now t = record t { revoked_at = some now }

abbrev pub live_of : ℕ → RefreshToken → Bool
live_of user t = t.user_id == user && not (is_some t.revoked_at)

abbrev pub placeholder : ℕ → ℕ → RefreshToken
placeholder id user = record {
  id = id;
  user_id = user;
  token_hash = "";
  expires_at = 0;
  revoked_at = none;
}

module _ (lib : Platform) (sec : Security) where
  open lib use {D, find_first, update, update_many, create, transaction}
  open sec use {sign_access, sign_refresh, verify_refresh, decode_exp}

  unfoldable pub update_token : ℕ → (RefreshToken → RefreshToken) → Action (Db D) (Unit {0})
  update_token id f db = elim (update (λ (t : RefreshToken). t.id == id) f db.refresh_tokens) [
    | none ↦ throw (not_found record_missing) db
    | some (_, rows) ↦ pure tt (record db { refresh_tokens = rows })
  ]

  -- `updateMany({ where: { userId, revokedAt: null }, data: { revokedAt: new Date() } })`
  unfoldable pub revoke_all : ℕ → ℕ → Db D → Db D
  revoke_all now user db = record db {
    refresh_tokens = (update_many (live_of user) (set_revoked now) db.refresh_tokens).0;
  }

  unfoldable pub issue_token_pair : Moment → User D → Action (Db D) AuthTokens
  issue_token_pair at user = do
    modify λ (db : Db D). record db {
      refresh_tokens = create (placeholder at.fresh_id user.id) db.refresh_tokens;
    }
    let access =
        sign_access at.now (record {
          sub = user.id;
          tenant_id = user.tenant_id;
          role = user.role;
          email = user.email;
        })
    let refreshing =
        sign_refresh at.now
          (record { sub = user.id; jti = at.fresh_id; tenant_id = user.tenant_id })
    update_token at.fresh_id λ t. record t {
      token_hash = hash_token sec refreshing;
      expires_at = decode_exp refreshing * 1000;
    }
    pure (record { access_token = access; refresh_token = refreshing })

  unfoldable pub login : Moment → String → String → Action (Db D) AuthTokens
  login at email password = do
    found ← gets λ (db : Db D). find_first (λ (u : User D). str_eq u.email email) db.users
    user ← or_throw found (unauthorized bad_credentials)
    throw_if (not user.is_active) (unauthorized bad_credentials)
    throw_if (not (verify_password sec password user.password_hash)) (unauthorized bad_credentials)
    issue_token_pair at user

  -- A token that has been revoked before ends every session of its user.
  unfoldable pub check_reuse : Moment → RefreshToken → Action (Db D) (Unit {0})
  check_reuse at existing =
      if is_some existing.revoked_at
      then (do modify (revoke_all at.now existing.user_id); throw (unauthorized token_reused))
      else pure tt

  unfoldable pub refresh : Moment → String → Action (Db D) AuthTokens
  refresh at token = do
    payload ← or_throw (verify_refresh at.now token) (unauthorized refresh_token_rejected)
    found ←
        gets λ (db : Db D). find_first (λ (t : RefreshToken). t.id == payload.jti) db.refresh_tokens
    existing ← or_throw found (unauthorized bad_refresh_token)
    check_reuse at existing
    throw_if (ltb existing.expires_at at.now) (unauthorized refresh_expired)
    throw_if (not (token_hash_matches sec token existing.token_hash))
        (unauthorized bad_refresh_token)
    owner ← gets λ (db : Db D). find_first (λ (u : User D). u.id == existing.user_id) db.users
    user ← or_throw owner (unauthorized account_unavailable)
    throw_if (not user.is_active) (unauthorized account_unavailable)
    update_token existing.id (set_revoked at.now)
    issue_token_pair at user

  -- A token that is invalid or expired is already logged out.
  unfoldable pub logout : Moment → String → Action (Db D) (Unit {0})
  logout at token = elim (verify_refresh at.now token) [
    | none ↦ pure tt
    | some payload ↦ modify λ (db : Db D). record db {
      refresh_tokens =
          (update_many (λ (t : RefreshToken). t.id == payload.jti && not (is_some t.revoked_at))
            (set_revoked at.now) db.refresh_tokens).0;
    }
  ]

  -- The same answer whether or not there is a user with this address.
  unfoldable pub forgot_password : Moment → String → Action (Db D) (Unit {0})
  forgot_password at email db =
      elim (find_first (λ (u : User D). str_eq u.email email && u.is_active) db.users) [
        | none ↦ pure tt db
        | some user ↦ pure tt (record db {
          password_reset_tokens =
              create
                (record {
                  id = at.fresh_id;
                  user_id = user.id;
                  token_hash = hash_token sec at.secure_token;
                  expires_at = at.now + password_reset_ttl;
                  used_at = none;
                })
                db.password_reset_tokens;
          mail_queue =
              db.mail_queue
              ++ record {
                tenant_id = user.tenant_id;
                user_id = user.id;
                to = user.email;
                template = password_reset;
                subject_id = at.fresh_id;
              }
                ∷ [];
        })
      ]

  -- The three writes of `resetPassword`, in one transaction.
  unfoldable pub commit_reset : Moment → String → PasswordResetToken → Action (Db D) (Unit {0})
  commit_reset at new_hash reset = transaction λ (db : Db D).
      elim (update (λ (u : User D). u.id == reset.user_id)
        (λ u. record u { password_hash = new_hash; must_change_password = false }) db.users) [
          | none ↦ throw (not_found record_missing) db
          | some (_, users) ↦
              elim (update (λ (t : PasswordResetToken). t.id == reset.id)
                (λ t. record t { used_at = some at.now }) db.password_reset_tokens) [
                  | none ↦ throw (not_found record_missing) db
                  | some (_, tokens) ↦ pure tt (
                      revoke_all at.now reset.user_id
                        (record db { users = users; password_reset_tokens = tokens }))
                ]
        ]

  unfoldable pub reset_password : Moment → String → String → Action (Db D) (Unit {0})
  reset_password at token new_password = do
    found ← gets λ (db : Db D).
        find_first (λ (t : PasswordResetToken). str_eq t.token_hash (hash_token sec token))
          db.password_reset_tokens
    reset ← or_throw found (unauthorized bad_reset_link)
    throw_if (is_some reset.used_at || ltb reset.expires_at at.now) (unauthorized bad_reset_link)
    commit_reset at (hash_password sec new_password) reset

  -- JwtStrategy: the claims of an access token are checked against the user's row.
  unfoldable pub validate : AccessTokenPayload → Action (Db D) AuthenticatedUser
  validate payload = do
    found ← gets λ (db : Db D). find_first (λ (u : User D). u.id == payload.sub) db.users
    user ← or_throw found (unauthorized account_unavailable)
    throw_if (not user.is_active || not (user.tenant_id == payload.tenant_id))
        (unauthorized account_unavailable)
    pure (record { id = user.id; tenant_id = user.tenant_id; role = user.role; email = user.email })
