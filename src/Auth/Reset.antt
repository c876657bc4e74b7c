-- ===== src/Auth/Reset.antt =====
-- The reset of a password in auth/auth.service.ts: the link works once, and ends every session.
use fruct.Prelude.{
  ℕ, String, Unique, find-All, Bool, true, false, some, List, [], ◌∷◌, inl, inr, Bool-cases, ◌==◌,
  ◌≡◌, refl, arith, ltb, is_some, find, find_holds, find-update_rows, update_rows,
}
use text.Mathlib.Text.{◌==◌ as str_eq}
use fruct.Action.{ok, err, unauthorized, bad_reset_link}
use fruct.Schema.{Db, User, PasswordResetToken}
use fruct.Platform.{Platform}
use fruct.Security.{Security, hash_token, hash_password, verify_password}
use fruct.Auth.{Moment, revoke_all, commit_reset, reset_password}
use fruct.Auth.Tokens.{AllRevoked, revoke_all-AllRevoked}

abbrev set_used : ℕ → PasswordResetToken → PasswordResetToken
set_used now t = record t { used_at = some now }

pub find-update_same :
    {A : Type 0} (p q : A → Bool) (f : A → A) (xs : List A) (x : A)
    → ((a : A) → p (f a) ≡ p a)
    → find p xs ≡ some x
    → q x ≡ true
    → find p (update_rows q f xs) ≡ some (f x)
find-update_same p q f [] x same e h = cc
find-update_same p q f (y ∷ xs) x same e h = elim (Bool-cases (q y)) [
  | inl hit ↦ ground (arith, same y, find-update_same p q f xs x same)
  | inr miss ↦ ground (arith, same y, find-update_same p q f xs x same)
]

-- A row that was found is found by its key.
pub find_by_key :
    {A : Type 0} (key : A → ℕ) (p : A → Bool) (xs : List A) (x : A)
    → Unique key xs
    → find p xs ≡ some x
    → find (λ y. key y == key x) xs ≡ some x
find_by_key key p [] x u e = cc
find_by_key key p (y ∷ xs) x u e = elim (Bool-cases (p y)) [
  | inl hit ↦ ground arith
  | inr miss ↦
      let later : find p xs ≡ some x = ground arith in
      ground (arith, (find-All _ p xs x u.0 later).0, find_by_key key p xs x u.1 later)
]

module _ (lib : Platform) (sec : Security) where
  open lib use {D, find_first-find, update-found, transaction-ok}
  open sec use {bcrypt_compare-bcrypt_hash}

  abbrev by_hash : String → PasswordResetToken → Bool
  by_hash token t = str_eq t.token_hash (hash_token sec token)

  abbrev set_password : String → User D → User D
  set_password password u = record u {
    password_hash = hash_password sec password;
    must_change_password = false;
  }

  abbrev is_owner : PasswordResetToken → User D → Bool
  is_owner reset u = u.id == reset.user_id

  -- The state after the link has been used.
  abbrev was_reset : Moment → String → PasswordResetToken → Db D → Db D
  was_reset at password reset db = revoke_all lib sec at.now reset.user_id (record db {
    users = update_rows (is_owner reset) (set_password password) db.users;
    password_reset_tokens =
        update_rows (λ (t : PasswordResetToken). t.id == reset.id) (set_used at.now)
          db.password_reset_tokens;
  })

  reset_password_lem :
      (at : Moment) (token password : String) (db : Db D) (reset : PasswordResetToken)
      (user : User D)
      → find (by_hash token) db.password_reset_tokens ≡ some reset
      → find (λ (t : PasswordResetToken). t.id == reset.id) db.password_reset_tokens ≡ some reset
      → is_some reset.used_at ≡ false
      → ltb reset.expires_at at.now ≡ false
      → find (is_owner reset) db.users ≡ some user
      → reset_password lib sec at token password db ≡ (ok tt, was_reset at password reset db)
  unfolding reset_password commit_reset
  reset_password_lem at token password db reset user e here unused in_time owner =
      let at_reset = λ (t : PasswordResetToken). t.id == reset.id in
      let committed : commit_reset lib sec at (hash_password sec password) reset db
          ≡ (ok tt, was_reset at password reset db) =
        transaction-ok _ db (
          ground (
            arith,
            update-found (is_owner reset) (set_password password) db.users user owner,
            update-found at_reset (set_used at.now) db.password_reset_tokens reset here,
          )) in
      ground (
        arith,
        e,
        unused,
        in_time,
        committed,
        find_first-find (by_hash token) db.password_reset_tokens,
      )

  reset_password-used :
      (at : Moment) (token password : String) (db : Db D) (reset : PasswordResetToken)
      → find (by_hash token) db.password_reset_tokens ≡ some reset
      → is_some reset.used_at ≡ true
      → reset_password lib sec at token password db ≡ (err (unauthorized bad_reset_link), db)
  unfolding reset_password
  reset_password-used at token password db reset e used =
      ground (arith, e, used, find_first-find (by_hash token) db.password_reset_tokens)

  -- A link that is known, unused and in time, of an existing user, sets the password if ids are unique:
  -- the user's row accepts the new one, no refresh token of the user can be used any more, and the same
  -- link is refused from then on and changes nothing.
  pub reset_password_once :
      (at later : Moment) (token password another : String) (db : Db D) (reset : PasswordResetToken)
      (user : User D)
      → Unique (λ t. t.id) db.password_reset_tokens
      → find (by_hash token) db.password_reset_tokens ≡ some reset
      → is_some reset.used_at ≡ false
      → ltb reset.expires_at at.now ≡ false
      → find (is_owner reset) db.users ≡ some user
      → let r = reset_password lib sec at token password db in
        (r.0 ≡ ok tt)
        × AllRevoked reset.user_id r.1.refresh_tokens
        × ((u : User D) × (find (is_owner reset) r.1.users ≡ some u)
            × (verify_password sec password u.password_hash ≡ true))
        × (reset_password lib sec later token another r.1
            ≡ (err (unauthorized bad_reset_link), r.1))
  unfolding revoke_all
  reset_password_once at later token password another db reset user u e unused in_time owner =
      let here = find_by_key (λ t. t.id) (by_hash token) db.password_reset_tokens reset u e in
      let done = reset_password_lem at token password db reset user e here unused in_time owner in
      rw done (
        refl,
        revoke_all-AllRevoked lib sec at.now reset.user_id (record db {
          users = update_rows (is_owner reset) (set_password password) db.users;
          password_reset_tokens =
              update_rows (λ (t : PasswordResetToken). t.id == reset.id) (set_used at.now)
                db.password_reset_tokens;
        }),
        (
          set_password password user,
          find-update_rows (is_owner reset) (set_password password) db.users user owner
              (find_holds (is_owner reset) db.users user owner),
          bcrypt_compare-bcrypt_hash password,
        ),
        reset_password-used later token another (was_reset at password reset db)
            (set_used at.now reset)
            (find-update_same (by_hash token) (λ t. t.id == reset.id) (set_used at.now)
              db.password_reset_tokens reset (λ _. refl) e (ground arith))
            refl,
      )
