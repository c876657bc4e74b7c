-- ===== src/Users.antt =====
-- users/users.service.ts: UsersService, method by method. A response is the row that it is made of.
pub mod Blocking
mod Tests
use text.Mathlib.Text.{◌==◌ as str_eq}
use Prim.Native.String.{◌++◌ as join}
use fruct.Prelude.{
  ℕ, String, Bool, true, false, not, ◌&&◌, Option, none, some, List, [], ◌∷◌, ◌++◌, ◌==◌, or_else,
  is_some, if◌then◌else◌,
}
use fruct.Action.{
  Action, not_found, manager_missing, record_missing, pure, gets, modify, or_throw, throw_if, ◌>>=◌,
  ◌>>◌,
}
use fruct.Schema.{Db, User, RefreshToken, manager, credentials_issued}
use fruct.Session.{Context, is_manager, by_id}
use fruct.Platform.{Platform, asc}
use fruct.Security.{Security, hash_password}
use fruct.Auth.{revoke_all}

pub record CreateUser (D : Type 0) : Type 0 where
  pub email : String
  pub full_name : String
  pub password : Option String
  pub commission_percent : Option D
  pub base_salary : Option D
  pub max_discount_percent : Option D

-- `!dto.password`
abbrev pub password_was_generated : Option String → Bool
password_was_generated none = true
password_was_generated (some password) = str_eq password ""

-- A field that is absent leaves the column as it is.
pub record UpdateUser (D : Type 0) : Type 0 where
  pub full_name : Option String
  pub commission_percent : Option D
  pub base_salary : Option D
  pub max_discount_percent : Option D

abbrev pub set_active : {D : Type 0} → Bool → User D → User D
set_active active u = record u { is_active = active }

-- `secure_token` is what `generateSecureToken` returns, and `id_text` the id as it stands in a text.
module _ (lib : Platform) (sec : Security) (id_text : ℕ → String) where
  open lib use {D, zero_decimal, column, find_first, find_many, create, update, order_by}

  unfoldable pub manager_row : Context → String → CreateUser D → User D
  manager_row ctx secure_token dto = record {
    id = ctx.fresh_id;
    tenant_id = ctx.tenant;
    email = dto.email;
    password_hash = hash_password sec (or_else dto.password secure_token);
    full_name = dto.full_name;
    role = manager;
    telegram_chat_id = none;
    base_salary = column 10 2 (or_else dto.base_salary zero_decimal);
    commission_percent = column 5 2 (or_else dto.commission_percent zero_decimal);
    max_discount_percent = column 5 2 (or_else dto.max_discount_percent zero_decimal);
    is_active = true;
    must_change_password = true;
    created_at = ctx.now;
  }

  unfoldable pub create_manager : Context → String → CreateUser D → Action (Db D) (User D)
  create_manager ctx secure_token dto db =
      let user = manager_row ctx secure_token dto in
      pure user (record db {
        users = create user db.users;
        mail_queue =
            if not (password_was_generated dto.password)
            then db.mail_queue
            else db.mail_queue
              ++ record {
                tenant_id = user.tenant_id;
                user_id = user.id;
                to = user.email;
                template = credentials_issued;
                subject_id = user.id;
              }
                ∷ [];
      })

  unfoldable pub list_managers : Context → Action (Db D) (List (User D))
  list_managers ctx = gets λ (db : Db D).
      order_by asc (λ u. u.created_at)
        (find_many (λ (u : User D). u.tenant_id == ctx.tenant && is_manager u.role) db.users)

  -- An owner's account is reported like a missing one.
  unfoldable pub find_manager_or_throw : Context → ℕ → Action (Db D) (User D)
  find_manager_or_throw ctx id = do
    found ← gets λ (db : Db D). find_first (λ u. by_id ctx.tenant id u.tenant_id u.id) db.users
    user ← or_throw found (not_found manager_missing)
    throw_if (not (is_manager user.role)) (not_found manager_missing)
    pure user

  -- `user.update({ where: { id }, data })`
  unfoldable pub update_user : Context → ℕ → (User D → User D) → Action (Db D) (User D)
  update_user ctx id f db =
      elim (update (λ (u : User D). by_id ctx.tenant id u.tenant_id u.id) f db.users) [
        | none ↦ or_throw none (not_found record_missing) db
        | some (u, users) ↦ pure u (record db { users = users })
      ]

  unfoldable pub edit_user : UpdateUser D → User D → User D
  edit_user dto u = record u {
    full_name = or_else dto.full_name u.full_name;
    commission_percent = elim dto.commission_percent [
      | none ↦ u.commission_percent
      | some c ↦ column 5 2 c
    ];
    base_salary = elim dto.base_salary [ none ↦ u.base_salary | some b ↦ column 10 2 b ];
    max_discount_percent = elim dto.max_discount_percent [
      | none ↦ u.max_discount_percent
      | some p ↦ column 5 2 p
    ];
  }

  unfoldable pub update_manager : Context → ℕ → UpdateUser D → Action (Db D) (User D)
  update_manager ctx id dto = do find_manager_or_throw ctx id; update_user ctx id (edit_user dto)

  unfoldable pub block_manager : Context → ℕ → Action (Db D) (User D)
  block_manager ctx id = do
    find_manager_or_throw ctx id
    updated ← update_user ctx id (set_active false)
    modify (revoke_all lib sec ctx.now id)
    pure updated

  unfoldable pub unblock_manager : Context → ℕ → Action (Db D) (User D)
  unblock_manager ctx id = do find_manager_or_throw ctx id; update_user ctx id (set_active true)

  -- The data of `deleteManager`: the address becomes free.
  abbrev pub anonymize : ℕ → User D → User D
  anonymize id u = record u {
    is_active = false;
    email = join (join "deleted-" (id_text id)) "@removed.invalid";
    telegram_chat_id = none;
  }

  unfoldable pub delete_manager : Context → ℕ → Action (Db D) (Unit {0})
  delete_manager ctx id = do
    find_manager_or_throw ctx id
    update_user ctx id (anonymize id)
    modify (revoke_all lib sec ctx.now id)

  unfoldable pub get_own_profile : Context → ℕ → Action (Db D) (User D)
  get_own_profile ctx id = do
    found ← gets λ (db : Db D). find_first (λ u. by_id ctx.tenant id u.tenant_id u.id) db.users
    or_throw found (not_found record_missing)

  unfoldable pub update_own_profile : Context → ℕ → Option String → Action (Db D) (User D)
  update_own_profile ctx id full_name =
      update_user ctx id (λ u. record u { full_name = or_else full_name u.full_name })
