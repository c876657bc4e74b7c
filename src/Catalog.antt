-- ===== src/Catalog.antt =====
-- catalog/categories, catalog/delivery-options and catalog/warehouses: the three services, method by method.
pub mod Products
pub mod Listing
pub mod Removal
mod Tests
use fruct.Prelude.{
  ℕ, String, Bool, true, false, not, ◌&&◌, ◌==◌, Option, none, some, List, [], ◌∷◌, or_else, given,
  is_id, if◌then◌else◌,
}
use fruct.Action.{
  Action, Reason, category_missing, option_missing, warehouse_missing, not_found, record_missing,
  pure, gets, modify, or_throw, ◌>>=◌, ◌>>◌,
}
use fruct.Schema.{Db, Category, Product, Warehouse, DeliveryOption, Deal}
use fruct.Session.{Context, by_id}
use fruct.Platform.{Platform}

-- A table of the database, and how its rows are told apart.
pub record Table (D Row : Type 0) : Type 0 where
  pub rows : Db D → List Row
  pub with_rows : List Row → Db D → Db D
  pub has_id : ℕ → ℕ → Row → Bool
  pub missing : Reason

module _ {D : Type 0} where
  abbrev pub category_table : Table D Category
  category_table = record {
    rows = λ db. db.categories;
    with_rows = λ rows db. record db { categories = rows };
    has_id = λ tenant id c. by_id tenant id c.tenant_id c.id;
    missing = category_missing;
  }

  abbrev pub option_table : Table D (DeliveryOption D)
  option_table = record {
    rows = λ db. db.delivery_options;
    with_rows = λ rows db. record db { delivery_options = rows };
    has_id = λ tenant id o. by_id tenant id o.tenant_id o.id;
    missing = option_missing;
  }

  abbrev pub warehouse_table : Table D Warehouse
  warehouse_table = record {
    rows = λ db. db.warehouses;
    with_rows = λ rows db. record db { warehouses = rows };
    has_id = λ tenant id w. by_id tenant id w.tenant_id w.id;
    missing = warehouse_missing;
  }

-- `findOrThrow`, and the update of the row that follows it.
module _ (lib : Platform) {Row : Type 0} (table : Table lib.D Row) where
  open lib use {D, find_first, update, create, delete}
  open table use {rows, with_rows, has_id, missing}

  unfoldable pub row_or_throw : Context → ℕ → Action (Db D) Row
  row_or_throw ctx id = do
    found ← gets λ (db : Db D). find_first (has_id ctx.tenant id) (rows db)
    or_throw found (not_found missing)

  unfoldable pub edit_or_throw : Context → ℕ → (Row → Row) → Action (Db D) Row
  unfolding row_or_throw
  edit_or_throw ctx id edit = do
    _ ← row_or_throw ctx id
    updated ← gets λ (db : Db D). update (has_id ctx.tenant id) edit (rows db)
    (row, changed) ← or_throw updated (not_found record_missing)
    modify (with_rows changed)
    pure row

  unfoldable pub add_row : Row → Action (Db D) Row
  add_row row = do modify λ (db : Db D). with_rows (create row (rows db)) db; pure row

pub record EditDeliveryOption (D : Type 0) : Type 0 where
  pub name : Option String
  pub price : Option D
  pub eta_days : Option ℕ
  pub conditions : Option String

pub record EditWarehouse : Type 0 where
  pub name : Option String
  pub city : Option String
  pub address : Option String

-- ON DELETE SET NULL
abbrev pub without_id : ℕ → Option ℕ → Option ℕ
without_id id none = none
without_id id (some k) = if k == id then none else some k

module _ (lib : Platform) where
  open lib use {D, column, find_many, delete, update_many, order_by_text}

  unfoldable pub create_category : Context → String → Action (Db D) Category
  create_category ctx name =
      add_row lib category_table (record { id = ctx.fresh_id; tenant_id = ctx.tenant; name = name })

  unfoldable pub find_all_categories : Context → Action (Db D) (List Category)
  find_all_categories ctx = gets λ (db : Db D).
      order_by_text (λ c. c.name) (find_many (λ c. c.tenant_id == ctx.tenant) db.categories)

  unfoldable pub update_category : Context → ℕ → Option String → Action (Db D) Category
  update_category ctx id name =
      edit_or_throw lib category_table ctx id
        λ (c : Category). record c { name = or_else name c.name }

  -- The products of the category lose the reference.
  abbrev pub uncategorize : ℕ → Product D → Product D
  uncategorize id p = record p { category_id = without_id id p.category_id }

  unfoldable pub remove_category : Context → ℕ → Action (Db D) (Unit {0})
  remove_category ctx id = do
    category ← row_or_throw lib category_table ctx id
    modify λ (db : Db D). record db {
      categories = delete (λ (c : Category). by_id ctx.tenant id c.tenant_id c.id) db.categories;
      products =
          (update_many (λ (p : Product D). is_id p.category_id category.id)
            (uncategorize category.id) db.products).0;
    }

  unfoldable pub create_delivery_option :
      Context → String → D → Option ℕ → Option String → Action (Db D) (DeliveryOption D)
  create_delivery_option ctx name price eta_days conditions = add_row lib option_table (record {
    id = ctx.fresh_id;
    tenant_id = ctx.tenant;
    name = name;
    price = column 10 2 price;
    eta_days = eta_days;
    conditions = conditions;
  })

  unfoldable pub find_all_delivery_options : Context → Action (Db D) (List (DeliveryOption D))
  find_all_delivery_options ctx = gets λ (db : Db D).
      order_by_text (λ o. o.name)
        (find_many (λ (o : DeliveryOption D). o.tenant_id == ctx.tenant) db.delivery_options)

  abbrev pub edit_delivery_option : EditDeliveryOption D → DeliveryOption D → DeliveryOption D
  edit_delivery_option dto o = record o {
    name = or_else dto.name o.name;
    price = elim dto.price [ none ↦ o.price | some price ↦ column 10 2 price ];
    eta_days = given dto.eta_days o.eta_days;
    conditions = given dto.conditions o.conditions;
  }

  unfoldable pub update_delivery_option :
      Context → ℕ → EditDeliveryOption D → Action (Db D) (DeliveryOption D)
  update_delivery_option ctx id dto =
      edit_or_throw lib option_table ctx id (edit_delivery_option dto)

  -- The deals with the option lose the reference and keep their cost.
  abbrev pub unlink_option : ℕ → Deal D → Deal D
  unlink_option id d = record d { delivery_option_id = without_id id d.delivery_option_id }

  unfoldable pub remove_delivery_option : Context → ℕ → Action (Db D) (Unit {0})
  remove_delivery_option ctx id = do
    option ← row_or_throw lib option_table ctx id
    modify λ (db : Db D). record db {
      delivery_options =
          delete (λ (o : DeliveryOption D). by_id ctx.tenant id o.tenant_id o.id)
            db.delivery_options;
      deals =
          (update_many (λ (d : Deal D). is_id d.delivery_option_id option.id)
            (unlink_option option.id) db.deals).0;
    }

  unfoldable pub create_warehouse :
      Context → String → String → Option String → Action (Db D) Warehouse
  create_warehouse ctx name city address = add_row lib warehouse_table (record {
    id = ctx.fresh_id;
    tenant_id = ctx.tenant;
    name = name;
    city = city;
    address = address;
    is_active = true;
  })

  unfoldable pub find_all_warehouses : Context → Bool → Action (Db D) (List Warehouse)
  find_all_warehouses ctx include_inactive = gets λ (db : Db D).
      order_by_text (λ w. w.name)
        (find_many
          (λ (w : Warehouse).
            w.tenant_id == ctx.tenant && (if include_inactive then true else w.is_active))
          db.warehouses)

  abbrev pub edit_warehouse : EditWarehouse → Warehouse → Warehouse
  edit_warehouse dto w = record w {
    name = or_else dto.name w.name;
    city = or_else dto.city w.city;
    address = given dto.address w.address;
  }

  unfoldable pub update_warehouse : Context → ℕ → EditWarehouse → Action (Db D) Warehouse
  update_warehouse ctx id dto = edit_or_throw lib warehouse_table ctx id (edit_warehouse dto)

  unfoldable pub deactivate_warehouse : Context → ℕ → Action (Db D) Warehouse
  deactivate_warehouse ctx id =
      edit_or_throw lib warehouse_table ctx id λ (w : Warehouse). record w { is_active = false }

  unfoldable pub reactivate_warehouse : Context → ℕ → Action (Db D) Warehouse
  reactivate_warehouse ctx id =
      edit_or_throw lib warehouse_table ctx id λ (w : Warehouse). record w { is_active = true }
