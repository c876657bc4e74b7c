-- ===== src/Catalog/Products.antt =====
-- catalog/products/products.service.ts: ProductsService, method by method.
use text.Mathlib.Text.{◌==◌ as str_eq}
use fruct.Prelude.{
  ℕ, String, Bool, true, false, not, ◌&&◌, ◌||◌, ◌==◌, Option, none, some, List, [], or_else, given,
  is_id, if◌then◌else◌,
}
use fruct.Action.{Action, product_missing, gets}
use fruct.Schema.{Db, Product, truthy}
use fruct.Session.{Context, by_id}
use fruct.Platform.{Platform}
use fruct.Catalog.{Table, row_or_throw, edit_or_throw, add_row}

abbrev pub product_table : {D : Type 0} → Table D (Product D)
product_table = record {
  rows = λ db. db.products;
  with_rows = λ rows db. record db { products = rows };
  has_id = λ tenant id p. by_id tenant id p.tenant_id p.id;
  missing = product_missing;
}

pub record CreateProduct (D : Type 0) : Type 0 where
  pub name : String
  pub category_id : Option ℕ
  pub sku : Option String
  pub price : D
  pub cost_price : Option D
  pub weight_kg : Option D
  pub specs : Option String
  pub image_urls : Option (List String)

pub record UpdateProduct (D : Type 0) : Type 0 where
  pub name : Option String
  pub category_id : Option ℕ
  pub sku : Option String
  pub price : Option D
  pub cost_price : Option D
  pub weight_kg : Option D
  pub specs : Option String
  pub image_urls : Option (List String)

pub record ListProductsQuery : Type 0 where
  pub search : Option String
  pub category_id : Option ℕ
  pub include_inactive : Bool
  pub limit : Option ℕ
  pub offset : Option ℕ

-- `query.search` in a condition.
abbrev pub has_text : Option String → Bool
has_text none = false
has_text (some text) = not (str_eq text "")

abbrev pub stored : {D : Type 0} → (D → D) → Option D → Option D
stored column none = none
stored column (some v) = some (column v)

-- `ilike` is the operator of the database: the column, and the pattern `%search%`. It is no match on NULL.
module _ (lib : Platform) (ilike : String → String → Bool) where
  open lib use {D, column, find_many, order_by_text, page}

  abbrev pub created_product : Context → CreateProduct D → Product D
  created_product ctx dto = record {
    id = ctx.fresh_id;
    tenant_id = ctx.tenant;
    category_id = dto.category_id;
    name = dto.name;
    sku = dto.sku;
    price = column 10 2 dto.price;
    cost_price = stored (column 10 2) dto.cost_price;
    weight_kg = stored (column 6 2) dto.weight_kg;
    specs = dto.specs;
    image_urls = or_else dto.image_urls [];
    is_active = true;
  }

  unfoldable pub create_product : Context → CreateProduct D → Action (Db D) (Product D)
  create_product ctx dto = add_row lib product_table (created_product ctx dto)

  abbrev pub listed_plainly : Context → ListProductsQuery → Product D → Bool
  listed_plainly ctx query p =
      p.tenant_id == ctx.tenant
      && (elim query.category_id [ none ↦ true | some id ↦ is_id p.category_id id ])
      && (if query.include_inactive then true else p.is_active)

  abbrev pub ilike_column : Option String → String → Bool
  ilike_column none search = false
  ilike_column (some text) search = ilike text search

  -- The conditions of the raw query; the tenant is one of them.
  abbrev pub found_by_search : Context → String → ListProductsQuery → Product D → Bool
  found_by_search ctx search query p =
      p.tenant_id == ctx.tenant
      && (ilike p.name search || (ilike_column p.sku search || ilike_column p.specs search))
      && (if query.include_inactive then true else p.is_active)
      && (if truthy query.category_id
          then is_id p.category_id (or_else query.category_id 0)
          else true)

  abbrev pub search_by_raw_query : Context → ListProductsQuery → List (Product D) → List (Product D)
  search_by_raw_query ctx query products = page (or_else query.limit 50) (or_else query.offset 0) (
      order_by_text (λ p. p.name)
        (find_many (found_by_search ctx (or_else query.search "") query) products))

  unfoldable pub find_all_products : Context → ListProductsQuery → Action (Db D) (List (Product D))
  find_all_products ctx query = gets λ (db : Db D).
      if has_text query.search
      then search_by_raw_query ctx query db.products
      else page (or_else query.limit 50) (or_else query.offset 0)
          (order_by_text (λ p. p.name) (find_many (listed_plainly ctx query) db.products))

  unfoldable pub find_product : Context → ℕ → Action (Db D) (Product D)
  find_product ctx id = row_or_throw lib product_table ctx id

  abbrev pub keep_or_store : (D → D) → Option D → Option D → Option D
  keep_or_store column none old = old
  keep_or_store column (some v) old = some (column v)

  abbrev pub edit_product : UpdateProduct D → Product D → Product D
  edit_product dto p = record p {
    name = or_else dto.name p.name;
    category_id = given dto.category_id p.category_id;
    sku = given dto.sku p.sku;
    price = elim dto.price [ none ↦ p.price | some price ↦ column 10 2 price ];
    cost_price = keep_or_store (column 10 2) dto.cost_price p.cost_price;
    weight_kg = keep_or_store (column 6 2) dto.weight_kg p.weight_kg;
    specs = given dto.specs p.specs;
    image_urls = or_else dto.image_urls p.image_urls;
  }

  unfoldable pub update_product : Context → ℕ → UpdateProduct D → Action (Db D) (Product D)
  update_product ctx id dto = edit_or_throw lib product_table ctx id (edit_product dto)

  unfoldable pub deactivate_product : Context → ℕ → Action (Db D) (Product D)
  deactivate_product ctx id =
      edit_or_throw lib product_table ctx id λ (p : Product D). record p { is_active = false }

  unfoldable pub reactivate_product : Context → ℕ → Action (Db D) (Product D)
  reactivate_product ctx id =
      edit_or_throw lib product_table ctx id λ (p : Product D). record p { is_active = true }
