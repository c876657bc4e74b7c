-- ===== src/Catalog/Listing.antt =====
-- `findAll` of catalog/products/products.service.ts: both ways of asking keep to the tenant.
use fruct.Prelude.{
  ℕ, String, Bool, true, false, ◌≡◌, refl, arith, inl, inr, List, All, All-map, All-filter,
  Bool-cases, or_else, is_id, filter,
}
use fruct.Action.{ok}
use fruct.Schema.{Db, Product, truthy}
use fruct.Session.{Context}
use fruct.Platform.{Platform}
use fruct.Catalog.Products.{
  ListProductsQuery, has_text, listed_plainly, found_by_search, find_all_products,
}

module _ (lib : Platform) (ilike : String → String → Bool) where
  open lib use {D, find_many, find_many-filter, order_by_text, page, All-order_by_text, All-page}

  -- A product of the tenant, active unless inactive ones are asked for, of the category that is asked for, unless its
  -- id is empty.
  abbrev pub MayBeListed : Context → ListProductsQuery → Product D → Type 0
  MayBeListed ctx query p =
      (p.tenant_id ≡ ctx.tenant)
      × (query.include_inactive ≡ false → p.is_active ≡ true)
      × (truthy query.category_id ≡ true → is_id p.category_id (or_else query.category_id 0) ≡ true)

  -- What is found, ordered and cut to a page, is among what the test accepts.
  paged :
      (P : Product D → Type 0) (p : Product D → Bool) (take skip : ℕ) (rows : List (Product D))
      → ((a : Product D) → p a ≡ true → P a)
      → All P (page take skip (order_by_text (λ p. p.name) (find_many p rows)))
  paged P p take skip rows h = All-page P take skip _ (
      All-order_by_text P (λ p. p.name) _
        (rw (find_many-filter p rows) (All-map _ _ (filter p rows) h (All-filter p rows))))

  -- The list of products is answered without a change of state and holds, also where it comes from the raw query of a
  -- search, nothing but products of the tenant, active ones unless inactive ones are asked for, and of the category that is
  -- asked for, if its id is not empty.
  pub find_all_products_lem :
      (ctx : Context) (query : ListProductsQuery) (db : Db D)
      → (listed : List (Product D)) × (find_all_products lib ilike ctx query db ≡ (ok listed, db))
        × All (MayBeListed ctx query) listed
  unfolding find_all_products
  find_all_products_lem ctx query db = elim (Bool-cases (has_text query.search)) [
    | inl searched ↦ rw searched (
      _,
      refl,
      paged (MayBeListed ctx query) (found_by_search lib ilike ctx (or_else query.search "") query)
          _ _ db.products (λ p h. (ground arith, λ e. ground arith, λ e. ground (arith, e))),
    )
    | inr plain ↦ rw plain (
      _,
      refl,
      paged (MayBeListed ctx query) (listed_plainly lib ilike ctx query) _ _ db.products
          (λ p h. (ground arith, λ e. ground arith, λ e. ground (arith, e))),
    )
  ]
