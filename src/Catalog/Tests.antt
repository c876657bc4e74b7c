-- ===== src/Catalog/Tests.antt =====
-- Examples for catalog/.
use fruct.Prelude.{
  String, Bool, true, false, ◌≡◌, refl, some, none, List, [], ◌∷◌, All, Pointwise, find, filter,
  not, is_id,
}
use fruct.Prelude.Int.{ℤ}
use fruct.Action.{ok, err, not_found, category_missing}
use fruct.Schema.{Db, Category, Product}
use fruct.Platform.Sample.{sample}
use fruct.Samples.{shop, sold, amount, sample_product, request_at}
use fruct.Catalog.{remove_category, uncategorize, row_or_throw, edit_or_throw}
use fruct.Catalog.Products.{ListProductsQuery, find_all_products, deactivate_product}
use fruct.Catalog.Listing.{MayBeListed, find_all_products_lem}
use fruct.Catalog.Removal.{at_category, OnlyUnlinked, remove_category_lem}

-- Chairs are the furniture, and a deal goes by courier.
abbrev furnished : Db ℤ
furnished = record shop {
  categories = record { id = 70; tenant_id = 1; name = "furniture" } ∷ [];
  products = record sample_product { category_id = some 70 } ∷ [];
  delivery_options =
      record {
        id = 80;
        tenant_id = 1;
        name = "courier";
        price = amount 300;
        eta_days = some 1;
        conditions = none;
      }
      ∷ [];
  deals = record sold { delivery_option_id = some 80 } ∷ [];
}

-- Every text matches.
abbrev lenient : String → String → Bool
lenient text search = true

abbrev search_all : ListProductsQuery
search_all = record {
  search = some "cha";
  category_id = some 70;
  include_inactive = false;
  limit = none;
  offset = none;
}

deactivate_product_runs :
    (deactivate_product sample lenient (request_at 9 0) 10 shop).0
    ≡ ok (record sample_product { is_active = false })
unfolding deactivate_product edit_or_throw row_or_throw
deactivate_product_runs = refl

find_all_products_lem_example :
    (listed : List (Product ℤ)) × (find_all_products sample lenient
        (request_at 9 0)
        search_all
        furnished
      ≡ (ok listed, furnished))
    × All (MayBeListed sample lenient (request_at 9 0) search_all) listed
find_all_products_lem_example =
    find_all_products_lem sample lenient (request_at 9 0) search_all furnished

remove_category_lem_example :
    let r = remove_category sample (request_at 9 0) 70 furnished in
    ((c : Category)
      → find (at_category sample (request_at 9 0) 70) furnished.categories ≡ some c
      → (r.0 ≡ ok tt)
        × (find (at_category sample (request_at 9 0) 70) r.1.categories ≡ none)
        × (r.1.categories
            ≡ filter (λ a. not (at_category sample (request_at 9 0) 70 a)) furnished.categories)
        × All (λ p. is_id p.category_id c.id ≡ false) r.1.products
        × Pointwise
            (OnlyUnlinked sample (λ p. p.category_id) c.id (uncategorize sample c.id))
            furnished.products
            r.1.products
        × (r.1 ≡ record furnished { categories = r.1.categories; products = r.1.products }))
    × (find (at_category sample (request_at 9 0) 70) furnished.categories ≡ none
        → r ≡ (err (not_found category_missing), furnished))
remove_category_lem_example = remove_category_lem sample (request_at 9 0) 70 furnished
