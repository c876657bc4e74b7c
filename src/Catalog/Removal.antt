-- ===== src/Catalog/Removal.antt =====
-- `remove` of catalog/categories and catalog/delivery-options.
use fruct.Prelude.{
  ℕ, Bool, true, false, not, ◌≡◌, refl, arith, inl, inr, ◌⊎◌, Option, none, some, List, [], ◌∷◌,
  All, find, filter, update_rows, Bool-cases, is_id, Pointwise, Pointwise-update_rows, All-of,
}
use fruct.Action.{ok, err, not_found, category_missing, option_missing}
use fruct.Schema.{Db, Category, Product, DeliveryOption, Deal}
use fruct.Session.{Context, by_id}
use fruct.Platform.{Platform}
use fruct.Catalog.{
  without_id, uncategorize, unlink_option, remove_category, remove_delivery_option, row_or_throw,
}

module _ (lib : Platform) where
  open lib use {D, find_first-find, delete-rows, update_many-rows}

  abbrev pub at_category : Context → ℕ → Category → Bool
  at_category ctx id c = by_id ctx.tenant id c.tenant_id c.id

  abbrev pub at_option : Context → ℕ → DeliveryOption D → Bool
  at_option ctx id o = by_id ctx.tenant id o.tenant_id o.id

  none_left : {A : Type 0} (p : A → Bool) (xs : List A) → find p (filter (λ a. not (p a)) xs) ≡ none
  none_left p [] = refl
  none_left p (x ∷ xs) = ground (arith, none_left p xs)

  cleared :
      (old changed : Option ℕ) (id : ℕ) → changed ≡ without_id id old → is_id changed id ≡ false
  cleared none changed id e = rw e refl
  cleared (some k) changed id e = rw e ground arith

  no_reference :
      {A : Type 0} (key : A → Option ℕ) (id : ℕ) (f : A → A) (xs : List A)
      → ((a : A) → key (f a) ≡ without_id id (key a))
      → All (λ a. is_id (key a) id ≡ false) (update_rows (λ a. is_id (key a) id) f xs)
  no_reference key id f [] h = tt
  no_reference key id f (x ∷ xs) h = elim (Bool-cases (is_id (key x) id)) [
    | inl hit ↦
        let unset : is_id (key (f x)) id ≡ false = cleared (key x) (key (f x)) id (h x) in
        rw hit (unset, no_reference key id f xs h)
    | inr miss ↦ rw miss (miss, no_reference key id f xs h)
  ]

  -- The row is as it was, or has lost its reference to the id.
  abbrev pub OnlyUnlinked : {A : Type 0} → (A → Option ℕ) → ℕ → (A → A) → A → A → Type 0
  OnlyUnlinked key id f a b = (b ≡ a) ⊎ ((is_id (key a) id ≡ true) × (b ≡ f a))

  unlinked :
      {A : Type 0} (key : A → Option ℕ) (id : ℕ) (f : A → A) (xs : List A)
      → Pointwise (OnlyUnlinked key id f) xs (update_rows (λ a. is_id (key a) id) f xs)
  unlinked key id f xs =
      Pointwise-update_rows (OnlyUnlinked key id f) (λ a. inl refl) (λ a. is_id (key a) id) f xs
        (All-of _ (λ a e. inr (e, refl)) xs)

  remove_category-ok :
      (ctx : Context) (id : ℕ) (db : Db D) (c : Category)
      → find (at_category ctx id) db.categories ≡ some c
      → remove_category lib ctx id db ≡ (
        ok tt,
        record db {
          categories = filter (λ a. not (at_category ctx id a)) db.categories;
          products =
              update_rows
                (λ (a : Product D). is_id a.category_id c.id)
                (uncategorize lib c.id)
                db.products;
        },
      )
  unfolding remove_category row_or_throw
  remove_category-ok ctx id db c e = ground (
    arith,
    e,
    find_first-find (at_category ctx id) db.categories,
    delete-rows (at_category ctx id) db.categories,
    update_many-rows (λ (a : Product D). is_id a.category_id c.id) (uncategorize lib c.id)
        db.products,
  )

  remove_category-err :
      (ctx : Context) (id : ℕ) (db : Db D)
      → find (at_category ctx id) db.categories ≡ none
      → remove_category lib ctx id db ≡ (err (not_found category_missing), db)
  unfolding remove_category row_or_throw
  remove_category-err ctx id db e =
      ground (arith, e, find_first-find (at_category ctx id) db.categories)

  -- A category of the tenant is removed: it is not found any more, every row with another id or of another tenant stays, in
  -- its order, no product has it, every product but for that is as it was, and nothing else in the tables changes. Any other id is answered as not found, and nothing changes.
  pub remove_category_lem :
      (ctx : Context) (id : ℕ) (db : Db D)
      → let r = remove_category lib ctx id db in
        ((c : Category)
          → find (at_category ctx id) db.categories ≡ some c
          → (r.0 ≡ ok tt)
            × (find (at_category ctx id) r.1.categories ≡ none)
            × (r.1.categories ≡ filter (λ a. not (at_category ctx id a)) db.categories)
            × All (λ p. is_id p.category_id c.id ≡ false) r.1.products
            × Pointwise
                (OnlyUnlinked (λ p. p.category_id) c.id (uncategorize lib c.id))
                db.products
                r.1.products
            × (r.1 ≡ record db { categories = r.1.categories; products = r.1.products }))
        × (find (at_category ctx id) db.categories ≡ none
            → r ≡ (err (not_found category_missing), db))
  remove_category_lem ctx id db = (
    λ c e. rw (remove_category-ok ctx id db c e) (
      refl,
      none_left (at_category ctx id) db.categories,
      refl,
      no_reference (λ (a : Product D). a.category_id) c.id (uncategorize lib c.id) db.products
          (λ a. refl),
      unlinked (λ (a : Product D). a.category_id) c.id (uncategorize lib c.id) db.products,
      refl,
    ),
    remove_category-err ctx id db,
  )

  remove_delivery_option-ok :
      (ctx : Context) (id : ℕ) (db : Db D) (o : DeliveryOption D)
      → find (at_option ctx id) db.delivery_options ≡ some o
      → remove_delivery_option lib ctx id db ≡ (
        ok tt,
        record db {
          delivery_options = filter (λ a. not (at_option ctx id a)) db.delivery_options;
          deals =
              update_rows
                (λ (a : Deal D). is_id a.delivery_option_id o.id)
                (unlink_option lib o.id)
                db.deals;
        },
      )
  unfolding remove_delivery_option row_or_throw
  remove_delivery_option-ok ctx id db o e = ground (
    arith,
    e,
    find_first-find (at_option ctx id) db.delivery_options,
    delete-rows (at_option ctx id) db.delivery_options,
    update_many-rows (λ (a : Deal D). is_id a.delivery_option_id o.id) (unlink_option lib o.id)
        db.deals,
  )

  remove_delivery_option-err :
      (ctx : Context) (id : ℕ) (db : Db D)
      → find (at_option ctx id) db.delivery_options ≡ none
      → remove_delivery_option lib ctx id db ≡ (err (not_found option_missing), db)
  unfolding remove_delivery_option row_or_throw
  remove_delivery_option-err ctx id db e =
      ground (arith, e, find_first-find (at_option ctx id) db.delivery_options)

  -- An option of the tenant is removed: it is not found any more, the other rows stay, no deal has it, every deal but for that is as it was, its
  -- delivery cost included, and nothing else in the tables changes. Any other id is answered as not found, and nothing
  -- changes.
  remove_delivery_option_lem :
      (ctx : Context) (id : ℕ) (db : Db D)
      → let r = remove_delivery_option lib ctx id db in
        ((o : DeliveryOption D)
          → find (at_option ctx id) db.delivery_options ≡ some o
          → (r.0 ≡ ok tt)
            × (find (at_option ctx id) r.1.delivery_options ≡ none)
            × (r.1.delivery_options ≡ filter (λ a. not (at_option ctx id a)) db.delivery_options)
            × All (λ d. is_id d.delivery_option_id o.id ≡ false) r.1.deals
            × Pointwise
                (OnlyUnlinked (λ d. d.delivery_option_id) o.id (unlink_option lib o.id))
                db.deals
                r.1.deals
            × (r.1 ≡ record db { delivery_options = r.1.delivery_options; deals = r.1.deals }))
        × (find (at_option ctx id) db.delivery_options ≡ none
            → r ≡ (err (not_found option_missing), db))
  remove_delivery_option_lem ctx id db = (
    λ o e. rw (remove_delivery_option-ok ctx id db o e) (
      refl,
      none_left (at_option ctx id) db.delivery_options,
      refl,
      no_reference (λ (a : Deal D). a.delivery_option_id) o.id (unlink_option lib o.id) db.deals
          (λ a. refl),
      unlinked (λ (a : Deal D). a.delivery_option_id) o.id (unlink_option lib o.id) db.deals,
      refl,
    ),
    remove_delivery_option-err ctx id db,
  )
