-- ===== src/Delivery/Building.antt =====
-- `buildVariant` of delivery-calc/delivery-calc.service.ts returns, whatever the estimator does.
use fruct.Prelude.{
  ℕ, Bool, true, false, ◌+◌, ◌≡◌, refl, sym, ap, ◌∙◌, arith, inl, inr, List, [], ◌∷◌, All, filter,
  length, length-append, Bool-cases, Option-cases, String,
}
use fruct.Action.{Result, Result-cases, ok, err}
use fruct.Schema.{Db, Warehouse, DeliveryOption}
use fruct.Session.{Context}
use fruct.Platform.{Platform}
use fruct.Delivery.{
  DeliveryState, Variant, local, quoted, unquoted, is_local, is_same_city, find_estimate,
  price_variant, build_variant, build_variants, quote_row, variant,
}
use fruct.Delivery.Estimator.{Remote, DeliveryEstimate, estimate}
use fruct.Delivery.Cache.{Texts, Redis, cache_get, cache_set}

abbrev pub is_quoted : {D : Type 0} → Variant D → Bool
is_quoted v = elim v.kind [ local options ↦ false | quoted q ↦ true | unquoted e ↦ false ]

module _ (lib : Platform) (remote : Remote lib) (texts : Texts lib.D) (hundredths : lib.D → ℕ)
    (new_id : ℕ → ℕ) (seen : ℕ → Redis) where
  open lib use {
    D, zero_decimal, find_many, find_many-filter, find_first-find, create-rows, order_by_decimal,
  }

  -- A variant of a warehouse is local exactly in its own city.
  abbrev pub IsVariantOf : String → Warehouse → Variant D → Type 0
  IsVariantOf city w v =
      (v.warehouse_id ≡ w.id)
      × (is_local v.kind ≡ is_same_city lib remote texts hundredths new_id seen w city)

  -- The variants are those of the warehouses, one for each: whatever is asked of an id and of being
  -- local, as many variants as warehouses have it.
  abbrev pub Matches : String → List Warehouse → List (Variant D) → Type 0
  Matches city ws vs =
      (q : ℕ → Bool → Bool)
      → length (filter (λ v. q v.warehouse_id (is_local v.kind)) vs)
        ≡ length
            (filter (λ w. q w.id (is_same_city lib remote texts hundredths new_id seen w city)) ws)

  -- What a step of the answer leaves: the tables but for new quotes, as many as it says.
  abbrev pub Adds : ℕ → DeliveryState D → DeliveryState D → Type 0
  Adds n s s' =
      (s'.db ≡ record s.db { delivery_quotes = s'.db.delivery_quotes })
      × (length s'.db.delivery_quotes ≡ length s.db.delivery_quotes + n)

  find_estimate-returns :
      (w : Warehouse) (city : String) (weight : D) (s : DeliveryState D)
      → (found : Result (DeliveryEstimate D)) × (s' : DeliveryState D) × (find_estimate lib remote
            texts hundredths new_id seen w city weight s
          ≡ (ok found, s'))
        × (s'.db ≡ s.db)
  unfolding find_estimate
  find_estimate-returns w city weight s =
      elim (Option-cases (cache_get texts w.city city (hundredths weight) (seen w.id))) [
        | inr (e, hit) ↦ (ok e, s, ground (arith, hit), refl)
        | inl miss ↦
            elim (Result-cases (
              estimate lib remote
                (record { from_city = w.city; to_city = city; weight_kg = weight }))) [
                  | inl (e, given) ↦ (
                    ok e,
                    record s { redis = cache_set texts w.city city (hundredths weight) e s.redis },
                    ground (arith, miss, given),
                    refl,
                  )
                  | inr (e, failed) ↦ (err e, s, ground (arith, miss, failed), refl)
                ]
      ]

  price_variant-returns :
      (ctx : Context) (w : Warehouse) (city : String) (weight : D)
      (found : Result (DeliveryEstimate D)) (s : DeliveryState D)
      → (v : Variant D) × (s' : DeliveryState D) × (price_variant lib remote texts hundredths new_id
            seen ctx w city weight found s
          ≡ (ok v, s'))
        × (v.warehouse_id ≡ w.id)
        × (is_local v.kind ≡ false)
        × Adds (length (filter is_quoted (v ∷ []))) s s'
  unfolding price_variant
  price_variant-returns ctx w city weight (err e) s = (_, s, refl, refl, refl, (refl, omega arith))
  price_variant-returns ctx w city weight (ok e) s =
      let row = quote_row lib remote texts hundredths new_id seen ctx w city weight e in
      (
        _,
        _,
        refl,
        refl,
        refl,
        (
          refl,
          rw (create-rows row s.db.delivery_quotes) (length-append s.db.delivery_quotes (row ∷ [])),
        ),
      )

  build_variant-returns :
      (ctx : Context) (options : List (DeliveryOption D)) (city : String) (weight : D)
      (w : Warehouse) (s : DeliveryState D)
      → (v : Variant D) × (s' : DeliveryState D) × (build_variant lib remote texts hundredths new_id
            seen ctx options city weight w s
          ≡ (ok v, s'))
        × IsVariantOf city w v
        × Adds (length (filter is_quoted (v ∷ []))) s s'
  unfolding build_variant
  build_variant-returns ctx options city weight w s =
      elim (Bool-cases (is_same_city lib remote texts hundredths new_id seen w city)) [
        | inl here ↦ (
          variant lib remote texts hundredths new_id seen w (local options),
          s,
          ground (arith, here),
          (refl, sym here),
          (refl, omega arith),
        )
        | inr away ↦
            let (found, mid, got, same) = find_estimate-returns w city weight s in
            let (v, last, priced, id, remote_one, (rest, more)) =
              price_variant-returns ctx w city weight found mid in
            (
              v,
              last,
              ground (arith, away, got, priced),
              (id, remote_one ∙ sym away),
              (
                rest
                    ∙ ap (λ (db : Db D). record db { delivery_quotes = last.db.delivery_quotes })
                        same,
                more
                    ∙ ap
                        (λ (db : Db D).
                          length db.delivery_quotes + length (filter is_quoted (v ∷ [])))
                        same,
              ),
            )
      ]

  length-filter-cons :
      {A : Type 0} (p : A → Bool) (x : A) (xs : List A)
      → length (filter p (x ∷ xs)) ≡ length (filter p (x ∷ [])) + length (filter p xs)
  length-filter-cons p x xs = ground arith

  pub build_variants-returns :
      (ctx : Context) (options : List (DeliveryOption D)) (city : String) (weight : D)
      (ws : List Warehouse) (s : DeliveryState D)
      → (P : Variant D → Type 0)
      → All (λ (w : Warehouse). (v : Variant D) → IsVariantOf city w v → P v) ws
      → (vs : List (Variant D)) × (s' : DeliveryState D) × (build_variants lib remote texts
            hundredths new_id seen ctx options city weight ws s
          ≡ (ok vs, s'))
        × Matches city ws vs
        × All P vs
        × Adds (length (filter is_quoted vs)) s s'
  unfolding build_variants
  build_variants-returns ctx options city weight [] s P h =
      ([], s, refl, λ q. refl, tt, (refl, omega arith))
  build_variants-returns ctx options city weight (w ∷ ws) s P h =
      let (v, mid, got, of_w, (rest, more)) = build_variant-returns ctx options city weight w s in
      let (vs, last, later, count, all, (rest', more')) =
        build_variants-returns ctx options city weight ws mid P h.1 in
      (
        v ∷ vs,
        last,
        ground (arith, got, later),
        λ q. ground (arith, count q, of_w.0, of_w.1),
        (h.0 v of_w, all),
        (
          rest' ∙ ap (λ (db : Db D). record db { delivery_quotes = last.db.delivery_quotes }) rest,
          omega (arith, more, more', length-filter-cons is_quoted v vs),
        ),
      )
