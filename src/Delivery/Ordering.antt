-- ===== src/Delivery/Ordering.antt =====
-- The order of the variants in `quote` of delivery-calc/delivery-calc.service.ts.
use fruct.Prelude.{
  ℕ, Bool, false, ◌≡◌, arith, inl, inr, List, [], ◌∷◌, All, insert_sorted, sort, Bool-cases,
}
use fruct.Platform.{Platform}
use fruct.Schema.{DeliveryOption}
use fruct.Delivery.{Variant, is_local, comes_first}
use fruct.Delivery.Estimator.{Remote}
use fruct.Delivery.Cache.{Texts, Redis}

-- No local variant stands behind one from another city.
abbrev pub LocalFirst : {D : Type 0} → List (Variant D) → Type 0
LocalFirst [] = Unit {0}
LocalFirst (v ∷ vs) =
    (is_local v.kind ≡ false → All (λ w. is_local w.kind ≡ false) vs) × LocalFirst vs

module _ (lib : Platform) (remote : Remote lib) (texts : Texts lib.D) (hundredths : lib.D → ℕ)
    (new_id : ℕ → ℕ) (seen : ℕ → Redis) (options : List (DeliveryOption lib.D)) where
  open lib use {D}

  abbrev first_of : Variant D → Variant D → Bool
  first_of = comes_first lib remote texts hundredths new_id seen options

  insert_remote :
      (v : Variant D) (vs : List (Variant D))
      → is_local v.kind ≡ false
      → All (λ w. is_local w.kind ≡ false) vs
      → All (λ w. is_local w.kind ≡ false) (insert_sorted first_of v vs)
  insert_remote v [] e h = (e, tt)
  insert_remote v (w ∷ vs) e h = elim (Bool-cases (first_of w v)) [
    | inl later ↦ rw later (h.0, insert_remote v vs e h.1)
    | inr here ↦ rw here (e, h)
  ]

  insert_sorted-LocalFirst :
      (v : Variant D) (vs : List (Variant D))
      → LocalFirst vs
      → LocalFirst (insert_sorted first_of v vs)
  insert_sorted-LocalFirst v [] h = (λ _. tt, tt)
  insert_sorted-LocalFirst v (w ∷ vs) h = elim (Bool-cases (first_of w v)) [
    | inl later ↦
        rw later (λ e. insert_remote v vs (ground arith) (h.0 e), insert_sorted-LocalFirst v vs h.1)
    | inr here ↦ rw here (
      λ e. let remote_too : is_local w.kind ≡ false = ground arith in (remote_too, h.0 remote_too),
      h,
    )
  ]

  pub sort-LocalFirst : (vs : List (Variant D)) → LocalFirst (sort first_of vs)
  sort-LocalFirst [] = tt
  sort-LocalFirst (v ∷ vs) = insert_sorted-LocalFirst v (sort first_of vs) (sort-LocalFirst vs)
