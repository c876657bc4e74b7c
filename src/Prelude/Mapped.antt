-- ===== src/Prelude/Mapped.antt =====
-- A test and a key on the rows that a function has been applied to.
use mathlib.Core.Path.{◌≡◌, refl, sym, ◌∙◌}
use mathlib.Core.Logic.{◌≢◌, inl, inr}
use mathlib.Core.Bool.{Bool, true, false}
use mathlib.Core.List.{List, [], ◌∷◌, map}
use Prim.Native.Nat.{ℕ}
use native.Mathlib.Omega.{arith}
use fruct.Prelude.Lists.{All, filter}
use fruct.Prelude.Tables.{Unique}
use fruct.Prelude.Tests.{Bool-cases}

module _ {A : Type 0} where
  pub filter-map_none :
      (q : A → Bool) (f : A → A) (xs : List A)
      → ((a : A) → q (f a) ≡ false)
      → filter q (map f xs) ≡ []
  filter-map_none q f [] h = refl
  filter-map_none q f (x ∷ xs) h = ground (arith, h x, filter-map_none q f xs h)

  pub filter-map_kept :
      (q : A → Bool) (f : A → A) (xs : List A)
      → ((a : A) → q (f a) ≡ q a)
      → ((a : A) → q a ≡ true → f a ≡ a)
      → filter q (map f xs) ≡ filter q xs
  filter-map_kept q f [] h k = refl
  filter-map_kept q f (x ∷ xs) h k = elim (Bool-cases (q x)) [
    | inl hit ↦ rw (h x) rw hit (cc (k x hit, filter-map_kept q f xs h k))
    | inr miss ↦ rw (h x) rw miss (filter-map_kept q f xs h k)
  ]

  pub Unique-map :
      (key : A → ℕ) (f : A → A) (xs : List A)
      → ((a : A) → key (f a) ≡ key a)
      → Unique key xs
      → Unique key (map f xs)
  Unique-map key f [] same u = tt
  Unique-map key f (x ∷ xs) same u = (others xs u.0, Unique-map key f xs same u.1)
    where
      others : (ys : List A) → All (λ y. key y ≢ key x) ys → All (λ y. key y ≢ key (f x)) (map f ys)
      others [] h = tt
      others (y ∷ ys) h = (λ e. h.0 (sym (same y) ∙ e ∙ same x), others ys h.1)

  pub map-map_kept :
      (g f : A → A) (xs : List A) → ((a : A) → g (f a) ≡ f a) → map g (map f xs) ≡ map f xs
  map-map_kept g f [] h = refl
  map-map_kept g f (x ∷ xs) h = cc (h x, map-map_kept g f xs h)
