-- ===== src/Prelude/Tables.antt =====
-- Tables whose rows have a unique key, and what an update leaves alone.
use Prim.Native.Nat.{ℕ, ◌+◌, ◌≤◌}
use mathlib.Core.Path.{◌≡◌, refl, sym, ◌∙◌}
use mathlib.Core.Logic.{◌≢◌, inl, inr}
use mathlib.Core.Bool.{Bool, true, false, not, ◌&&◌}
use mathlib.Core.Option.{none, some}
use mathlib.Core.List.{List, [], ◌∷◌, ◌++◌}
use native.Mathlib.Omega.{arith}
use fruct.Prelude.Lists.{
  All, All-append, All-map, All-sub_filter, All-update_rows, Pointwise, any, find, filter, length,
  update_rows, sum,
}
use fruct.Prelude.Tests.{Bool-cases, if◌then◌else◌}

module _ {A : Type 0} where
  -- No two rows have the same key.
  abbrev pub Unique : (A → ℕ) → List A → Type 0
  Unique key [] = Unit {0}
  Unique key (x ∷ xs) = All (λ y. key y ≢ key x) xs × Unique key xs

  module _ (key : A → ℕ) (p : A → Bool) (k : ℕ) (at_key : (a : A) → p a ≡ true → key a ≡ k) where
    no_other :
        (xs : List A) (x : A) → key x ≡ k → All (λ y. key y ≢ key x) xs → All (λ y. p y ≡ false) xs
    no_other [] x e h = tt
    no_other (y ∷ xs) x e h = (ground (arith, at_key y), no_other xs x e h.1)

    -- A test that fixes the key accepts no row but the one that is found.
    pub found_only :
        (xs : List A) (x : A)
        → Unique key xs
        → find p xs ≡ some x
        → All (λ y. p y ≡ true → y ≡ x) xs
    found_only [] x u e = tt
    found_only (y ∷ xs) x u e = elim (Bool-cases (p y)) [
      | inl hit ↦
          (λ _. ground arith, All-map _ _ xs (λ a miss h. cc) (no_other xs y (at_key y hit) u.0))
      | inr miss ↦ (λ h. cc, found_only xs x u.1 (ground arith))
    ]

  -- Rows that a test rejects before and after an update are left as they were.
  pub filter-update_rows :
      (q p : A → Bool) (f : A → A) (xs : List A)
      → All (λ a. p a ≡ true → (q a ≡ false) × (q (f a) ≡ false)) xs
      → filter q (update_rows p f xs) ≡ filter q xs
  filter-update_rows q p f [] h = refl
  filter-update_rows q p f (x ∷ xs) h = ground (arith, h.0, filter-update_rows q p f xs h.1)

  pub filter-filter-not :
      (q p : A → Bool) (xs : List A)
      → All (λ a. p a ≡ true → q a ≡ false) xs
      → filter q (filter (λ a. not (p a)) xs) ≡ filter q xs
  filter-filter-not q p [] h = refl
  filter-filter-not q p (x ∷ xs) h = ground (arith, h.0, filter-filter-not q p xs h.1)

  -- A sum changes by what the update does to the row that the test accepts.
  pub sum-update_rows :
      (m : A → ℕ) (p : A → Bool) (f : A → A) (xs : List A)
      → sum m (update_rows p f xs) + sum m (filter p xs)
        ≡ sum m xs + sum (λ a. m (f a)) (filter p xs)
  sum-update_rows m p f [] = refl
  sum-update_rows m p f (x ∷ xs) = ground (arith, sum-update_rows m p f xs)

  -- The row that was found is found again, rewritten, if it still passes the test.
  pub find-update_rows :
      (p : A → Bool) (f : A → A) (xs : List A) (x : A)
      → find p xs ≡ some x
      → p (f x) ≡ true
      → find p (update_rows p f xs) ≡ some (f x)
  find-update_rows p f [] x e h = cc
  find-update_rows p f (y ∷ xs) x e h = elim (Bool-cases (p y)) [
    | inl hit ↦ ground arith
    | inr miss ↦ ground (arith, find-update_rows p f xs x)
  ]

  pub any-filter-not :
      (q p : A → Bool) (xs : List A)
      → ((a : A) → q a ≡ true → p a ≡ false)
      → any q xs ≡ true
      → any q (filter (λ a. not (p a)) xs) ≡ true
  any-filter-not q p [] h e = e
  any-filter-not q p (x ∷ xs) h e = ground (arith, h x, any-filter-not q p xs h)

  pub length-filter-update_rows :
      (q p : A → Bool) (f : A → A) (xs : List A)
      → ((a : A) → q (f a) ≡ q a)
      → length (filter q (update_rows p f xs)) ≡ length (filter q xs)
  length-filter-update_rows q p f [] h = refl
  length-filter-update_rows q p f (x ∷ xs) h =
      ground (arith, h x, length-filter-update_rows q p f xs h)

  pub length-filter-and_le :
      (p q : A → Bool) (xs : List A) → length (filter (λ a. p a && q a) xs) ≤ length (filter p xs)
  length-filter-and_le p q [] = omega arith
  length-filter-and_le p q (x ∷ xs) = ground (arith, length-filter-and_le p q xs)

  pub length-filter-append :
      (p : A → Bool) (xs : List A) (x : A)
      → length (filter p (xs ++ x ∷ [])) ≡ length (filter p xs) + (length (filter p (x ∷ [])))
  length-filter-append p [] x = omega arith
  length-filter-append p (y ∷ xs) x = ground (arith, length-filter-append p xs x)

  pub length-filter-none :
      (p : A → Bool) (xs : List A) → find p xs ≡ none → length (filter p xs) ≡ 0
  length-filter-none p [] e = refl
  length-filter-none p (y ∷ xs) e = ground (arith, length-filter-none p xs)

  pub length-filter-some :
      (p : A → Bool) (xs : List A) (x : A) → find p xs ≡ some x → 1 ≤ length (filter p xs)
  length-filter-some p [] x e = absurd (ground arith)
  length-filter-some p (y ∷ xs) x e = ground (arith, length-filter-some p xs x)

  -- A constant summed over one row.
  pub sum_one : (k : ℕ) (xs : List A) → length xs ≡ 1 → sum (λ _. k) xs ≡ k
  sum_one k [] e = absurd (omega arith)
  sum_one k (x ∷ []) e = omega arith
  sum_one k (x ∷ y ∷ xs) e = absurd (omega arith)

  -- Of a table with unique keys a test that fixes the key accepts one row.
  module _ (key : A → ℕ) (p : A → Bool) (k : ℕ) (at_key : (a : A) → p a ≡ true → key a ≡ k) where
    filter_none : (xs : List A) → All (λ y. p y ≡ false) xs → filter p xs ≡ []
    filter_none [] h = refl
    filter_none (x ∷ xs) h = ground (arith, filter_none xs h.1)

    pub filter-found :
        (xs : List A) (x : A) → Unique key xs → find p xs ≡ some x → filter p xs ≡ x ∷ []
    filter-found [] x u e = cc
    filter-found (y ∷ xs) x u e = elim (Bool-cases (p y)) [
      | inl hit ↦ ground (arith, filter_none xs (no_other key p k at_key xs y (at_key y hit) u.0))
      | inr miss ↦ ground (arith, filter-found xs x u.1)
    ]

  -- An update that keeps the keys keeps them unique.
  pub Unique-update_rows :
      (key : A → ℕ) (p : A → Bool) (f : A → A) (xs : List A)
      → ((a : A) → key (f a) ≡ key a)
      → Unique key xs
      → Unique key (update_rows p f xs)
  Unique-update_rows key p f [] same u = tt
  Unique-update_rows key p f (x ∷ xs) same u = (
    All-update_rows _ _ p f xs (λ a ne e. ne (sym (kept a) ∙ e ∙ kept x)) u.0,
    Unique-update_rows key p f xs same u.1,
  )
    where
      kept : (a : A) → key (if p a then f a else a) ≡ key a
      kept a = ground (arith, same a)

  pub Unique-filter :
      (key : A → ℕ) (p : A → Bool) (xs : List A) → Unique key xs → Unique key (filter p xs)
  Unique-filter key p [] u = tt
  Unique-filter key p (x ∷ xs) u = elim (Bool-cases (p x)) [
    | inl hit ↦ rw hit (All-sub_filter _ p xs u.0, Unique-filter key p xs u.1)
    | inr miss ↦ rw miss (Unique-filter key p xs u.1)
  ]

  pub Unique-append :
      (key : A → ℕ) (xs : List A) (x : A)
      → Unique key xs
      → All (λ y. key y ≢ key x) xs
      → Unique key (xs ++ x ∷ [])
  Unique-append key [] x u h = (tt, tt)
  Unique-append key (y ∷ xs) x u h =
      (All-append _ xs (x ∷ []) u.0 (λ e. h.0 (sym e), tt), Unique-append key xs x u.1 h.1)

  -- Rows that keep their keys one by one keep them unique.
  module _ (key : A → ℕ) (R : A → A → Type 0) (same : (a b : A) → R a b → key b ≡ key a) where
    none_of-Pointwise :
        (xs ys : List A) (x y : A)
        → R x y
        → Pointwise R xs ys
        → All (λ a. key a ≢ key x) xs
        → All (λ a. key a ≢ key y) ys
    none_of-Pointwise [] [] x y r h k = tt
    none_of-Pointwise [] (b ∷ ys) x y r h k = absurd h
    none_of-Pointwise (a ∷ xs) [] x y r h k = absurd h
    none_of-Pointwise (a ∷ xs) (b ∷ ys) x y r h k =
        (λ e. k.0 (sym (same a b h.0) ∙ e ∙ same x y r), none_of-Pointwise xs ys x y r h.1 k.1)

    pub Unique-Pointwise : (xs ys : List A) → Pointwise R xs ys → Unique key xs → Unique key ys
    Unique-Pointwise [] [] h u = tt
    Unique-Pointwise [] (b ∷ ys) h u = absurd h
    Unique-Pointwise (a ∷ xs) [] h u = absurd h
    Unique-Pointwise (a ∷ xs) (b ∷ ys) h u =
        (none_of-Pointwise xs ys a b h.0 h.1 u.0, Unique-Pointwise xs ys h.1 u.1)
