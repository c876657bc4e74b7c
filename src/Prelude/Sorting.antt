-- ===== src/Prelude/Sorting.antt =====
-- A stable sort by a strict order, as `Array.prototype.sort` sorts.
use Prim.Native.Nat.{ℕ, suc, ◌+◌, ◌-◌, ◌≤◌, ◌<◌}
use mathlib.Core.Path.{◌≡◌, refl}
use mathlib.Core.Logic.{inl, inr}
use mathlib.Core.Bool.{Bool, true, false, not}
use mathlib.Core.Option.{Option, none, some}
use mathlib.Core.List.{List, [], ◌∷◌}
use native.Mathlib.Omega.{arith}
use fruct.Prelude.Lists.{All, All-map, filter, length}
use fruct.Prelude.Tests.{Bool-cases, if◌then◌else◌, ◌==◌}

module _ {A : Type 0} where
  -- `xs[i]`
  abbrev pub item : ℕ → List A → Option A
  item i [] = none
  item i (x ∷ xs) = let rest = item (i - 1) xs in if i == 0 then some x else rest

  module _ (before : A → A → Bool) where
    abbrev pub insert_sorted : A → List A → List A
    insert_sorted x [] = x ∷ []
    insert_sorted x (y ∷ ys) =
        let rest = insert_sorted x ys in if before y x then y ∷ rest else x ∷ y ∷ ys

    abbrev pub sort : List A → List A
    sort [] = []
    sort (x ∷ xs) = insert_sorted x (sort xs)

    abbrev pub IsSorted : List A → Type 0
    IsSorted [] = Unit {0}
    IsSorted (x ∷ xs) = All (λ y. before y x ≡ false) xs × IsSorted xs

    count-insert_sorted :
        (p : A → Bool) (x : A) (ys : List A)
        → length (filter p (insert_sorted x ys)) ≡ length (filter p (x ∷ ys))
    count-insert_sorted p x [] = refl
    count-insert_sorted p x (y ∷ ys) = elim (Bool-cases (before y x)) [
      | inl later ↦ rw later ground (arith, count-insert_sorted p x ys)
      | inr here ↦ rw here refl
    ]

    -- Sorting keeps how many elements a test accepts.
    pub count-sort :
        (p : A → Bool) (xs : List A) → length (filter p (sort xs)) ≡ length (filter p xs)
    count-sort p [] = refl
    count-sort p (x ∷ xs) = ground (arith, count-insert_sorted p x (sort xs), count-sort p xs)

    length-insert_sorted : (x : A) (ys : List A) → length (insert_sorted x ys) ≡ suc (length ys)
    length-insert_sorted x [] = refl
    length-insert_sorted x (y ∷ ys) = ground (arith, length-insert_sorted x ys)

    pub length-sort : (xs : List A) → length (sort xs) ≡ length xs
    length-sort [] = refl
    length-sort (x ∷ xs) = omega (arith, length-insert_sorted x (sort xs), length-sort xs)

    All-insert_sorted :
        (P : A → Type 0) (x : A) (ys : List A) → P x → All P ys → All P (insert_sorted x ys)
    All-insert_sorted P x [] h k = (h, tt)
    All-insert_sorted P x (y ∷ ys) h k = elim (Bool-cases (before y x)) [
      | inl later ↦ rw later (k.0, All-insert_sorted P x ys h k.1)
      | inr here ↦ rw here (h, k)
    ]

    pub All-sort : (P : A → Type 0) (xs : List A) → All P xs → All P (sort xs)
    All-sort P [] h = tt
    All-sort P (x ∷ xs) h = All-insert_sorted P x (sort xs) h.0 (All-sort P xs h.1)

    module _ (asym : (a b : A) → before a b ≡ true → before b a ≡ false)
        (trans : (a b c : A) → before b a ≡ false → before c b ≡ false → before c a ≡ false) where
      insert_sorted-IsSorted : (x : A) (ys : List A) → IsSorted ys → IsSorted (insert_sorted x ys)
      insert_sorted-IsSorted x [] h = (tt, tt)
      insert_sorted-IsSorted x (y ∷ ys) h = elim (Bool-cases (before y x)) [
        | inl later ↦
            rw later
              (All-insert_sorted _ x ys (asym y x later) h.0, insert_sorted-IsSorted x ys h.1)
        | inr here ↦ rw here ((here, All-map _ _ ys (λ z k. trans x y z here k) h.0), h)
      ]

      pub sort-IsSorted : (xs : List A) → IsSorted (sort xs)
      sort-IsSorted [] = tt
      sort-IsSorted (x ∷ xs) = insert_sorted-IsSorted x (sort xs) (sort-IsSorted xs)

    item-All : (P : A → Type 0) (i : ℕ) (xs : List A) (m : A) → All P xs → item i xs ≡ some m → P m
    item-All P i [] m h e = absurd (ground arith)
    item-All P i (x ∷ xs) m h e = ground (arith, h.0, item-All P (i - 1) xs m h.1)

    filter-All :
        (p : A → Bool) (xs : List A) → All (λ x. p x ≡ true) xs → length (filter p xs) ≡ length xs
    filter-All p [] h = refl
    filter-All p (x ∷ xs) h = ground (arith, h.0, filter-All p xs h.1)

    -- The element at an index of a sorted list: so many are not after it, and so many not before it.
    pub item-rank :
        (irrefl : (a : A) → before a a ≡ false)
        → (i : ℕ) (xs : List A) (m : A) → IsSorted xs
        → item i xs ≡ some m
        → (suc i ≤ length (filter (λ x. not (before m x)) xs))
          × (length xs ≤ length (filter (λ x. not (before x m)) xs) + i)
    item-rank irrefl i [] m h e = absurd (ground arith)
    item-rank irrefl i (x ∷ xs) m h e = elim (Bool-cases (i == 0)) [
      | inl first ↦
          let same : m ≡ x = ground arith in
          let zero_i : i ≡ 0 = ground arith in
          let after : before m x ≡ false = rw same (irrefl x) in
          let not_before : before x m ≡ false = rw same (irrefl x) in
          let all =
            filter-All (λ y. not (before y m)) xs
              (All-map (λ y. before y x ≡ false) (λ y. not (before y m) ≡ true) xs
                (λ y k. rw same rw k refl) h.0) in
          (ground (arith, after, zero_i), ground (arith, not_before, zero_i, all))
      | inr later ↦
          let rest = item-rank irrefl (i - 1) xs m h.1 (ground arith) in
          let after = item-All (λ y. before y x ≡ false) (i - 1) xs m h.0 (ground arith) in
          (ground (arith, rest.0, after), ground (arith, rest.1))
    ]

    pub item-lt : (i : ℕ) (xs : List A) → i < length xs → (m : A) × (item i xs ≡ some m)
    item-lt i [] lt = absurd (omega arith)
    item-lt i (x ∷ xs) lt = elim (Bool-cases (i == 0)) [
      | inl first ↦ (x, rw first refl)
      | inr later ↦ rw later (item-lt (i - 1) xs (ground arith))
    ]
