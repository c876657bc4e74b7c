-- ===== src/Prelude/Groups.antt =====
-- GROUP BY of an SQL query: the rows in groups of the same key, and counters indexed from zero.
use Prim.Native.Nat.{ℕ, ◌+◌, ◌-◌, ◌<◌}
use mathlib.Core.Path.{◌≡◌, refl}
use mathlib.Core.Logic.{inl, inr}
use mathlib.Core.Bool.{Bool, true}
use mathlib.Core.List.{List, [], ◌∷◌}
use native.Mathlib.Omega.{arith}
use fruct.Prelude.Lists.{filter, length, sum}
use fruct.Prelude.Tests.{Bool-cases, if◌then◌else◌, ◌==◌}

-- A group: one of its rows, whose key stands for the group, and all of them.
pub record Group (A : Type 0) : Type 0 where
  pub sample_row : A
  pub rows : List A

module _ {A : Type 0} (same : A → A → Bool) where
  abbrev pub insert_row : A → List (Group A) → List (Group A)
  insert_row a [] = record { sample_row = a; rows = a ∷ [] } ∷ []
  insert_row a (g ∷ gs) =
      let rest = insert_row a gs in
      if same a g.sample_row then record g { rows = a ∷ g.rows } ∷ gs else g ∷ rest

  abbrev pub group_rows : List A → List (Group A)
  group_rows [] = []
  group_rows (a ∷ xs) = insert_row a (group_rows xs)

  insert_row-sum :
      (m : A → ℕ) (a : A) (gs : List (Group A))
      → sum (λ g. sum m g.rows) (insert_row a gs) ≡ m a + sum (λ g. sum m g.rows) gs
  insert_row-sum m a [] = omega arith
  insert_row-sum m a (g ∷ gs) = elim (Bool-cases (same a g.sample_row)) [
    | inl hit ↦ rw hit omega arith
    | inr miss ↦ rw miss omega (arith, insert_row-sum m a gs)
  ]

  -- The sums of the groups add up to the sum of the rows.
  pub group_rows-sum :
      (m : A → ℕ) (xs : List A) → sum (λ g. sum m g.rows) (group_rows xs) ≡ sum m xs
  group_rows-sum m [] = refl
  group_rows-sum m (a ∷ xs) = omega (arith, insert_row-sum m a (group_rows xs), group_rows-sum m xs)

  -- What the rows of a group have in common can be read off the row that stands for it.
  module _ (p : A → Bool) (agree : (a b : A) → same a b ≡ true → p a ≡ p b) where
    insert_row-count :
        (a : A) (gs : List (Group A))
        → sum (λ g. if p g.sample_row then length g.rows else 0) (insert_row a gs)
          ≡ (if p a then 1 else 0) + sum (λ g. if p g.sample_row then length g.rows else 0) gs
    insert_row-count a [] = ground arith
    insert_row-count a (g ∷ gs) = elim (Bool-cases (same a g.sample_row)) [
      | inl hit ↦ rw hit ground (arith, agree a g.sample_row hit)
      | inr miss ↦ rw miss omega (arith, insert_row-count a gs)
    ]

    pub group_rows-count :
        (xs : List A)
        → sum (λ g. if p g.sample_row then length g.rows else 0) (group_rows xs)
          ≡ length (filter p xs)
    group_rows-count [] = refl
    group_rows-count (a ∷ xs) =
        ground (arith, insert_row-count a (group_rows xs), group_rows-count xs)

abbrev pub at_index : ℕ → List ℕ → ℕ
at_index i [] = 0
at_index i (x ∷ xs) = let rest = at_index (i - 1) xs in if i == 0 then x else rest

-- `counters[i] += v`, for an index of the array.
abbrev pub add_at : ℕ → ℕ → List ℕ → List ℕ
add_at i v [] = []
add_at i v (x ∷ xs) = let rest = add_at (i - 1) v xs in if i == 0 then (x + v) ∷ xs else x ∷ rest

pub length-add_at : (i v : ℕ) (xs : List ℕ) → length (add_at i v xs) ≡ length xs
length-add_at i v [] = refl
length-add_at i v (x ∷ xs) = ground (arith, length-add_at (i - 1) v xs)

pub at_index-add_at :
    (i j v : ℕ) (xs : List ℕ)
    → i < length xs
    → at_index j (add_at i v xs) ≡ at_index j xs + (if i == j then v else 0)
at_index-add_at i j v [] lt = absurd (omega arith)
at_index-add_at i j v (x ∷ xs) lt = ground (arith, at_index-add_at (i - 1) (j - 1) v xs)
