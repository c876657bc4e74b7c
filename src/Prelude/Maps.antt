-- ===== src/Prelude/Maps.antt =====
-- `Map` of JavaScript, from ids: the entries in the order of their insertion.
use Prim.Native.Nat.{ℕ}
use mathlib.Core.Path.{◌≡◌, subst}
use mathlib.Core.Logic.{inl, inr}
use mathlib.Core.Option.{Option, none, some}
use mathlib.Core.List.{List, [], ◌∷◌}
use native.Mathlib.Omega.{arith}
use fruct.Prelude.Lists.{All}
use fruct.Prelude.Tests.{if◌then◌else◌, ◌==◌, Bool-cases}

module _ {V : Type 0} where
  abbrev pub map_get : ℕ → List (ℕ × V) → Option V
  map_get k [] = none
  map_get k ((j, v) ∷ m) = let rest = map_get k m in if j == k then some v else rest

  -- An entry that is there keeps its place.
  abbrev pub map_set : ℕ → V → List (ℕ × V) → List (ℕ × V)
  map_set k v [] = (k, v) ∷ []
  map_set k v ((j, w) ∷ m) =
      let rest = map_set k v m in if j == k then (j, v) ∷ m else (j, w) ∷ rest

  abbrev pub keys : List (ℕ × V) → List ℕ
  keys [] = []
  keys ((k, v) ∷ m) = k ∷ keys m

  -- What holds of every entry holds after another one is set.
  pub All-map_set :
      (P : ℕ → V → Type 0) (k : ℕ) (v : V) (m : List (ℕ × V))
      → P k v
      → All (λ e. P e.0 e.1) m
      → All (λ e. P e.0 e.1) (map_set k v m)
  All-map_set P k v [] new_one h = (new_one, tt)
  All-map_set P k v ((j, w) ∷ m) new_one h = elim (Bool-cases (j == k)) [
    | inl same ↦ let here : k ≡ j = ground arith in rw same (subst (λ i. P i v) here new_one, h.1)
    | inr other ↦ rw other (h.0, All-map_set P k v m new_one h.1)
  ]

  pub map_get-All :
      (P : ℕ → V → Type 0) (k : ℕ) (m : List (ℕ × V)) (v : V)
      → All (λ e. P e.0 e.1) m
      → map_get k m ≡ some v
      → P k v
  map_get-All P k [] v h e = absurd (ground arith)
  map_get-All P k ((j, w) ∷ m) v h e = elim (Bool-cases (j == k)) [
    | inl same ↦
        let here : j ≡ k = ground arith in
        let found : w ≡ v = ground arith in subst (λ u. P k u) found (subst (λ i. P i w) here h.0)
    | inr other ↦ map_get-All P k m v h.1 (ground arith)
  ]
