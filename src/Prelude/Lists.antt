-- ===== src/Prelude/Lists.antt =====
-- Lists over the native numbers, and the list meaning of a query's where clause.
use Prim.Native.Nat.{ℕ, suc, ◌+◌, ◌-◌, ◌≤◌}
use mathlib.Core.Path.{◌≡◌, refl, ap}
use mathlib.Core.Logic.{inl, inr}
use mathlib.Core.Bool.{Bool, true, false}
use mathlib.Core.Option.{Option, none, some}
use mathlib.Core.List.{List, [], ◌∷◌, ◌++◌, Mem, mem-cons_self, mem-cons_of_mem}
use native.Mathlib.Omega.{arith}
use fruct.Prelude.Tests.{if◌then◌else◌, ◌==◌, Bool-cases}

module _ {ℓ} {A : Type ℓ} where
  abbrev pub length : List A → ℕ
  length [] = 0
  length (x ∷ xs) = suc (length xs)

  -- The first row that a test accepts.
  abbrev pub find : (A → Bool) → List A → Option A
  find p [] = none
  find p (x ∷ xs) = if p x then some x else find p xs

  -- The rows that a test accepts.
  abbrev pub filter : (A → Bool) → List A → List A
  filter p [] = []
  filter p (x ∷ xs) = if p x then x ∷ filter p xs else filter p xs

  -- Rewrites the rows that a test accepts, in place.
  abbrev pub update_rows : (A → Bool) → (A → A) → List A → List A
  update_rows p f [] = []
  update_rows p f (x ∷ xs) = (if p x then f x else x) ∷ update_rows p f xs

  -- A property of every element.
  abbrev pub All {κ} : (A → Type κ) → List A → Type κ
  All P [] = Unit
  All P (x ∷ xs) = P x × All P xs

  abbrev pub any : (A → Bool) → List A → Bool
  any p [] = false
  any p (x ∷ xs) = if p x then true else any p xs

  abbrev pub take : ℕ → List A → List A
  take n [] = []
  take n (x ∷ xs) = let rest = take (n - 1) xs in if n == 0 then [] else x ∷ rest

  abbrev pub drop : ℕ → List A → List A
  drop n [] = []
  drop n (x ∷ xs) = let rest = drop (n - 1) xs in if n == 0 then x ∷ xs else rest

  -- The sum of a measure over a list.
  abbrev pub sum : (A → ℕ) → List A → ℕ
  sum f [] = 0
  sum f (x ∷ xs) = f x + sum f xs

  pub sum-append : (f : A → ℕ) (xs ys : List A) → sum f (xs ++ ys) ≡ sum f xs + sum f ys
  sum-append f [] ys = omega arith
  sum-append f (x ∷ xs) ys = omega (arith, sum-append f xs ys)

  pub append_assoc : (xs ys zs : List A) → (xs ++ ys) ++ zs ≡ xs ++ (ys ++ zs)
  append_assoc [] ys zs = refl
  append_assoc (x ∷ xs) ys zs = ap (λ l. x ∷ l) (append_assoc xs ys zs)

  pub append_nil : (xs : List A) → xs ++ [] ≡ xs
  append_nil [] = refl
  append_nil (x ∷ xs) = ap (λ l. x ∷ l) (append_nil xs)

  pub length-append : (xs ys : List A) → length (xs ++ ys) ≡ length xs + length ys
  length-append [] ys = omega arith
  length-append (x ∷ xs) ys = omega (arith, length-append xs ys)

  pub length-filter-le : (p : A → Bool) (xs : List A) → length (filter p xs) ≤ length xs
  length-filter-le p [] = omega arith
  length-filter-le p (x ∷ xs) = ground (arith, length-filter-le p xs)

  pub All-append {κ} : (P : A → Type κ) (xs ys : List A) → All P xs → All P ys → All P (xs ++ ys)
  All-append P [] ys h k = k
  All-append P (x ∷ xs) ys h k = (h.0, All-append P xs ys h.1 k)

  pub All-map {κ μ} :
      (P : A → Type κ) (Q : A → Type μ) (xs : List A) → ((a : A) → P a → Q a) → All P xs → All Q xs
  All-map P Q [] f h = tt
  All-map P Q (x ∷ xs) f h = (f x h.0, All-map P Q xs f h.1)

  pub All-of {κ} : (P : A → Type κ) → ((a : A) → P a) → (xs : List A) → All P xs
  All-of P h [] = tt
  All-of P h (x ∷ xs) = (h x, All-of P h xs)

  pub All-both {κ μ} :
      (P : A → Type κ) (Q : A → Type μ) (xs : List A)
      → All P xs
      → All Q xs
      → All (λ a. P a × Q a) xs
  All-both P Q [] h k = tt
  All-both P Q (x ∷ xs) h k = ((h.0, k.0), All-both P Q xs h.1 k.1)

  pub any-false : (p : A → Bool) (xs : List A) → any p xs ≡ false → All (λ a. p a ≡ false) xs
  any-false p [] e = tt
  any-false p (x ∷ xs) e = (ground arith, any-false p xs (ground arith))

  -- What holds of every row holds of the row that is found, and the row passes the test.
  pub find-All {κ} :
      (P : A → Type κ) (p : A → Bool) (xs : List A) (x : A)
      → All P xs
      → find p xs ≡ some x
      → P x × (p x ≡ true)
  find-All P p [] x h e = cc
  find-All P p (y ∷ xs) x h e = ground (arith, find-All P p xs x h.1)

  pub All-filter : (p : A → Bool) (xs : List A) → All (λ x. p x ≡ true) (filter p xs)
  All-filter p [] = tt
  All-filter p (x ∷ xs) = elim (Bool-cases (p x)) [
    | inl hit ↦ rw hit (hit, All-filter p xs)
    | inr miss ↦ rw miss (All-filter p xs)
  ]

  -- What a test keeps passes it, and is from the list.
  pub All-filter_Mem :
      (p : A → Bool) (xs : List A) → All (λ x. (p x ≡ true) × Mem x xs) (filter p xs)
  All-filter_Mem p [] = tt
  All-filter_Mem p (x ∷ xs) =
      let kept = All-map _ _ _ (λ a h. (h.0, mem-cons_of_mem x h.1)) (All-filter_Mem p xs) in
      elim (Bool-cases (p x)) [
        | inl hit ↦ rw hit ((hit, mem-cons_self), kept)
        | inr miss ↦ rw miss kept
      ]

  pub All-sub_filter {κ} :
      (P : A → Type κ) (q : A → Bool) (xs : List A) → All P xs → All P (filter q xs)
  All-sub_filter P q [] h = tt
  All-sub_filter P q (x ∷ xs) h = elim (Bool-cases (q x)) [
    | inl hit ↦ rw hit (h.0, All-sub_filter P q xs h.1)
    | inr miss ↦ rw miss (All-sub_filter P q xs h.1)
  ]

  pub find_holds : (p : A → Bool) (xs : List A) (x : A) → find p xs ≡ some x → p x ≡ true
  find_holds p [] x e = cc
  find_holds p (y ∷ xs) x e = ground (arith, find_holds p xs x)

  -- After an update every row satisfies what the rewritten rows and the rows left alone satisfy.
  pub All-update_rows {κ μ} :
      (P : A → Type κ) (Q : A → Type μ) (p : A → Bool) (f : A → A) (xs : List A)
      → ((a : A) → P a → Q (if p a then f a else a))
      → All P xs
      → All Q (update_rows p f xs)
  All-update_rows P Q p f [] k h = tt
  All-update_rows P Q p f (x ∷ xs) k h = (k x h.0, All-update_rows P Q p f xs k h.1)

-- `Array.prototype.includes` on ids.
abbrev pub contains : ℕ → List ℕ → Bool
contains k [] = false
contains k (j ∷ js) = if j == k then true else contains k js

-- Two lists of the same length, element by element.
abbrev pub Pointwise {ℓ} : {A : Type ℓ} → (A → A → Type 0) → List A → List A → Type 0
Pointwise R [] [] = Unit
Pointwise R (x ∷ xs) (y ∷ ys) = R x y × Pointwise R xs ys
Pointwise R _ _ = ⊥

module _ {ℓ} {A : Type ℓ} (R : A → A → Type 0) where
  pub Pointwise-refl : ((a : A) → R a a) → (xs : List A) → Pointwise R xs xs
  Pointwise-refl h [] = tt
  Pointwise-refl h (x ∷ xs) = (h x, Pointwise-refl h xs)

  pub Pointwise-trans :
      ((a b c : A) → R a b → R b c → R a c)
      → (xs ys zs : List A) → Pointwise R xs ys
      → Pointwise R ys zs
      → Pointwise R xs zs
  Pointwise-trans h [] [] [] r s = tt
  Pointwise-trans h [] [] (z ∷ zs) r s = absurd s
  Pointwise-trans h [] (y ∷ ys) zs r s = absurd r
  Pointwise-trans h (x ∷ xs) [] zs r s = absurd r
  Pointwise-trans h (x ∷ xs) (y ∷ ys) [] r s = absurd s
  Pointwise-trans h (x ∷ xs) (y ∷ ys) (z ∷ zs) r s =
      (h x y z r.0 s.0, Pointwise-trans h xs ys zs r.1 s.1)

  pub Pointwise-update_rows :
      ((a : A) → R a a)
      → (p : A → Bool) (f : A → A) (xs : List A) → All (λ a. p a ≡ true → R a (f a)) xs
      → Pointwise R xs (update_rows p f xs)
  Pointwise-update_rows h p f [] k = tt
  Pointwise-update_rows h p f (x ∷ xs) k = (
    elim (Bool-cases (p x)) [ inl hit ↦ rw hit (k.0 hit) | inr miss ↦ rw miss (h x) ],
    Pointwise-update_rows h p f xs k.1,
  )
