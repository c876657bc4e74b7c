-- ===== src/Platform/Sample.antt =====
-- A small database and fixed-point decimals, at which the examples run.
use Prim.Native.Nat.{◌^◌, Ordering}
use Prim.Native.String.{String, compare}
use text.Mathlib.Text.{◌==◌ as str_eq}
use fruct.Prelude.Int.{ℤ, pos, ◌+ℤ◌, ◌-ℤ◌, ◌*ℤ◌, ltb_ℤ, on_magnitude}
use fruct.Prelude.{
  ℕ, zero, suc, ◌+◌, ◌-◌, ◌*◌, ◌/◌, Bool, true, false, not, ◌||◌, Option, none, some, List, [], ◌∷◌,
  ◌++◌, ◌≡◌, refl, arith, ltb, if◌then◌else◌, find, filter, update_rows, length, sum, All, sort,
  All-sort,
}
use fruct.Action.{Action, Result, HttpError, ok, err}
use fruct.Platform.{Platform, Direction, asc, desc}

-- Decimals in ten-thousandths.
abbrev scale : ℕ
scale = 10000

abbrev round_to : ℕ → ℕ → ℕ
round_to unit n = (n + unit / 2) / unit * unit

abbrev before : Direction → ℕ → ℕ → Bool
before asc a b = ltb a b
before desc a b = ltb b a

abbrev comes_before : String → String → Bool
comes_before s t = elim (compare s t) [ Ordering.lt ↦ true | _ ↦ false ]

module _ {Row : Type 0} where
  abbrev update_row : (Row → Bool) → (Row → Row) → List Row → Option (Row × List Row)
  update_row p f t = elim (find p t) [ none ↦ none | some r ↦ some (f r, update_rows p f t) ]

  abbrev insert_by : Direction → (Row → ℕ) → Row → List Row → List Row
  insert_by o k r [] = r ∷ []
  insert_by o k r (x ∷ xs) =
      let rest = insert_by o k r xs in if before o (k r) (k x) then r ∷ x ∷ xs else x ∷ rest

  abbrev sort_by : Direction → (Row → ℕ) → List Row → List Row
  sort_by o k [] = []
  sort_by o k (x ∷ xs) = insert_by o k x (sort_by o k xs)

  abbrev take : ℕ → List Row → List Row
  take zero t = []
  take (suc n) [] = []
  take (suc n) (x ∷ xs) = x ∷ take n xs

  abbrev drop : ℕ → List Row → List Row
  drop zero t = t
  drop (suc n) [] = []
  drop (suc n) (x ∷ xs) = drop n xs

  pub update_row-found :
      (p : Row → Bool) (f : Row → Row) (t : List Row) (r : Row)
      → find p t ≡ some r
      → update_row p f t ≡ some (f r, update_rows p f t)
  update_row-found p f t r e = ground arith

  pub update_row-missing :
      (p : Row → Bool) (f : Row → Row) (t : List Row) → find p t ≡ none → update_row p f t ≡ none
  update_row-missing p f t e = ground arith

  sum-insert_by :
      (f : Row → ℕ) (o : Direction) (k : Row → ℕ) (r : Row) (t : List Row)
      → sum f (insert_by o k r t) ≡ f r + sum f t
  sum-insert_by f o k r [] = refl
  sum-insert_by f o k r (x ∷ xs) = ground (arith, sum-insert_by f o k r xs)

  pub sum-sort_by :
      (f : Row → ℕ) (o : Direction) (k : Row → ℕ) (t : List Row) → sum f (sort_by o k t) ≡ sum f t
  sum-sort_by f o k [] = refl
  sum-sort_by f o k (x ∷ xs) =
      omega (arith, sum-insert_by f o k x (sort_by o k xs), sum-sort_by f o k xs)

  All-if :
      (P : Row → Type 0) (b : Bool) (xs ys : List Row)
      → All P xs
      → All P ys
      → All P (if b then xs else ys)
  All-if P true xs ys h k = h
  All-if P false xs ys h k = k

  All-insert_by :
      (P : Row → Type 0) (o : Direction) (k : Row → ℕ) (r : Row) (t : List Row)
      → P r
      → All P t
      → All P (insert_by o k r t)
  All-insert_by P o k r [] h hs = (h, tt)
  All-insert_by P o k r (x ∷ xs) h hs =
      All-if P (before o (k r) (k x)) (r ∷ x ∷ xs) (x ∷ insert_by o k r xs) (h, hs)
        (hs.0, All-insert_by P o k r xs h hs.1)

  pub All-sort_by :
      (P : Row → Type 0) (o : Direction) (k : Row → ℕ) (t : List Row)
      → All P t
      → All P (sort_by o k t)
  All-sort_by P o k [] h = tt
  All-sort_by P o k (x ∷ xs) h =
      All-insert_by P o k x (sort_by o k xs) h.0 (All-sort_by P o k xs h.1)

  pub All-take : (P : Row → Type 0) (n : ℕ) (t : List Row) → All P t → All P (take n t)
  All-take P zero t h = tt
  All-take P (suc n) [] h = tt
  All-take P (suc n) (x ∷ xs) h = (h.0, All-take P n xs h.1)

  pub All-drop : (P : Row → Type 0) (n : ℕ) (t : List Row) → All P t → All P (drop n t)
  All-drop P zero t h = h
  All-drop P (suc n) [] h = tt
  All-drop P (suc n) (x ∷ xs) h = All-drop P n xs h.1

module _ {S A : Type 0} where
  abbrev settle : S → Result A × S → Result A × S
  settle s (ok a, s') = (ok a, s')
  settle s (err e, s') = (err e, s)

  abbrev run_transaction : Action S A → Action S A
  run_transaction m s = settle s (m s)

  pub run_transaction-ok :
      (m : Action S A) (s : S) {s' : S} {a : A}
      → m s ≡ (ok a, s')
      → run_transaction m s ≡ (ok a, s')
  run_transaction-ok m s e = rw e refl

  pub run_transaction-err :
      (m : Action S A) (s : S) {s' : S} {e : HttpError}
      → m s ≡ (err e, s')
      → run_transaction m s ≡ (err e, s)
  run_transaction-err m s e = rw e refl

abbrev pub sample : Platform
sample = record {
  D = ℤ;
  zero_decimal = pos 0;
  of_int = λ n. pos (n * scale);
  plus = ◌+ℤ◌;
  minus = ◌-ℤ◌;
  times = λ a b. on_magnitude (λ n. n / scale) (a *ℤ b);
  divided_by = λ a b. elim b [ pos k ↦ on_magnitude (λ n. n * scale / k) a | _ ↦ a ];
  greater_than = λ a b. ltb_ℤ b a;
  is_zero = λ a. not (ltb_ℤ a (pos 0) || ltb_ℤ (pos 0) a);
  column = λ precision digits. on_magnitude (round_to (10 ^ (4 - digits)));
  find_first = find;
  find_many = filter;
  update_many = λ p f t. (update_rows p f t, length (filter p t));
  create = λ r t. t ++ r ∷ [];
  update = update_row;
  delete = λ p t. filter (λ r. not (p r)) t;
  order_by = sort_by;
  order_by_text = λ k t. sort (λ a b. comes_before (k a) (k b)) t;
  order_by_decimal = λ k t. sort (λ a b. ltb_ℤ (k a) (k b)) t;
  page = λ count skip t. take count (drop skip t);
  contains_insensitive = str_eq;
  transaction = run_transaction;
  find_first-find = λ p t. refl;
  find_many-filter = λ p t. refl;
  update_many-rows = λ p f t. refl;
  create-rows = λ r t. refl;
  update-found = update_row-found;
  update-missing = update_row-missing;
  delete-rows = λ p t. refl;
  sum-order_by = sum-sort_by;
  All-order_by = All-sort_by;
  All-order_by_text = λ P k t h. All-sort (λ a b. comes_before (k a) (k b)) P t h;
  All-order_by_decimal = λ P k t h. All-sort (λ a b. ltb_ℤ (k a) (k b)) P t h;
  All-page = λ P count skip t h. All-take P count (drop skip t) (All-drop P skip t h);
  transaction-ok = run_transaction-ok;
  transaction-err = run_transaction-err;
}
