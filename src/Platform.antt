-- ===== src/Platform.antt =====
-- What the services take from packages outside the repository: decimal.js and the calls of
-- @prisma/client. The operations are parameters; the laws are the documented behaviour that the
-- theorems rely on. A table is the list of its rows in the order in which the database scans it.
pub mod Sample
use fruct.Prelude.{
  ℕ, String, Bool, not, Option, none, some, List, [], ◌∷◌, ◌++◌, ◌≡◌, find, filter, update_rows,
  length, sum, All,
}
use fruct.Action.{HttpError, ok, err, Action}

-- `orderBy`
pub data Direction : Type 0 where
  asc desc : Direction

pub record Platform : Type 1 where
  -- decimal.js: the numbers, and the operations that the services call on them.
  pub D : Type 0
  pub zero_decimal : D
  pub of_int : ℕ → D
  pub plus : D → D → D
  pub minus : D → D → D
  pub times : D → D → D
  pub divided_by : D → D → D
  pub greater_than : D → D → Bool
  pub is_zero : D → Bool
  -- The value that a column of type NUMERIC(precision, scale) keeps.
  pub column : ℕ → ℕ → D → D
  -- @prisma/client: queries with a where clause, and writes with the rewritten row.
  pub find_first : {Row : Type 0} → (Row → Bool) → List Row → Option Row
  pub find_many : {Row : Type 0} → (Row → Bool) → List Row → List Row
  pub update_many : {Row : Type 0} → (Row → Bool) → (Row → Row) → List Row → List Row × ℕ
  pub create : {Row : Type 0} → Row → List Row → List Row
  pub update : {Row : Type 0} → (Row → Bool) → (Row → Row) → List Row → Option (Row × List Row)
  pub delete : {Row : Type 0} → (Row → Bool) → List Row → List Row
  pub order_by : {Row : Type 0} → Direction → (Row → ℕ) → List Row → List Row
  pub order_by_text : {Row : Type 0} → (Row → String) → List Row → List Row
  pub order_by_decimal : {Row : Type 0} → (Row → D) → List Row → List Row
  -- `take` and `skip`
  pub page : {Row : Type 0} → ℕ → ℕ → List Row → List Row
  -- `contains` with the mode `insensitive`: the text, and the part that is looked for.
  pub contains_insensitive : String → String → Bool
  pub transaction : {S A : Type 0} → Action S A → Action S A
  -- A query returns the rows that meet its where clause.
  pub find_first-find : {Row : Type 0} (p : Row → Bool) (t : List Row) → find_first p t ≡ find p t
  pub find_many-filter : {Row : Type 0} (p : Row → Bool) (t : List Row) → find_many p t ≡ filter p t
  -- An update rewrites the rows that meet its where clause and counts them.
  pub update_many-rows :
      {Row : Type 0} (p : Row → Bool) (f : Row → Row) (t : List Row)
      → update_many p f t ≡ (update_rows p f t, length (filter p t))
  pub create-rows : {Row : Type 0} (r : Row) (t : List Row) → create r t ≡ t ++ r ∷ []
  -- `update` rewrites the row that a unique where clause names, and fails where there is none.
  pub update-found :
      {Row : Type 0} (p : Row → Bool) (f : Row → Row) (t : List Row) (r : Row)
      → find p t ≡ some r
      → update p f t ≡ some (f r, update_rows p f t)
  pub update-missing :
      {Row : Type 0} (p : Row → Bool) (f : Row → Row) (t : List Row)
      → find p t ≡ none
      → update p f t ≡ none
  pub delete-rows :
      {Row : Type 0} (p : Row → Bool) (t : List Row) → delete p t ≡ filter (λ r. not (p r)) t
  -- Ordering permutes the rows, and a page holds some of them.
  pub sum-order_by :
      {Row : Type 0} (f : Row → ℕ) (o : Direction) (k : Row → ℕ) (t : List Row)
      → sum f (order_by o k t) ≡ sum f t
  pub All-order_by :
      {Row : Type 0} (P : Row → Type 0) (o : Direction) (k : Row → ℕ) (t : List Row)
      → All P t
      → All P (order_by o k t)
  pub All-order_by_text :
      {Row : Type 0} (P : Row → Type 0) (k : Row → String) (t : List Row)
      → All P t
      → All P (order_by_text k t)
  pub All-order_by_decimal :
      {Row : Type 0} (P : Row → Type 0) (k : Row → D) (t : List Row)
      → All P t
      → All P (order_by_decimal k t)
  pub All-page :
      {Row : Type 0} (P : Row → Type 0) (take skip : ℕ) (t : List Row)
      → All P t
      → All P (page take skip t)
  -- A transaction commits what its body did, or rolls all of it back when the body throws.
  pub transaction-ok :
      {S A : Type 0} (m : Action S A) (s : S) {s' : S} {a : A}
      → m s ≡ (ok a, s')
      → transaction m s ≡ (ok a, s')
  pub transaction-err :
      {S A : Type 0} (m : Action S A) (s : S) {s' : S} {e : HttpError}
      → m s ≡ (err e, s')
      → transaction m s ≡ (err e, s)
