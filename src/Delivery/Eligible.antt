-- ===== src/Delivery/Eligible.antt =====
-- Which warehouses `quote` of delivery-calc/delivery-calc.service.ts considers.
use fruct.Prelude.{
  ℕ, Bool, true, ◌&&◌, ◌≤◌, ◌≡◌, subst, arith, inl, inr, List, [], ◌∷◌, ◌==◌, All, All-map, any,
  contains, filter, map_get, All-map_set, map_get-All, or_else, Bool-cases, Option-cases,
  All-sub_filter,
}
use fruct.Schema.{Stock, Warehouse}
use fruct.Delivery.Requests.{is_active_warehouse, add_stocks, has_all, eligible_warehouse_ids}

-- The stock of the product in the warehouse, which is active, is in the table with that quantity.
abbrev pub InStock : List Warehouse → List Stock → ℕ → ℕ → ℕ → Type 0
InStock ws ss warehouse_id product_id quantity =
    (is_active_warehouse ws warehouse_id ≡ true)
    × (any
          (λ (s : Stock).
            s.warehouse_id == warehouse_id && s.product_id == product_id && s.quantity == quantity)
          ss
        ≡ true)

-- Every entry of the map comes from the table.
abbrev FromTable : List Warehouse → List Stock → List (ℕ × List (ℕ × ℕ)) → Type 0
FromTable ws ss m = All (λ e. All (λ f. InStock ws ss e.0 f.0 f.1) e.1) m

-- A row of a table, again in a table.
abbrev is_copy : Stock → Stock → Bool
is_copy s r =
    r.warehouse_id == s.warehouse_id && r.product_id == s.product_id && r.quantity == s.quantity

rows_in_table : (ss : List Stock) → All (λ (s : Stock). any (is_copy s) ss ≡ true) ss
rows_in_table [] = tt
rows_in_table (s ∷ ss) = (
  ground arith,
  All-map (λ (r : Stock). any (is_copy r) ss ≡ true)
      (λ (r : Stock). any (is_copy r) (s ∷ ss) ≡ true) ss (λ r h. ground arith) (rows_in_table ss),
)

add_stocks-FromTable :
    (ws : List Warehouse) (all ss : List Stock) (m : List (ℕ × List (ℕ × ℕ)))
    → All (λ (s : Stock). any (is_copy s) all ≡ true) ss
    → FromTable ws all m
    → FromTable ws all (add_stocks ws ss m)
add_stocks-FromTable ws all [] m sub h = h
add_stocks-FromTable ws all (s ∷ ss) m sub h =
    elim (Bool-cases (is_active_warehouse ws s.warehouse_id)) [
      | inr closed ↦ rw closed (add_stocks-FromTable ws all ss m sub.1 h)
      | inl active ↦
          let before : All (λ f. InStock ws all s.warehouse_id f.0 f.1)
              (or_else (map_get s.warehouse_id m) []) =
            elim (Option-cases (map_get s.warehouse_id m)) [
              | inl gone ↦ rw gone tt
              | inr (stock, found) ↦ rw found (
                  map_get-All (λ k stock. All (λ f. InStock ws all k f.0 f.1) stock) s.warehouse_id
                    m stock h found)
            ] in
          let row =
            All-map_set (λ p q. InStock ws all s.warehouse_id p q) s.product_id s.quantity
              (or_else (map_get s.warehouse_id m) []) (active, sub.0) before in
          rw active (
            add_stocks-FromTable ws all ss _ sub.1 (
              All-map_set (λ k stock. All (λ f. InStock ws all k f.0 f.1) stock) s.warehouse_id _ m
                row h))
    ]

-- Enough of every requested product, from a row of the table.
abbrev pub HasEnough : List Warehouse → List Stock → List (ℕ × ℕ) → ℕ → Type 0
HasEnough ws ss requested warehouse_id =
    All (λ r. 1 ≤ r.1 → (quantity : ℕ) × (r.1 ≤ quantity) × InStock ws ss warehouse_id r.0 quantity)
      requested

has_all-HasEnough :
    (ws : List Warehouse) (all : List Stock) (id : ℕ) (stock requested : List (ℕ × ℕ))
    → All (λ f. InStock ws all id f.0 f.1) stock
    → has_all requested stock ≡ true
    → HasEnough ws all requested id
has_all-HasEnough ws all id stock [] h e = tt
has_all-HasEnough ws all id stock ((p, q) ∷ rest) h e = (
  λ some_wanted. elim (Option-cases (map_get p stock)) [
    | inl gone ↦ absurd (ground arith)
    | inr (n, found) ↦
        (n, ground arith, map_get-All (λ p q. InStock ws all id p q) p stock n h found)
  ],
  has_all-HasEnough ws all id stock rest h (ground arith),
)

eligible-HasEnough :
    (ws : List Warehouse) (all : List Stock) (requested : List (ℕ × ℕ))
    (m : List (ℕ × List (ℕ × ℕ)))
    → FromTable ws all m
    → All (HasEnough ws all requested) (eligible_warehouse_ids requested m)
eligible-HasEnough ws all requested [] h = tt
eligible-HasEnough ws all requested ((id, stock) ∷ m) h =
    elim (Bool-cases (has_all requested stock)) [
      | inl enough ↦ rw enough (
        has_all-HasEnough ws all id stock requested h.0 enough,
        eligible-HasEnough ws all requested m h.1,
      )
      | inr short ↦ rw short (eligible-HasEnough ws all requested m h.1)
    ]

contains-All : (P : ℕ → Type 0) (k : ℕ) (ks : List ℕ) → All P ks → contains k ks ≡ true → P k
contains-All P k [] h e = absurd (ground arith)
contains-All P k (j ∷ ks) h e = elim (Bool-cases (j == k)) [
  | inl same ↦ let here : j ≡ k = ground arith in subst P here h.0
  | inr other ↦ contains-All P k ks h.1 (ground arith)
]

-- An eligible warehouse has, for every product of which some is requested, a row of the table with as much.
pub contains-HasEnough :
    (ws : List Warehouse) (ss : List Stock) (q : Stock → Bool) (requested : List (ℕ × ℕ)) (id : ℕ)
    → contains id (eligible_warehouse_ids requested (add_stocks ws (filter q ss) [])) ≡ true
    → HasEnough ws ss requested id
contains-HasEnough ws ss q requested id e =
    contains-All (HasEnough ws ss requested) id _
      (eligible-HasEnough ws ss requested _
        (add_stocks-FromTable ws ss (filter q ss) [] (All-sub_filter _ q ss (rows_in_table ss)) tt))
      e
