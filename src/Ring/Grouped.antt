-- ===== src/Ring/Grouped.antt =====
-- `getKeyRanges` of src/ConsistentHashRing.cpp, which groups by node the ranges that
-- `getKeyRangeAssignments` lists.
use mathlib.Core.List.{append_assoc, append-nil}
use hpe_distributed_key_valu.Prelude.{
  ℕ, zero, suc, ◌-◌, ◌≡◌, refl, sym, ap, ◌∙◌, inl, inr, true, false, List, [], ◌∷◌, ◌++◌, arith,
  length, if◌then◌else◌, Bool-cases, if_all, ℤ, ◌==ℤ◌, ==ℤ_iff,
}
use hpe_distributed_key_valu.Ring.{
  Token, KeyRange, KeyRangeAssignment, at, assign, scan_buddy, token_ranges, assignments_from,
  get_key_range_assignments, push_ranges, ranges_from, get_key_ranges,
}

-- The ranges of a node in the map, none where it has no entry.
abbrev pub ranges_of : ℤ → List (ℤ × List KeyRange) → List KeyRange
ranges_of id [] = []
ranges_of id ((k, ranges) ∷ result) = if k ==ℤ id then ranges else ranges_of id result

-- The ranges of which a node is the primary, in their order.
abbrev pub assigned_to : ℤ → List KeyRangeAssignment → List KeyRange
assigned_to id [] = []
assigned_to id (a ∷ assignments) =
    if a.primary_node_id ==ℤ id
    then a.range ∷ assigned_to id assignments
    else assigned_to id assignments

abbrev if_of : ℤ → ℤ → List KeyRange → List KeyRange
if_of k id ranges = if k ==ℤ id then ranges else []

if_of_nothing : (k id : ℤ) → if_of k id [] ≡ []
if_of_nothing k id = if_all (λ rs. rs ≡ []) (k ==ℤ id) (λ e. refl) (λ e. refl)

if_of_other : (k id : ℤ) (xs rs : List KeyRange) → (k ==ℤ id) ≡ false → xs ≡ xs ++ if_of k id rs
if_of_other k id xs rs other = rw other (sym (append-nil xs))

-- The entry of the node `k`, or of another.
pushed :
    (k id j : ℤ) (rs old : List KeyRange) (result later : List (ℤ × List KeyRange))
    → ranges_of id later ≡ ranges_of id result ++ if_of k id rs
    → ranges_of id (if j ==ℤ k then (j, old ++ rs) ∷ result else (j, old) ∷ later)
      ≡ (if j ==ℤ id then old else ranges_of id result) ++ if_of k id rs
pushed k id j rs old result later ih = elim (Bool-cases (j ==ℤ k)) [
  | inl here ↦ elim (Bool-cases (j ==ℤ id)) [
    | inl same ↦ rw (here, same, same_as here same) refl
    | inr other ↦ rw (here, other) (if_of_other k id (ranges_of id result) rs (other_of here other))
  ]
  | inr apart ↦ elim (Bool-cases (j ==ℤ id)) [
    | inl same ↦ rw (apart, same) (if_of_other k id old rs (other_than apart same))
    | inr other ↦ rw (apart, other) ih
  ]
]
  where
    same_as : (j ==ℤ k) ≡ true → (j ==ℤ id) ≡ true → (k ==ℤ id) ≡ true
    same_as h h' = ground (arith, ==ℤ_iff j k)

    other_of : (j ==ℤ k) ≡ true → (j ==ℤ id) ≡ false → (k ==ℤ id) ≡ false
    other_of h o = ground (arith, ==ℤ_iff j k)

    other_than : (j ==ℤ k) ≡ false → (j ==ℤ id) ≡ true → (k ==ℤ id) ≡ false
    other_than a h = ground (arith, ==ℤ_iff j id, ==ℤ_iff k id, ==ℤ_iff j k)

ranges_of-push_ranges :
    (k id : ℤ) (ranges : List KeyRange) (result : List (ℤ × List KeyRange))
    → ranges_of id (push_ranges k ranges result) ≡ ranges_of id result ++ if_of k id ranges
ranges_of-push_ranges k id [] result =
    sym
      (ap (λ rs. ranges_of id result ++ rs) (if_of_nothing k id) ∙ append-nil (ranges_of id result))
ranges_of-push_ranges k id (r ∷ rs) [] = refl
ranges_of-push_ranges k id (r ∷ rs) ((j, old) ∷ result) =
    pushed k id j (r ∷ rs) old result (push_ranges k (r ∷ rs) result)
      (ranges_of-push_ranges k id (r ∷ rs) result)

assigned_to-append :
    (id : ℤ) (xs ys : List KeyRangeAssignment)
    → assigned_to id (xs ++ ys) ≡ assigned_to id xs ++ assigned_to id ys
assigned_to-append id [] ys = refl
assigned_to-append id (x ∷ xs) ys = elim (Bool-cases (x.primary_node_id ==ℤ id)) [
  | inl same ↦ rw same (ap (◌∷◌ x.range) (assigned_to-append id xs ys))
  | inr other ↦ rw other (assigned_to-append id xs ys)
]

assigned_to-assign :
    (id primary buddy : ℤ) (ranges : List KeyRange)
    → assigned_to id (assign primary buddy ranges) ≡ if_of primary id ranges
assigned_to-assign id primary buddy [] = sym (if_of_nothing primary id)
assigned_to-assign id primary buddy (r ∷ rs) = elim (Bool-cases (primary ==ℤ id)) [
  | inl same ↦ rw same (ap (◌∷◌ r) (assigned_to-assign id primary buddy rs ∙ rw same refl))
  | inr other ↦ rw other (assigned_to-assign id primary buddy rs ∙ rw other refl)
]

ranges_from-assigned :
    (id : ℤ) (ring : List Token) (left i : ℕ) (result : List (ℤ × List KeyRange))
    → ranges_of id (ranges_from ring i left result)
      ≡ ranges_of id result ++ assigned_to id (assignments_from ring i left)
unfolding ranges_from assignments_from
ranges_from-assigned id ring zero i result = sym (append-nil (ranges_of id result))
ranges_from-assigned id ring (suc left) i result =
    ranges_from-assigned id ring left (suc i)
      (push_ranges (at ring i).node_id (token_ranges ring i) result)
    ∙ (ap (λ rs. rs ++ assigned_to id (assignments_from ring (suc i) left))
          (ranges_of-push_ranges (at ring i).node_id id (token_ranges ring i) result)
        ∙ (append_assoc (ranges_of id result) (if_of (at ring i).node_id id (token_ranges ring i))
              (assigned_to id (assignments_from ring (suc i) left))
            ∙ ap (λ rs. ranges_of id result ++ rs)
                (sym (
                  assigned_to-append id
                    (assign (at ring i).node_id (scan_buddy ring i 1 (length ring - 1))
                      (token_ranges ring i))
                    (assignments_from ring (suc i) left)
                  ∙ ap (λ rs. rs ++ assigned_to id (assignments_from ring (suc i) left))
                      (assigned_to-assign id (at ring i).node_id
                        (scan_buddy ring i 1 (length ring - 1)) (token_ranges ring i))))))

-- On every ring, `getKeyRanges` gives each node the ranges of which `getKeyRangeAssignments` makes it
-- the primary, in the same order, and no others.
pub get_key_ranges-assigned :
    (ring : List Token) (id : ℤ)
    → ranges_of id (get_key_ranges ring) ≡ assigned_to id (get_key_range_assignments ring)
unfolding get_key_ranges get_key_range_assignments
get_key_ranges-assigned ring id = ranges_from-assigned id ring (length ring) 0 []
