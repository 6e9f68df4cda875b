-- ===== src/Ring/Table.antt =====
-- The table of `getKeyRangeAssignments` of src/ConsistentHashRing.cpp, against `getPrimaryNode` and
-- `getBuddyNode`.
use hpe_distributed_key_valu.Prelude.{
  ℕ, zero, suc, ◌+◌, ◌-◌, ◌≤◌, ◌<◌, ◌≡◌, refl, sym, ap, ◌∙◌, inl, inr, List, [], ◌∷◌, ◌++◌, Bool,
  arith, length, true, false, ◌||◌, is_empty, any, All, All-append, Bool-cases, ltb, ltb→lt, some,
  ℤ,
}
use hpe_distributed_key_valu.Ring.{
  Token, at, uint32_max, KeyRange, KeyRangeAssignment, token_ranges, scan_buddy, assign,
  assignments_from, get_key_range_assignments, primary_at, find_token, buddy_from,
}
use hpe_distributed_key_valu.Ring.Sorted.{IsRing}
use hpe_distributed_key_valu.Ring.Primary.{IsSuccessor, IsSuccessor-unique, find_token-IsSuccessor}
use hpe_distributed_key_valu.Ring.Buddy.{buddy_from-scan}
use hpe_distributed_key_valu.Ring.Ranges.{
  contains, covers, IsSpread, IsClear, Successor-covers, covers-Successor,
}

-- The entry names the nodes that the lookups give for `p`.
abbrev pub Agrees : List Token → ℕ → KeyRangeAssignment → Type 0
Agrees ring p a =
    (a.primary_node_id ≡ primary_at ring p)
    × (some a.buddy_node_id ≡ buddy_from ring (find_token ring p))

assign-All :
    (P : KeyRangeAssignment → Type 0) (p : ℕ) (id buddy : ℤ) (rs : List KeyRange)
    → (covers p rs ≡ true
        → (r : KeyRange) → P (record { range = r; primary_node_id = id; buddy_node_id = buddy }))
    → All (λ a. contains p a.range ≡ true → P a) (assign id buddy rs)
assign-All P p id buddy [] h = tt
assign-All P p id buddy (r ∷ rs) h =
    (λ c. h (rw c) r, assign-All P p id buddy rs (λ c. h (ground arith)))

pub covers-assign :
    (p : ℕ) (id buddy : ℤ) (rs : List KeyRange)
    → any (λ a. contains p a.range) (assign id buddy rs) ≡ covers p rs
covers-assign p id buddy [] = refl
covers-assign p id buddy (r ∷ rs) = rw (covers-assign p id buddy rs)

pub any-append {ℓ} :
    {A : Type ℓ} (p : A → Bool) (xs ys : List A) → any p (xs ++ ys) ≡ (any p xs || any p ys)
any-append p [] ys = refl
any-append p (x ∷ xs) ys = ground (arith, any-append p xs ys)

module _ (ring : List Token) (r : IsRing ring) (spread : IsSpread ring) (clear : IsClear ring)
    (p : ℕ) (small : p < uint32_max) (nonempty : is_empty ring ≡ false) where
  found : IsSuccessor ring p (find_token ring p)
  found = find_token-IsSuccessor ring p r.sorted nonempty

  token-Agrees :
      (i : ℕ)
      → i < length ring
      → All
          (λ a. contains p a.range ≡ true → Agrees ring p a)
          (assign (at ring i).node_id (scan_buddy ring i 1 (length ring - 1)) (token_ranges ring i))
  unfolding primary_at
  token-Agrees i h = assign-All (Agrees ring p) p _ _ (token_ranges ring i) λ c range.
      let e : i ≡ find_token ring p =
        IsSuccessor-unique ring p i (find_token ring p)
          (covers-Successor ring r spread clear p i small h c) found in
      (ap (λ k. (at ring k).node_id) e, sym (buddy_from-scan ring i h) ∙ ap (buddy_from ring) e)

  All-agree :
      (i left : ℕ)
      → i + left ≡ length ring
      → All (λ a. contains p a.range ≡ true → Agrees ring p a) (assignments_from ring i left)
  unfolding assignments_from
  All-agree i zero e = tt
  All-agree i (suc left) e =
      All-append (λ a. contains p a.range ≡ true → Agrees ring p a)
        (assign (at ring i).node_id (scan_buddy ring i 1 (length ring - 1)) (token_ranges ring i))
        (assignments_from ring (suc i) left) (token-Agrees i (omega arith))
        (All-agree (suc i) left (omega arith))

  covered_from : ℕ → ℕ → Bool
  covered_from i left = any (λ a. contains p a.range) (assignments_from ring i left)

  covered_from-suc :
      (i left : ℕ)
      → covered_from i (suc left) ≡ (covers p (token_ranges ring i) || covered_from (suc i) left)
  unfolding covered_from assignments_from
  covered_from-suc i left =
      any-append (λ a. contains p a.range)
        (assign (at ring i).node_id (scan_buddy ring i 1 (length ring - 1)) (token_ranges ring i))
        (assignments_from ring (suc i) left)
      ∙ ap (λ b. b || any (λ a. contains p a.range) (assignments_from ring (suc i) left))
          (covers-assign p _ _ (token_ranges ring i))

  some_covers :
      (i left : ℕ)
      → i ≤ find_token ring p
      → find_token ring p < i + left
      → covered_from i left ≡ true
  some_covers i zero low high = absurd (omega arith)
  some_covers i (suc left) low high =
      rw covered_from-suc (elim (Bool-cases (ltb i (find_token ring p))) [
        | inl less ↦ ground (arith, some_covers (suc i) left (ltb→lt i _ less) (omega arith))
        | inr here ↦
            let e : find_token ring p ≡ i = ground arith in
            ground
              (arith, Successor-covers ring r spread clear p i small (found_inside e) (found_at e))
      ])
    where
      found_at : find_token ring p ≡ i → IsSuccessor ring p i
      found_at e = rw e at found

      found_inside : find_token ring p ≡ i → i < length ring
      found_inside e = (found_at e).inside

  -- On a ring that `rebuild` can leave, whose tokens do not all stand at one position and of which none
  -- stands at UINT32_MAX - 1, unless there is but one token: some range of the table holds a given hash
  -- below UINT32_MAX, by the rule of the header for ranges that wrap, and every range that holds it
  -- names the primary and the buddy that the lookups of a key with this hash return.
  pub table-Agrees :
      (any (λ a. contains p a.range) (get_key_range_assignments ring) ≡ true)
      × All (λ a. contains p a.range ≡ true → Agrees ring p a) (get_key_range_assignments ring)
  unfolding get_key_range_assignments covered_from
  table-Agrees = (
    some_covers 0 (length ring) (omega arith) (omega (arith, found.inside)),
    All-agree 0 (length ring) (omega arith),
  )
