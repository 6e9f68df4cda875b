-- ===== src/Ring/Gap.antt =====
-- The ends of the table of `getKeyRangeAssignments` of src/ConsistentHashRing.cpp: the hash UINT32_MAX, and
-- a range that begins there.
use hpe_distributed_key_valu.Prelude.{
  ℕ, zero, suc, ◌+◌, ◌-◌, ◌%◌, ◌<◌, ◌≡◌, ◌≢◌, ◌⊎◌, inl, inr, refl, ap, false, List, arith, any, All,
  All-get_or, length, ◌&&◌, Bool, ℤ, ◌==ℤ◌,
}
use hpe_distributed_key_valu.Ring.{
  Token, KeyRangeAssignment, uint32_max, u32_mod, ranges_between, token_ranges, assignments_from,
  null_token, get_key_range_assignments, scan_buddy, at,
}
use hpe_distributed_key_valu.Ring.Ranges.{contains, covers, IsClear}
use hpe_distributed_key_valu.Ring.Table.{any-append, covers-assign}

covers-max :
    (n start end : ℕ)
    → start < u32_mod
    → end < u32_mod
    → (start ≢ uint32_max) ⊎ (start ≡ end)
    → covers uint32_max (ranges_between n start end) ≡ false
unfolding ranges_between
covers-max n start end small small' h = ground arith

module _ (ring : List Token) (clear : IsClear ring) where
  -- Where the ranges of the token `i` begin.
  abbrev start_of : ℕ → ℕ
  start_of i = ((at ring ((i + length ring - 1) % length ring)).position + 1) % u32_mod

  begins :
      (i : ℕ)
      → i < length ring
      → All (λ t. t.position < u32_mod) ring
      → (start_of i ≢ uint32_max) ⊎ (start_of i ≡ ((at ring i).position + 1) % u32_mod)
  begins i h words = elim clear [
    | inl one ↦ inr (
        ap (λ k. ((at ring k).position + 1) % u32_mod)
          (the_only (length ring) one (i + length ring - 1) i h))
    | inr all ↦
        let k = (i + length ring - 1) % length ring in
        inl (
          not_max (at ring k).position
            (All-get_or (λ t. t.position ≢ uint32_max - 1) ring k null_token all (omega arith))
            (All-get_or (λ t. t.position < u32_mod) ring k null_token words (omega arith)))
  ]
    where
      the_only : (n : ℕ) → n ≡ 1 → (k i : ℕ) → i < n → k % n ≡ i
      the_only n e k i h = rw e (omega (arith, e, h))

      not_max : (p : ℕ) → p ≢ uint32_max - 1 → p < u32_mod → (p + 1) % u32_mod ≢ uint32_max
      not_max p h l e = h (omega arith)

  assignments_from-max :
      (i left : ℕ)
      → i + left ≡ length ring
      → All (λ t. t.position < u32_mod) ring
      → any (λ a. contains uint32_max a.range) (assignments_from ring i left) ≡ false
  unfolding assignments_from token_ranges
  assignments_from-max i zero e words = refl
  assignments_from-max i (suc left) e words =
      let id = (at ring i).node_id in
      let buddy = scan_buddy ring i 1 (length ring - 1) in
      let n = length ring in
      let end = ((at ring i).position + 1) % u32_mod in
      rw (
        any-append,
        covers-assign uint32_max id buddy (ranges_between n (start_of i) end),
        covers-max n (start_of i) end (omega arith) (omega arith) (begins i (omega arith) words),
        assignments_from-max (suc i) left (omega arith) words,
      )

-- On a ring of 32-bit positions, of which none is UINT32_MAX - 1 unless there is but one token, no range
-- of the table holds the hash UINT32_MAX, by the rule of the header for ranges that wrap.
pub get_key_range_assignments-max :
    (ring : List Token)
    → All (λ t. t.position < u32_mod) ring
    → IsClear ring
    → any (λ a. contains uint32_max a.range) (get_key_range_assignments ring) ≡ false
unfolding get_key_range_assignments
get_key_range_assignments-max ring words clear =
    assignments_from-max ring clear 0 (length ring) (omega arith) words

-- Whether a range that holds `p` is given to the node `id`.
abbrev pub gives : ℕ → ℤ → KeyRangeAssignment → Bool
gives p id a = contains p a.range && a.primary_node_id ==ℤ id
