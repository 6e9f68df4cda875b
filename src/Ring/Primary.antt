-- ===== src/Ring/Primary.antt =====
-- `findToken` and `getPrimaryNode` of src/ConsistentHashRing.cpp.
use hpe_distributed_key_valu.Prelude.{
  ℕ, zero, suc, ◌≤◌, ◌<◌, ◌≡◌, refl, ◌⊎◌, inl, inr, List, [], ◌∷◌, arith, length, false, is_empty,
  ◌==◌, Bool-cases,
}
use hpe_distributed_key_valu.Ring.Sorted.{IsSorted, position_mono}
use hpe_distributed_key_valu.Ring.{Token, lower_bound, find_token, at}

lower_bound-le : (p : ℕ) (ring : List Token) → lower_bound p ring ≤ length ring
unfolding lower_bound
lower_bound-le p [] = omega arith
lower_bound-le p (t ∷ ts) = ground (arith, lower_bound-le p ts)

-- The search stays in the ring.
pub find_token-lt :
    (ring : List Token) (p : ℕ) → is_empty ring ≡ false → find_token ring p < length ring
unfolding find_token
find_token-lt [] p h = cc
find_token-lt (t ∷ ts) p h = ground (arith, lower_bound-le p (t ∷ ts))

-- What the search finds, in a sorted ring: every token before it is below the position, and the
-- token itself is not.
lower_bound_bounds :
    (p : ℕ) (ring : List Token) (k : ℕ)
    → IsSorted ring
    → k < length ring
    → ((k < lower_bound p ring → (at ring k).position < p)
        × (lower_bound p ring ≤ k → p ≤ (at ring k).position))
unfolding lower_bound
lower_bound_bounds p [] k s h = absurd (omega arith)
lower_bound_bounds p (t ∷ ts) zero s h = ground arith
lower_bound_bounds p (t ∷ ts) (suc k) s h =
    ground (arith, lower_bound_bounds p ts k s.1, position_mono (t ∷ ts) 0 (suc k) s)

-- The token `i` is the first clockwise from `p`: the first that is not below `p`, or the first of
-- all where every token is below.
pub record IsSuccessor (ring : List Token) (p i : ℕ) : Type 0 where
  pub inside : i < length ring
  pub before : (k : ℕ) → k < i → (at ring k).position < p
  pub reached :
      (p ≤ (at ring i).position)
      ⊎ ((i ≡ 0) × ((k : ℕ) → k < length ring → (at ring k).position < p))

-- In a sorted ring with a token, `findToken` finds the first token clockwise from a position: the
-- first that is not below it, or the first of all where every token is below.
pub find_token-IsSuccessor :
    (ring : List Token) (p : ℕ)
    → IsSorted ring
    → is_empty ring ≡ false
    → IsSuccessor ring p (find_token ring p)
unfolding find_token
find_token-IsSuccessor ring p s h = elim (Bool-cases (lower_bound p ring == length ring)) [
  | inl wrap ↦ rw wrap (record {
    inside = positive ring h;
    before = λ k z. absurd (omega arith);
    reached = inr (refl, λ k l. ground (arith, lower_bound_bounds p ring k s l, wrap));
  })
  | inr stop ↦ rw stop (record {
    inside = ground (arith, lower_bound-le p ring);
    before = λ k z. ground (arith, lower_bound_bounds p ring k s, lower_bound-le p ring);
    reached =
        inl
          (ground (arith, lower_bound_bounds p ring (lower_bound p ring) s, lower_bound-le p ring));
  })
]
  where
    positive : (r : List Token) → is_empty r ≡ false → 0 < length r
    positive [] e = cc
    positive (t ∷ ts) e = omega arith

no_earlier :
    (ring : List Token) (p i j : ℕ) → IsSuccessor ring p i → IsSuccessor ring p j → i < j → ⊥
no_earlier ring p i j a b lt = elim a.reached [
  | inl stop ↦ absurd (omega (arith, b.before i lt))
  | inr (first, below) ↦ elim b.reached [
    | inl stop ↦ absurd (omega (arith, below j b.inside))
    | inr (start, _) ↦ absurd (omega arith)
  ]
]

-- A position has one successor only.
pub IsSuccessor-unique :
    (ring : List Token) (p i j : ℕ) → IsSuccessor ring p i → IsSuccessor ring p j → i ≡ j
IsSuccessor-unique ring p i j a b =
    ground (arith, no_earlier ring p i j a b, no_earlier ring p j i b a)
