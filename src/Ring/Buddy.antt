-- ===== src/Ring/Buddy.antt =====
-- `getBuddyNode` of src/ConsistentHashRing.cpp, and the inner loop of `getKeyRangeAssignments` that
-- looks for the same node with other means.
use mathlib.Core.Logic.{◌≢◌}
use mathlib.Core.Path.{subst}
use native.Mathlib.Nat.{mod-eq_of_lt, mod-eq-sub-mod}
use hpe_distributed_key_valu.Prelude.{
  ℕ, zero, suc, ◌+◌, ◌-◌, ◌%◌, ◌<◌, ◌≡◌, refl, sym, ap, ◌∙◌, ◌⊎◌, inl, inr, true, false, not, ltb,
  List, some, arith, length, is_empty, ◌==◌, ==_iff, if◌then◌else◌, ℤ, ◌==ℤ◌, ==ℤ_iff, Bool-cases,
}
use hpe_distributed_key_valu.Ring.{
  Token, at, advance, buddy_loop, buddy_from, get_buddy_node, scan_buddy, find_token, hash_key,
}
use hpe_distributed_key_valu.Ring.Primary.{find_token-lt}

-- One round trip at most: the remainder is a subtraction.
pub wrap_mod : (x n : ℕ) → x < n + n → x % n ≡ (if ltb x n then x else x - n)
wrap_mod x n h = ground (
  arith,
  mod-eq_of_lt {n = x} {m = n},
  mod-eq-sub-mod {n = x} {m = n},
  mod-eq_of_lt {n = x - n} {m = n},
)

next_mod :
    (n s j : ℕ)
    → s < n
    → j < n
    → (if suc ((s + j) % n) == n then 0 else suc ((s + j) % n)) ≡ (s + suc j) % n
next_mod n s j h k = ground (arith, wrap_mod (s + j) n, wrap_mod (s + suc j) n)

round_trip_mod : (n s : ℕ) → s < n → (s + n) % n ≡ s
round_trip_mod n s h = grind arith

moved_mod : (n s j : ℕ) → s < n → 0 < j → j < n → (s + j) % n ≢ s
moved_mod n s j h p q = grind arith

same_refl : (x : ℤ) (s : ℕ) → ((x ==ℤ x) ≡ true) × ((s == s) ≡ true)
same_refl x s = ground arith

module _ (ring : List Token) (s : ℕ) (s-lt : s < length ring) where
  abbrev node : ℕ → ℤ
  node k = (at ring k).node_id

  -- The step of the do-while loop, with the index that it has reached written out.
  loop_step :
      (f j it : ℕ)
      → advance ring it ≡ j
      → buddy_loop ring s (suc f) it ≡ (
          if not (node j ==ℤ node s)
          then some (node j)
          else if not (j == s)
          then buddy_loop ring s f j
          else some (node s))
  unfolding buddy_loop
  loop_step f j it e = rw e

  -- The do-while loop over iterators and the for loop over indices find the same node.
  buddy_loop-scan :
      (f j : ℕ)
      → j + suc f ≡ length ring
      → buddy_loop ring s (suc f) ((s + j) % length ring) ≡ some (scan_buddy ring s (suc j) f)
  unfolding scan_buddy
  buddy_loop-scan zero j e =
      let back : (s + suc j) % length ring ≡ s =
        ap (λ (k : ℕ). (s + k) % length ring) (omega arith) ∙ round_trip_mod (length ring) s s-lt in
      rw (
        loop_step 0 s ((s + j) % length ring)
            (next_mod (length ring) s j s-lt (omega arith) ∙ back),
        (same_refl (node s) s).0,
        (same_refl (node s) s).1,
      )
  buddy_loop-scan (suc f) j e =
      rw
        (
          loop_step (suc f) ((s + suc j) % length ring) ((s + j) % length ring)
              (next_mod (length ring) s j s-lt (omega arith)),
          buddy_loop-scan f (suc j) (omega arith),
        )
        (ground (arith, moved_mod (length ring) s (suc j) s-lt (omega arith) (omega arith)))

-- `b` is the node of the first token clockwise from the token `i` that belongs to another node than
-- that token does; or all tokens belong to that one node, and `b` is it.
abbrev pub IsBuddy : List Token → ℕ → ℤ → Type 0
IsBuddy ring i b =
    ((m : ℕ) × (0 < m)
      × (m < length ring)
      × (b ≡ (at ring ((i + m) % length ring)).node_id)
      × (b ≢ (at ring i).node_id)
      × ((k : ℕ) → k < m → (at ring ((i + k) % length ring)).node_id ≡ (at ring i).node_id))
    ⊎ ((b ≡ (at ring i).node_id)
        × ((k : ℕ) → k < length ring → (at ring k).node_id ≡ (at ring i).node_id))

-- Every token is some number of steps clockwise.
clockwise_index : (n i k : ℕ) → i < n → k < n → (m : ℕ) × (m < n) × ((i + m) % n ≡ k)
clockwise_index n i k h l = elim (Bool-cases (ltb k i)) [
  | inl behind ↦ (k + n - i, ground arith, ground (arith, wrap_mod (i + (k + n - i)) n))
  | inr ahead ↦ (k - i, ground arith, ground (arith, wrap_mod (i + (k - i)) n))
]

module _ (ring : List Token) (i : ℕ) (i-lt : i < length ring) where
  abbrev Same : ℕ → Type 0
  Same k = (at ring ((i + k) % length ring)).node_id ≡ (at ring i).node_id

  Same-suc : (j : ℕ) → ((k : ℕ) → k < j → Same k) → Same j → (k : ℕ) → k < suc j → Same k
  Same-suc j before now k h = elim (Bool-cases (k == j)) [
    | inl e ↦ rw ((==_iff k j).0 e) now
    | inr d ↦ before k (ground arith)
  ]

  Same-zero : (k : ℕ) → k < 1 → Same k
  Same-zero zero h =
      ap (λ (t : ℕ). (at ring t).node_id) (ground (arith, wrap_mod (i + 0) (length ring)))
  Same-zero (suc k) h = absurd (omega arith)

  scan-IsBuddy :
      (left j : ℕ)
      → 0 < j
      → j + left ≡ length ring
      → ((k : ℕ) → k < j → Same k)
      → IsBuddy ring i (scan_buddy ring i j left)
  unfolding scan_buddy
  scan-IsBuddy zero j p e before = inr (
    refl,
    λ k h.
        let (m, m-lt, at-k) = clockwise_index (length ring) i k i-lt h in
        subst (λ t. (at ring t).node_id ≡ (at ring i).node_id) at-k (before m (omega arith)),
  )
  scan-IsBuddy (suc left) j p e before =
      elim (Bool-cases ((at ring ((i + j) % length ring)).node_id ==ℤ (at ring i).node_id)) [
        | inl here ↦ rw here (
            scan-IsBuddy left (suc j) (omega arith) (omega arith)
              (Same-suc j before ((==ℤ_iff _ _).0 here)))
        | inr other ↦
            rw other (inl (j, p, omega arith, refl, λ q. cc (other, (==ℤ_iff _ _).1 q), before))
      ]

-- From a token of the ring, the do-while loop of `getBuddyNode` and the for loop of
-- `getKeyRangeAssignments` find the same buddy, and the ring's length is enough fuel for the first.
pub buddy_from-scan :
    (ring : List Token) (i : ℕ)
    → i < length ring
    → buddy_from ring i ≡ some (scan_buddy ring i 1 (length ring - 1))
unfolding buddy_from
buddy_from-scan ring i h =
    let fuel : length ring ≡ suc (length ring - 1) = omega arith in
    let here : (i + 0) % length ring ≡ i = ground (arith, wrap_mod (i + 0) (length ring)) in
    subst (λ n. buddy_loop ring i n i ≡ some (scan_buddy ring i 1 (length ring - 1))) (sym fuel)
      (subst
        (λ it.
          buddy_loop ring i (suc (length ring - 1)) it
          ≡ some (scan_buddy ring i 1 (length ring - 1)))
        here (buddy_loop-scan ring i h (length ring - 1) 0 (omega arith)))

-- On a ring with a token the do-while loop of `getBuddyNode` ends within the length of the ring, and
-- returns the first node clockwise from the key's token that is not its node, or that node if the
-- ring holds no other.
pub get_buddy_node_lem :
    (ring : List Token) (key : ℤ)
    → is_empty ring ≡ false
    → (b : ℤ) × (get_buddy_node ring key ≡ some b) × IsBuddy ring (find_token ring (hash_key key)) b
unfolding get_buddy_node
get_buddy_node_lem ring key h =
    let i = find_token ring (hash_key key) in
    let i-lt = find_token-lt ring (hash_key key) h in
    (
      scan_buddy ring i 1 (length ring - 1),
      rw (h, buddy_from-scan ring i i-lt),
      scan-IsBuddy ring i i-lt (length ring - 1) 1 (omega arith) (omega arith)
          (Same-zero ring i i-lt),
    )
