-- ===== src/Ring/Ranges.antt =====
-- `getKeyRangeAssignments` and `getKeyRanges` of src/ConsistentHashRing.cpp, against the lookups.
use hpe_distributed_key_valu.Prelude.{
  ap, sym, ◌∙◌, ℕ, ◌+◌, ◌-◌, ◌%◌, ◌≤◌, ◌<◌, ◌≡◌, ◌⊎◌, inl, inr, List, Bool, arith, length, true,
  ◌&&◌, ◌||◌, ◌≢◌, ltb, leb, any, All, All-get_or, ◌==◌, if◌then◌else◌,
}
use hpe_distributed_key_valu.Ring.{
  Token, at, u32_mod, uint32_max, KeyRange, ranges_between, token_ranges, null_token,
}
use hpe_distributed_key_valu.Ring.Sorted.{IsRing, position_mono}
use hpe_distributed_key_valu.Ring.Primary.{IsSuccessor}
use hpe_distributed_key_valu.Ring.Buddy.{wrap_mod}

-- The rule of include/ConsistentHashRing.hpp: the start is inclusive and the end exclusive, and a range
-- whose start is not below its end wraps.
abbrev pub contains : ℕ → KeyRange → Bool
contains p r =
    if ltb r.start r.end then leb r.start p && ltb p r.end else leb r.start p || ltb p r.end

abbrev pub covers : ℕ → List KeyRange → Bool
covers p rs = any (contains p) rs

-- What the ranges between two positions hold.
abbrev held : ℕ → ℕ → ℕ → ℕ → Bool
held p prev cur n = covers p (ranges_between n ((prev + 1) % u32_mod) ((cur + 1) % u32_mod))

module _ (p prev cur n : ℕ) (small : p < uint32_max) (cur-lt : cur < u32_mod)
    (prev-lt : prev < u32_mod) (clear : (n ≡ 1) ⊎ (prev ≢ uint32_max - 1)) where
  held_after : prev ≤ cur → n ≢ 1 → held p prev cur n ≡ (ltb prev p && leb p cur)
  unfolding ranges_between
  held_after h d = ground arith

  held_wrap : cur < prev → n ≢ 1 → held p prev cur n ≡ (ltb prev p || leb p cur)
  unfolding ranges_between
  held_wrap h d = ground arith

  held_single : prev ≡ cur → n ≡ 1 → held p prev cur n ≡ true
  unfolding ranges_between
  held_single h e = ground arith

-- The tokens do not all stand at one position, unless there is but one token.
abbrev pub IsSpread : List Token → Type 0
IsSpread ring = (length ring ≡ 1) ⊎ ((at ring 0).position < (at ring (length ring - 1)).position)

-- No token stands just below UINT32_MAX, unless there is but one token. Behind one that does, a range
-- would begin at UINT32_MAX.
abbrev pub IsClear : List Token → Type 0
IsClear ring = (length ring ≡ 1) ⊎ All (λ t. t.position ≢ uint32_max - 1) ring

module _ (ring : List Token) (r : IsRing ring) (spread : IsSpread ring) (clear : IsClear ring)
    (p i : ℕ) (small : p < uint32_max) (i-lt : i < length ring) where
  abbrev position : ℕ → ℕ
  position k = (at ring k).position

  word : (k : ℕ) → k < length ring → position k < u32_mod
  word k h = All-get_or (λ t. t.position < u32_mod) ring k null_token r.words h

  clear_at : (k : ℕ) → k < length ring → (length ring ≡ 1) ⊎ (position k ≢ uint32_max - 1)
  clear_at k h = elim clear [
    | inl one ↦ inl one
    | inr all ↦ inr (All-get_or (λ t. t.position ≢ uint32_max - 1) ring k null_token all h)
  ]

  mono : (k l : ℕ) → k ≤ l → l < length ring → position k ≤ position l
  mono k l = position_mono ring k l r.sorted

  previous : (i + length ring - 1) % length ring ≡ (if i == 0 then length ring - 1 else i - 1)
  previous = ground (arith, wrap_mod (i + length ring - 1) (length ring))

  held_at :
      (k : ℕ)
      → (if i == 0 then length ring - 1 else i - 1) ≡ k
      → covers p (token_ranges ring i) ≡ held p (position k) (position i) (length ring)
  unfolding token_ranges
  held_at k e = rw (previous, e)

  several : i ≡ 0 → position i < position (length ring - 1) → length ring ≢ 1
  several e d one =
      let same : position (length ring - 1) ≡ position i = ap position (omega arith) in omega arith

  -- What the ranges of the token `i` hold, in terms of the positions round it.
  held_first :
      i ≡ 0
      → position i < position (length ring - 1)
      → covers p (token_ranges ring i) ≡ (ltb (position (length ring - 1)) p || leb p (position i))
  held_first e d =
      held_at (length ring - 1) (ground arith)
      ∙ held_wrap p _ _ (length ring) small (word i i-lt) (word (length ring - 1) (omega arith))
          (clear_at (length ring - 1) (omega arith)) d (several e d)

  held_later :
      0 < i → covers p (token_ranges ring i) ≡ (ltb (position (i - 1)) p && leb p (position i))
  held_later h =
      held_at (i - 1) (ground arith)
      ∙ held_after p _ _ (length ring) small (word i i-lt) (word (i - 1) (omega arith))
          (clear_at (i - 1) (omega arith)) (mono (i - 1) i (omega arith) i-lt) (omega arith)

  held_only : length ring ≡ 1 → covers p (token_ranges ring i) ≡ true
  held_only e =
      held_at 0 (ground arith)
      ∙ held_single p _ _ (length ring) small (word i i-lt) (word 0 (omega arith))
          (clear_at 0 (omega arith)) (ap position (omega arith)) e

  place : (length ring ≡ 1) ⊎ (((i ≡ 0) × (position i < position (length ring - 1))) ⊎ (0 < i))
  place = ground arith

  pub Successor-covers : IsSuccessor ring p i → covers p (token_ranges ring i) ≡ true
  Successor-covers s = elim place [
    | inl one ↦ held_only one
    | inr (inl (first, apart)) ↦ rw (held_first first apart) (elim s.reached [
      | inl stop ↦ ground arith
      | inr (_, below) ↦ ground (arith, below (length ring - 1))
    ])
    | inr (inr later) ↦ rw (held_later later) (elim s.reached [
      | inl stop ↦ ground (arith, s.before (i - 1))
      | inr (first, _) ↦ absurd (omega arith)
    ])
  ]

  all_below : position (length ring - 1) < p → (k : ℕ) → k < length ring → position k < p
  all_below h k l = omega (arith, mono k (length ring - 1) (omega arith) (omega arith))

  first-Successor :
      i ≡ 0 → (p ≤ position i) ⊎ (position (length ring - 1) < p) → IsSuccessor ring p i
  first-Successor e (inl stop) = record {
    inside = i-lt;
    before = λ k l. absurd (omega arith);
    reached = inl stop;
  }
  first-Successor e (inr wrap) = record {
    inside = i-lt;
    before = λ k l. absurd (omega arith);
    reached = inr (e, all_below wrap);
  }

  later-Successor : position (i - 1) < p → p ≤ position i → 0 < i → IsSuccessor ring p i
  later-Successor low high h = record {
    inside = i-lt;
    before = λ k l. omega (arith, mono k (i - 1) (omega arith) (omega arith));
    reached = inl high;
  }

  pub covers-Successor : covers p (token_ranges ring i) ≡ true → IsSuccessor ring p i
  covers-Successor h = elim place [
    | inl one ↦ first-Successor (omega arith) (split (position i) (ap position (omega arith)))
    | inr (inl (first, apart)) ↦ first-Successor first (either (held_first first apart) h)
    | inr (inr later) ↦
        let b : (ltb (position (i - 1)) p && leb p (position i)) ≡ true =
          sym (held_later later) ∙ h in
        later-Successor (ground arith) (ground arith) later
  ]
    where
      split : (c : ℕ) → position (length ring - 1) ≡ c → (p ≤ c) ⊎ (position (length ring - 1) < p)
      split c e = ground arith

      either :
          {b : Bool}
          → b ≡ (ltb (position (length ring - 1)) p || leb p (position i))
          → b ≡ true
          → (p ≤ position i) ⊎ (position (length ring - 1) < p)
      either e h = ground arith
