-- ===== src/Ring/Sorted.antt =====
-- `rebuild` of src/ConsistentHashRing.cpp: the order of the ring that it leaves, and its positions.
use hpe_distributed_key_valu.Prelude.{
  ℕ, zero, suc, ◌≤◌, ◌<◌, ◌≡◌, refl, false, List, [], ◌∷◌, arith, length, is_empty, Bool-cases, inl,
  inr, true, All, All-append, All-get_or, Text, ℤ, pos, negsuc, ltb_ℤ, ◌⊎◌,
}
use hpe_distributed_key_valu.Ring.{
  Token, token_less, sort_insert, stable_sort, node_tokens, all_tokens, rebuild, u32_mod,
  token_position, at, null_token,
}

-- `t` may stand before `u`: its position is lower, or it is the same and its id is not greater.
abbrev pub Precedes : Token → Token → Type 0
Precedes t u =
    (t.position < u.position) ⊎ ((t.position ≡ u.position) × (ltb_ℤ u.node_id t.node_id ≡ false))

-- Each token precedes all those behind it.
abbrev pub IsSorted : List Token → Type 0
IsSorted [] = Unit
IsSorted (t ∷ ts) = All (λ u. Precedes t u) ts × IsSorted ts

not_less-Precedes : (t u : Token) → token_less u t ≡ false → Precedes t u
not_less-Precedes t u h = ground arith

Precedes-not_less : (t u : Token) → Precedes t u → token_less u t ≡ false
Precedes-not_less t u (inl lower) = ground arith
Precedes-not_less t u (inr (same, id)) = ground arith

Precedes-trans : (a b c : Token) → Precedes a b → Precedes b c → Precedes a c
Precedes-trans a b c h k =
    not_less-Precedes a c
      (token_less_trans a b c (Precedes-not_less a b h) (Precedes-not_less b c k))
  where
    token_less_trans :
        (a b c : Token) → token_less b a ≡ false → token_less c b ≡ false → token_less c a ≡ false
    token_less_trans a b c h k = ground arith

less-Precedes : (a b : Token) → token_less a b ≡ true → Precedes a b
less-Precedes a b h = ground arith

All-sort_insert {κ} :
    (P : Token → Type κ) (t : Token) (ts : List Token) → P t → All P ts → All P (sort_insert t ts)
unfolding sort_insert
All-sort_insert P t [] h hs = (h, tt)
All-sort_insert P t (x ∷ xs) h hs = elim (Bool-cases (token_less x t)) [
  | inl less ↦ rw less (hs.0, All-sort_insert P t xs h hs.1)
  | inr more ↦ rw more (h, hs)
]

pub All-stable_sort {κ} : (P : Token → Type κ) (ts : List Token) → All P ts → All P (stable_sort ts)
unfolding stable_sort
All-stable_sort P [] hs = tt
All-stable_sort P (t ∷ ts) hs =
    All-sort_insert P t (stable_sort ts) hs.0 (All-stable_sort P ts hs.1)

sort_insert-IsSorted : (t : Token) (ts : List Token) → IsSorted ts → IsSorted (sort_insert t ts)
unfolding sort_insert
sort_insert-IsSorted t [] h = (tt, tt)
sort_insert-IsSorted t (x ∷ xs) h = elim (Bool-cases (token_less x t)) [
  | inl less ↦ rw less (
    All-sort_insert (λ u. Precedes x u) t xs (less-Precedes x t less) h.0,
    sort_insert-IsSorted t xs h.1,
  )
  | inr more ↦
      rw more ((not_less-Precedes t x more, All-above t x xs (not_less-Precedes t x more) h.0), h)
]
  where
    All-above :
        (t x : Token) (xs : List Token)
        → Precedes t x
        → All (λ u. Precedes x u) xs
        → All (λ u. Precedes t u) xs
    All-above t x [] h hs = tt
    All-above t x (u ∷ us) h hs = (Precedes-trans t x u h hs.0, All-above t x us h hs.1)

pub stable_sort-IsSorted : (ts : List Token) → IsSorted (stable_sort ts)
unfolding stable_sort
stable_sort-IsSorted [] = tt
stable_sort-IsSorted (t ∷ ts) = sort_insert-IsSorted t (stable_sort ts) (stable_sort-IsSorted ts)

pub record IsRing (ring : List Token) : Type 0 where
  pub sorted : IsSorted ring
  pub words : All (λ t. t.position < u32_mod) ring

node_tokens-words :
    (id : ℤ) (base interval v left : ℕ)
    → All (λ t. t.position < u32_mod) (node_tokens id base interval v left)
unfolding node_tokens token_position
node_tokens-words id base interval v zero = tt
node_tokens-words id base interval v (suc left) =
    (omega arith, node_tokens-words id base interval (suc v) left)

all_tokens-words :
    (nodes : List (ℤ × Text)) (v : ℕ) → All (λ t. t.position < u32_mod) (all_tokens nodes v)
unfolding all_tokens
all_tokens-words [] v = tt
all_tokens-words ((id, _) ∷ nodes) v =
    All-append (λ t. t.position < u32_mod) (node_tokens id _ _ 0 v) (all_tokens nodes v)
      (node_tokens-words id _ _ 0 v) (all_tokens-words nodes v)

-- The ring that `rebuild` leaves is sorted, and its positions are 32-bit words.
pub rebuild-IsRing :
    (node_endpoints : List (ℤ × Text)) (virtual_nodes : ℤ)
    → IsRing (rebuild node_endpoints virtual_nodes)
unfolding rebuild
rebuild-IsRing nodes (negsuc n) = record { sorted = tt; words = tt }
rebuild-IsRing nodes (pos zero) = record { sorted = tt; words = tt }
rebuild-IsRing nodes (pos (suc n)) = record {
  sorted = stable_sort-IsSorted (all_tokens nodes (suc n));
  words = All-stable_sort _ (all_tokens nodes (suc n)) (all_tokens-words nodes (suc n));
}

is_empty-sort_insert : (t : Token) (ts : List Token) → is_empty (sort_insert t ts) ≡ false
unfolding sort_insert
is_empty-sort_insert t [] = refl
is_empty-sort_insert t (x ∷ xs) = ground arith

-- A node with a token is on the ring.
pub rebuild-nonempty :
    (node : ℤ × Text) (nodes : List (ℤ × Text)) (n : ℕ)
    → is_empty (rebuild (node ∷ nodes) (pos (suc n))) ≡ false
unfolding rebuild stable_sort all_tokens node_tokens
rebuild-nonempty node nodes n = is_empty-sort_insert _ _

-- In a sorted ring the positions do not fall.
pub position_mono :
    (ring : List Token) (i j : ℕ)
    → IsSorted ring
    → i ≤ j
    → j < length ring
    → (at ring i).position ≤ (at ring j).position
position_mono [] i j s h l = absurd (omega arith)
position_mono (t ∷ ts) zero zero s h l = omega arith
position_mono (t ∷ ts) zero (suc j) s h l =
    ground (arith, All-get_or (λ u. Precedes t u) ts j null_token s.0)
position_mono (t ∷ ts) (suc i) zero s h l = absurd (omega arith)
position_mono (t ∷ ts) (suc i) (suc j) s h l = position_mono ts i j s.1 (omega arith) (omega arith)
