-- ===== src/Ring/Sorting.antt =====
-- `rebuild` of src/ConsistentHashRing.cpp as a sort: the tokens that it puts on the ring, and their order.
use mathlib.Core.List.Perm
use mathlib.Core.List.{Perm}
use hpe_distributed_key_valu.Prelude.{ℕ, suc, List, [], ◌∷◌, Text, ℤ, pos, Bool-cases, inl, inr}
use hpe_distributed_key_valu.Ring.{Token, token_less, sort_insert, stable_sort, all_tokens, rebuild}
use hpe_distributed_key_valu.Ring.Sorted.{IsSorted, stable_sort-IsSorted}

sort_insert-perm : (t : Token) (ts : List Token) → Perm (sort_insert t ts) (t ∷ ts)
unfolding sort_insert
sort_insert-perm t [] = Perm.refl (t ∷ [])
sort_insert-perm t (x ∷ xs) = elim (Bool-cases (token_less x t)) [
  | inl less ↦ rw less (Perm.trans (Perm.cons x (sort_insert-perm t xs)) (Perm.swap t x xs))
  | inr more ↦ rw more (Perm.refl (t ∷ x ∷ xs))
]

stable_sort-perm : (ts : List Token) → Perm (stable_sort ts) ts
unfolding stable_sort
stable_sort-perm [] = Perm.refl []
stable_sort-perm (t ∷ ts) =
    Perm.trans (sort_insert-perm t (stable_sort ts)) (Perm.cons t (stable_sort-perm ts))

-- With a positive number of tokens for a node, `rebuild` puts on the ring the tokens of the nodes and no
-- others, in ascending order of their positions, and of their node ids where positions are equal.
pub rebuild-sorts :
    (node_endpoints : List (ℤ × Text)) (n : ℕ)
    → IsSorted (rebuild node_endpoints (pos (suc n)))
      × Perm (rebuild node_endpoints (pos (suc n))) (all_tokens node_endpoints (suc n))
unfolding rebuild
rebuild-sorts nodes n =
    (stable_sort-IsSorted (all_tokens nodes (suc n)), stable_sort-perm (all_tokens nodes (suc n)))
