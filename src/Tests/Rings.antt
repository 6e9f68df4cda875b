-- ===== src/Tests/Rings.antt =====
-- Instances of the theorems on src/ConsistentHashRing.cpp.
use std.Equiv.{IsContr}
use hpe_distributed_key_valu.Prelude.{
  ◌≡◌, ◌≢◌, refl, inl, inr, ◌⊎◌, true, List, [], ◌∷◌, some, arith, any, All, Text, codes, ℤ, pos,
}
use hpe_distributed_key_valu.Ring.{
  Token, rebuild, hash_key, find_token, get_primary_node, get_buddy_node, get_key_range_assignments,
}
use hpe_distributed_key_valu.Ring.Sorted.{IsRing, IsSorted, rebuild-nonempty}
use hpe_distributed_key_valu.Ring.Sorting.{rebuild-sorts}
use mathlib.Core.List.{Perm}
use hpe_distributed_key_valu.Ring.{all_tokens}
use hpe_distributed_key_valu.Ring.{get_key_ranges}
use hpe_distributed_key_valu.Ring.Grouped.{ranges_of, assigned_to, get_key_ranges-assigned}
use hpe_distributed_key_valu.Ring.Nodes.{IsNode, two_places}
use hpe_distributed_key_valu.Ring.Unordered.{iterated, RingOf, ring_of_map}
use hpe_distributed_key_valu.Ring.Primary.{IsSuccessor, find_token-IsSuccessor}
use hpe_distributed_key_valu.Ring.Buddy.{IsBuddy, get_buddy_node_lem}
use hpe_distributed_key_valu.Ring.Ranges.{contains, IsClear}
use hpe_distributed_key_valu.Ring.Table.{Agrees, table-Agrees}
use hpe_distributed_key_valu.Ring.Disruption.{join_moves_to_new}

abbrev first_node : ℤ × Text
first_node = (pos 0, codes "10.0.0.1:5000")

abbrev second_node : ℤ × Text
second_node = (pos 1, codes "10.0.0.2:5000")

-- Two nodes with two tokens each.
abbrev small_ring : List Token
small_ring =
    record { position = 100; node_id = pos 1 }
    ∷ record { position = 2_000; node_id = pos 0 }
    ∷ record { position = 30_000; node_id = pos 1 }
    ∷ record { position = 4_000_000_000; node_id = pos 0 }
    ∷ []

small_ring-IsRing : IsRing small_ring
small_ring-IsRing = record {
  sorted = (
    (inl (omega arith), (inl (omega arith), (inl (omega arith), tt))),
    ((inl (omega arith), (inl (omega arith), tt)), ((inl (omega arith), tt), (tt, tt))),
  );
  words = (omega arith, (omega arith, (omega arith, (omega arith, tt))));
}

small_ring-IsClear : IsClear small_ring
small_ring-IsClear = inr (omega arith, (omega arith, (omega arith, (omega arith, tt))))

-- A ring whose last token stands just below UINT32_MAX.
abbrev edge_ring : List Token
edge_ring =
    record { position = 5; node_id = pos 0 }
    ∷ record { position = 4_294_967_294; node_id = pos 1 }
    ∷ []

table-Agrees_example :
    (any (λ a. contains 2_500 a.range) (get_key_range_assignments small_ring) ≡ true)
    × All
        (λ a. contains 2_500 a.range ≡ true → Agrees small_ring 2_500 a)
        (get_key_range_assignments small_ring)
table-Agrees_example =
    table-Agrees small_ring small_ring-IsRing (inr (omega arith)) small_ring-IsClear 2_500
      (omega arith) refl

find_token-IsSuccessor_example : IsSuccessor small_ring 2_500 (find_token small_ring 2_500)
find_token-IsSuccessor_example =
    find_token-IsSuccessor small_ring 2_500 small_ring-IsRing.sorted refl

get_buddy_node_lem_example :
    (b : ℤ) × (get_buddy_node small_ring (pos 42) ≡ some b)
    × IsBuddy small_ring (find_token small_ring (hash_key (pos 42))) b
get_buddy_node_lem_example = get_buddy_node_lem small_ring (pos 42) refl

rebuild-sorts_example :
    IsSorted (rebuild (first_node ∷ second_node ∷ []) (pos 2))
    × Perm
        (rebuild (first_node ∷ second_node ∷ []) (pos 2))
        (all_tokens (first_node ∷ second_node ∷ []) 2)
rebuild-sorts_example = rebuild-sorts (first_node ∷ second_node ∷ []) 1

join_moves_to_new_example :
    (get_primary_node (rebuild (second_node ∷ first_node ∷ []) (pos 2)) (pos 42)
      ≡ get_primary_node (rebuild (first_node ∷ []) (pos 2)) (pos 42))
    ⊎ (get_primary_node (rebuild (second_node ∷ first_node ∷ []) (pos 2)) (pos 42) ≡ pos 1)
join_moves_to_new_example =
    join_moves_to_new second_node (first_node ∷ []) (pos 2) (pos 42)
      (rebuild-nonempty first_node [] 1)

two_places_example :
    IsNode
      (first_node ∷ second_node ∷ [])
      (get_primary_node (rebuild (first_node ∷ second_node ∷ []) (pos 2)) (pos 42))
    × ((b : ℤ) × (get_buddy_node (rebuild (first_node ∷ second_node ∷ []) (pos 2)) (pos 42)
          ≡ some b)
        × IsNode (first_node ∷ second_node ∷ []) b
        × ((other : ℤ)
            → IsNode (first_node ∷ second_node ∷ []) other
            → other ≢ get_primary_node (rebuild (first_node ∷ second_node ∷ []) (pos 2)) (pos 42)
            → b ≢ get_primary_node (rebuild (first_node ∷ second_node ∷ []) (pos 2)) (pos 42)))
two_places_example = two_places first_node (second_node ∷ []) 1 (pos 42)

ring_of_map_example : IsContr (RingOf (pos 2) (iterated (first_node ∷ second_node ∷ [])))
ring_of_map_example = ring_of_map (pos 2) (iterated (first_node ∷ second_node ∷ []))

get_key_ranges-assigned_example :
    ranges_of (pos 1) (get_key_ranges small_ring)
    ≡ assigned_to (pos 1) (get_key_range_assignments small_ring)
get_key_ranges-assigned_example = get_key_ranges-assigned small_ring (pos 1)
