-- ===== src/Ring/Unordered.antt =====
-- `rebuild` of src/ConsistentHashRing.cpp takes an `unordered_map`: a map is a list of its pairs up to
-- their order, and the ring is a function of the map.
use std.Equiv.{IsContr}
use mathlib.Core.HLevel.{Σ_prop_path, Π_prop}
use mathlib.Core.List.{Perm}
use mathlib.Core.Quot
use mathlib.Core.Quot.{Quot, Quot-set}
use hpe_distributed_key_valu.Prelude.{◌≡◌, refl, ap, sym, List, Text, ℤ}
use hpe_distributed_key_valu.Ring.{Token, rebuild}
use hpe_distributed_key_valu.Ring.Order.{rebuild-perm}

-- The map, without the order of its iteration.
abbrev pub NodeMap : Type 0
NodeMap = Quot {α = List (ℤ × Text)} (λ nodes nodes'. Perm nodes nodes')

abbrev pub iterated : List (ℤ × Text) → NodeMap
iterated nodes = Quot.mk nodes

tokens_set : IsSet (List Token)
tokens_set = hlevel

-- `rebuild` on the map.
pub rebuild_map : ℤ → NodeMap → List Token
rebuild_map virtual_nodes =
    Quot.lift tokens_set (λ nodes. rebuild nodes virtual_nodes)
      (λ nodes nodes' h. rebuild-perm nodes nodes' virtual_nodes h)

-- A ring that every order of iteration of the map leads to.
abbrev pub RingOf : ℤ → NodeMap → Type 0
RingOf virtual_nodes m =
    (ring : List Token) × ((nodes : List (ℤ × Text))
      → iterated nodes ≡ m
      → rebuild nodes virtual_nodes ≡ ring)

the_ring : (virtual_nodes : ℤ) (m : NodeMap) → RingOf virtual_nodes m
unfolding rebuild_map
the_ring virtual_nodes m =
    (rebuild_map virtual_nodes m, λ nodes e. ap (rebuild_map virtual_nodes) e)

only_ring :
    (virtual_nodes : ℤ) (m : NodeMap) (r : RingOf virtual_nodes m)
    → r.0 ≡ rebuild_map virtual_nodes m
unfolding rebuild_map
only_ring virtual_nodes =
    Quot.ind (λ m. Π_prop (λ r. tokens_set _ _)) (λ nodes r. sym (r.1 nodes refl))

-- For every map of nodes there is one ring, and no other, that `rebuild` makes of it in whatever
-- order the map is iterated.
pub ring_of_map : (virtual_nodes : ℤ) (m : NodeMap) → IsContr (RingOf virtual_nodes m)
unfolding the_ring rebuild_map
ring_of_map virtual_nodes m = (
  the_ring virtual_nodes m,
  λ r.
      Σ_prop_path (λ ring. Π_prop (λ nodes. Π_prop (λ e. tokens_set _ _)))
        (only_ring virtual_nodes m r),
)
