-- ===== src/Ring.antt =====
-- src/ConsistentHashRing.cpp and include/ConsistentHashRing.hpp: the hash ring.
-- An iterator into the ring is an index, and a read past the end, which is undefined in the source,
-- gives `null_token`. `std::stable_sort` is insertion sort, and `std::lower_bound` is
-- what it returns on a sorted ring: the number of leading tokens below the position.
pub mod Sorted
pub mod Sorting
pub mod Order
pub mod Primary
pub mod Buddy
pub mod Ranges
pub mod Table
pub mod Disruption
pub mod Gap
pub mod Ids
pub mod Grouped
pub mod Unordered
pub mod Nodes
use hpe_distributed_key_valu.Prelude.{
  ℕ, zero, suc, ◌+◌, ◌-◌, ◌*◌, ◌/◌, ◌%◌, ◌^◌, Bool, true, false, not, List, [], ◌∷◌, ◌++◌, Option,
  none, some, ltb, leb, ◌==◌, if◌then◌else◌, length, get_or, is_empty, Text, ℤ, pos, negsuc, ltb_ℤ,
  ◌==ℤ◌,
}
use hpe_distributed_key_valu.Murmur.{murmur3_32}
use hpe_distributed_key_valu.Decimal.{to_string}
use Prim.Native.Nat.{max}

abbrev pub u32_mod : ℕ
u32_mod = 2 ^ 32

abbrev pub uint32_max : ℕ
uint32_max = 2 ^ 32 - 1

pub record Token : Type 0 where
  pub position : ℕ
  pub node_id : ℤ

abbrev pub null_token : Token
null_token = record { position = 0; node_id = negsuc 0 }

-- `ring_[i]` and `*it`.
abbrev pub at : List Token → ℕ → Token
at ring i = get_or ring i null_token

-- The comparison of `rebuild`.
abbrev pub token_less : Token → Token → Bool
token_less a b =
    if not (a.position == b.position) then ltb a.position b.position else ltb_ℤ a.node_id b.node_id

-- Puts `t` before the first token that is not less: equal tokens keep their order.
pub sort_insert : Token → List Token → List Token
sort_insert t [] = t ∷ []
sort_insert t (x ∷ xs) = if token_less x t then x ∷ sort_insert t xs else t ∷ x ∷ xs

unfoldable pub stable_sort : List Token → List Token
stable_sort [] = []
stable_sort (t ∷ ts) = sort_insert t (stable_sort ts)

unfoldable pub hash_key : ℤ → ℕ
hash_key key = murmur3_32 (to_string key) 0

unfoldable pub hash_node_id : ℤ → ℕ
hash_node_id node_id = murmur3_32 (to_string node_id) 0

-- `1ULL << 32` divided by the number of tokens of a node, at least 1.
pub token_interval : ℕ → ℕ
token_interval virtual_nodes = max 1 (u32_mod / virtual_nodes)

pub token_position : ℕ → ℕ → ℕ → ℕ
token_position base interval v = (base + v * interval) % u32_mod

-- The inner loop of `rebuild`, with `left` rounds to go from `v`.
pub node_tokens : ℤ → ℕ → ℕ → ℕ → ℕ → List Token
node_tokens node_id base interval v zero = []
node_tokens node_id base interval v (suc left) =
    record { position = token_position base interval v; node_id = node_id }
    ∷ node_tokens node_id base interval (suc v) left

-- The outer loop, over the map in the order of its iteration.
pub all_tokens : List (ℤ × Text) → ℕ → List Token
all_tokens [] virtual_nodes = []
all_tokens ((node_id, _) ∷ nodes) virtual_nodes =
    node_tokens node_id (hash_node_id node_id) (token_interval virtual_nodes) 0 virtual_nodes
    ++ all_tokens nodes virtual_nodes

-- `rebuild`: the new `ring_`. A count that is not positive leaves the ring empty.
unfoldable pub rebuild : List (ℤ × Text) → ℤ → List Token
rebuild node_endpoints (negsuc n) = []
rebuild node_endpoints (pos zero) = []
rebuild node_endpoints (pos (suc n)) = stable_sort (all_tokens node_endpoints (suc n))

unfoldable pub lower_bound : ℕ → List Token → ℕ
lower_bound position [] = 0
lower_bound position (t ∷ ts) = if ltb t.position position then suc (lower_bound position ts) else 0

unfoldable pub find_token : List Token → ℕ → ℕ
find_token ring position =
    if lower_bound position ring == length ring then 0 else lower_bound position ring

-- The node of the token at which the search for `position` stops.
unfoldable pub primary_at : List Token → ℕ → ℤ
primary_at ring position = (at ring (find_token ring position)).node_id

unfoldable pub get_primary_node : List Token → ℤ → ℤ
get_primary_node ring key = if is_empty ring then negsuc 0 else primary_at ring (hash_key key)

-- `++it`, back to the first token at the end.
abbrev pub advance : List Token → ℕ → ℕ
advance ring it = if suc it == length ring then 0 else suc it

-- The do-while loop of `getBuddyNode`; `none` means that the fuel ran out.
unfoldable pub buddy_loop : List Token → ℕ → ℕ → ℕ → Option ℤ
buddy_loop ring start zero it = none
buddy_loop ring start (suc fuel) it =
    let it' = advance ring it in
    let rest = buddy_loop ring start fuel it' in
    if not ((at ring it').node_id ==ℤ (at ring start).node_id)
    then some (at ring it').node_id
    else if not (it' == start)
    then rest
    else some (at ring start).node_id

-- The buddy of the position at which the token `start` was found. The ring's length is enough fuel.
unfoldable pub buddy_from : List Token → ℕ → Option ℤ
buddy_from ring start = buddy_loop ring start (length ring) start

unfoldable pub get_buddy_node : List Token → ℤ → Option ℤ
get_buddy_node ring key =
    if is_empty ring then some (negsuc 0) else buddy_from ring (find_token ring (hash_key key))

pub record KeyRange : Type 0 where
  pub start : ℕ
  pub end : ℕ

pub record KeyRangeAssignment : Type 0 where
  pub range : KeyRange
  pub primary_node_id : ℤ
  pub buddy_node_id : ℤ

-- The inner loop of `getKeyRangeAssignments`, with `left` rounds to go from `j`.
unfoldable pub scan_buddy : List Token → ℕ → ℕ → ℕ → ℤ
scan_buddy ring i j zero = (at ring i).node_id
scan_buddy ring i j (suc left) =
    let idx = (i + j) % length ring in
    let rest = scan_buddy ring i (suc j) left in
    if not ((at ring idx).node_id ==ℤ (at ring i).node_id) then (at ring idx).node_id else rest

-- The three cases on `start` and `end`, which both range functions make for a token of `n`.
unfoldable pub ranges_between : ℕ → ℕ → ℕ → List KeyRange
ranges_between n start end =
    if ltb start end
    then record { start = start; end = end } ∷ []
    else if ltb end start
    then record { start = start; end = uint32_max }
      ∷ (if ltb 0 end then record { start = 0; end = end } ∷ [] else [])
    else if n == 1
    then record { start = 0; end = uint32_max } ∷ []
    else []

unfoldable pub token_ranges : List Token → ℕ → List KeyRange
token_ranges ring i =
    let n = length ring in
    let cur_pos = (at ring i).position in
    let prev_pos = (at ring ((i + n - 1) % n)).position in
    ranges_between n ((prev_pos + 1) % u32_mod) ((cur_pos + 1) % u32_mod)

abbrev pub assign : ℤ → ℤ → List KeyRange → List KeyRangeAssignment
assign primary buddy [] = []
assign primary buddy (r ∷ rs) =
    record { range = r; primary_node_id = primary; buddy_node_id = buddy } ∷ assign primary buddy rs

-- The loop over the tokens, with `left` rounds to go from `i`.
unfoldable pub assignments_from : List Token → ℕ → ℕ → List KeyRangeAssignment
assignments_from ring i zero = []
assignments_from ring i (suc left) =
    assign (at ring i).node_id (scan_buddy ring i 1 (length ring - 1)) (token_ranges ring i)
    ++ assignments_from ring (suc i) left

unfoldable pub get_key_range_assignments : List Token → List KeyRangeAssignment
get_key_range_assignments ring = assignments_from ring 0 (length ring)

-- `result[node_id].push_back(...)` on the map of ranges.
abbrev pub push_ranges : ℤ → List KeyRange → List (ℤ × List KeyRange) → List (ℤ × List KeyRange)
push_ranges id [] result = result
push_ranges id (r ∷ rs) [] = (id, r ∷ rs) ∷ []
push_ranges id (r ∷ rs) ((k, old) ∷ result) =
    if k ==ℤ id then (k, old ++ r ∷ rs) ∷ result else (k, old) ∷ push_ranges id (r ∷ rs) result

unfoldable pub ranges_from :
    List Token → ℕ → ℕ → List (ℤ × List KeyRange) → List (ℤ × List KeyRange)
ranges_from ring i zero result = result
ranges_from ring i (suc left) result =
    ranges_from ring (suc i) left (push_ranges (at ring i).node_id (token_ranges ring i) result)

unfoldable pub get_key_ranges : List Token → List (ℤ × List KeyRange)
get_key_ranges ring = ranges_from ring 0 (length ring) []
