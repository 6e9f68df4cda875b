-- ===== src/Distributor/State.antt =====
-- The state of src/KVDistributor.cpp, and its helpers on texts and on the map of endpoints.
use hpe_distributed_key_valu.Prelude.{
  ℕ, ◌==◌, Bool, true, false, ◌&&◌, ◌||◌, List, [], ◌∷◌, Option, none, some, if◌then◌else◌, length,
  Text, codes, text_eq, starts_with, ℤ, pos, negsuc, ltb_ℤ, ◌==ℤ◌,
}
use hpe_distributed_key_valu.Ring.{Token, get_primary_node, get_buddy_node}
use hpe_distributed_key_valu.Gossip.{MemberRecord, is_alive}
use hpe_distributed_key_valu.Store.{KvStore}

-- `isMissOrError`
unfoldable pub is_miss_or_error : Text → Bool
is_miss_or_error value =
    text_eq value (codes "key not found")
    || (text_eq value (codes "Map not found")
        || (starts_with value (codes "Error:")
            || starts_with value (codes "Fetch operation failed:")))

abbrev pub Endpoints : Type 0
Endpoints = List (ℤ × Text)

unfoldable pub endpoint_of : ℤ → Endpoints → Option Text
endpoint_of id [] = none
endpoint_of id ((k, ep) ∷ nodes) = if k ==ℤ id then some ep else endpoint_of id nodes

-- `map[id] = ep`
unfoldable pub set_endpoint : ℤ → Text → Endpoints → Endpoints
set_endpoint id ep [] = (id, ep) ∷ []
set_endpoint id ep ((k, old) ∷ nodes) =
    if k ==ℤ id then (k, ep) ∷ nodes else (k, old) ∷ set_endpoint id ep nodes

pub record KvDistributor (M W : Type 0) : Type 0 where
  pub count_of_node : ℕ
  pub node_to_ip : Endpoints
  pub local_node_id : ℤ
  pub hash_ring : List Token
  pub kv : KvStore M
  pub world : W

pub data RemoteOp : Type 0 where
  insert_op update_op : RemoteOp

abbrev drop_two : Text → Text
drop_two (a ∷ b ∷ rest) = rest
drop_two short = []

-- The text behind the first `://`, or all of it where there is none.
unfoldable pub strip_protocol : Text → Text → Text
strip_protocol whole [] = whole
strip_protocol whole (c ∷ rest) =
    let later = strip_protocol whole rest in
    if starts_with (c ∷ rest) (codes "://") then drop_two rest else later

-- The map of the live members that a server's answer describes.
unfoldable pub live_nodes : List MemberRecord → Endpoints → Endpoints
live_nodes [] live = live
live_nodes (m ∷ members) live = live_nodes members (
    if is_alive m.status
    then set_endpoint m.node_id (strip_protocol m.endpoint m.endpoint) live
    else live)

-- `live == node_to_ip` on maps: as many entries, and each of the one is in the other.
abbrev has_endpoint : Endpoints → ℤ × Text → Bool
has_endpoint nodes (id, ep) = elim (endpoint_of id nodes) [ none ↦ false | some e ↦ text_eq e ep ]

abbrev all_in : Endpoints → Endpoints → Bool
all_in [] nodes = true
all_in (p ∷ ps) nodes = has_endpoint nodes p && all_in ps nodes

abbrev pub same_nodes : Endpoints → Endpoints → Bool
same_nodes a b = length a == length b && all_in a b

-- The default of `virtual_nodes_per_node`.
abbrev pub default_virtual_nodes : ℤ
default_virtual_nodes = pos 2

abbrev get_or_minus_one : Option ℤ → ℤ
get_or_minus_one none = negsuc 0
get_or_minus_one (some id) = id

abbrev pub primary_of : List Token → ℤ → ℤ
primary_of = get_primary_node

-- `getBuddyNode`, with -1 where the fuel of its loop would run out.
abbrev pub buddy_of : List Token → ℤ → ℤ
buddy_of ring key = get_or_minus_one (get_buddy_node ring key)

abbrev pub is_negative : ℤ → Bool
is_negative id = ltb_ℤ id (pos 0)
