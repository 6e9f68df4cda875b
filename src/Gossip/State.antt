-- ===== src/Gossip/State.antt =====
-- src/GossipMembership.cpp and include/GossipMembership.hpp: the state of a node, and `notifyChange`.
use hpe_distributed_key_valu.Prelude.{
  ℕ, Bool, true, false, not, ◌&&◌, List, [], ◌∷◌, Option, none, some, if◌then◌else◌, Text, ℤ, ltb_ℤ,
  ◌==ℤ◌,
}

pub data NodeStatus : Type 0 where
  alive suspect dead : NodeStatus

-- `static_cast<uint8_t>(status)`.
abbrev pub severity : NodeStatus → ℕ
severity alive = 0
severity suspect = 1
severity dead = 2

pub record MemberRecord : Type 0 where
  pub node_id : ℤ
  pub endpoint : Text
  pub status : NodeStatus
  pub heartbeat_counter : ℕ
  pub generation : ℕ

-- The field `record` of the source is `info` here.
pub record MemberEntry : Type 0 where
  pub info : MemberRecord
  pub last_updated_ms : ℕ

abbrev pub MemberTable : Type 0
MemberTable = List (ℤ × MemberEntry)

-- `member_table_.find(id)`.
unfoldable pub find : ℤ → MemberTable → Option MemberEntry
find id [] = none
find id ((k, e) ∷ table) = if k ==ℤ id then some e else find id table

-- `member_table_[id] = e`, and a write through an iterator.
unfoldable pub put : ℤ → MemberEntry → MemberTable → MemberTable
put id e [] = (id, e) ∷ []
put id e ((k, old) ∷ table) = if k ==ℤ id then (k, e) ∷ table else (k, old) ∷ put id e table

-- The view that is sent to a peer.
abbrev pub records : MemberTable → List MemberRecord
records [] = []
records ((_, e) ∷ table) = e.info ∷ records table

pub record GossipMembership : Type 0 where
  pub self_node_id : ℤ
  pub self_endpoint : Text
  pub seed_nodes : List Text
  pub suspect_threshold_ms : ℤ
  pub dead_threshold_ms : ℤ
  pub member_table : MemberTable
  pub running : Bool
  pub has_callback : Bool
  pub last_alive_set : List ℤ
  pub generation : ℕ
  pub delivered : List (List (ℤ × Text))

-- `std::set<int>::insert`: the ids in ascending order.
unfoldable pub set_insert : ℤ → List ℤ → List ℤ
set_insert id [] = id ∷ []
set_insert id (x ∷ xs) =
    if ltb_ℤ x id then x ∷ set_insert id xs else if x ==ℤ id then x ∷ xs else id ∷ x ∷ xs

abbrev pub set_eq : List ℤ → List ℤ → Bool
set_eq [] [] = true
set_eq [] (y ∷ ys) = false
set_eq (x ∷ xs) [] = false
set_eq (x ∷ xs) (y ∷ ys) = x ==ℤ y && set_eq xs ys

abbrev pub is_alive : NodeStatus → Bool
is_alive alive = true
is_alive _ = false

unfoldable pub current_alive : MemberTable → List ℤ → List ℤ
current_alive [] ids = ids
current_alive ((id, e) ∷ table) ids =
    current_alive table (if is_alive e.info.status then set_insert id ids else ids)

unfoldable pub live_endpoints : List ℤ → MemberTable → List (ℤ × Text)
live_endpoints [] table = []
live_endpoints (id ∷ ids) table =
    let rest = live_endpoints ids table in
    elim (find id table) [ none ↦ rest | some e ↦ (id, e.info.endpoint) ∷ rest ]

unfoldable pub notify_change : GossipMembership → GossipMembership
notify_change g =
    if not g.has_callback
    then g
    else let ids = current_alive g.member_table [] in
      if set_eq ids g.last_alive_set then g else record g {
        last_alive_set = ids;
        delivered = live_endpoints ids g.member_table ∷ g.delivered;
      }
