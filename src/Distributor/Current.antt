-- ===== src/Distributor/Current.antt =====
-- `fetchMembershipFromServer` and the constructors of src/KVDistributor.cpp: the ring of a distributor
-- is that of the nodes that it knows.
use hpe_distributed_key_valu.Prelude.{
  ◌≡◌, refl, List, [], Option, none, some, is_empty, length, Text, Bool-cases, inl, inr,
}
use hpe_distributed_key_valu.Ring.{rebuild}
use hpe_distributed_key_valu.Gossip.{MemberRecord}
use hpe_distributed_key_valu.Store.{Segment, KvStore}
use hpe_distributed_key_valu.Client.{IkvClient}
use hpe_distributed_key_valu.Distributor.State.{
  Endpoints, default_virtual_nodes, live_nodes, same_nodes,
}
use hpe_distributed_key_valu.Distributor.Membership.{
  rebuild_ring, take_membership, membership_answer, fetch_membership_from_server, construct,
}
use hpe_distributed_key_valu.Distributor.Routes.{Dist}

module _ (S : Segment) (C : IkvClient) where
  -- The ring and the count are those of the map of nodes, with the default number of tokens.
  pub record IsCurrent (d : Dist S C) : Type 0 where
    pub count : d.count_of_node ≡ length d.node_to_ip
    pub ring : d.hash_ring ≡ rebuild d.node_to_ip default_virtual_nodes

  take_membership-IsCurrent :
      (live : Endpoints) (d : Dist S C) → IsCurrent d → IsCurrent (take_membership S C live d).1
  unfolding rebuild_ring
  take_membership-IsCurrent live d h = elim (Bool-cases (is_empty live)) [
    | inl lone ↦ rw lone h
    | inr some_ ↦ elim (Bool-cases (same_nodes live d.node_to_ip)) [
      | inl same ↦ rw (some_, same) h
      | inr new ↦ rw (some_, new) (record { count = refl; ring = refl })
    ]
  ]

  membership_answer-IsCurrent :
      (d : Dist S C) (a : Option (List MemberRecord) × C.World)
      → IsCurrent d
      → IsCurrent (membership_answer S C d a).1
  membership_answer-IsCurrent d (none, w) h = record { count = h.count; ring = h.ring }
  membership_answer-IsCurrent d (some members, w) h =
      take_membership-IsCurrent (live_nodes members []) (record d { world = w })
        (record { count = h.count; ring = h.ring })

  -- A distributor whose ring and count are those of its map of nodes keeps them so when it fetches the
  -- membership from a server, whatever the server answers.
  pub fetch_membership_from_server-IsCurrent :
      (server_endpoint : Text) (d : Dist S C)
      → IsCurrent d
      → IsCurrent (fetch_membership_from_server S C server_endpoint d).1
  unfolding fetch_membership_from_server
  fetch_membership_from_server-IsCurrent server_endpoint d h =
      membership_answer-IsCurrent d (C.get_membership server_endpoint d.world) h

  -- The constructors leave the distributor so.
  pub construct-IsCurrent :
      (endpoints : List Text) (local_ip : Text) (kv : KvStore S.Mem) (w : C.World)
      → IsCurrent (construct S C endpoints local_ip kv w)
  unfolding construct
  construct-IsCurrent endpoints local_ip kv w = record { count = refl; ring = refl }
