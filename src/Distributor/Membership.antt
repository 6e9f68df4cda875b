-- ===== src/Distributor/Membership.antt =====
-- The constructors, `rebuildRing`, `fetchMembershipFromServer` and the queries on the nodes of
-- src/KVDistributor.cpp.
use hpe_distributed_key_valu.Prelude.{
  ℕ, suc, map, Bool, true, false, List, [], ◌∷◌, Option, none, some, if◌then◌else◌, length,
  is_empty, Text, text_eq, ℤ, pos, negsuc,
}
use hpe_distributed_key_valu.Ring.{rebuild}
use hpe_distributed_key_valu.Gossip.{MemberRecord}
use hpe_distributed_key_valu.Store.{Segment, KvStore}
use hpe_distributed_key_valu.Client.{IkvClient}
use hpe_distributed_key_valu.Distributor.State.{
  Endpoints, KvDistributor, live_nodes, same_nodes, default_virtual_nodes,
}

module _ (S : Segment) (C : IkvClient) where
  abbrev Dist : Type 0
  Dist = KvDistributor S.Mem C.World

  unfoldable pub rebuild_ring : Endpoints → ℤ → Dist → Dist
  rebuild_ring node_endpoints virtual_nodes d = record d {
    node_to_ip = node_endpoints;
    count_of_node = length node_endpoints;
    hash_ring = rebuild node_endpoints virtual_nodes;
  }

  -- What `fetchMembershipFromServer` does with the members that it was sent.
  abbrev pub take_membership : Endpoints → Dist → Bool × Dist
  take_membership live d =
      if is_empty live
      then (false, d)
      else if same_nodes live d.node_to_ip
      then (true, d)
      else (true, rebuild_ring live default_virtual_nodes d)

  abbrev pub membership_answer : Dist → Option (List MemberRecord) × C.World → Bool × Dist
  membership_answer d (none, w) = (false, record d { world = w })
  membership_answer d (some members, w) =
      take_membership (live_nodes members []) (record d { world = w })

  unfoldable pub fetch_membership_from_server : Text → Dist → Bool × Dist
  fetch_membership_from_server server_endpoint d =
      membership_answer d (C.get_membership server_endpoint d.world)

  unfoldable pub get_node_count : Dist → ℕ
  get_node_count d = d.count_of_node

  -- An empty text where there is no node.
  unfoldable pub get_first_endpoint : Dist → Text
  get_first_endpoint d = elim d.node_to_ip [ [] ↦ [] | (_, ep) ∷ nodes ↦ ep ]

  unfoldable pub get_all_endpoints : Dist → List Text
  get_all_endpoints d = map (λ p. p.1) d.node_to_ip

  -- The constructors: `endpoints` are those of the config in the order of their ids, in which the
  -- map is taken to be iterated; `local_ip` is the config's. No node is local where no endpoint is that of this process.
  abbrev number_nodes : ℕ → List Text → Endpoints
  number_nodes i [] = []
  number_nodes i (ep ∷ eps) = (pos i, ep) ∷ number_nodes (suc i) eps

  abbrev local_id : Text → Endpoints → ℤ
  local_id local_ip [] = negsuc 0
  local_id local_ip ((id, ep) ∷ nodes) = if text_eq ep local_ip then id else local_id local_ip nodes

  unfoldable pub construct : List Text → Text → KvStore S.Mem → C.World → Dist
  construct endpoints local_ip kv w =
      let nodes = number_nodes 0 endpoints in
      record {
        count_of_node = length nodes;
        node_to_ip = nodes;
        local_node_id = local_id local_ip nodes;
        hash_ring = rebuild nodes default_virtual_nodes;
        kv = kv;
        world = w;
      }
