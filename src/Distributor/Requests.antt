-- ===== src/Distributor/Requests.antt =====
-- `readFromNode`, `writeToNode`, `deleteOnNode`, `get`, `insert`, `update` and `deleteKey` of
-- src/KVDistributor.cpp.
use hpe_distributed_key_valu.Prelude.{
  Bool, true, false, not, [], Option, none, some, if◌then◌else◌, Text, codes, ℤ, ◌==ℤ◌,
}
use hpe_distributed_key_valu.Store
use hpe_distributed_key_valu.Store.{Segment, KvStore}
use hpe_distributed_key_valu.Client.{IkvClient}
use hpe_distributed_key_valu.Distributor.State.{
  is_miss_or_error, endpoint_of, set_endpoint, KvDistributor, RemoteOp, primary_of, buddy_of,
  is_negative, insert_op, update_op,
}

module _ (S : Segment) (C : IkvClient) where
  abbrev Dist : Type 0
  Dist = KvDistributor S.Mem C.World

  abbrev pub endpoint_or_new : ℤ → Dist → Option Text → Text × Dist
  endpoint_or_new id d (some ep) = (ep, d)
  endpoint_or_new id d none = ([], record d { node_to_ip = set_endpoint id [] d.node_to_ip })

  -- `node_to_ip[node_id]`, and the map that this leaves.
  abbrev pub get_node_to_ip : ℤ → Dist → Text × Dist
  get_node_to_ip id d = endpoint_or_new id d (endpoint_of id d.node_to_ip)

  -- Whether the read hit, the value that it left in the variable of the caller, and the new state.
  abbrev pub answered : Text → Dist → Option Text × C.World → Bool × Text × Dist
  answered value d (none, w) = (false, value, record d { world = w })
  answered value d (some v, w) = (not (is_miss_or_error v), v, record d { world = w })

  abbrev pub read_local : ℤ → Dist → Bool × Text × Dist
  read_local key d = let v = Store.find_value S key d.kv in (not (is_miss_or_error v), v, d)

  unfoldable pub read_from_node : ℤ → ℤ → Text → Dist → Bool × Text × Dist
  read_from_node node_id key value d =
      if is_negative node_id
      then (false, value, d)
      else let (ep, d') = get_node_to_ip node_id d in
        if node_id ==ℤ d.local_node_id
        then read_local key d'
        else answered value d' (C.fetch key ep d'.world)

  abbrev pub write_local : RemoteOp → ℤ → Text → KvStore S.Mem → KvStore S.Mem
  write_local insert_op key value kv = (Store.insert S key value kv).0
  write_local update_op key value kv = (Store.update S key value kv).0

  abbrev pub write_remote : RemoteOp → ℤ → Text → Text → C.World → C.World
  write_remote insert_op key value ep w = C.insert key value ep w
  write_remote update_op key value ep w = C.update key value ep w

  unfoldable pub write_to_node : ℤ → ℤ → Text → RemoteOp → Dist → Dist
  write_to_node node_id key value op d =
      if is_negative node_id
      then d
      else let (ep, d') = get_node_to_ip node_id d in
        if node_id ==ℤ d.local_node_id
        then record d' { kv = write_local op key value d'.kv }
        else record d' { world = write_remote op key value ep d'.world }

  unfoldable pub delete_on_node : ℤ → ℤ → Dist → Dist
  delete_on_node node_id key d =
      if is_negative node_id
      then d
      else let (ep, d') = get_node_to_ip node_id d in
        if node_id ==ℤ d.local_node_id
        then record d' { kv = (Store.delete S key d'.kv).0 }
        else record d' { world = C.delete_key key ep d'.world }

  -- What follows the read of the buddy: a hit is written to the primary.
  abbrev pub lazy_migrate : ℤ → ℤ → Bool × Text × Dist → Text × Dist
  lazy_migrate primary key (true, value, d) = (value, write_to_node primary key value insert_op d)
  lazy_migrate primary key (false, value, d) = (codes "RPC Failed", d)

  abbrev pub after_primary : ℤ → ℤ → ℤ → Bool × Text × Dist → Text × Dist
  after_primary primary buddy key (true, value, d) = (value, d)
  after_primary primary buddy key (false, value, d) =
      if not (buddy ==ℤ primary)
      then lazy_migrate primary key (read_from_node buddy key value d)
      else (codes "RPC Failed", d)

  unfoldable pub get : ℤ → Dist → Text × Dist
  get key d =
      let primary = primary_of d.hash_ring key in
      let buddy = buddy_of d.hash_ring key in
      after_primary primary buddy key (read_from_node primary key [] d)

  -- A request to the primary, then to the buddy if that is another node.
  abbrev pub to_both : (ℤ → Dist → Dist) → ℤ → Dist → Dist
  to_both request key d =
      let primary = primary_of d.hash_ring key in
      let buddy = buddy_of d.hash_ring key in
      let d' = request primary d in if not (buddy ==ℤ primary) then request buddy d' else d'

  unfoldable pub insert : ℤ → Text → Dist → Dist
  insert key value = to_both (λ node. write_to_node node key value insert_op) key

  unfoldable pub update : ℤ → Text → Dist → Dist
  update key value = to_both (λ node. write_to_node node key value update_op) key

  unfoldable pub delete_key : ℤ → Dist → Dist
  delete_key key = to_both (λ node. delete_on_node node key) key
