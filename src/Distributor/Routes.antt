-- ===== src/Distributor/Routes.antt =====
-- `readFromNode`, `writeToNode` and `deleteOnNode` of src/KVDistributor.cpp: where a request goes.
use hpe_distributed_key_valu.Prelude.{
  ◌≡◌, ap, true, false, Option, none, some, Text, ℤ, ◌==ℤ◌, Bool-cases, inl, inr, refl, not,
}
use hpe_distributed_key_valu.Store
use hpe_distributed_key_valu.Store.{Segment}
use hpe_distributed_key_valu.Client.{IkvClient}
use hpe_distributed_key_valu.Distributor.State.{
  KvDistributor, RemoteOp, is_miss_or_error, endpoint_of, is_negative,
}
use hpe_distributed_key_valu.Distributor.Requests.{
  endpoint_or_new, get_node_to_ip, answered, read_from_node, write_to_node, delete_on_node,
  write_local, write_remote,
}

module _ (S : Segment) (C : IkvClient) where
  abbrev pub Dist : Type 0
  Dist = KvDistributor S.Mem C.World

  -- The node is another one, and the map has its endpoint.
  pub record IsRemote (d : Dist) (node : ℤ) (ep : Text) : Type 0 where
    pub valid : is_negative node ≡ false
    pub known : endpoint_of node d.node_to_ip ≡ some ep
    pub elsewhere : (node ==ℤ d.local_node_id) ≡ false

  pub get_node_to_ip-known :
      (node : ℤ) (ep : Text) (d : Dist)
      → endpoint_of node d.node_to_ip ≡ some ep
      → get_node_to_ip S C node d ≡ (ep, d)
  get_node_to_ip-known node ep d known = ap (endpoint_or_new S C node d) known

  pub read-IsRemote :
      (node key : ℤ) (ep value : Text) (d : Dist)
      → IsRemote d node ep
      → read_from_node S C node key value d ≡ answered S C value d (C.fetch key ep d.world)
  unfolding read_from_node
  read-IsRemote node key ep value d h =
      rw (h.valid, h.elsewhere)
        (ap (λ p. answered S C value p.1 (C.fetch key p.0 p.1.world))
          (get_node_to_ip-known node ep d h.known))

  pub write-IsRemote :
      (node key : ℤ) (ep value : Text) (op : RemoteOp) (d : Dist)
      → IsRemote d node ep
      → write_to_node S C node key value op d
        ≡ record d { world = write_remote S C op key value ep d.world }
  unfolding write_to_node
  write-IsRemote node key ep value op d h =
      rw (h.valid, h.elsewhere)
        (ap (λ p. record p.1 { world = write_remote S C op key value p.0 p.1.world })
          (get_node_to_ip-known node ep d h.known))

  pub delete-IsRemote :
      (node key : ℤ) (ep : Text) (d : Dist)
      → IsRemote d node ep
      → delete_on_node S C node key d ≡ record d { world = C.delete_key key ep d.world }
  unfolding delete_on_node
  delete-IsRemote node key ep d h =
      rw (h.valid, h.elsewhere)
        (ap (λ p. record p.1 { world = C.delete_key key p.0 p.1.world })
          (get_node_to_ip-known node ep d h.known))

  -- What a request leaves as it was when the store is not of its node.
  pub record IsFrame (d d' : Dist) : Type 0 where
    pub ring : d'.hash_ring ≡ d.hash_ring
    pub here : d'.local_node_id ≡ d.local_node_id
    pub store : d'.kv ≡ d.kv

  pub get_node_to_ip-IsFrame : (node : ℤ) (d : Dist) → IsFrame d (get_node_to_ip S C node d).1
  get_node_to_ip-IsFrame node d = by_endpoint (endpoint_of node d.node_to_ip)
    where
      by_endpoint : (o : Option Text) → IsFrame d (endpoint_or_new S C node d o).1
      by_endpoint none = record { ring = refl; here = refl; store = refl }
      by_endpoint (some ep) = record { ring = refl; here = refl; store = refl }

  pub write-IsFrame :
      (node key : ℤ) (value : Text) (op : RemoteOp) (d : Dist)
      → (node ==ℤ d.local_node_id) ≡ false
      → IsFrame d (write_to_node S C node key value op d)
  unfolding write_to_node
  write-IsFrame node key value op d there =
      let f = get_node_to_ip-IsFrame node d in
      elim (Bool-cases (is_negative node)) [
        | inl neg ↦ rw neg (record { ring = refl; here = refl; store = refl })
        | inr ok ↦ rw (ok, there) (record { ring = f.ring; here = f.here; store = f.store })
      ]

  -- The node is this process.
  pub record IsHere (d : Dist) (node : ℤ) : Type 0 where
    pub valid : is_negative node ≡ false
    pub same : (node ==ℤ d.local_node_id) ≡ true

  pub read-IsHere :
      (node key : ℤ) (value : Text) (d : Dist)
      → IsHere d node
      → let v = Store.find_value S key d.kv in
        read_from_node S C node key value d
        ≡ (not (is_miss_or_error v), v, (get_node_to_ip S C node d).1)
  unfolding read_from_node
  read-IsHere node key value d h = rw (h.valid, h.same, (get_node_to_ip-IsFrame node d).store) refl

  pub write-IsHere :
      (node key : ℤ) (value : Text) (op : RemoteOp) (d : Dist)
      → IsHere d node
      → write_to_node S C node key value op d
        ≡ record (get_node_to_ip S C node d).1 { kv = write_local S C op key value d.kv }
  unfolding write_to_node
  write-IsHere node key value op d h =
      rw (h.valid, h.same, (get_node_to_ip-IsFrame node d).store) refl

  pub delete-IsHere :
      (node key : ℤ) (d : Dist)
      → IsHere d node
      → delete_on_node S C node key d
        ≡ record (get_node_to_ip S C node d).1 { kv = (Store.delete S key d.kv).0 }
  unfolding delete_on_node
  delete-IsHere node key d h = rw (h.valid, h.same, (get_node_to_ip-IsFrame node d).store) refl
