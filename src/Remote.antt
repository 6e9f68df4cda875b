-- ===== src/Remote.antt =====
-- src/KVClient.cpp and include/KVClient.hpp: the client that calls the servers of the other nodes.
-- With and without a timeout it makes the same call, and the timeout is the network's. A response
-- of another type than the one awaited does not deserialise, which is an exception. `insert`,
-- `update`, `deleteKey` and `getMembership` catch theirs, and `fetch` passes it on.
use hpe_distributed_key_valu.Prelude.{List, [], ◌++◌, Option, none, some, Text, codes, ℤ}
use hpe_distributed_key_valu.Gossip.{MemberRecord}
use hpe_distributed_key_valu.Server.{
  Request, Response, kv_fetch, kv_insert, kv_update, kv_delete, get_membership, text, view,
}
use hpe_distributed_key_valu.Network.{Network}
use hpe_distributed_key_valu.Client.{IkvClient}

-- `protocol + "://" + server_endpoint`
abbrev pub full_ep : Text → Text → Text
full_ep protocol server_endpoint = protocol ++ codes "://" ++ server_endpoint

abbrev pub as_text : Option Response → Option Text
as_text (some (text t)) = some t
as_text _ = none

abbrev pub as_view : Option Response → List MemberRecord
as_view (some (view members)) = members
as_view _ = []

module _ (N : Network) (protocol : Text) where
  abbrev pub fetch : ℤ → Text → N.World → Option Text × N.World
  fetch key ep w = let (r, w') = N.call (full_ep protocol ep) (kv_fetch key) w in (as_text r, w')

  abbrev pub send : Request → Text → N.World → N.World
  send q ep w = (N.call (full_ep protocol ep) q w).1

  abbrev pub membership_of : Text → N.World → Option (List MemberRecord) × N.World
  membership_of ep w =
      let (r, w') = N.call (full_ep protocol ep) get_membership w in (some (as_view r), w')

  abbrev pub kv_client : IkvClient
  kv_client = record {
    World = N.World;
    fetch = fetch;
    insert = λ key value. send (kv_insert key value);
    update = λ key value. send (kv_update key value);
    delete_key = λ key. send (kv_delete key);
    get_membership = membership_of;
  }
