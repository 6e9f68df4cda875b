-- ===== src/Client.antt =====
-- include/IKVClient.hpp: the interface through which the distributor reaches the other nodes.
-- `World` is whatever lies behind it. A call that answers gives the world that it leaves; `none` is
-- an exception that the call throws.
use hpe_distributed_key_valu.Prelude.{List, Option, Text, ℤ}
use hpe_distributed_key_valu.Gossip.{MemberRecord}

pub record IkvClient : Type 1 where
  pub World : Type 0
  pub fetch : ℤ → Text → World → Option Text × World
  pub insert : ℤ → Text → Text → World → World
  pub update : ℤ → Text → Text → World → World
  pub delete_key : ℤ → Text → World → World
  pub get_membership : Text → World → Option (List MemberRecord) × World
