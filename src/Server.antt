-- ===== src/Server.antt =====
-- src/KVServer.cpp and include/KVServer.hpp: the handlers of a node.
-- A handler gives the state that it leaves and what it responds. The operations of the store catch
-- their exceptions, so the handlers' `catch` blocks, which respond 0 or nothing, are never entered.
-- Timers and console output are left out.
use hpe_distributed_key_valu.Prelude.{ℕ, List, [], Option, none, some, Text, ℤ}
use hpe_distributed_key_valu.Gossip.{MemberRecord, GossipMembership, merge_view, get_member_view}
use hpe_distributed_key_valu.Store
use hpe_distributed_key_valu.Store.{Segment, KvStore}

-- `membership` is none where the pointer is null.
pub record KvServer (M : Type 0) : Type 0 where
  pub kv : KvStore M
  pub membership : Option GossipMembership

-- The procedures that the constructor defines, with their arguments.
pub data Request : Type 0 where
  kv_fetch : ℤ → Request
  kv_insert : ℤ → Text → Request
  kv_update : ℤ → Text → Request
  kv_delete : ℤ → Request
  gossip_exchange : List MemberRecord → Request
  get_membership : Request

pub data Response : Type 0 where
  text : Text → Response
  code : ℕ → Response
  view : List MemberRecord → Response

-- `mergeView` on the membership, if there is one.
abbrev pub exchange :
    {M : Type 0}
    → (ℕ → ℕ)
    → List MemberRecord
    → KvServer M
    → Option GossipMembership
    → KvServer M × Response
exchange clock incoming s none = (s, view [])
exchange clock incoming s (some g) =
    let (g', response) = merge_view clock incoming g in
    (record s { membership = some g' }, view response)

abbrev pub membership_view : Option GossipMembership → List MemberRecord
membership_view none = []
membership_view (some g) = get_member_view g

-- `clock` is what `mergeView` reads.
unfoldable pub handle :
    (S : Segment) → (ℕ → ℕ) → Request → KvServer S.Mem → KvServer S.Mem × Response
handle S clock (kv_fetch key) s = (s, text (Store.find_value S key s.kv))
handle S clock (kv_insert key value) s =
    (record s { kv = (Store.insert S key value s.kv).0 }, code 1)
handle S clock (kv_update key value) s =
    (record s { kv = (Store.update S key value s.kv).0 }, code 1)
handle S clock (kv_delete key) s = (record s { kv = (Store.delete S key s.kv).0 }, code 1)
handle S clock (gossip_exchange incoming) s = exchange clock incoming s s.membership
handle S clock get_membership s = (s, view (membership_view s.membership))
