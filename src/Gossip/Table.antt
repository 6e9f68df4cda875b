-- ===== src/Gossip/Table.antt =====
-- The member table of src/GossipMembership.cpp as a map: what a write lets a later lookup see.
use hpe_distributed_key_valu.Prelude.{
  ◌≡◌, refl, [], ◌∷◌, some, arith, if◌then◌else◌, ℤ, ◌==ℤ◌, ==ℤ_iff,
}
use hpe_distributed_key_valu.Gossip.State.{MemberEntry, MemberTable, find, put}

-- A lookup after a write.
pub find-put :
    (id j : ℤ) (e : MemberEntry) (table : MemberTable)
    → find j (put id e table) ≡ (if id ==ℤ j then some e else find j table)
unfolding find put
find-put id j e [] = refl
find-put id j e ((k, old) ∷ table) =
    ground (arith, find-put id j e table, ==ℤ_iff k id, ==ℤ_iff k j, ==ℤ_iff id j)
