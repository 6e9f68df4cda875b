-- ===== src/Tests/Servers.antt =====
-- Instances of the theorems on the membership of src/GossipMembership.cpp inside a server of
-- src/main_server.cpp: its generation file, its callback and its ring.
use hpe_distributed_key_valu.Prelude.{
  ◌+◌, ◌≡◌, ◌≢◌, refl, true, [], ◌∷◌, none, some, arith, codes, ℤ, pos, All, ==ℤ_iff,
}
use hpe_distributed_key_valu.Gossip.{
  GossipMembership, alive, dead, severity, find, put, records, entry, merge_view, take_all, take_in,
  notify_change, current_alive, set_insert, live_endpoints, construct, set_change_callback, start,
  contact_seeds,
}
use hpe_distributed_key_valu.Gossip.Versions.{Version, version, known}
use hpe_distributed_key_valu.Gossip.Rumours.{Reached, Reached-itself}
use hpe_distributed_key_valu.Gossip.Self.{own}
use hpe_distributed_key_valu.ServerMain.Departure.{departing, departed_leaves_ring}
use hpe_distributed_key_valu.Gossip.Generations.{Files, load_generation, create, restart_is_taken}
use hpe_distributed_key_valu.Gossip.Alive.{alive_set, IsTold, IsDelivered}
use hpe_distributed_key_valu.ServerMain.Rings.{server_ring, servers_agree}
use hpe_distributed_key_valu.Tests.Members.{home, peer, node, fixed_clock, echo}

-- A directory without files, in which every file can be written.
abbrev pub no_files : Files
no_files = record { contents = λ path. none; writable = λ path. true }

peer_dead :
    known
      (pos 1)
      (record node {
        member_table = (pos 0, entry home 50_000) ∷ (pos 1, entry (peer dead 9 1) 41_000) ∷ [];
      }).member_table
    ≡ some (record { generation = 1; heartbeat = 9; severity = 2 })
unfolding find
peer_dead = refl

abbrev mourning : GossipMembership
mourning = record node {
  member_table = (pos 0, entry home 50_000) ∷ (pos 1, entry (peer dead 9 1) 41_000) ∷ [];
}

no_generation : load_generation (pos 1) no_files ≡ 0
unfolding load_generation
no_generation = refl

first_generation :
    (create (pos 1) (codes "10.0.0.2:5000") [] (pos 3_000) (pos 10_000) no_files 0).0.generation ≡ 1
unfolding create construct load_generation
first_generation = refl

restart_is_taken_example :
    known
      (pos 1)
      (merge_view fixed_clock
        (records
          (create
            (pos 1)
            (codes "10.0.0.2:5000")
            []
            (pos 3_000)
            (pos 10_000)
            (create (pos 1) (codes "10.0.0.2:5000") [] (pos 3_000) (pos 10_000) no_files 0).1
            40).0.member_table)
        mourning).0.member_table
    ≡ some (record {
      generation =
          (create
            (pos 1)
            (codes "10.0.0.2:5000")
            []
            (pos 3_000)
            (pos 10_000)
            no_files
            0).0.generation
          + 1;
      heartbeat = 0;
      severity = severity alive;
    })
restart_is_taken_example =
    restart_is_taken (pos 1) (codes "10.0.0.2:5000") [] (pos 3_000) (pos 10_000) no_files 0 40
      mourning (record { generation = 1; heartbeat = 9; severity = 2 }) fixed_clock refl
      (omega (arith, no_generation)) (λ e. cc) peer_dead (omega (arith, first_generation))

-- A server that starts alone, and hears of a second node.
abbrev fresh : GossipMembership
fresh =
    set_change_callback true
      (construct (pos 0) (codes "10.0.0.1:5000") [] (pos 3_000) (pos 10_000) 1 0)

abbrev launched : GossipMembership
launched = start echo (λ i j. 0) fresh

fresh-IsDelivered : IsDelivered fresh
unfolding set_change_callback construct
fresh-IsDelivered = refl

has_callback : fresh.has_callback ≡ true
unfolding set_change_callback
has_callback = refl

abbrev informed : GossipMembership
informed = (merge_view fixed_clock (peer alive 4 1 ∷ []) launched).0

more_alive : alive_set informed ≢ alive_set launched
unfolding merge_view take_all take_in find put notify_change current_alive set_insert
    set_change_callback construct start contact_seeds live_endpoints
more_alive e = cc

-- The two nodes, which know each other, with the tables in the two orders.
abbrev first_server : GossipMembership
first_server = record node {
  last_alive_set = pos 0 ∷ pos 1 ∷ [];
  delivered = ((pos 0, codes "10.0.0.1:5000") ∷ (pos 1, codes "10.0.0.2:5000") ∷ []) ∷ [];
}

abbrev second_server : GossipMembership
second_server = record first_server {
  self_node_id = pos 1;
  member_table = (pos 1, entry (peer alive 4 1) 41_000) ∷ (pos 0, entry home 50_000) ∷ [];
}

same_knowledge : (id : ℤ) → known id first_server.member_table ≡ known id second_server.member_table
unfolding find
same_knowledge id = ground (arith, ==ℤ_iff (pos 0) id, ==ℤ_iff (pos 1) id)

first_server-IsTold : IsTold first_server
unfolding current_alive set_insert
first_server-IsTold = refl

second_server-IsTold : IsTold second_server
unfolding current_alive set_insert
second_server-IsTold = refl

servers_agree_example : server_ring first_server ≡ server_ring second_server
unfolding find
servers_agree_example =
    servers_agree first_server second_server refl refl first_server-IsTold second_server-IsTold
      (refl, (refl, (refl, (refl, tt)))) (refl, (refl, (refl, (refl, tt)))) same_knowledge

-- The first of these servers stops.
home_known :
    (w : Version)
    → known (pos 0) second_server.member_table ≡ some w
    → Reached (some (version home)) w
unfolding find
home_known w h = Reached-itself (some (version home)) w h

first_own : own first_server ≡ some (entry home 50_000)
unfolding find
first_own = refl

departed_leaves_ring_example :
    All
      (λ t. t.node_id ≢ pos 0)
      (server_ring
        (merge_view fixed_clock (records (departing first_server).member_table) second_server).0)
unfolding find
departed_leaves_ring_example =
    departed_leaves_ring first_server second_server (entry home 50_000) fixed_clock first_own
      (refl, (refl, (refl, (refl, tt)))) (omega arith) (λ e. cc) home_known
      (refl, (refl, (refl, (refl, tt)))) refl refl second_server-IsTold
