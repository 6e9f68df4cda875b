-- ===== src/Tests/Members.antt =====
-- Instances of the theorems on src/GossipMembership.cpp.
use hpe_distributed_key_valu.Gossip.Endpoints.{info, exchange_shares, merge_view_commutes}
use hpe_distributed_key_valu.Prelude.{
  ℕ, ◌+◌, ◌≡◌, refl, true, List, [], ◌∷◌, some, arith, codes, pos, ℤ, Text, ◌==ℤ◌, if◌then◌else◌,
}
use hpe_distributed_key_valu.Gossip.{
  NodeStatus, alive, suspect, MemberRecord, MemberEntry, GossipMembership, Exchange, find, records,
  entry, merge_view, take_response, gossip_tick, detect_failures,
}
use hpe_distributed_key_valu.Gossip.Versions.{known, told, merge_view-told}
use hpe_distributed_key_valu.Gossip.Failures.{Verdict, detect_failures_lem}
use hpe_distributed_key_valu.Gossip.Shape.{IsTable, gossip_tick-IsTable}
use hpe_distributed_key_valu.Gossip.Self.{own}

abbrev pub home : MemberRecord
home = record {
  node_id = pos 0;
  endpoint = codes "10.0.0.1:5000";
  status = alive;
  heartbeat_counter = 7;
  generation = 2;
}

abbrev pub peer : NodeStatus → ℕ → ℕ → MemberRecord
peer status heartbeat generation = record {
  node_id = pos 1;
  endpoint = codes "10.0.0.2:5000";
  status = status;
  heartbeat_counter = heartbeat;
  generation = generation;
}

-- A node that runs and knows one peer.
abbrev pub node : GossipMembership
node = record {
  self_node_id = pos 0;
  self_endpoint = codes "10.0.0.1:5000";
  seed_nodes = [];
  suspect_threshold_ms = pos 3_000;
  dead_threshold_ms = pos 10_000;
  member_table = (pos 0, entry home 50_000) ∷ (pos 1, entry (peer alive 4 1) 41_000) ∷ [];
  running = true;
  has_callback = true;
  last_alive_set = [];
  generation = 2;
  delivered = [];
}

abbrev pub fixed_clock : ℕ → ℕ
fixed_clock i = 50_000 + i

abbrev later_clock : ℕ → ℕ
later_clock i = 60_000 + i

abbrev pub echo : Exchange
echo endpoint view = some view

abbrev first_view : List MemberRecord
first_view = peer suspect 4 1 ∷ home ∷ []

abbrev second_view : List MemberRecord
second_view = peer alive 0 2 ∷ []

merge_view-told_example :
    known (pos 1) (merge_view fixed_clock first_view node).0.member_table
    ≡ told (pos 0) (pos 1) first_view (known (pos 1) node.member_table)
merge_view-told_example = merge_view-told fixed_clock first_view node (pos 1)

own-entry : own node ≡ some (entry home 50_000)
unfolding find
own-entry = refl

peer-entry : find (pos 1) node.member_table ≡ some (entry (peer alive 4 1) 41_000)
unfolding find
peer-entry = refl

detect_failures_lem_example :
    (e : MemberEntry) × (find (pos 1) (detect_failures 55_000 node).member_table ≡ some e)
    × Verdict 3_000 10_000 14_000 (entry (peer alive 4 1) 41_000) e
detect_failures_lem_example =
    detect_failures_lem 3_000 10_000 55_000 node (pos 1) (entry (peer alive 4 1) 41_000) refl refl
      (omega arith) peer-entry (λ e. cc) (omega arith) (omega arith)

node-IsTable : IsTable node.member_table
unfolding find
node-IsTable = (refl, (refl, (refl, (refl, tt))))

gossip_tick-IsTable_example : IsTable (gossip_tick echo (λ n. 0) later_clock node).member_table
gossip_tick-IsTable_example = gossip_tick-IsTable echo (λ n. 0) later_clock node node-IsTable

-- A third node, which has heard of a restart of node 1.
abbrev other_node : GossipMembership
other_node = record node {
  self_node_id = pos 2;
  self_endpoint = codes "10.0.0.3:5000";
  member_table = (pos 1, entry (peer alive 0 2) 41_000) ∷ [];
}

other_node-IsTable : IsTable other_node.member_table
unfolding find
other_node-IsTable = (refl, (refl, tt))

-- Each node keeps its endpoint when it restarts.
abbrev address_of : ℤ → ℕ → Text
address_of id generation = if id ==ℤ pos 0 then codes "10.0.0.1:5000" else codes "10.0.0.2:5000"

exchange_shares_example :
    info
      (pos 1)
      (take_response fixed_clock
        (some (merge_view later_clock (records node.member_table) other_node).1)
        node).member_table
    ≡ info (pos 1) (merge_view later_clock (records node.member_table) other_node).0.member_table
exchange_shares_example =
    exchange_shares address_of fixed_clock later_clock node other_node (pos 1) node-IsTable
      other_node-IsTable (refl, (refl, tt)) (refl, tt) (λ e. cc) (λ e. cc)

merge_view_commutes_example :
    info
      (pos 1)
      (merge_view later_clock second_view (merge_view fixed_clock first_view node).0).0.member_table
    ≡ info
        (pos 1)
        (merge_view later_clock first_view
          (merge_view fixed_clock second_view node).0).0.member_table
merge_view_commutes_example =
    merge_view_commutes address_of fixed_clock later_clock fixed_clock later_clock first_view
      second_view node (pos 1) node-IsTable (refl, (refl, tt)) (refl, (refl, tt)) (refl, tt)
