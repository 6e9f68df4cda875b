-- ===== src/Gossip/Self.antt =====
-- src/GossipMembership.cpp: what a node's table says of the node itself.
use hpe_distributed_key_valu.Prelude.{
  ℕ, suc, ◌≡◌, refl, ap, ◌∙◌, Bool, true, false, ◌||◌, List, [], ◌∷◌, Option, none, some, arith,
  is_empty, ℤ, ◌==ℤ◌, ==ℤ_refl, Bool-cases, inl, inr,
}
use hpe_distributed_key_valu.Gossip.State.{
  MemberRecord, MemberEntry, MemberTable, GossipMembership, find, put,
}
use hpe_distributed_key_valu.Gossip.Merge.{
  Rule, Exchange, proposal, take_in, take_all, write_back, settle, merge_view, round_known,
  take_response, do_gossip_round, pick_random_peer, merge_known,
}
use hpe_distributed_key_valu.Gossip.Rounds.{
  detect_failures, at_self, beat, depart, gossip_tick, stop,
}
use hpe_distributed_key_valu.Gossip.Table.{find-put}
use hpe_distributed_key_valu.Gossip.Versions.{settle-table}
use hpe_distributed_key_valu.Gossip.Convergence.{self-settle}
use hpe_distributed_key_valu.Gossip.Failures.{detect_failures-find}

-- The node's own entry.
abbrev pub own : GossipMembership → Option MemberEntry
own g = find g.self_node_id g.member_table

write_back-ne :
    (k self : ℤ) (o : Option MemberEntry) (table : MemberTable)
    → (k ==ℤ self) ≡ false
    → find self (write_back k o table).0 ≡ find self table
write_back-ne k self none table h = refl
write_back-ne k self (some e) table h = rw (find-put, h)

module _ (rule : Rule) (self : ℤ) where
  take_in-own :
      (now : ℕ) (r : MemberRecord) (table : MemberTable)
      → find self (take_in rule self now r table).0 ≡ find self table
  unfolding take_in
  take_in-own now r table =
      ground
        (arith, write_back-ne r.node_id self (proposal rule now r (find r.node_id table)) table)

  take_all-own :
      (clock : ℕ → ℕ) (rs : List MemberRecord) (table : MemberTable) (changed : Bool)
      → find self (take_all rule self clock rs table changed).0 ≡ find self table
  unfolding take_all
  take_all-own clock [] table changed = refl
  take_all-own clock (r ∷ rs) table changed =
      take_all-own (λ i. clock (suc i)) rs (take_in rule self (clock 0) r table).0
        (changed || (take_in rule self (clock 0) r table).1)
      ∙ take_in-own (clock 0) r table

settle-own :
    (g : GossipMembership) (m : MemberTable × Bool)
    → find g.self_node_id m.0 ≡ own g
    → own (settle g m) ≡ own g
settle-own g m h = rw (self-settle g m, settle-table g m) h

-- No view that comes in changes what the node says of itself.
pub merge_view-own :
    (clock : ℕ → ℕ) (incoming : List MemberRecord) (g : GossipMembership)
    → own (merge_view clock incoming g).0 ≡ own g
unfolding merge_view
merge_view-own clock incoming g =
    settle-own g _ (take_all-own merge_known g.self_node_id clock incoming g.member_table false)

pub take_response-own :
    (clock : ℕ → ℕ) (response : Option (List MemberRecord)) (g : GossipMembership)
    → own (take_response clock response g) ≡ own g
take_response-own clock none g = refl
take_response-own clock (some rs) g =
    settle-own g _ (take_all-own round_known g.self_node_id clock rs g.member_table false)

do_gossip_round-own :
    (exchange : Exchange) (random_int clock : ℕ → ℕ) (g : GossipMembership)
    → own (do_gossip_round exchange random_int clock g) ≡ own g
unfolding do_gossip_round
do_gossip_round-own exchange random_int clock g =
    elim (Bool-cases (is_empty (pick_random_peer random_int g))) [
      | inl lone ↦ rw lone
      | inr peer ↦ rw peer (take_response-own clock _ g)
    ]

pub detect_failures-own : (now : ℕ) (g : GossipMembership) → own (detect_failures now g) ≡ own g
unfolding detect_failures
detect_failures-own now g =
    rw self-settle (detect_failures-find now g g.self_node_id ∙ rw (==ℤ_refl g.self_node_id))

pub own-at_self :
    (change : MemberEntry → MemberEntry) (g : GossipMembership) (e : MemberEntry)
    → own g ≡ some e
    → own (at_self change g) ≡ some (change e)
own-at_self change g e h =
    ap (λ (o : Option MemberEntry). own (changed o)) h
    ∙ rw (find-put g.self_node_id g.self_node_id (change e) g.member_table, ==ℤ_refl g.self_node_id)
  where
    changed : Option MemberEntry → GossipMembership
    changed none = g
    changed (some e') = record g { member_table = put g.self_node_id (change e') g.member_table }

-- If the node has an entry of its own, a round of the loop of a running node, whatever a peer answers, raises the node's own heartbeat by
-- one, with the time, and changes nothing else in its own record.
pub gossip_tick-own :
    (exchange : Exchange) (random_int clock : ℕ → ℕ) (g : GossipMembership) (e : MemberEntry)
    → own g ≡ some e
    → g.running ≡ true
    → own (gossip_tick exchange random_int clock g) ≡ some (beat (clock 0) e)
unfolding gossip_tick
gossip_tick-own exchange random_int clock g e h runs = simp runs (
    do_gossip_round-own exchange random_int (λ i. clock (suc (suc i))) _
    ∙ detect_failures-own (clock 1) _
    ∙ own-at_self (beat (clock 0)) g e h)

-- A node with an entry of its own that leaves marks itself dead with a heartbeat one higher, whatever its last exchange
-- brings.
pub stop-own :
    (exchange : Exchange) (random_int clock : ℕ → ℕ) (g : GossipMembership) (e : MemberEntry)
    → own g ≡ some e
    → own (stop exchange random_int clock g) ≡ some (depart e)
unfolding stop
stop-own exchange random_int clock g e h =
    do_gossip_round-own exchange random_int clock _
    ∙ own-at_self depart (record g { running = false }) e h
